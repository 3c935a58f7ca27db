-- ===== src/Values.antt =====
-- The values that metadata and provenance hold, as `json` reads and writes them, and `_normalized`
-- of training/core/src/cy_exec/training/lifecycle/contracts.py. A float is kept as its text.
pub mod Normal
pub mod Reading
use Prim.Native.String.{compare}
use Prim.Native.Nat.{Ordering}
use native.Mathlib.Decide.{ℕ_discrete}
use cyrene_yield.Common.{
  Option, none, some, List, [], ◌∷◌, String-discrete, ℕ, String, ◌≡◌, refl, Bool, false, same, ◌==◌,
  if◌then◌else◌,
}

mutual
  pub data Value : Type 0 where
    null : Value
    bool : Bool → Value
    int : ℕ → Value
    negative : ℕ → Value
    float : String → Value
    text : String → Value
    array : Items → Value
    object : Fields → Value

  pub data Items : Type 0 where
    nil : Items
    cons : Value → Items → Items

  pub data Fields : Type 0 where
    end : Fields
    field : String → Value → Fields → Fields

-- The place of a key among sorted keys.
unfoldable pub insert_sorted : String → Value → Fields → Fields
insert_sorted k v end = field k v end
insert_sorted k v (field j w fs) = elim (compare k j) [
  | Ordering.gt ↦ field j w (insert_sorted k v fs)
  | _ ↦ field k v (field j w fs)
]

unfoldable mutual
  pub normalized : Value → Value
  normalized null = null
  normalized (bool b) = bool b
  normalized (int n) = int n
  normalized (negative n) = negative n
  normalized (float s) = float s
  normalized (text s) = text s
  normalized (array xs) = array (normalized_items xs)
  normalized (object fs) = object (normalized_fields fs)

  pub normalized_items : Items → Items
  normalized_items nil = nil
  normalized_items (cons x xs) = cons (normalized x) (normalized_items xs)

  pub normalized_fields : Fields → Fields
  normalized_fields end = end
  normalized_fields (field k v fs) = insert_sorted k (normalized v) (normalized_fields fs)

-- document[key] = value
unfoldable pub set_field : String → Value → Fields → Fields
set_field k v end = field k v end
set_field k v (field j w fs) = if j == k then field j v fs else field j w (set_field k v fs)

unfoldable pub Value-discrete : Discrete Value
Value-discrete = hlevel (ℕ_discrete, String-discrete)

unfoldable pub Fields-discrete : Discrete Fields
Fields-discrete = hlevel (ℕ_discrete, String-discrete)

value_tests : same Fields-discrete (field "a" (int 1) end) (field "a" (int 2) end) ≡ false
unfolding same Fields-discrete ℕ_discrete String-discrete
value_tests = refl

-- document.get(key)
unfoldable pub get_field : String → Fields → Option Value
get_field k end = none
get_field k (field j w fs) = let rest = get_field k fs in if j == k then some w else rest

-- set(document)
unfoldable pub field_names : Fields → List String
field_names end = []
field_names (field j w fs) = j ∷ field_names fs
