-- ===== src/Common/Maps.antt =====
-- Python's `dict` with text keys, in insertion order; writing a present key keeps its place.
use Prim.Native.Nat.{suc, ◌≤◌, ◌<◌}
use Prim.Native.String.{String}
use mathlib.Core.Path.{◌≡◌, refl}
use mathlib.Core.Bool.{Bool, true, false, ◌||◌}
use mathlib.Core.Option.{Option, none, some}
use mathlib.Core.List.{List, [], ◌∷◌}
use native.Mathlib.Omega.{arith}
use text.Mathlib.Text.{◌==◌}
use text.Mathlib.TextEquality.{eq_iff}
use text.Mathlib.TextPositions.{eq_refl}
use mathlib.Core.Logic.{◌≢◌, ◌⊎◌, inl, inr}
use cyrene_yield.Common.Tests.{if◌then◌else◌, Bool-cases}
use cyrene_yield.Common.Lists.{length, any}

abbrev pub Dict {ℓ} : Type ℓ → Type ℓ
Dict V = List (String × V)

module _ {ℓ} {V : Type ℓ} where
  -- d.get(k)
  unfoldable pub lookup : String → Dict V → Option V
  lookup k [] = none
  lookup k ((j, v) ∷ d) = if j == k then some v else lookup k d

  -- d[k] = v
  unfoldable pub insert : String → V → Dict V → Dict V
  insert k v [] = (k, v) ∷ []
  insert k v ((j, w) ∷ d) = if j == k then (k, v) ∷ d else (j, w) ∷ insert k v d

  -- k in d
  unfoldable pub has_key : String → Dict V → Bool
  has_key k [] = false
  has_key k ((j, v) ∷ d) = j == k || has_key k d

  -- del d[k], of a key that is there
  unfoldable pub delete : String → Dict V → Dict V
  delete k [] = []
  delete k ((j, v) ∷ d) = let rest = delete k d in if j == k then rest else (j, v) ∷ rest

  unfoldable pub keys : Dict V → List String
  keys [] = []
  keys ((j, v) ∷ d) = j ∷ keys d

  unfoldable pub values : Dict V → List V
  values [] = []
  values ((j, v) ∷ d) = v ∷ values d

  pub lookup-insert :
      (k j : String) (v : V) (d : Dict V)
      → lookup j (insert k v d) ≡ (if k == j then some v else lookup j d)
  unfolding lookup insert
  lookup-insert k j v [] = refl
  lookup-insert k j v ((i, w) ∷ d) =
      ground (arith, eq_iff k j, eq_iff i k, eq_iff i j, lookup-insert k j v d)

  pub lookup-insert_self : (k : String) (v : V) (d : Dict V) → lookup k (insert k v d) ≡ some v
  lookup-insert_self k v d = simp (lookup-insert, eq_refl)

  pub has_key-insert :
      (k j : String) (v : V) (d : Dict V) → has_key j (insert k v d) ≡ k == j || has_key j d
  unfolding has_key insert
  has_key-insert k j v [] = refl
  has_key-insert k j v ((i, w) ∷ d) =
      ground (arith, eq_iff k j, eq_iff i k, eq_iff i j, has_key-insert k j v d)

  pub has_key-delete :
      (k j : String) (d : Dict V) → has_key j (delete k d) ≡ (if k == j then false else has_key j d)
  unfolding has_key delete
  has_key-delete k j [] = ground arith
  has_key-delete k j ((i, w) ∷ d) =
      ground (arith, eq_iff k j, eq_iff i k, eq_iff i j, has_key-delete k j d)

  length-delete-le : (k : String) (d : Dict V) → length (delete k d) ≤ length d
  unfolding delete
  length-delete-le k [] = omega arith
  length-delete-le k ((i, w) ∷ d) = ground (arith, length-delete-le k d)

  pub length-delete-lt :
      (k : String) (d : Dict V) → has_key k d ≡ true → length (delete k d) < length d
  unfolding delete has_key
  length-delete-lt k [] h = cc
  length-delete-lt k ((i, w) ∷ d) h = ground (arith, length-delete-le k d, length-delete-lt k d)

  pub length-insert-le : (k : String) (v : V) (d : Dict V) → length (insert k v d) ≤ suc (length d)
  unfolding insert
  length-insert-le k v [] = omega arith
  length-insert-le k v ((i, w) ∷ d) = ground (arith, length-insert-le k v d)

  pub has_key_of_lookup :
      (k : String) (d : Dict V) (v : V) → lookup k d ≡ some v → has_key k d ≡ true
  unfolding lookup has_key
  has_key_of_lookup k [] v h = cc
  has_key_of_lookup k ((i, w) ∷ d) v h = ground (arith, has_key_of_lookup k d v)

  -- An entry found after a write is the one written or was there before.
  pub lookup-insert_cases :
      (k j : String) (v w : V) (d : Dict V)
      → lookup j (insert k v d) ≡ some w
      → ((k ≡ j) × (v ≡ w)) ⊎ ((k ≢ j) × (lookup j d ≡ some w))
  lookup-insert_cases k j v w d h = elim (Bool-cases (k == j)) [
    | inl t ↦ inl ((eq_iff k j).0 t, cc (rw (lookup-insert k j v d, t) at h))
    | inr f ↦ inr ((λ e. cc ((eq_iff k j).1 e)), rw (lookup-insert k j v d, f) at h)
  ]

  pub lookup-insert_ne :
      (k j : String) (v : V) (d : Dict V) → k ≢ j → lookup j (insert k v d) ≡ lookup j d
  lookup-insert_ne k j v d n = ground (arith, eq_iff k j, lookup-insert k j v d)

  -- What no value of a dictionary satisfies, none that it finds does.
  pub lookup-any-values :
      (p : V → Bool) (k : String) (v : V) (d : Dict V)
      → any p (values d) ≡ false
      → lookup k d ≡ some v
      → p v ≡ false
  unfolding lookup values
  lookup-any-values p k v [] n h = cc
  lookup-any-values p k v ((i, w) ∷ d) n h = ground (arith, lookup-any-values p k v d)

pub ruleset dict_laws = (lookup-insert, lookup-insert_self, eq_refl)
