-- ===== src/Values/Normal.antt =====
-- `_normalized` sorts the keys of every object; to do so twice is to do so once.
use Prim.Native.Nat.{Ordering, compare as compare_ℕ}
use Prim.Native.Char.{code}
use Prim.Native.String.compare
use Prim.Native.String.{compare, then}
use cyrene_yield.Common.{ℕ, String, ◌≡◌, ◌≢◌, refl, arith, ap, sym, ◌∙◌}
use cyrene_yield.Values.{
  Value, Items, Fields, null, bool, int, negative, float, text, array, object, nil, cons, end,
  field, insert_sorted, normalized, normalized_items, normalized_fields,
}

then_swap :
    (m n : ℕ) (o o' : Ordering)
    → (o ≡ Ordering.gt → o' ≡ Ordering.lt)
    → then (compare_ℕ m n) o ≡ Ordering.gt
    → then (compare_ℕ n m) o' ≡ Ordering.lt
then_swap m n o o' h e = ground arith

pub lt_ne_gt : {A : Type 0} → Ordering.lt ≡ Ordering.gt → A
lt_ne_gt e = cc

pub compare_swap : (s t : String) → compare s t ≡ Ordering.gt → compare t s ≡ Ordering.lt
compare_swap String.[] String.[] h = cc
compare_swap String.[] (String.◌∷◌ d t) h = lt_ne_gt (sym (λ i. compare.nil-cons d t i) ∙ h)
compare_swap (String.◌∷◌ c s) String.[] h = λ i. compare.nil-cons c s i
compare_swap (String.◌∷◌ c s) (String.◌∷◌ d t) h =
    (λ i. compare.cons-cons d c t s i)
    ∙ then_swap (code c) (code d) (compare s t) (compare t s) (compare_swap s t)
        (sym (λ i. compare.cons-cons c d s t i) ∙ h)

-- Keys in order, each against the next.
abbrev HeadOk : String → Fields → Type 0
HeadOk k end = Unit
HeadOk k (field j w fs) = compare k j ≢ Ordering.gt

-- Sorted fields with normal values.
abbrev pub Canonical : Fields → Type 0
Canonical end = Unit
Canonical (field k v fs) = HeadOk k fs × (normalized v ≡ v) × Canonical fs

insert_sorted-HeadOk :
    (j k : String) (v : Value) (fs : Fields)
    → compare j k ≢ Ordering.gt
    → HeadOk j fs
    → HeadOk j (insert_sorted k v fs)
unfolding insert_sorted
insert_sorted-HeadOk j k v end h t = h
insert_sorted-HeadOk j k v (field i w fs) h t =
    elim (compare k i)
      as (λ o. HeadOk j (elim o [
        | Ordering.gt ↦ field i w (insert_sorted k v fs)
        | _ ↦ field k v (field i w fs)
      ])) [ Ordering.gt ↦ t | _ ↦ h ]

insert_sorted-Canonical :
    (k : String) (v : Value) (fs : Fields)
    → normalized v ≡ v
    → Canonical fs
    → Canonical (insert_sorted k v fs)
unfolding insert_sorted
insert_sorted-Canonical k v end n s = (tt, n, tt)
insert_sorted-Canonical k v (field j w fs) n s =
    go (insert_sorted-Canonical k v fs n s.2) (compare k j) refl
  where
    go :
        Canonical (insert_sorted k v fs)
        → (o : Ordering) → compare k j ≡ o
        → Canonical (elim o [
          | Ordering.gt ↦ field j w (insert_sorted k v fs)
          | _ ↦ field k v (field j w fs)
        ])
    go rest Ordering.gt e = (
      insert_sorted-HeadOk j k v fs (λ g. lt_ne_gt (sym (compare_swap k j e) ∙ g)) s.0,
      s.1,
      rest,
    )
    go rest Ordering.lt e = ((λ g. lt_ne_gt (sym e ∙ g)), n, s)
    go rest Ordering.eq e = ((λ g. cc), n, s)

insert_sorted-head :
    (k : String) (v : Value) (fs : Fields) → HeadOk k fs → insert_sorted k v fs ≡ field k v fs
unfolding insert_sorted
insert_sorted-head k v end h = refl
insert_sorted-head k v (field j w fs) h = go (compare k j) refl
  where
    go :
        (o : Ordering)
        → compare k j ≡ o
        → (elim o [ Ordering.gt ↦ field j w (insert_sorted k v fs) | _ ↦ field k v (field j w fs) ])
          ≡ field k v (field j w fs)
    go Ordering.gt e = absurd (h e)
    go Ordering.lt e = refl
    go Ordering.eq e = refl

pub normalized_of_Canonical : (fs : Fields) → Canonical fs → normalized_fields fs ≡ fs
unfolding normalized
normalized_of_Canonical end c = refl
normalized_of_Canonical (field k v fs) c =
    rw (normalized_of_Canonical fs c.2, c.1) (insert_sorted-head k v fs c.0)

mutual
  unfolding normalized

  normalized_idem : (v : Value) → normalized (normalized v) ≡ normalized v
  normalized_idem null = refl
  normalized_idem (bool b) = refl
  normalized_idem (int n) = refl
  normalized_idem (negative n) = refl
  normalized_idem (float s) = refl
  normalized_idem (text s) = refl
  normalized_idem (array xs) = ap array (normalized_items_idem xs)
  normalized_idem (object fs) =
      ap object (normalized_of_Canonical (normalized_fields fs) (normalized_fields-Canonical fs))

  normalized_items_idem :
      (xs : Items) → normalized_items (normalized_items xs) ≡ normalized_items xs
  normalized_items_idem nil = refl
  normalized_items_idem (cons x xs) = λ i. cons (normalized_idem x i) (normalized_items_idem xs i)

  normalized_fields-Canonical : (fs : Fields) → Canonical (normalized_fields fs)
  normalized_fields-Canonical end = tt
  normalized_fields-Canonical (field k v fs) =
      insert_sorted-Canonical k (normalized v) (normalized_fields fs) (normalized_idem v)
        (normalized_fields-Canonical fs)

-- What is written normalised and read back is normalised no further, and its keys are sorted at
-- every level.
pub normalized_fields_idem :
    (fs : Fields)
    → (normalized_fields (normalized_fields fs) ≡ normalized_fields fs)
      × Canonical (normalized_fields fs)
normalized_fields_idem fs =
    let c = normalized_fields-Canonical fs in (normalized_of_Canonical (normalized_fields fs) c, c)
