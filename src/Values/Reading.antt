-- ===== src/Values/Reading.antt =====
-- What document.get reads after document[key] = value, and of a document with sorted keys.
use Prim.Native.String.{compare}
use Prim.Native.Nat.{Ordering}
use cyrene_yield.Common.{
  String, ◌≡◌, refl, ap, sym, ◌∙◌, subst, true, false, none, some, ◌==◌, eq_iff, eq_refl,
  Bool-cases, Bool, inl, inr, if◌then◌else◌,
}
use cyrene_yield.Values.Normal.{compare_swap, lt_ne_gt}
use cyrene_yield.Values.{
  Value, Fields, end, field, get_field, set_field, insert_sorted, normalized, normalized_fields,
}

pub get_field-set_field_self :
    (k : String) (v : Value) (fs : Fields) → get_field k (set_field k v fs) ≡ some v
unfolding get_field set_field
get_field-set_field_self k v end = rw (eq_refl k) refl
get_field-set_field_self k v (field j w fs) = elim (Bool-cases (j == k)) [
  | inl t ↦ rw (t, set_field) (rw (t, get_field) refl)
  | inr n ↦ rw (n, set_field) (rw (n, get_field) (get_field-set_field_self k v fs))
]

pub get_field-set_field_ne :
    (k j : String) (v : Value) (fs : Fields)
    → (j == k) ≡ false
    → get_field k (set_field j v fs) ≡ get_field k fs
unfolding get_field set_field
get_field-set_field_ne k j v end n = rw n refl
get_field-set_field_ne k j v (field i w fs) n = elim (Bool-cases (i == j)) [
  | inl t ↦
      let other : (i == k) ≡ false = subst (λ z. (z == k) ≡ false) (sym ((eq_iff i j).0 t)) n in
      rw (t, set_field) (rw (other, get_field) refl)
  | inr f ↦
      rw (f, set_field) (ap (λ z. if i == k then some w else z) (get_field-set_field_ne k j v fs n))
]

gt_other : (k j : String) → compare k j ≡ Ordering.gt → (j == k) ≡ false
gt_other k j h = elim (Bool-cases (j == k)) [
  | inr n ↦ n
  | inl t ↦
      let same : compare k k ≡ Ordering.gt =
        subst (λ z. compare k z ≡ Ordering.gt) ((eq_iff j k).0 t) h in
      lt_ne_gt (sym (compare_swap k k same) ∙ same)
]

get_field-insert_sorted :
    (k j : String) (v : Value) (fs : Fields)
    → get_field k (insert_sorted j v fs) ≡ (if j == k then some v else get_field k fs)
unfolding get_field insert_sorted
get_field-insert_sorted k j v end = refl
get_field-insert_sorted k j v (field i w fs) =
    go (compare j i) refl (get_field-insert_sorted k j v fs)
  where
    not_both : (i == k) ≡ true → (i == j) ≡ false → (j == k) ≡ false
    not_both t n = elim (Bool-cases (j == k)) [
      | inr f ↦ f
      | inl u ↦ cc (n, (eq_iff i j).1 ((eq_iff i k).0 t ∙ sym ((eq_iff j k).0 u)))
    ]

    go :
        (o : Ordering)
        → compare j i ≡ o
        → get_field k (insert_sorted j v fs) ≡ (if j == k then some v else get_field k fs)
        → get_field k (elim o [
          | Ordering.gt ↦ field i w (insert_sorted j v fs)
          | _ ↦ field j v (field i w fs)
        ])
          ≡ (if j == k then some v else get_field k (field i w fs))
    go Ordering.lt e h = refl
    go Ordering.eq e h = refl
    go Ordering.gt e h = elim (Bool-cases (i == k)) [
      | inr n ↦ rw (n, get_field) h
      | inl t ↦
          let other : (j == k) ≡ false = not_both t (gt_other j i e) in
          rw (t, other, get_field) refl
    ]

-- What is read of a document with its keys sorted is what is read of the document, normalised.
pub get_field-normalized :
    (k : String) (fs : Fields)
    → get_field k (normalized_fields fs)
      ≡ (elim (get_field k fs) [ none ↦ none | some v ↦ some (normalized v) ])
unfolding get_field normalized_fields
get_field-normalized k end = refl
get_field-normalized k (field j w fs) =
    get_field-insert_sorted k j (normalized w) (normalized_fields fs)
    ∙ by_key (j == k) (get_field-normalized k fs)
  where
    by_key :
        (c : Bool)
        → get_field k (normalized_fields fs)
          ≡ (elim (get_field k fs) [ none ↦ none | some v ↦ some (normalized v) ])
        → (if c then some (normalized w) else get_field k (normalized_fields fs))
          ≡ (elim (if c then some w else get_field k fs) [
            | none ↦ none
            | some v ↦ some (normalized v)
          ])
    by_key true h = refl
    by_key false h = h
