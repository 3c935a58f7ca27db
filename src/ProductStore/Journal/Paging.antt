-- ===== src/ProductStore/Journal/Paging.antt =====
-- What a page of a journal holds.
use cyrene_yield.Common.{
  ℕ, zero, suc, ◌≤◌, ◌<◌, String, ◌≡◌, List, [], ◌∷◌, arith, filter, length, leb, eq_iff, All,
  Bool-cases, take, insert_by, sort_by, length-take-le, All-filter, All-take, All-insert_by,
  All-sort_by, inl, inr,
}
use cyrene_yield.ProductStore.Journal.{
  Row, earlier, by_sequence, bounded, after_sequence, list_events,
}

-- The sequences do not fall.
abbrev pub Ascending : List Row → Type 0
Ascending [] = Unit
Ascending (r ∷ rs) = All (λ x. r.sequence ≤ x.sequence) rs × Ascending rs

All-le :
    (a b : ℕ) (rs : List Row) → a ≤ b → All (λ x. b ≤ x.sequence) rs → All (λ x. a ≤ x.sequence) rs
All-le a b [] h hs = tt
All-le a b (r ∷ rs) h hs = (omega (arith, hs.0), All-le a b rs h hs.1)

insert-Ascending : (r : Row) (rs : List Row) → Ascending rs → Ascending (insert_by earlier r rs)
unfolding insert_by
insert-Ascending r [] h = (tt, tt)
insert-Ascending r (x ∷ rs) h = elim (Bool-cases (leb r.sequence x.sequence)) [
  | inl t ↦
      rw t
        let below : r.sequence ≤ x.sequence = ground arith in
          ((below, All-le r.sequence x.sequence rs below h.0), h)
  | inr f ↦
      rw f
        let above : x.sequence ≤ r.sequence = ground arith in
          (
            All-insert_by (λ y. x.sequence ≤ y.sequence) earlier r rs above h.0,
            insert-Ascending r rs h.1,
          )
]

by_sequence-Ascending : (rs : List Row) → Ascending (by_sequence rs)
unfolding by_sequence sort_by
by_sequence-Ascending [] = tt
by_sequence-Ascending (r ∷ rs) = insert-Ascending r (by_sequence rs) (by_sequence-Ascending rs)

take-Ascending : (n : ℕ) (rs : List Row) → Ascending rs → Ascending (take n rs)
unfolding take
take-Ascending zero rs h = tt
take-Ascending (suc n) [] h = tt
take-Ascending (suc n) (r ∷ rs) h =
    (All-take (λ x. r.sequence ≤ x.sequence) n rs h.0, take-Ascending n rs h.1)

-- Whatever limit is asked for, a page has at most `most` rows; all are rows of the run with a sequence
-- above the one given, and their sequences do not fall.
pub list_events_page :
    (most : ℕ) (rows : List Row) (run_id : String) (after limit : ℕ)
    → 1 ≤ most
    → (length (list_events most rows run_id after limit) ≤ most)
      × All
          (λ r. (r.run_id ≡ run_id) × (after < r.sequence))
          (list_events most rows run_id after limit)
      × Ascending (list_events most rows run_id after limit)
unfolding list_events by_sequence
list_events_page most rows run_id after limit h =
    let n = bounded limit most in
    let found = filter (after_sequence run_id after) rows in
    let few : n ≤ most = ground arith in
    (
      omega (arith, few, length-take-le n (by_sequence found)),
      All-take _ n (by_sequence found) (
          All-sort_by _ earlier found (
            All-filter _ (after_sequence run_id after) rows
              (λ r t. (ground (arith, eq_iff r.run_id run_id), ground arith)))),
      take-Ascending n (by_sequence found) (by_sequence-Ascending found),
    )
