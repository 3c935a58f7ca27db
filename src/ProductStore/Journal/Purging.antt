-- ===== src/ProductStore/Journal/Purging.antt =====
-- What the purge of the diagnostics deletes.
use cyrene_yield.Common.{
  ◌+◌, String, ◌≡◌, refl, sym, ap, ◌∙◌, Bool, not, List, [], ◌∷◌, arith, filter, length, contains,
  eq_iff,
}
use cyrene_yield.ProductStore.Journal.{Row, of_run, of_other_run, purge_runs}

-- The rows of the runs that are not named.
abbrev pub not_named : List String → Row → Bool
not_named run_ids row = not (contains row.run_id run_ids)

length-filter_split :
    (run_id : String) (rows : List Row)
    → length (filter (of_run run_id) rows) + length (filter (of_other_run run_id) rows)
      ≡ length rows
length-filter_split run_id [] = omega arith
length-filter_split run_id (r ∷ rows) = ground (arith, length-filter_split run_id rows)

filter-nothing_named : (rows : List Row) → filter (not_named []) rows ≡ rows
filter-nothing_named [] = refl
filter-nothing_named (r ∷ rows) = ap (λ z. r ∷ z) (filter-nothing_named rows)

filter-not_named :
    (run_id : String) (run_ids : List String) (rows : List Row)
    → filter (not_named run_ids) (filter (of_other_run run_id) rows)
      ≡ filter (not_named (run_id ∷ run_ids)) rows
filter-not_named run_id run_ids [] = refl
filter-not_named run_id run_ids (r ∷ rows) =
    ground
      (arith, eq_iff run_id r.run_id, eq_iff r.run_id run_id, filter-not_named run_id run_ids rows)

-- Whatever runs are named, even more than once: the rows that stay are exactly those of the other runs, in
-- their order, and the number returned is that of the rows deleted.
pub purge_runs_exact :
    (run_ids : List String) (rows : List Row)
    → ((purge_runs run_ids rows).1 ≡ filter (not_named run_ids) rows)
      × ((purge_runs run_ids rows).0 + length (filter (not_named run_ids) rows) ≡ length rows)
unfolding purge_runs
purge_runs_exact [] rows =
    let all = filter-nothing_named rows in (sym all, omega (arith, ap length all))
purge_runs_exact (run_id ∷ run_ids) rows =
    let (stay, count) = purge_runs_exact run_ids (filter (of_other_run run_id) rows) in
    let same = filter-not_named run_id run_ids rows in
    (stay ∙ same, omega (arith, count, ap length same, length-filter_split run_id rows))
