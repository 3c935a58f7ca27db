-- ===== src/ProductStore/Journal.antt =====
-- The tables training_events and training_diagnostics of product_store.py: rows in the order in which
-- they were inserted, each with its place in its attempt and its sequence in its run.
pub mod Appending
pub mod Paging
pub mod Purging
use cyrene_yield.Common.{
  ℕ, zero, suc, ◌+◌, String, Bool, true, false, not, ◌&&◌, List, [], ◌∷◌, ◌++◌, ◌==◌, filter,
  length, nat_eq, ltb, leb, if◌then◌else◌, take, sort_by,
}
use cyrene_yield.Values.{Value, Fields, set_field}

pub record Row : Type 0 where
  pub run_id : String
  pub attempt_id : String
  pub index : ℕ
  pub sequence : ℕ
  pub document : Fields

abbrev pub of_run : String → Row → Bool
of_run run_id row = row.run_id == run_id

abbrev pub of_attempt : String → String → Row → Bool
of_attempt run_id attempt_id row = row.run_id == run_id && row.attempt_id == attempt_id

abbrev pub max : ℕ → ℕ → ℕ
max a b = if ltb a b then b else a

-- COALESCE(MAX(sequence), 0)
unfoldable pub max_sequence : List Row → ℕ
max_sequence [] = 0
max_sequence (row ∷ rows) = max row.sequence (max_sequence rows)

-- SELECT MAX(sequence) WHERE run_id=?
abbrev pub last_sequence : List Row → String → ℕ
last_sequence rows run_id = max_sequence (filter (of_run run_id) rows)

-- event_count and diagnostics_count
unfoldable pub event_count : List Row → String → String → ℕ
event_count rows run_id attempt_id = length (filter (of_attempt run_id attempt_id) rows)

-- The rows with another primary key than (run_id, attempt_id, index).
abbrev pub other_key : String → String → ℕ → Row → Bool
other_key run_id attempt_id index row =
    not (of_attempt run_id attempt_id row && nat_eq row.index index)

-- INSERT OR REPLACE
unfoldable pub insert_or_replace : Row → List Row → List Row
insert_or_replace row rows = filter (other_key row.run_id row.attempt_id row.index) rows ++ row ∷ []

-- The records of the two tables: {**document, "sequence": ..., "eventIndex": ...}, and without the last.
unfoldable pub event_record : Fields → ℕ → ℕ → Fields
unfolding set_field
event_record d sequence index =
    set_field "eventIndex" (Value.int index) (set_field "sequence" (Value.int sequence) d)

unfoldable pub diagnostic_record : Fields → ℕ → ℕ → Fields
unfolding set_field
diagnostic_record d sequence index = set_field "sequence" (Value.int sequence) d

-- `numbered` is the document with the keys that the table adds to it.
module _ (numbered : Fields → ℕ → ℕ → Fields) where
  abbrev pub new_row : String → String → ℕ → ℕ → Fields → Row
  new_row run_id attempt_id index sequence document = record {
    run_id = run_id;
    attempt_id = attempt_id;
    index = index;
    sequence = sequence;
    document = numbered document sequence index;
  }

  -- The loop over the documents; `index` and `sequence` are those of the next row.
  unfoldable pub append_from :
      String → String → ℕ → ℕ → List Fields → List Row → List Fields × List Row
  unfolding insert_or_replace
  append_from run_id attempt_id index sequence [] rows = ([], rows)
  append_from run_id attempt_id index sequence (d ∷ ds) rows =
      let row = new_row run_id attempt_id index sequence d in
      let (appended, after) =
        append_from run_id attempt_id (suc index) (suc sequence) ds (insert_or_replace row rows) in
      (row.document ∷ appended, after)

  -- append_events and append_diagnostics
  unfoldable pub append_events : List Row → String → String → List Fields → List Fields × List Row
  unfolding append_from event_count max_sequence
  append_events rows run_id attempt_id documents =
      append_from run_id attempt_id (event_count rows run_id attempt_id)
        (suc (last_sequence rows run_id)) documents rows

-- ORDER BY sequence ASC
abbrev pub earlier : Row → Row → Bool
earlier a b = leb a.sequence b.sequence

unfoldable pub by_sequence : List Row → List Row
by_sequence rs = sort_by earlier rs

-- max(1, min(limit, most))
abbrev pub bounded : ℕ → ℕ → ℕ
bounded limit most = max 1 (if leb limit most then limit else most)

abbrev pub after_sequence : String → ℕ → Row → Bool
after_sequence run_id after row = row.run_id == run_id && ltb after row.sequence

-- list_events, with `most` 20000, and list_diagnostics, with `most` 500: the rows whose documents are read
unfoldable pub list_events : ℕ → List Row → String → ℕ → ℕ → List Row
unfolding by_sequence
list_events most rows run_id after limit =
    take (bounded limit most) (by_sequence (filter (after_sequence run_id after) rows))

abbrev pub of_other_run : String → Row → Bool
of_other_run run_id row = not (of_run run_id row)

-- The loop of purge_expired_diagnostics over the runs that _terminal_run_ids_before names: how many rows it
-- deletes, and those that stay.
unfoldable pub purge_runs : List String → List Row → ℕ × List Row
purge_runs [] rows = (0, rows)
purge_runs (run_id ∷ run_ids) rows =
    let (later, after) = purge_runs run_ids (filter (of_other_run run_id) rows) in
    (length (filter (of_run run_id) rows) + later, after)
