-- ===== src/ProductStore/Journal/Appending.antt =====
-- What appending to a journal keeps, and that two batches are one.
use cyrene_yield.Common.{
  ℕ, suc, ◌+◌, ◌≤◌, String, ◌≡◌, refl, sym, ap, ◌∙◌, true, List, [], ◌∷◌, ◌++◌, arith, filter,
  filter-append, length, length-append, ltb, eq_iff, if◌then◌else◌, eq_refl,
}
use cyrene_yield.Values.{Fields}
use cyrene_yield.ProductStore.Journal.{
  Row, of_run, of_attempt, max_sequence, last_sequence, event_count, other_key, insert_or_replace,
  new_row, append_from, append_events,
}

-- The rows of each attempt are numbered from zero on, and those of each run have sequences that rise.
pub data Dense : List Row → Type 0 where
  empty : Dense []
  appended :
      {rows : List Row} (row : Row)
      → Dense rows
      → row.index ≡ event_count rows row.run_id row.attempt_id
      → row.sequence ≡ suc (last_sequence rows row.run_id)
      → Dense (rows ++ row ∷ [])

event_count-append :
    (rows : List Row) (row : Row) (r a : String)
    → event_count (rows ++ row ∷ []) r a
      ≡ (if of_attempt r a row then suc (event_count rows r a) else event_count rows r a)
unfolding event_count
event_count-append rows row r a = ground (
  arith,
  filter-append (of_attempt r a) rows (row ∷ []),
  length-append (filter (of_attempt r a) rows) (filter (of_attempt r a) (row ∷ [])),
)

max_sequence-append :
    (rows : List Row) (row : Row)
    → max_sequence (rows ++ row ∷ [])
      ≡ (if ltb (max_sequence rows) row.sequence then row.sequence else max_sequence rows)
unfolding max_sequence
max_sequence-append [] row = ground arith
max_sequence-append (x ∷ rows) row = ground (arith, max_sequence-append rows row)

-- No row of an attempt has a place from the number of its rows on.
other_key-free :
    (rows : List Row) (r a : String) (n : ℕ)
    → Dense rows
    → event_count rows r a ≤ n
    → filter (other_key r a n) rows ≡ rows
other_key-free _ r a n empty h = refl
other_key-free _ r a n (appended {rows = rows} row d place later) h =
    let rest = other_key-free rows r a n d (ground (arith, event_count-append rows row r a)) in
    let new : other_key r a n row ≡ true =
      ground
        (arith, event_count-append rows row r a, eq_iff row.run_id r, eq_iff row.attempt_id a) in
    filter-append (other_key r a n) rows (row ∷ []) ∙ ground (arith, rest, new)

-- A dense journal with the next place of an attempt and the next sequence of its run.
pub record Ready (rows : List Row) (r a : String) (i n : ℕ) : Type 0 where
  pub dense : Dense rows
  pub place : event_count rows r a ≡ i
  pub later : suc (last_sequence rows r) ≡ n

module _ (numbered : Fields → ℕ → ℕ → Fields) (r a : String) where
  insert-Ready :
      (rows : List Row) (i n : ℕ) (d : Fields)
      → Ready rows r a i n
      → Ready (insert_or_replace (new_row numbered r a i n d) rows) r a (suc i) (suc n)
  unfolding insert_or_replace
  insert-Ready rows i n d ready =
      let row = new_row numbered r a i n d in
      let free = other_key-free rows r a i ready.dense (omega (arith, ready.place)) in
      let whole : insert_or_replace row rows ≡ rows ++ row ∷ [] = ap (λ z. z ++ row ∷ []) free in
      rw whole (record {
        dense = appended row ready.dense (sym ready.place) (sym ready.later);
        place = event_count-append rows row r a ∙ ground (arith, eq_refl r, eq_refl a, ready.place);
        later =
            ap (λ z. suc (max_sequence z)) (filter-append (of_run r) rows (row ∷ []))
            ∙ ground
                (arith, eq_refl r, max_sequence-append (filter (of_run r) rows) row, ready.later);
      })

  -- The final state of a batch.
  append_from-Ready :
      (ds : List Fields) (rows : List Row) (i n : ℕ)
      → Ready rows r a i n
      → Ready (append_from numbered r a i n ds rows).1 r a (i + length ds) (n + length ds)
  unfolding append_from
  append_from-Ready [] rows i n ready = record {
    dense = ready.dense;
    place = omega (arith, ready.place);
    later = omega (arith, ready.later);
  }
  append_from-Ready (d ∷ ds) rows i n ready =
      let rest =
        append_from-Ready ds (insert_or_replace (new_row numbered r a i n d) rows) (suc i) (suc n)
          (insert-Ready rows i n d ready) in
      record {
        dense = rest.dense;
        place = rest.place ∙ omega arith;
        later = rest.later ∙ omega arith;
      }

  append_from-append :
      (ds es : List Fields) (rows : List Row) (i n : ℕ)
      → append_from numbered r a i n (ds ++ es) rows ≡ (
        (append_from numbered r a i n ds rows).0
            ++ (append_from numbered r a
                (i + length ds)
                (n + length ds)
                es
                (append_from numbered r a i n ds rows).1).0,
        (append_from numbered r a
            (i + length ds)
            (n + length ds)
            es
            (append_from numbered r a i n ds rows).1).1,
      )
  unfolding append_from
  append_from-append [] es rows i n =
      let zero_i : i + 0 ≡ i = omega arith in
      let zero_n : n + 0 ≡ n = omega arith in rw (zero_i, zero_n) refl
  append_from-append (d ∷ ds) es rows i n =
      let shift_i : i + suc (length ds) ≡ suc i + length ds = omega arith in
      let shift_n : n + suc (length ds) ≡ suc n + length ds = omega arith in
      rw
        (
          shift_i,
          shift_n,
          append_from-append ds es (insert_or_replace (new_row numbered r a i n d) rows) (suc i)
              (suc n),
        )
        refl

module _ (numbered : Fields → ℕ → ℕ → Fields) (rows : List Row) (r a : String) where
  start-Ready : Dense rows → Ready rows r a (event_count rows r a) (suc (last_sequence rows r))
  start-Ready d = record { dense = d; place = refl; later = refl }

  -- Of a dense journal, a batch leaves a dense journal with the batch's length more rows of the attempt.
  pub append_events-Dense :
      (ds : List Fields)
      → Dense rows
      → Dense (append_events numbered rows r a ds).1
        × (event_count (append_events numbered rows r a ds).1 r a
            ≡ event_count rows r a + length ds)
  unfolding append_events
  append_events-Dense ds d =
      let ready =
        append_from-Ready numbered r a ds rows (event_count rows r a) (suc (last_sequence rows r))
          (start-Ready d) in
      (ready.dense, ready.place)

  -- To append two batches one after the other, as after a restart of the control service, returns and
  -- leaves what one call with both does: no place or sequence is left out or used twice.
  pub append_events_twice :
      (ds es : List Fields)
      → Dense rows
      → append_events numbered rows r a (ds ++ es) ≡ (
        (append_events numbered rows r a ds).0
            ++ (append_events numbered (append_events numbered rows r a ds).1 r a es).0,
        (append_events numbered (append_events numbered rows r a ds).1 r a es).1,
      )
  unfolding append_events
  append_events_twice ds es d =
      let i = event_count rows r a in
      let n = suc (last_sequence rows r) in
      let ready = append_from-Ready numbered r a ds rows i n (start-Ready d) in
      rw (ready.place, ready.later) (append_from-append numbered r a ds es rows i n)
