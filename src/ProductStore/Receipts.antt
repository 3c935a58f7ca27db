-- ===== src/ProductStore/Receipts.antt =====
-- The tables action_receipts and run_terminals of product_store.py.
use cyrene_yield.Common.{
  String, ◌≡◌, ◌≢◌, refl, true, false, not, Option, none, some, List, [], ◌∷◌, ◌==◌, arith, eq_iff,
  eq_refl, subst, text_le, Dict, lookup, insert, lookup-insert_self, Result, ok, err, if◌then◌else◌,
}
use cyrene_yield.Values.{Fields, normalized_fields}

pub record ActionReceipt : Type 0 where
  pub digest : String
  pub document : Fields

pub data ReceiptError : Type 0 where
  idempotency_conflict : ReceiptError

-- recall_receipt
unfoldable pub recall_receipt :
    Dict ActionReceipt → String → String → Result ReceiptError (Option Fields)
recall_receipt t key digest = elim (lookup key t) [
  | none ↦ ok none
  | some row ↦
      if not (row.digest == digest) then err idempotency_conflict else ok (some row.document)
]

-- INSERT OR IGNORE INTO action_receipts
unfoldable pub insert_or_ignore : String → ActionReceipt → Dict ActionReceipt → Dict ActionReceipt
insert_or_ignore key row t = elim (lookup key t) [ none ↦ insert key row t | some old ↦ t ]

abbrev pub stored : String → Fields → ActionReceipt
stored digest document = record { digest = digest; document = normalized_fields document }

-- What the SELECT of save_receipt finds, and the table.
abbrev pub reply :
    Dict ActionReceipt
    → Option ActionReceipt
    → String
    → Result ReceiptError (Fields × Dict ActionReceipt)
reply t none digest = err idempotency_conflict
reply t (some row) digest =
    if not (row.digest == digest) then err idempotency_conflict else ok (row.document, t)

-- save_receipt: the insertion is committed before the digest is compared, and a row that was there is
-- left alone, so a conflict leaves the table as it was.
unfoldable pub save_receipt :
    Dict ActionReceipt
    → String
    → String
    → Fields
    → Result ReceiptError (Fields × Dict ActionReceipt)
unfolding insert_or_ignore
save_receipt t key digest document =
    let after = insert_or_ignore key (stored digest document) t in
    reply after (lookup key after) digest

reply-ok :
    (t t' : Dict ActionReceipt) (o : Option ActionReceipt) (digest : String) (d : Fields)
    → reply t o digest ≡ ok (d, t')
    → (t ≡ t') × (o ≡ some (record { digest = digest; document = d }))
reply-ok t t' none digest d h = cc
reply-ok t t' (some row) digest d h =
    let e : row.digest ≡ digest = ground (arith, eq_iff row.digest digest) in
    let f : row.document ≡ d = ground (arith, eq_iff row.digest digest) in
    let g : t ≡ t' = ground (arith, eq_iff row.digest digest) in
    (g, λ i. some (record { digest = e i; document = f i }))

save_receipt-found :
    (t : Dict ActionReceipt) (key digest : String) (document d : Fields) (t' : Dict ActionReceipt)
    → save_receipt t key digest document ≡ ok (d, t')
    → lookup key t' ≡ some (record { digest = digest; document = d })
unfolding save_receipt
save_receipt-found t key digest document d t' h =
    let after = insert_or_ignore key (stored digest document) t in
    let (same, found) = reply-ok after t' (lookup key after) digest d h in
    subst (λ z. lookup key z ≡ some (record { digest = digest; document = d })) same found

-- A receipt that was saved is recalled with its document by the same digest, and is a conflict under
-- every other; to save under its key again changes nothing and returns the first document.
pub save-recall :
    (t t' : Dict ActionReceipt) (key digest other : String) (document later d : Fields)
    → save_receipt t key digest document ≡ ok (d, t')
    → other ≢ digest
    → (recall_receipt t' key digest ≡ ok (some d))
      × (recall_receipt t' key other ≡ err idempotency_conflict)
      × (save_receipt t' key digest later ≡ ok (d, t'))
      × (save_receipt t' key other later ≡ err idempotency_conflict)
unfolding save_receipt recall_receipt insert_or_ignore
save-recall t t' key digest other document later d h ne =
    let l = save_receipt-found t key digest document d t' h in
    let same : (digest == digest) ≡ true = eq_refl digest in
    let differ : (digest == other) ≡ false = ground (arith, eq_iff digest other) in
    let kept : (row : ActionReceipt) → insert_or_ignore key row t' ≡ t' =
      λ row. rw (l, insert_or_ignore) refl in
    (
      rw (l, recall_receipt) (rw same refl),
      rw (l, recall_receipt) (rw differ refl),
      rw (kept (stored digest later), save_receipt) (rw l (rw same refl)),
      rw (kept (stored other later), save_receipt) (rw l (rw differ refl)),
    )

pub record Terminal : Type 0 where
  pub state : String
  pub ended_at : String

-- record_terminal_run: the earliest time wins, the last state does.
unfoldable pub record_terminal_run : Dict Terminal → String → String → String → Dict Terminal
record_terminal_run t run_id state ts = elim (lookup run_id t) [
  | some row ↦
      if text_le row.ended_at ts
      then insert run_id (record row { state = state }) t
      else insert run_id (record { state = state; ended_at = ts }) t
  | none ↦ insert run_id (record { state = state; ended_at = ts }) t
]

-- run_terminals of _terminal_run_ids_before
unfoldable pub ended_before : Dict Terminal → String → List String
ended_before [] cutoff = []
ended_before ((run_id, row) ∷ t) cutoff =
    let rest = ended_before t cutoff in if text_le row.ended_at cutoff then run_id ∷ rest else rest

-- To observe a terminal run again, at a time that is not earlier, keeps the time from which its retention
-- counts, so it can never be put off; whether an observation is the first, an earlier or a later one, the
-- run has the state observed last.
pub record_terminal_run_again :
    (t : Dict Terminal) (run_id first again ts later : String)
    → lookup run_id t ≡ none
    → text_le ts later ≡ true
    → (lookup run_id
          (record_terminal_run (record_terminal_run t run_id first ts) run_id again later)
        ≡ some (record { state = again; ended_at = ts }))
      × (text_le later ts ≡ false
          → lookup run_id
              (record_terminal_run (record_terminal_run t run_id first later) run_id again ts)
            ≡ some (record { state = again; ended_at = ts }))
unfolding record_terminal_run
record_terminal_run_again t run_id first again ts later fresh order =
    let row : String → Terminal = λ time. record { state = first; ended_at = time } in
    let once : (time : String)
        → record_terminal_run t run_id first time ≡ insert run_id (row time) t =
      λ time. rw (fresh, record_terminal_run) refl in
    let found : (time : String) → lookup run_id (insert run_id (row time) t) ≡ some (row time) =
      λ time. lookup-insert_self run_id (row time) t in
    (
      rw (once ts) (
          rw (found ts, record_terminal_run)
            (rw order (lookup-insert_self run_id _ (insert run_id (row ts) t)))),
      λ earlier. rw (once later) (
          rw (found later, record_terminal_run)
            (rw earlier (lookup-insert_self run_id _ (insert run_id (row later) t)))),
    )
