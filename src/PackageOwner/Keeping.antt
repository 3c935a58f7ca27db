-- ===== src/PackageOwner/Keeping.antt =====
-- What the calls that the client makes back keep, if every recorded outcome of the request keeps it.
use cyrene_yield.Common.{String, ◌≡◌, Option, none, some, inl, inr, ok, Result-cases, Option-cases}
use cyrene_yield.Values.{Value, Fields}
use cyrene_yield.ProductStore.Bindings.{
  Phase, RuntimeStatus, Scope, Operation, Bindings, record_package_binding_outcome,
}
use cyrene_yield.PackageOwner.Client.{
  ActivationCall, persist_intent, persist, ReconcileCall, Outside,
}
use cyrene_yield.PackageOwner.Receipts.{StatusOutcome, receipt_value, status_outcome}
use cyrene_yield.PackageOwner.Activation.{
  activation_call, outcome_phase, pending_outcome, record_pending, recorded_outcome, unless_healthy,
}
use cyrene_yield.PackageOwner.Reconciliation.{reconcile_call, same_receipt, scope_of}

-- What every recorded outcome of the request keeps.
module _ (P : Bindings → Type 0) (request_id : String) (scope : Scope)
    (keeps : (status : Option RuntimeStatus) (receipt : Fields) (phase : Phase)
        (blocker : Option String) (now : String) (b b' : Bindings)
      → record_package_binding_outcome b request_id scope status receipt phase blocker now ≡ ok b'
      → P b
      → P b') where
  pub recorded_outcome_keeps :
      (b : Bindings) (receipt : Fields) (outcome : StatusOutcome) (phase : Phase)
      (blocker now : String)
      → P b
      → P (recorded_outcome b request_id scope receipt outcome phase blocker now).1
  unfolding recorded_outcome
  recorded_outcome_keeps b receipt outcome phase blocker now p =
      elim (Result-cases (
        record_package_binding_outcome b request_id scope outcome.snapshot receipt phase
          (some blocker) now)) [
            | inl (b', e) ↦
                rw (e, recorded_outcome)
                  (keeps outcome.snapshot receipt phase (some blocker) now b b' e p)
            | inr (f, e) ↦ rw (e, recorded_outcome) p
          ]

  pub activation_call_keeps :
      (q : ActivationCall) (b : Bindings) → P b → P (activation_call request_id scope q b).1
  unfolding activation_call
  activation_call_keeps (persist_intent r s) b p = p
  activation_call_keeps (persist status receipt now) b p =
      elim (Result-cases (receipt_value receipt request_id scope)) [
        | inl (value, e) ↦
            rw (e, activation_call)
              (let outcome = status_outcome status scope.binding_id scope.installation_id in
                recorded_outcome_keeps b value outcome (outcome_phase outcome) outcome.blocker now
                  p)
        | inr (f, e) ↦ rw (e, activation_call) p
      ]

  pub record_pending_keeps :
      (w : Outside) (pending : Value) (b : Bindings)
      → P b
      → P (record_pending w request_id scope pending b).1
  unfolding record_pending
  record_pending_keeps w pending b p =
      elim (Result-cases (receipt_value pending request_id scope)) [
        | inl (value, e) ↦
            rw (e, record_pending)
              (recorded_outcome_keeps b value pending_outcome Phase.pending_reconcile
                "PACKAGE_RUNTIME_RECONCILE_REQUIRED" w.failed p)
        | inr (f, e) ↦ rw (e, record_pending) p
      ]

module _ (P : Bindings → Type 0) (request_id : String) (row : Operation)
    (keeps : (status : Option RuntimeStatus) (receipt : Fields) (phase : Phase)
        (blocker : Option String) (now : String) (b b' : Bindings)
      → record_package_binding_outcome b request_id (scope_of row) status receipt phase blocker now
        ≡ ok b'
      → P b
      → P b') where
  pub reconcile_call_keeps :
      (stored : Fields) (q : ReconcileCall) (b : Bindings)
      → P b
      → P (reconcile_call request_id row stored q b).1
  unfolding reconcile_call
  reconcile_call_keeps stored q b p =
      let outcome = status_outcome q.status row.scope.binding_id row.scope.installation_id in
      elim (Result-cases (same_receipt request_id row stored q)) [
        | inl (value, e) ↦
            rw (e, reconcile_call)
              (elim (Option-cases (unless_healthy outcome none)) [
                | inl healthy ↦
                    rw (healthy, reconcile_call)
                      (recorded_outcome_keeps P request_id (scope_of row) keeps b value outcome
                        Phase.outcome_pending_complete "PACKAGE_RUNTIME_COMPLETE_PENDING" q.now p)
                | inr (f, u) ↦ rw (u, reconcile_call) p
              ])
        | inr (f, e) ↦ rw (e, reconcile_call) p
      ]
