-- ===== src/PackageOwner/Reconciliation.antt =====
-- reconcile of package_runtime_owner.py: the stored receipt is read back, and Activate is never issued
-- again.
use cyrene_yield.Common.{
  String, true, false, not, ◌&&◌, Option, none, some, ◌==◌, same, Result, ok, err, ◌>>=◌, ◌>>◌,
  raise_if, if◌then◌else◌,
}
use cyrene_yield.Values.{Fields, Fields-discrete, normalized_fields}
use cyrene_yield.ProductStore.Bindings.{
  Phase, Scope, Operation, Bindings, is_completed, is_outcome_phase, mark_package_binding_completed,
  operation_for_reconcile,
}
use cyrene_yield.ProductStore.Bindings.Status.{BindingStatus, package_binding_status}
use cyrene_yield.PackageOwner.{
  Failure, refused, other, package_id, PackageBindingOwner, require_binding, require_request_id,
}
use cyrene_yield.PackageOwner.Client.{Activity, ReconcileCall, Outside, perform}
use cyrene_yield.PackageOwner.Receipts.{
  receipt_value, restore_receipt, status_outcome, validate_installation,
}
use cyrene_yield.PackageOwner.Activation.{
  package_runtime_client, recorded_outcome, complete_request, unless_healthy,
}

-- The scope that an owner writes for a row.
abbrev pub scope_of : Operation → Scope
scope_of row = record row.scope { package_id = package_id }

-- The tests of persist_reconciled on the installation and on the receipt, which is returned.
unfoldable pub same_receipt : String → Operation → Fields → ReconcileCall → Result Failure Fields
unfolding validate_installation receipt_value
same_receipt request_id row stored call = do
  validate_installation call.installation row.scope.installation_id
  value ← receipt_value call.receipt request_id (scope_of row)
  raise_if (not (same Fields-discrete (normalized_fields value) (normalized_fields stored)))
      (refused 409 "YIELD_PACKAGE_BINDING_RECEIPT_CONFLICT")
  ok value

-- persist_reconciled
unfoldable pub reconcile_call :
    String → Operation → Fields → ReconcileCall → Bindings → Option Failure × Bindings
unfolding same_receipt status_outcome recorded_outcome
reconcile_call request_id row stored call b = elim (same_receipt request_id row stored call) [
  | err e ↦ (some e, b)
  | ok value ↦
      let outcome = status_outcome call.status row.scope.binding_id row.scope.installation_id in
      elim (unless_healthy outcome none) [
        | some e ↦ (some e, b)
        | none ↦
            recorded_outcome b request_id (scope_of row) value outcome
              Phase.outcome_pending_complete "PACKAGE_RUNTIME_COMPLETE_PENDING" call.now
      ]
]

-- Up to the client's reconcile_binding_operation_and_persist.
unfoldable pub reconcile_client : Outside → Fields → Result Failure (Activity ReconcileCall)
unfolding package_runtime_client restore_receipt
reconcile_client w stored = do
  client ← package_runtime_client w
  receipt ← restore_receipt w.build_receipt stored
  ok (client.reconcile_binding_operation_and_persist receipt)

-- The try block of reconcile.
unfoldable pub read_back :
    Outside → String → Operation → Fields → Bindings → Option Failure × Bindings
unfolding reconcile_client reconcile_call perform mark_package_binding_completed
read_back w request_id row stored b = elim (reconcile_client w stored) [
  | err e ↦ (some e, b)
  | ok activity ↦
      complete_request request_id w.completed
        (perform (reconcile_call request_id row stored) activity b)
]

-- The return and the except clauses of reconcile.
unfoldable pub answered :
    String → Option Failure × Bindings → Result Failure BindingStatus × Bindings
unfolding package_binding_status
answered binding_id (none, b) = (ok (package_binding_status b binding_id), b)
answered binding_id (some (refused status_code code), b) = (err (refused status_code code), b)
answered binding_id (some (other pending), b) =
    (err (refused 409 "YIELD_PACKAGE_BINDING_RECONCILE_REQUIRED"), b)

-- The receipt of an operation that may be reconciled.
unfoldable pub reconcilable : Operation → Option Fields → Result Failure Fields
reconcilable row none = err (refused 409 "YIELD_PACKAGE_BINDING_UNKNOWN")
reconcilable row (some stored) = do
  raise_if (elim row.phase [ Phase.unknown ↦ true | _ ↦ false ])
      (refused 409 "YIELD_PACKAGE_BINDING_UNKNOWN")
  raise_if (not (is_outcome_phase row.phase)) (refused 409 "YIELD_PACKAGE_BINDING_PHASE_CONFLICT")
  raise_if (not (row.operation == "activate" && row.scope.package_id == package_id))
      (refused 409 "YIELD_PACKAGE_BINDING_SCOPE_CONFLICT")
  ok stored

unfoldable pub reconcile_row :
    Outside → Bindings → String → String → Operation → Result Failure BindingStatus × Bindings
unfolding reconcilable read_back answered package_binding_status
reconcile_row w b binding_id request_id row =
    let tried : Result Failure BindingStatus × Bindings = elim (reconcilable row row.receipt) [
      | err e ↦ (err e, b)
      | ok stored ↦ answered binding_id (read_back w request_id row stored b)
    ] in
    if is_completed row.phase then (ok (package_binding_status b binding_id), b) else tried

abbrev reconcile_found :
    Outside
    → Bindings
    → String
    → String
    → Option Operation
    → Result Failure BindingStatus × Bindings
reconcile_found w b binding_id request_id none =
    (err (refused 404 "YIELD_PACKAGE_BINDING_REQUEST_NOT_FOUND"), b)
reconcile_found w b binding_id request_id (some row) = reconcile_row w b binding_id request_id row

unfoldable pub reconcile_binding : PackageBindingOwner → String → String → Result Failure String
unfolding require_binding require_request_id
reconcile_binding owner requested request_id = do
  binding_id ← require_binding owner requested
  require_request_id request_id
  ok binding_id

-- reconcile
unfoldable pub reconcile :
    PackageBindingOwner
    → Outside
    → Bindings
    → String
    → String
    → Result Failure BindingStatus × Bindings
unfolding reconcile_binding reconcile_row operation_for_reconcile
reconcile owner w b requested request_id = elim (reconcile_binding owner requested request_id) [
  | err e ↦ (err e, b)
  | ok binding_id ↦
      reconcile_found w b binding_id request_id (operation_for_reconcile b request_id binding_id)
]
