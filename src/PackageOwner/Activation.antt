-- ===== src/PackageOwner/Activation.antt =====
-- status and activate of package_runtime_owner.py: the intent is written first, the client activates and
-- calls back, and what is left of a failure is a receipt to reconcile or an unknown outcome.
use cyrene_yield.Common.{
  String, Bool, true, false, not, Option, none, some, is_empty, same_option, Result, ok, err, ◌>>=◌,
  ◌>>◌, raise_if, if◌then◌else◌,
}
use cyrene_yield.Values.{Value, Fields}
use cyrene_yield.ProductStore.Bindings.{
  Phase, Scope, Operation, Bindings, BindingError, idempotency_conflict, active_conflict, Begun,
  reserved, existing, already_active, is_completed, begin_package_binding_operation,
  verify_package_binding_intent, record_package_binding_outcome, mark_package_binding_unknown,
  mark_package_binding_completed, operation_for_reconcile,
}
use cyrene_yield.ProductStore.Bindings.Status.{BindingStatus, package_binding_status}
use cyrene_yield.PackageOwner.{
  Failure, refused, other, package_id, product_source_id, PackageBindingOwner, is_identity,
  require_binding, require_request_id,
}
use cyrene_yield.PackageOwner.Client.{
  Activity, ActivationCall, persist_intent, persist, Client, unavailable, broken, opened, Outside,
  perform,
}
use cyrene_yield.PackageOwner.Receipts.{
  StatusOutcome, receipt_value, status_outcome, validate_installation,
}

-- status
unfoldable pub status : PackageBindingOwner → Bindings → String → Result Failure BindingStatus
unfolding require_binding package_binding_status
status owner b requested = do
  binding_id ← require_binding owner requested
  ok (package_binding_status b binding_id)

-- _package_runtime_client
unfoldable pub package_runtime_client : Outside → Result Failure Client
package_runtime_client w = elim w.from_environment [
  | unavailable ↦ err (refused 503 "YIELD_PACKAGE_RUNTIME_UNAVAILABLE")
  | broken e ↦ err e
  | opened client ↦ do
    raise_if (not (same_option client.source_id (some product_source_id)))
        (refused 503 "YIELD_PACKAGE_RUNTIME_SOURCE_INVALID")
    ok client
]

-- A call that raises in the try block and is not an owner failure: the handler takes its attribute.
abbrev pub as_failure : {A : Type 0} → Result BindingError A → Option Failure
as_failure (err e) = some (other none)
as_failure (ok a) = none

-- record_package_binding_outcome, with the journal after it.
unfoldable pub recorded_outcome :
    Bindings
    → String
    → Scope
    → Fields
    → StatusOutcome
    → Phase
    → String
    → String
    → Option Failure × Bindings
unfolding record_package_binding_outcome
recorded_outcome b request_id scope receipt outcome phase blocker now =
    elim (record_package_binding_outcome b request_id scope outcome.snapshot receipt phase
      (some blocker) now) [ err e ↦ (some (other none), b) | ok b' ↦ (none, b') ]

abbrev or_not_running : String → String
or_not_running blocker = if is_empty blocker then "YIELD_PACKAGE_BINDING_NOT_RUNNING" else blocker

-- raise PackageBindingOwnerFailure, if the runtime is not healthy and nothing was raised before
abbrev pub unless_healthy : StatusOutcome → Option Failure → Option Failure
unless_healthy outcome (some e) = some e
unless_healthy outcome none =
    if outcome.healthy then none else some (refused 409 (or_not_running outcome.blocker))

abbrev pub outcome_phase : StatusOutcome → Phase
outcome_phase outcome =
    if outcome.healthy then Phase.outcome_pending_complete else Phase.pending_reconcile

abbrev persist_outcome :
    String → Scope → Fields → StatusOutcome → String → Bindings → Option Failure × Bindings
persist_outcome request_id scope receipt outcome now b =
    let answer =
      recorded_outcome b request_id scope receipt outcome (outcome_phase outcome) outcome.blocker
        now in
    (unless_healthy outcome answer.0, answer.1)

-- persist_intent and persist, which activate gives to the client
unfoldable pub activation_call :
    String → Scope → ActivationCall → Bindings → Option Failure × Bindings
unfolding verify_package_binding_intent recorded_outcome receipt_value status_outcome
activation_call request_id scope (persist_intent persisted_request_id persisted_scope) b =
    (as_failure (verify_package_binding_intent b persisted_request_id persisted_scope), b)
activation_call request_id scope (persist status receipt now) b =
    elim (receipt_value receipt request_id scope) [
      | err e ↦ (some e, b)
      | ok value ↦
          persist_outcome request_id scope value
            (status_outcome status scope.binding_id scope.installation_id) now b
    ]

-- Up to the client's activate_and_persist.
unfoldable pub activation_client :
    Outside → String → String → Result Failure (Activity ActivationCall)
unfolding package_runtime_client validate_installation
activation_client w binding_id installation_id = do
  client ← package_runtime_client w
  installation ← client.get_installation installation_id
  validate_installation installation installation_id
  ok (client.activate_and_persist binding_id installation_id package_id)

-- mark_package_binding_completed at the end of a try block that raised nothing before it
abbrev pub complete_request :
    String → String → Option Failure × Bindings → Option Failure × Bindings
complete_request request_id now (some e, b) = (some e, b)
complete_request request_id now (none, b) = elim (mark_package_binding_completed b request_id now) [
  | err e ↦ (some (other none), b)
  | ok b' ↦ (none, b')
]

-- The try block of activate.
unfoldable pub attempt : Outside → String → Scope → Bindings → Option Failure × Bindings
unfolding activation_client activation_call perform mark_package_binding_completed
attempt w request_id scope b = elim (activation_client w scope.binding_id scope.installation_id) [
  | err e ↦ (some e, b)
  | ok activity ↦
      complete_request request_id w.completed
        (perform (activation_call request_id scope) activity b)
]

-- _preserve_or_mark_unknown
unfoldable pub preserve_or_mark_unknown :
    Outside → String → String → Bindings → Option Failure × Bindings
unfolding operation_for_reconcile mark_package_binding_unknown
preserve_or_mark_unknown w request_id binding_id b =
    elim (operation_for_reconcile b request_id binding_id) [
      | none ↦ (none, b)
      | some row ↦ elim row.receipt [
        | some r ↦ (none, b)
        | none ↦
            elim (mark_package_binding_unknown b request_id "PACKAGE_RUNTIME_OUTCOME_UNKNOWN"
              w.projected w.failed) [ err e ↦ (some (other none), b) | ok b' ↦ (none, b') ]
      ]
    ]

-- The receipt that an exception carries is recorded.
abbrev pub pending_outcome : StatusOutcome
pending_outcome = record { snapshot = none; healthy = false; blocker = "" }

unfoldable pub record_pending :
    Outside → String → Scope → Value → Bindings → Option Failure × Bindings
unfolding receipt_value recorded_outcome
record_pending w request_id scope pending b = elim (receipt_value pending request_id scope) [
  | err e ↦ (some e, b)
  | ok value ↦
      recorded_outcome b request_id scope value pending_outcome Phase.pending_reconcile
        "PACKAGE_RUNTIME_RECONCILE_REQUIRED" w.failed
]

-- What `except Exception` does to the journal.
unfoldable pub keep_pending :
    Outside → String → Scope → Option Value → Bindings → Option Failure × Bindings
unfolding record_pending preserve_or_mark_unknown
keep_pending w request_id scope none b = preserve_or_mark_unknown w request_id scope.binding_id b
keep_pending w request_id scope (some pending) b =
    let stored = record_pending w request_id scope pending b in
    let unknown = preserve_or_mark_unknown w request_id scope.binding_id stored.1 in
    elim stored.0 [ none ↦ (none, stored.1) | some e ↦ unknown ]

abbrev has_receipt : Option Operation → Bool
has_receipt none = false
has_receipt (some row) = elim row.receipt [ none ↦ false | some r ↦ true ]

-- The failure that a handler ends with, unless the handler itself raised.
abbrev or_raised : Option Failure → Failure → Failure
or_raised (some e) f = e
or_raised none f = f

abbrev unresolved : String → Scope → Bindings → Failure
unresolved request_id scope b =
    if has_receipt (operation_for_reconcile b request_id scope.binding_id)
    then refused 409 "YIELD_PACKAGE_BINDING_RECONCILE_REQUIRED"
    else refused 409 "YIELD_PACKAGE_BINDING_UNKNOWN"

-- The return and the except clauses of activate.
unfoldable pub settle :
    Outside → String → Scope → Option Failure × Bindings → Result Failure BindingStatus × Bindings
unfolding preserve_or_mark_unknown keep_pending operation_for_reconcile package_binding_status
settle w request_id scope (none, b) = (ok (package_binding_status b scope.binding_id), b)
settle w request_id scope (some (refused status_code code), b) =
    let kept = preserve_or_mark_unknown w request_id scope.binding_id b in
    (err (or_raised kept.0 (refused status_code code)), kept.1)
settle w request_id scope (some (other pending), b) =
    let kept = keep_pending w request_id scope pending b in
    (err (or_raised kept.0 (unresolved request_id scope kept.1)), kept.1)

abbrev begin_code : BindingError → String
begin_code active_conflict = "YIELD_PACKAGE_BINDING_ACTIVE_CONFLICT"
begin_code idempotency_conflict = "YIELD_PACKAGE_BINDING_IDEMPOTENCY_CONFLICT"
begin_code _ = "YIELD_PACKAGE_BINDING_OPERATION_PENDING"

abbrev pub is_unknown : Phase → Bool
is_unknown Phase.unknown = true
is_unknown _ = false

-- The answer to a request that had begun before.
abbrev pub repeated : Bindings → String → Operation → Result Failure BindingStatus
repeated b binding_id row =
    if is_completed row.phase
    then ok (package_binding_status b binding_id)
    else if is_unknown row.phase
    then err (refused 409 "YIELD_PACKAGE_BINDING_UNKNOWN")
    else err (refused 409 "YIELD_PACKAGE_BINDING_OPERATION_PENDING")

abbrev pub proceed :
    Outside → String → Scope → Begun × Bindings → Result Failure BindingStatus × Bindings
proceed w request_id scope (reserved, b) = settle w request_id scope (attempt w request_id scope b)
proceed w request_id scope (already_active installation_id, b) =
    (ok (package_binding_status b scope.binding_id), b)
proceed w request_id scope (existing row, b) = (repeated b scope.binding_id row, b)

-- The tests before the first write; installation_id or "".
unfoldable pub activation_scope :
    PackageBindingOwner → String → Option String → String → Result Failure Scope
unfolding require_binding require_request_id is_identity
activation_scope owner requested none request_id = do
  binding_id ← require_binding owner requested
  err (refused 422 "YIELD_PACKAGE_INSTALLATION_ID_INVALID")
activation_scope owner requested (some installation_id) request_id = do
  binding_id ← require_binding owner requested
  raise_if (not (is_identity installation_id)) (refused 422 "YIELD_PACKAGE_INSTALLATION_ID_INVALID")
  require_request_id request_id
  ok (record {
    binding_id = binding_id;
    package_id = package_id;
    installation_id = installation_id;
  })

unfoldable pub activate_scope :
    Outside → Bindings → String → Scope → Result Failure BindingStatus × Bindings
unfolding begin_package_binding_operation attempt settle package_binding_status
activate_scope w b request_id scope =
    elim (begin_package_binding_operation b request_id scope w.began) [
      | err e ↦ (err (refused 409 (begin_code e)), b)
      | ok begun ↦ proceed w request_id scope begun
    ]

-- activate
unfoldable pub activate :
    PackageBindingOwner
    → Outside
    → Bindings
    → String
    → Option String
    → String
    → Result Failure BindingStatus × Bindings
unfolding activation_scope activate_scope
activate owner w b requested installation_id request_id =
    elim (activation_scope owner requested installation_id request_id) [
      | err e ↦ (err e, b)
      | ok scope ↦ activate_scope w b request_id scope
    ]
