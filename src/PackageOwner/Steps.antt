-- ===== src/PackageOwner/Steps.antt =====
-- Whatever the client of the Package Runtime does, activate and reconcile only make calls of the binding
-- journal.
use cyrene_yield.Common.{
  String, ◌≡◌, Option, none, some, inl, inr, ok, Result-cases, Option-cases, Bool-cases,
}
use cyrene_yield.Values.{Value, Fields}
use cyrene_yield.ProductStore.Bindings.{
  Phase, RuntimeStatus, Scope, Operation, Bindings, Begun, reserved, existing, already_active,
  is_completed, begin_package_binding_operation, record_package_binding_outcome,
  mark_package_binding_unknown, mark_package_binding_completed, operation_for_reconcile,
}
use cyrene_yield.ProductStore.Bindings.Reach.{
  Reach, here, next, began, recorded, unknown_marked, completed_marked,
}
use cyrene_yield.PackageOwner.{Failure, refused, other, PackageBindingOwner}
use cyrene_yield.PackageOwner.Client.{Outside, perform_keeps}
use cyrene_yield.PackageOwner.Activation.{
  activate, activate_scope, activation_scope, activation_call, activation_client, attempt,
  complete_request, keep_pending, preserve_or_mark_unknown, proceed, record_pending, settle,
}
use cyrene_yield.PackageOwner.Reconciliation.{
  answered, read_back, reconcilable, reconcile, reconcile_binding, reconcile_call, reconcile_client,
  reconcile_row, scope_of,
}
use cyrene_yield.PackageOwner.Keeping.{
  activation_call_keeps, record_pending_keeps, reconcile_call_keeps,
}

module _ (b₀ : Bindings) where
  outcome-Reach :
      (request_id : String) (scope : Scope) (status : Option RuntimeStatus) (receipt : Fields)
      (phase : Phase) (blocker : Option String) (now : String) (b b' : Bindings)
      → record_package_binding_outcome b request_id scope status receipt phase blocker now ≡ ok b'
      → Reach b₀ b
      → Reach b₀ b'
  outcome-Reach request_id scope status receipt phase blocker now b b' e r =
      next r (recorded request_id scope status receipt phase blocker now e)

  complete_request-Reach :
      (request_id now : String) (x : Option Failure × Bindings)
      → Reach b₀ x.1
      → Reach b₀ (complete_request request_id now x).1
  complete_request-Reach request_id now (some f, b) r = r
  complete_request-Reach request_id now (none, b) r =
      elim (Result-cases (mark_package_binding_completed b request_id now)) [
        | inl (b', e) ↦ rw (e, complete_request) (next r (completed_marked request_id now e))
        | inr (f, e) ↦ rw (e, complete_request) r
      ]

  attempt-Reach :
      (w : Outside) (request_id : String) (scope : Scope) (b : Bindings)
      → Reach b₀ b
      → Reach b₀ (attempt w request_id scope b).1
  unfolding attempt
  attempt-Reach w request_id scope b r =
      elim (Result-cases (activation_client w scope.binding_id scope.installation_id)) [
        | inl (activity, e) ↦
            rw (e, attempt)
              (complete_request-Reach request_id w.completed _ (
                perform_keeps (Reach b₀) (activation_call request_id scope)
                  (activation_call_keeps (Reach b₀) request_id scope
                    (outcome-Reach request_id scope))
                  activity b r))
        | inr (f, e) ↦ rw (e, attempt) r
      ]

  preserve-Reach :
      (w : Outside) (request_id binding_id : String) (b : Bindings)
      → Reach b₀ b
      → Reach b₀ (preserve_or_mark_unknown w request_id binding_id b).1
  unfolding preserve_or_mark_unknown
  preserve-Reach w request_id binding_id b r =
      elim (Option-cases (operation_for_reconcile b request_id binding_id)) [
        | inl n ↦ rw (n, preserve_or_mark_unknown) r
        | inr (row, e) ↦
            rw (e, preserve_or_mark_unknown)
              (elim (Option-cases row.receipt) [
                | inr (c, h) ↦ rw (h, preserve_or_mark_unknown) r
                | inl n ↦
                    rw (n, preserve_or_mark_unknown)
                      (elim (Result-cases (
                        mark_package_binding_unknown b request_id "PACKAGE_RUNTIME_OUTCOME_UNKNOWN"
                          w.projected w.failed)) [
                            | inl (b', m) ↦
                                rw (m, preserve_or_mark_unknown)
                                  (next r (
                                    unknown_marked request_id "PACKAGE_RUNTIME_OUTCOME_UNKNOWN"
                                      w.projected w.failed m))
                            | inr (f, m) ↦ rw (m, preserve_or_mark_unknown) r
                          ])
              ])
      ]

  keep_pending-Reach :
      (w : Outside) (request_id : String) (scope : Scope) (pending : Option Value) (b : Bindings)
      → Reach b₀ b
      → Reach b₀ (keep_pending w request_id scope pending b).1
  unfolding keep_pending
  keep_pending-Reach w request_id scope none b r = preserve-Reach w request_id scope.binding_id b r
  keep_pending-Reach w request_id scope (some pending) b r =
      let stored =
        record_pending_keeps (Reach b₀) request_id scope (outcome-Reach request_id scope) w pending
          b r in
      elim (Option-cases (record_pending w request_id scope pending b).0) [
        | inl n ↦ rw (n, keep_pending) stored
        | inr (f, e) ↦ rw (e, keep_pending) (preserve-Reach w request_id scope.binding_id _ stored)
      ]

  settle-Reach :
      (w : Outside) (request_id : String) (scope : Scope) (x : Option Failure × Bindings)
      → Reach b₀ x.1
      → Reach b₀ (settle w request_id scope x).1
  unfolding settle
  settle-Reach w request_id scope (none, b) r = r
  settle-Reach w request_id scope (some (refused s c), b) r =
      preserve-Reach w request_id scope.binding_id b r
  settle-Reach w request_id scope (some (other pending), b) r =
      keep_pending-Reach w request_id scope pending b r

  proceed-Reach :
      (w : Outside) (request_id : String) (scope : Scope) (x : Begun × Bindings)
      → Reach b₀ x.1
      → Reach b₀ (proceed w request_id scope x).1
  proceed-Reach w request_id scope (reserved, b) r =
      settle-Reach w request_id scope _ (attempt-Reach w request_id scope b r)
  proceed-Reach w request_id scope (already_active i, b) r = r
  proceed-Reach w request_id scope (existing row, b) r = r

  read_back-Reach :
      (w : Outside) (request_id : String) (row : Operation) (stored : Fields) (b : Bindings)
      → Reach b₀ b
      → Reach b₀ (read_back w request_id row stored b).1
  unfolding read_back
  read_back-Reach w request_id row stored b r = elim (Result-cases (reconcile_client w stored)) [
    | inl (activity, e) ↦
        rw (e, read_back)
          (complete_request-Reach request_id w.completed _ (
            perform_keeps (Reach b₀) (reconcile_call request_id row stored)
              (reconcile_call_keeps (Reach b₀) request_id row
                (outcome-Reach request_id (scope_of row)) stored)
              activity b r))
    | inr (f, e) ↦ rw (e, read_back) r
  ]

  answered-Reach :
      (binding_id : String) (x : Option Failure × Bindings)
      → Reach b₀ x.1
      → Reach b₀ (answered binding_id x).1
  unfolding answered
  answered-Reach binding_id (none, b) r = r
  answered-Reach binding_id (some (refused s c), b) r = r
  answered-Reach binding_id (some (other pending), b) r = r

activate_scope-Reach :
    (w : Outside) (b : Bindings) (request_id : String) (scope : Scope)
    → Reach b (activate_scope w b request_id scope).1
unfolding activate_scope
activate_scope-Reach w b request_id scope =
    elim (Result-cases (begin_package_binding_operation b request_id scope w.began)) [
      | inl (x, e) ↦
          rw (e, activate_scope)
            (proceed-Reach b w request_id scope x
              (next here (began request_id scope w.began x.0 e)))
      | inr (f, e) ↦ rw (e, activate_scope) here
    ]

pub activate-Reach :
    (owner : PackageBindingOwner) (w : Outside) (b : Bindings) (requested : String)
    (installation_id : Option String) (request_id : String)
    → Reach b (activate owner w b requested installation_id request_id).1
unfolding activate
activate-Reach owner w b requested installation_id request_id =
    elim (Result-cases (activation_scope owner requested installation_id request_id)) [
      | inl (scope, e) ↦ rw (e, activate) (activate_scope-Reach w b request_id scope)
      | inr (f, e) ↦ rw (e, activate) here
    ]

reconcile_row-Reach :
    (w : Outside) (b : Bindings) (binding_id request_id : String) (row : Operation)
    → Reach b (reconcile_row w b binding_id request_id row).1
unfolding reconcile_row
reconcile_row-Reach w b binding_id request_id row = elim (Bool-cases (is_completed row.phase)) [
  | inl t ↦ rw (t, reconcile_row) here
  | inr n ↦
      rw (n, reconcile_row)
        (elim (Result-cases (reconcilable row row.receipt)) [
          | inl (stored, e) ↦
              rw (e, reconcile_row)
                (answered-Reach b binding_id _ (read_back-Reach b w request_id row stored b here))
          | inr (f, e) ↦ rw (e, reconcile_row) here
        ])
]

pub reconcile-Reach :
    (owner : PackageBindingOwner) (w : Outside) (b : Bindings) (requested request_id : String)
    → Reach b (reconcile owner w b requested request_id).1
unfolding reconcile
reconcile-Reach owner w b requested request_id =
    elim (Result-cases (reconcile_binding owner requested request_id)) [
      | inl (binding_id, e) ↦
          rw (e, reconcile)
            (elim (Option-cases (operation_for_reconcile b request_id binding_id)) [
              | inl n ↦ rw (n, reconcile) here
              | inr (row, l) ↦ rw (l, reconcile) (reconcile_row-Reach w b binding_id request_id row)
            ])
      | inr (f, e) ↦ rw (e, reconcile) here
    ]
