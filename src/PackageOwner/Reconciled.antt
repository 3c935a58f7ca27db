-- ===== src/PackageOwner/Reconciled.antt =====
-- What reconcile has done when it returns.
use cyrene_yield.Common.{
  String, ◌≡◌, ◌∙◌, refl, subst, ◌==◌, Option, none, some, inl, inr, ok, ◌>>◌, >>=-eq-ok,
  Result-cases, Option-cases, Bool-cases, lookup, eq_iff,
}
use cyrene_yield.Values.{Fields}
use cyrene_yield.ProductStore.Bindings.{Operation, Bindings, is_completed, operation_for_reconcile}
use cyrene_yield.ProductStore.Bindings.Invariant.{ActiveAt, BindingsInv}
use cyrene_yield.ProductStore.Bindings.Status.{BindingStatus}
use cyrene_yield.PackageOwner.{
  Failure, refused, other, PackageBindingOwner, require_binding, require_request_id,
}
use cyrene_yield.PackageOwner.Client.{Outside, perform, perform_keeps}
use cyrene_yield.PackageOwner.Reconciliation.{
  answered, read_back, reconcilable, reconcile, reconcile_binding, reconcile_call, reconcile_client,
  reconcile_row, scope_of,
}
use cyrene_yield.PackageOwner.Keeping.{reconcile_call_keeps}
use cyrene_yield.PackageOwner.Completing.{HasScope, record-HasScope, complete_request-ActiveAt}
use cyrene_yield.PackageOwner.Activated.{require_binding_same}

-- An operation that is found to be reconciled has the request's key and the binding.
operation_for_reconcile-some :
    (b : Bindings) (request_id binding_id : String) (row : Operation)
    → operation_for_reconcile b request_id binding_id ≡ some row
    → (lookup request_id b.operations ≡ some row) × (row.scope.binding_id ≡ binding_id)
unfolding operation_for_reconcile
operation_for_reconcile-some b request_id binding_id row h =
    elim (Option-cases (lookup request_id b.operations)) [
      | inl n ↦ cc (rw (n, operation_for_reconcile) at h)
      | inr (r, l) ↦ elim (Bool-cases (r.scope.binding_id == binding_id)) [
        | inl t ↦
            let e : r ≡ row = cc (rw (l, t, operation_for_reconcile) at h) in
            let same : r.scope.binding_id ≡ binding_id =
              (eq_iff r.scope.binding_id binding_id).0 t in
            subst
              (λ (z : Operation).
                (lookup request_id b.operations ≡ some z) × (z.scope.binding_id ≡ binding_id))
              e (l, same)
        | inr f ↦ cc (rw (l, f, operation_for_reconcile) at h)
      ]
    ]

module _ (w : Outside) (b : Bindings) (request_id : String) (row : Operation)
    (found : lookup request_id b.operations ≡ some row) where
  read_back-ActiveAt :
      (stored : Fields)
      → (read_back w request_id row stored b).0 ≡ none
      → ActiveAt
          (read_back w request_id row stored b).1
          row.scope.binding_id
          row.scope.installation_id
  unfolding read_back
  read_back-ActiveAt stored h = elim (Result-cases (reconcile_client w stored)) [
    | inl (activity, e) ↦
        rw (e, read_back)
          (complete_request-ActiveAt request_id row.scope w.completed
            (perform (reconcile_call request_id row stored) activity b)
            (perform_keeps (HasScope request_id row.scope) (reconcile_call request_id row stored)
              (reconcile_call_keeps (HasScope request_id row.scope) request_id row
                (record-HasScope request_id (scope_of row) row.scope) stored)
              activity b (row, found, refl))
            (rw (e, read_back) at h))
    | inr (f, e) ↦ cc (rw (e, read_back) at h)
  ]

  answered-ActiveAt :
      (binding_id : String) (x : Option Failure × Bindings) (status : BindingStatus)
      → (x.0 ≡ none → ActiveAt x.1 row.scope.binding_id row.scope.installation_id)
      → (answered binding_id x).0 ≡ ok status
      → ActiveAt (answered binding_id x).1 row.scope.binding_id row.scope.installation_id
  unfolding answered
  answered-ActiveAt binding_id (none, b') status p h = p refl
  answered-ActiveAt binding_id (some (refused s c), b') status p h = cc
  answered-ActiveAt binding_id (some (other pending), b') status p h = cc

  reconcile_row-ActiveAt :
      (binding_id : String) (status : BindingStatus)
      → BindingsInv b
      → (reconcile_row w b binding_id request_id row).0 ≡ ok status
      → ActiveAt
          (reconcile_row w b binding_id request_id row).1
          row.scope.binding_id
          row.scope.installation_id
  unfolding reconcile_row
  reconcile_row-ActiveAt binding_id status inv h = elim (Bool-cases (is_completed row.phase)) [
    | inl t ↦
        rw (t, reconcile_row) (let (e, r, active) = inv.erased request_id row found t in active)
    | inr n ↦ elim (Result-cases (reconcilable row row.receipt)) [
      | inl (stored, e) ↦
          rw (n, e, reconcile_row)
            (answered-ActiveAt binding_id (read_back w request_id row stored b) status
              (read_back-ActiveAt stored) (rw (n, e, reconcile_row) at h))
      | inr (f, e) ↦ cc (rw (n, e, reconcile_row) at h)
    ]
  ]

reconcile_binding_same :
    (owner : PackageBindingOwner) (requested request_id binding_id : String)
    → reconcile_binding owner requested request_id ≡ ok binding_id
    → binding_id ≡ requested
unfolding reconcile_binding
reconcile_binding_same owner requested request_id binding_id h =
    let (id, e, h₁) =
      >>=-eq-ok (require_binding owner requested) (λ id. require_request_id request_id >> ok id)
        h in
    let (u, v, h₂) = >>=-eq-ok (require_request_id request_id) (λ _. ok id) h₁ in
    cc (h₂, require_binding_same owner requested e)

-- A reconciliation that returns is of an operation that the journal has for the binding, and leaves the
-- binding active with the installation of that operation, whatever the Package Runtime did.
pub reconcile-ActiveAt :
    (owner : PackageBindingOwner) (w : Outside) (b : Bindings) (requested request_id : String)
    (status : BindingStatus)
    → BindingsInv b
    → (reconcile owner w b requested request_id).0 ≡ ok status
    → (row : Operation) × (lookup request_id b.operations ≡ some row)
      × (row.scope.binding_id ≡ requested)
      × ActiveAt (reconcile owner w b requested request_id).1 requested row.scope.installation_id
unfolding reconcile
reconcile-ActiveAt owner w b requested request_id status inv h =
    elim (Result-cases (reconcile_binding owner requested request_id)) [
      | inr (f, e) ↦ cc (rw (e, reconcile) at h)
      | inl (id, e) ↦ elim (Option-cases (operation_for_reconcile b request_id id)) [
        | inl n ↦ cc (rw (e, n, reconcile) at h)
        | inr (row, l) ↦
            let (found, same) = operation_for_reconcile-some b request_id id row l in
            let asked = same ∙ reconcile_binding_same owner requested request_id id e in
            (
              row,
              found,
              asked,
              rw (e, l, reconcile)
                  (subst
                    (λ z.
                      ActiveAt (reconcile_row w b id request_id row).1 z row.scope.installation_id)
                    asked
                    (reconcile_row-ActiveAt w b request_id row found id status inv
                      (rw (e, l, reconcile) at h))),
            )
      ]
    ]
