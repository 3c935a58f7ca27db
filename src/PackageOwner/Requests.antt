-- ===== src/PackageOwner/Requests.antt =====
-- A request that was made before, and the journal after any call of the owner.
use cyrene_yield.Common.{
  String, ◌≡◌, refl, not, Option, some, inl, inr, ok, ◌>>◌, raise_if, Result-cases, Bool-cases,
  lookup,
}
use cyrene_yield.ProductStore.Bindings.{
  Scope, Operation, Bindings, idempotency_conflict, existing, binding_scope_matches,
  begin_package_binding_operation,
}
use cyrene_yield.ProductStore.Bindings.Invariant.{BindingsInv}
use cyrene_yield.ProductStore.Bindings.Reach.{Reach-BindingsInv}
use cyrene_yield.PackageOwner.{PackageBindingOwner}
use cyrene_yield.PackageOwner.Client.{Outside}
use cyrene_yield.PackageOwner.Activation.{activate, activate_scope, activation_scope}
use cyrene_yield.PackageOwner.Reconciliation.{reconcile}
use cyrene_yield.PackageOwner.Steps.{activate-Reach, reconcile-Reach}

module _ (b : Bindings) (request_id : String) (row : Operation)
    (found : lookup request_id b.operations ≡ some row) where
  begin_again :
      (scope : Scope) (now : String)
      → begin_package_binding_operation b request_id scope now ≡ (
          raise_if (not (binding_scope_matches row scope)) idempotency_conflict
          >> ok (existing row, b))
  unfolding begin_package_binding_operation
  begin_again scope now = rw (found, begin_package_binding_operation) refl

  activate_scope_again :
      (w w' : Outside) (scope : Scope)
      → (activate_scope w b request_id scope ≡ activate_scope w' b request_id scope)
        × ((activate_scope w b request_id scope).1 ≡ b)
  unfolding activate_scope
  activate_scope_again w w' scope = elim (Bool-cases (binding_scope_matches row scope)) [
    | inl t ↦ (
      rw (begin_again scope w.began, begin_again scope w'.began, t, activate_scope) refl,
      rw (begin_again scope w.began, t, activate_scope) refl,
    )
    | inr n ↦ (
      rw (begin_again scope w.began, begin_again scope w'.began, n, activate_scope) refl,
      rw (begin_again scope w.began, n, activate_scope) refl,
    )
  ]

-- A request that the journal has, in whatever phase, never activates again: the answer is the same
-- whatever the Package Runtime would do, and nothing is written.
pub activate_again :
    (owner : PackageBindingOwner) (w w' : Outside) (b : Bindings) (requested : String)
    (installation_id : Option String) (request_id : String) (row : Operation)
    → lookup request_id b.operations ≡ some row
    → (activate owner w b requested installation_id request_id
        ≡ activate owner w' b requested installation_id request_id)
      × ((activate owner w b requested installation_id request_id).1 ≡ b)
unfolding activate
activate_again owner w w' b requested installation_id request_id row found =
    elim (Result-cases (activation_scope owner requested installation_id request_id)) [
      | inl (scope, e) ↦ rw (e, activate) (activate_scope_again b request_id row found w w' scope)
      | inr (f, e) ↦ rw (e, activate) (refl, refl)
    ]

-- Whatever the client of the Package Runtime does, activate and reconcile keep the invariant of the
-- journal, also where they raise.
pub owner_calls-BindingsInv :
    (owner : PackageBindingOwner) (w : Outside) (b : Bindings) (requested : String)
    (installation_id : Option String) (request_id : String)
    → BindingsInv b
    → BindingsInv (activate owner w b requested installation_id request_id).1
      × BindingsInv (reconcile owner w b requested request_id).1
owner_calls-BindingsInv owner w b requested installation_id request_id inv = (
  Reach-BindingsInv b _ (activate-Reach owner w b requested installation_id request_id) inv,
  Reach-BindingsInv b _ (reconcile-Reach owner w b requested request_id) inv,
)
