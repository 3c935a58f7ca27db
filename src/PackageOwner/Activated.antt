-- ===== src/PackageOwner/Activated.antt =====
-- What activate has done when it returns, whatever the client of the Package Runtime did.
use cyrene_yield.Common.{
  String, Bool, if◌then◌else◌, ◌≡◌, subst, refl, true, false, not, any, Option, none, some, inl,
  inr, Result, ok, err, ◌>>◌, raise_if, raise_if-ok, >>=-eq-ok, Result-cases, Option-cases,
  Bool-cases, lookup, values, lookup-insert_self, arith, eq_iff, ◌==◌,
}
use cyrene_yield.ProductStore.Bindings.{
  Phase, Scope, Operation, Owner, Bindings, idempotency_conflict, active_conflict,
  operation_pending, Begun, reserved, existing, already_active, active_owner, is_completed,
  pending_in, reserve, new_operation, binding_scope_matches, begin_inactive, begin_new,
  begin_package_binding_operation,
}
use cyrene_yield.ProductStore.Bindings.Invariant.{ActiveAt, BindingsInv}
use cyrene_yield.ProductStore.Bindings.Status.{BindingStatus}
use cyrene_yield.PackageOwner.{
  Failure, refused, package_id, PackageBindingOwner, is_identity, require_binding,
  require_installed, require_request_id,
}
use cyrene_yield.PackageOwner.Client.{Outside}
use cyrene_yield.PackageOwner.Activation.{
  activate, activate_scope, activation_scope, attempt, is_unknown, proceed, repeated,
}
use cyrene_yield.PackageOwner.Completing.{HasScope, attempt-ActiveAt, settle-ActiveAt}

module _ (request_id : String) (scope : Scope) where
  -- What an answer of begin_package_binding_operation says, with the journal after it.
  abbrev BegunActive : Begun → Bindings → Type 0
  BegunActive reserved b = HasScope request_id scope b
  BegunActive (existing row) b =
      is_completed row.phase ≡ true → ActiveAt b scope.binding_id scope.installation_id
  BegunActive (already_active i) b = ActiveAt b scope.binding_id scope.installation_id

  active_owner-ActiveAt :
      (b : Bindings) (i : String)
      → active_owner (lookup scope.binding_id b.owners) ≡ some i
      → ActiveAt b scope.binding_id i
  active_owner-ActiveAt b i h = by_owner (lookup scope.binding_id b.owners) refl h
    where
      by_phase :
          (o : Owner) (p : Phase)
          → o.phase ≡ p
          → lookup scope.binding_id b.owners ≡ some o
          → (elim p [ Phase.active ↦ some o.installation_id | _ ↦ none ]) ≡ some i
          → ActiveAt b scope.binding_id i
      by_phase o Phase.active e l h = (o, l, e, cc h)
      by_phase o Phase.intent e l h = cc
      by_phase o Phase.outcome_pending_complete e l h = cc
      by_phase o Phase.pending_reconcile e l h = cc
      by_phase o Phase.unknown e l h = cc
      by_phase o Phase.completed e l h = cc

      by_owner :
          (x : Option Owner)
          → lookup scope.binding_id b.owners ≡ x
          → active_owner x ≡ some i
          → ActiveAt b scope.binding_id i
      by_owner none l h = cc
      by_owner (some o) l h = by_phase o o.phase refl l h

  begin_new-BegunActive :
      (b : Bindings) (now : String) (owner : Option String) (answer : Begun) (b' : Bindings)
      → active_owner (lookup scope.binding_id b.owners) ≡ owner
      → begin_new b request_id scope now owner ≡ ok (answer, b')
      → BegunActive answer b'
  unfolding begin_new begin_inactive
  begin_new-BegunActive b now none answer b' a h =
      let (free, h₁) =
        raise_if-ok (any (pending_in scope.binding_id) (values b.operations)) operation_pending
          (ok (reserved, reserve b request_id scope now)) h in
      let said : reserved ≡ answer = cc h₁ in
      let made : reserve b request_id scope now ≡ b' = cc h₁ in
      subst (λ z. BegunActive z b') said
        (subst (HasScope request_id scope) made (
          new_operation request_id scope now,
          lookup-insert_self request_id (new_operation request_id scope now) b.operations,
          refl,
        ))
  begin_new-BegunActive b now (some i) answer b' a h =
      let (same, h₁) =
        raise_if-ok (not (i == scope.installation_id)) active_conflict (ok (already_active i, b))
          h in
      let said : already_active i ≡ answer = cc h₁ in
      let kept : b ≡ b' = cc h₁ in
      let same_id : i ≡ scope.installation_id = ground (arith, eq_iff i scope.installation_id) in
      subst (λ z. BegunActive z b') said
        (subst (λ z. ActiveAt z scope.binding_id scope.installation_id) kept
          (subst (ActiveAt b scope.binding_id) same_id (active_owner-ActiveAt b i a)))

  existing-BegunActive :
      (b : Bindings) (row : Operation)
      → BindingsInv b
      → lookup request_id b.operations ≡ some row
      → binding_scope_matches row scope ≡ true
      → BegunActive (existing row) b
  unfolding binding_scope_matches
  existing-BegunActive b row inv l m done =
      let (e, r, active) = inv.erased request_id row l done in
      let binding : row.scope.binding_id ≡ scope.binding_id =
        ground (arith, eq_iff row.scope.binding_id scope.binding_id) in
      let installation : row.scope.installation_id ≡ scope.installation_id =
        ground (arith, eq_iff row.scope.installation_id scope.installation_id) in
      subst (λ z. ActiveAt b z scope.installation_id) binding
        (subst (ActiveAt b row.scope.binding_id) installation active)

  begin-BegunActive :
      (b : Bindings) (now : String) (answer : Begun) (b' : Bindings)
      → BindingsInv b
      → begin_package_binding_operation b request_id scope now ≡ ok (answer, b')
      → BegunActive answer b'
  unfolding begin_package_binding_operation
  begin-BegunActive b now answer b' inv h = elim (Option-cases (lookup request_id b.operations)) [
    | inl n ↦
        begin_new-BegunActive b now (active_owner (lookup scope.binding_id b.owners)) answer b' refl
          (rw (n, begin_package_binding_operation) at h)
    | inr (row, l) ↦
        let (m, h₁) =
          raise_if-ok (not (binding_scope_matches row scope)) idempotency_conflict
            (ok (existing row, b)) (rw (l, begin_package_binding_operation) at h) in
        let said : existing row ≡ answer = cc h₁ in
        let kept : b ≡ b' = cc h₁ in
        subst (λ z. BegunActive z b') said
          (subst (BegunActive (existing row)) kept
            (existing-BegunActive b row inv l (ground arith)))
  ]

  proceed-ActiveAt :
      (w : Outside) (x : Begun × Bindings) (status : BindingStatus)
      → BegunActive x.0 x.1
      → (proceed w request_id scope x).0 ≡ ok status
      → ActiveAt (proceed w request_id scope x).1 scope.binding_id scope.installation_id
  proceed-ActiveAt w (reserved, b) status p h =
      settle-ActiveAt request_id scope w (attempt w request_id scope b) status
        (attempt-ActiveAt request_id scope w b p) h
  proceed-ActiveAt w (already_active i, b) status p h = p
  proceed-ActiveAt w (existing row, b) status p h = elim (Bool-cases (is_completed row.phase)) [
    | inl t ↦ p t
    | inr n ↦ absurd (unfinished (is_unknown row.phase) (rw (n, repeated) at h))
  ]
    where
      unfinished :
          (u : Bool)
          → ◌≡◌ {A = Result Failure BindingStatus}
              (if u
                then err (refused 409 "YIELD_PACKAGE_BINDING_UNKNOWN")
                else err (refused 409 "YIELD_PACKAGE_BINDING_OPERATION_PENDING"))
              (ok status)
          → ⊥
      unfinished true h = cc
      unfinished false h = cc

  activate_scope-ActiveAt :
      (w : Outside) (b : Bindings) (status : BindingStatus)
      → BindingsInv b
      → (activate_scope w b request_id scope).0 ≡ ok status
      → ActiveAt (activate_scope w b request_id scope).1 scope.binding_id scope.installation_id
  unfolding activate_scope
  activate_scope-ActiveAt w b status inv h =
      elim (Result-cases (begin_package_binding_operation b request_id scope w.began)) [
        | inl (x, e) ↦
            rw (e, activate_scope)
              (proceed-ActiveAt w x status (begin-BegunActive b w.began x.0 x.1 inv e)
                (rw (e, activate_scope) at h))
        | inr (f, e) ↦ cc (rw (e, activate_scope) at h)
      ]

require_installed_same :
    (installed : Option String) (requested : String) {binding_id : String}
    → require_installed installed requested ≡ ok binding_id
    → binding_id ≡ requested
unfolding require_installed
require_installed_same none requested h = cc
require_installed_same (some id) requested h =
    let (valid, h₁) =
      raise_if-ok (not (is_identity id)) (refused 503 "YIELD_PACKAGE_BINDING_OWNER_DISABLED")
        (raise_if (not (requested == id)) (refused 404 "YIELD_PACKAGE_BINDING_NOT_FOUND") >> ok id)
        h in
    let (found, h₂) =
      raise_if-ok (not (requested == id)) (refused 404 "YIELD_PACKAGE_BINDING_NOT_FOUND") (ok id)
        h₁ in
    let same : requested ≡ id = ground (arith, eq_iff requested id) in cc (h₂, same)

pub require_binding_same :
    (owner : PackageBindingOwner) (requested : String) {binding_id : String}
    → require_binding owner requested ≡ ok binding_id
    → binding_id ≡ requested
unfolding require_binding
require_binding_same owner requested h =
    let (valid, h₁) =
      raise_if-ok (not (is_identity requested)) (refused 422 "YIELD_PACKAGE_BINDING_ID_INVALID")
        (require_installed owner.binding_id requested) h in
    require_installed_same owner.binding_id requested h₁

activation_scope_same :
    (owner : PackageBindingOwner) (requested installation_id request_id : String) (scope : Scope)
    → activation_scope owner requested (some installation_id) request_id ≡ ok scope
    → (scope.binding_id ≡ requested) × (scope.installation_id ≡ installation_id)
unfolding activation_scope
activation_scope_same owner requested installation_id request_id scope h =
    let made : String → Result Failure Scope = λ id.
      require_request_id request_id
      >> ok (record {
        binding_id = id;
        package_id = package_id;
        installation_id = installation_id;
      }) in
    let invalid = refused 422 "YIELD_PACKAGE_INSTALLATION_ID_INVALID" in
    let (id, e, h₁) =
      >>=-eq-ok (require_binding owner requested)
        (λ id. raise_if (not (is_identity installation_id)) invalid >> made id) h in
    let (valid, h₂) = raise_if-ok (not (is_identity installation_id)) invalid (made id) h₁ in
    let (u, v, h₃) = >>=-eq-ok (require_request_id request_id) (λ _. _) h₂ in
    let same = require_binding_same owner requested e in (cc (h₃, same), cc h₃)

-- An activation that returns leaves the binding active with the installation that was asked for, whatever
-- the client of the Package Runtime called, returned or raised, and also where the request had been
-- made before.
pub activate-ActiveAt :
    (owner : PackageBindingOwner) (w : Outside) (b : Bindings)
    (requested installation_id request_id : String) (status : BindingStatus)
    → BindingsInv b
    → (activate owner w b requested (some installation_id) request_id).0 ≡ ok status
    → ActiveAt
        (activate owner w b requested (some installation_id) request_id).1
        requested
        installation_id
unfolding activate
activate-ActiveAt owner w b requested installation_id request_id status inv h =
    elim (Result-cases (activation_scope owner requested (some installation_id) request_id)) [
      | inl (scope, e) ↦
          let (same, same') =
            activation_scope_same owner requested installation_id request_id scope e in
          rw (e, activate)
            (subst (λ z. ActiveAt (activate_scope w b request_id scope).1 requested z) same'
              (subst (λ z. ActiveAt (activate_scope w b request_id scope).1 z scope.installation_id)
                same
                (activate_scope-ActiveAt request_id scope w b status inv (rw (e, activate) at h))))
      | inr (f, e) ↦ cc (rw (e, activate) at h)
    ]
