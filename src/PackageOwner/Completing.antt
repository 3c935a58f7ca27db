-- ===== src/PackageOwner/Completing.antt =====
-- What a try block of activate that raised nothing has done, whatever the client of the Package Runtime did.
use cyrene_yield.Common.{
  String, ◌≡◌, ◌∙◌, sym, ap, subst, refl, not, Option, none, some, inl, inr, ok, ◌>>◌, raise_if,
  raise_if-ok, Result-cases, lookup, lookup-insert_self,
}
use cyrene_yield.Values.{Fields}
use cyrene_yield.ProductStore.Bindings.{
  Phase, RuntimeStatus, Scope, Operation, Bindings, outcome_missing, outcome_invalid, phase_invalid,
  receipt_conflict, is_running, is_outcome_phase, completes, takes_outcome, with_outcome,
  write_operation, write_state, record_outcome_of, record_package_binding_outcome, complete_of,
  mark_package_binding_completed,
}
use cyrene_yield.ProductStore.Bindings.Invariant.{ActiveAt}
use cyrene_yield.ProductStore.Bindings.Status.{BindingStatus}
use cyrene_yield.PackageOwner.{Failure, refused, other}
use cyrene_yield.PackageOwner.Client.{Outside, perform, perform_keeps}
use cyrene_yield.PackageOwner.Activation.{
  activation_call, activation_client, attempt, complete_request, settle,
}
use cyrene_yield.PackageOwner.Keeping.{activation_call_keeps}

-- The row of the request has the scope.
abbrev pub HasScope : String → Scope → Bindings → Type 0
HasScope request_id scope b =
    (row : Operation) × (lookup request_id b.operations ≡ some row) × (row.scope ≡ scope)

module _ (request_id : String) (scope : Scope) where
  record_of-HasScope :
      (kept : Scope) (b : Bindings) (row : Option Operation) (status : Option RuntimeStatus)
      (receipt : Fields) (phase : Phase) (blocker : Option String) (now : String) (b' : Bindings)
      → lookup request_id b.operations ≡ row
      → record_outcome_of b request_id row scope status receipt phase blocker now ≡ ok b'
      → HasScope request_id kept b
      → HasScope request_id kept b'
  unfolding record_outcome_of write_state
  record_of-HasScope kept b none status receipt phase blocker now b' l h p = cc
  record_of-HasScope kept b (some row) status receipt phase blocker now b' l h p =
      let new = with_outcome row phase status receipt blocker now in
      let after =
        write_state (write_operation b request_id new) scope request_id phase status blocker now in
      let (taken, h₁) =
        raise_if-ok (not (takes_outcome row scope receipt)) receipt_conflict (ok after) h in
      let made : after ≡ b' = cc h₁ in
      let same : p.0 ≡ row = cc (sym p.1 ∙ l) in
      subst (HasScope request_id kept) made (
        new,
        lookup-insert_self request_id new b.operations,
        ap (λ (z : Operation). z.scope) (sym same) ∙ p.2,
      )

  pub record-HasScope :
      (kept : Scope) (status : Option RuntimeStatus) (receipt : Fields) (phase : Phase)
      (blocker : Option String) (now : String) (b b' : Bindings)
      → record_package_binding_outcome b request_id scope status receipt phase blocker now ≡ ok b'
      → HasScope request_id kept b
      → HasScope request_id kept b'
  unfolding record_package_binding_outcome
  record-HasScope kept status receipt phase blocker now b b' h p =
      let (valid, h₁) =
        raise_if-ok (not (is_outcome_phase phase)) phase_invalid
          (record_outcome_of b request_id (lookup request_id b.operations) scope status receipt
            phase blocker now)
          h in
      record_of-HasScope kept b (lookup request_id b.operations) status receipt phase blocker now b'
        refl h₁ p

  complete_of-ActiveAt :
      (b : Bindings) (row : Operation) (now : String) (b' : Bindings)
      → complete_of b request_id row now ≡ ok b'
      → ActiveAt b' row.scope.binding_id row.scope.installation_id
  unfolding complete_of write_state
  complete_of-ActiveAt b row now b' h =
      let done = record row {
        phase = Phase.completed;
        updated_at = now;
        receipt = none;
        blocker = none;
      } in
      let after =
        write_state (write_operation b request_id done) row.scope request_id Phase.active row.status
          none now in
      let (u, h₁) =
        raise_if-ok (not (completes row.phase)) outcome_missing
          (raise_if (not (is_running row.status)) outcome_invalid >> ok after) h in
      let (v, h₂) = raise_if-ok (not (is_running row.status)) outcome_invalid (ok after) h₁ in
      let made : after ≡ b' = cc h₂ in
      subst (λ z. ActiveAt z row.scope.binding_id row.scope.installation_id) made
        (_, lookup-insert_self row.scope.binding_id _ b.owners, refl, refl)

  marked-ActiveAt :
      (b : Bindings) (now : String) (b' : Bindings)
      → HasScope request_id scope b
      → mark_package_binding_completed b request_id now ≡ ok b'
      → ActiveAt b' scope.binding_id scope.installation_id
  unfolding mark_package_binding_completed
  marked-ActiveAt b now b' (row, l, s) h =
      subst (λ (z : Scope). ActiveAt b' z.binding_id z.installation_id) s
        (complete_of-ActiveAt b row now b' (rw (l, mark_package_binding_completed) at h))

  -- A try block that raised nothing ended in mark_package_binding_completed.
  pub complete_request-ActiveAt :
      (now : String) (x : Option Failure × Bindings)
      → HasScope request_id scope x.1
      → (complete_request request_id now x).0 ≡ none
      → ActiveAt (complete_request request_id now x).1 scope.binding_id scope.installation_id
  complete_request-ActiveAt now (some f, b) p h = cc
  complete_request-ActiveAt now (none, b) p h =
      elim (Result-cases (mark_package_binding_completed b request_id now)) [
        | inl (b', e) ↦ rw (e, complete_request) (marked-ActiveAt b now b' p e)
        | inr (f, e) ↦ cc (rw (e, complete_request) at h)
      ]

  pub attempt-ActiveAt :
      (w : Outside) (b : Bindings)
      → HasScope request_id scope b
      → (attempt w request_id scope b).0 ≡ none
      → ActiveAt (attempt w request_id scope b).1 scope.binding_id scope.installation_id
  unfolding attempt
  attempt-ActiveAt w b p h =
      elim (Result-cases (activation_client w scope.binding_id scope.installation_id)) [
        | inl (activity, e) ↦
            rw (e, attempt)
              (complete_request-ActiveAt w.completed
                (perform (activation_call request_id scope) activity b)
                (perform_keeps (HasScope request_id scope) (activation_call request_id scope)
                  (activation_call_keeps (HasScope request_id scope) request_id scope
                    (record-HasScope scope))
                  activity b p)
                (rw (e, attempt) at h))
        | inr (f, e) ↦ cc (rw (e, attempt) at h)
      ]

  pub settle-ActiveAt :
      (w : Outside) (x : Option Failure × Bindings) (status : BindingStatus)
      → (x.0 ≡ none → ActiveAt x.1 scope.binding_id scope.installation_id)
      → (settle w request_id scope x).0 ≡ ok status
      → ActiveAt (settle w request_id scope x).1 scope.binding_id scope.installation_id
  unfolding settle
  settle-ActiveAt w (none, b) status p h = p refl
  settle-ActiveAt w (some (refused s c), b) status p h = cc
  settle-ActiveAt w (some (other pending), b) status p h = cc
