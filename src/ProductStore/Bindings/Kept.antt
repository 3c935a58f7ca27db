-- ===== src/ProductStore/Bindings/Kept.antt =====
-- The invariant of the binding journal through each of its calls.
use cyrene_yield.Common.{
  String, ◌≡◌, ◌≢◌, refl, sym, ap, ◌∙◌, subst, Bool, true, false, not, Option, none, some, ◌⊎◌, inl,
  inr, arith, any, values, lookup, lookup-any-values, ok, raise_if, raise_if-ok, Bool-cases,
  Option-cases, eq_iff, ◌>>◌,
}
use cyrene_yield.Values.{Fields}
use cyrene_yield.ProductStore.Bindings.{
  Phase, RuntimeStatus, Scope, Operation, Owner, Bindings, operation_pending, outcome_missing,
  outcome_invalid, phase_invalid, receipt_conflict, Begun, reserved, is_completed, is_running,
  pending_in, is_intent, is_outcome_phase, completes, may_be_unknown, takes_outcome, with_outcome,
  new_operation, as_unknown, active_owner, binding_scope_matches, write_operation, write_state,
  reserve, begin_inactive, begin_new, begin_package_binding_operation, record_outcome_of,
  record_package_binding_outcome, mark_package_binding_unknown, complete_of,
  mark_package_binding_completed,
}
use cyrene_yield.ProductStore.Bindings.Invariant.{
  BindingsInv, Inactive, Inactive-pending, write_operation-BindingsInv, write_state-BindingsInv,
  complete-BindingsInv,
}

active_owner-none :
    (b : Bindings) (id : String) → active_owner (lookup id b.owners) ≡ none → Inactive b id
active_owner-none b id n o l a = by_owner (lookup id b.owners) l n
  where
    by_phase :
        (p : Phase)
        → p ≡ Phase.active
        → (elim p [ Phase.active ↦ some o.installation_id | _ ↦ none ]) ≡ none
        → ⊥
    by_phase Phase.active e h = cc
    by_phase Phase.intent e h = cc
    by_phase Phase.outcome_pending_complete e h = cc
    by_phase Phase.pending_reconcile e h = cc
    by_phase Phase.unknown e h = cc
    by_phase Phase.completed e h = cc

    by_owner : (x : Option Owner) → x ≡ some o → active_owner x ≡ none → ⊥
    by_owner none e h = cc
    by_owner (some y) e h =
        let same : y ≡ o = cc e in
        by_phase o.phase a (
          subst
            (λ (z : Owner).
              (elim z.phase [ Phase.active ↦ some z.installation_id | _ ↦ none ]) ≡ none)
            same h)

module _ (b : Bindings) (inv : BindingsInv b) where
  -- A pending operation is written again as a pending one of its binding.
  rewrite-BindingsInv :
      (r : String) (old row : Operation)
      → lookup r b.operations ≡ some old
      → old.scope ≡ row.scope
      → is_completed old.phase ≡ false
      → is_completed row.phase ≡ false
      → BindingsInv (write_operation b r row) × Inactive b row.scope.binding_id
  rewrite-BindingsInv r old row found same open_old open_new =
      let inactive : Inactive b row.scope.binding_id =
        subst (λ (s : Scope). Inactive b s.binding_id) same
          (Inactive-pending b inv r old found open_old) in
      (
        write_operation-BindingsInv b inv r row inactive open_new
            (λ x l.
              let e : old ≡ x = cc (sym found ∙ l) in
              subst (λ (z : Operation). is_completed z.phase ≡ false) e open_old)
            (λ q y l e t.
              inv.one_pending q r y old l found (e ∙ ap (λ (s : Scope). s.binding_id) (sym same)) t
                open_old),
        inactive,
      )

  begin_inactive-BindingsInv :
      (r : String) (scope : Scope) (now : String) (answer : Begun) (b' : Bindings)
      → lookup r b.operations ≡ none
      → Inactive b scope.binding_id
      → begin_inactive b r scope now ≡ ok (answer, b')
      → BindingsInv b'
  unfolding begin_inactive
  begin_inactive-BindingsInv r scope now answer b' fresh inactive h =
      let (free, h₁) =
        raise_if-ok (any (pending_in scope.binding_id) (values b.operations)) operation_pending
          (ok (reserved, reserve b r scope now)) h in
      let made : reserve b r scope now ≡ b' = cc h₁ in
      let row = new_operation r scope now in
      let written =
        write_operation-BindingsInv b inv r row inactive refl (λ x l. cc (fresh, l))
          (λ q y l e t. ground (
            arith,
            eq_iff y.scope.binding_id scope.binding_id,
            e,
            t,
            lookup-any-values (pending_in scope.binding_id) q y b.operations free l,
          )) in
      subst (λ z. BindingsInv z) made
        (write_state-BindingsInv (write_operation b r row) written scope r Phase.intent none
          (some "PACKAGE_BINDING_ACTIVATION_PENDING") now inactive (λ e. cc))

  begin_new-BindingsInv :
      (r : String) (scope : Scope) (now : String) (owner : Option String) (answer : Begun)
      (b' : Bindings)
      → lookup r b.operations ≡ none
      → active_owner (lookup scope.binding_id b.owners) ≡ owner
      → begin_new b r scope now owner ≡ ok (answer, b')
      → BindingsInv b'
  unfolding begin_new
  begin_new-BindingsInv r scope now none answer b' fresh idle h =
      begin_inactive-BindingsInv r scope now answer b' fresh
        (active_owner-none b scope.binding_id idle) h
  begin_new-BindingsInv r scope now (some i) answer b' fresh idle h =
      subst (λ z. BindingsInv z) (ground arith) inv

  pub begin-BindingsInv :
      (r : String) (scope : Scope) (now : String) (answer : Begun) (b' : Bindings)
      → begin_package_binding_operation b r scope now ≡ ok (answer, b')
      → BindingsInv b'
  unfolding begin_package_binding_operation
  begin-BindingsInv r scope now answer b' h = elim (Option-cases (lookup r b.operations)) [
    | inl n ↦
        begin_new-BindingsInv r scope now (active_owner (lookup scope.binding_id b.owners)) answer
          b' n refl (rw (n, begin_package_binding_operation) at h)
    | inr (row, l) ↦
        subst (λ z. BindingsInv z) (ground (arith, rw (l, begin_package_binding_operation) at h))
          inv
  ]

  takes_outcome-pending :
      (row : Operation) (scope : Scope) (receipt : Fields)
      → takes_outcome row scope receipt ≡ true
      → (row.scope.binding_id ≡ scope.binding_id) × (is_completed row.phase ≡ false)
  unfolding binding_scope_matches
  takes_outcome-pending row scope receipt h = (
    ground (arith, eq_iff row.scope.binding_id scope.binding_id),
    by_phase row.phase (ground arith),
  )
    where
      by_phase :
          (p : Phase) → (is_intent p ≡ true) ⊎ (is_outcome_phase p ≡ true) → is_completed p ≡ false
      by_phase Phase.completed (inl e) = cc
      by_phase Phase.completed (inr e) = cc
      by_phase Phase.intent e = refl
      by_phase Phase.outcome_pending_complete e = refl
      by_phase Phase.pending_reconcile e = refl
      by_phase Phase.unknown e = refl
      by_phase Phase.active e = refl

  outcome_phase-pending :
      (p : Phase) → is_outcome_phase p ≡ true → (is_completed p ≡ false) × (p ≢ Phase.active)
  outcome_phase-pending Phase.outcome_pending_complete e = (refl, λ x. cc)
  outcome_phase-pending Phase.pending_reconcile e = (refl, λ x. cc)
  outcome_phase-pending Phase.intent e = cc
  outcome_phase-pending Phase.unknown e = cc
  outcome_phase-pending Phase.completed e = cc
  outcome_phase-pending Phase.active e = cc

  record_of-BindingsInv :
      (r : String) (row : Option Operation) (scope : Scope) (status : Option RuntimeStatus)
      (receipt : Fields) (phase : Phase) (blocker : Option String) (now : String) (b' : Bindings)
      → lookup r b.operations ≡ row
      → is_outcome_phase phase ≡ true
      → record_outcome_of b r row scope status receipt phase blocker now ≡ ok b'
      → BindingsInv b'
  unfolding record_outcome_of
  record_of-BindingsInv r none scope status receipt phase blocker now b' l p h = cc
  record_of-BindingsInv r (some row) scope status receipt phase blocker now b' l p h =
      let new = with_outcome row phase status receipt blocker now in
      let after = write_state (write_operation b r new) scope r phase status blocker now in
      let (taken, h₁) =
        raise_if-ok (not (takes_outcome row scope receipt)) receipt_conflict (ok after) h in
      let (same, open_row) = takes_outcome-pending row scope receipt (ground arith) in
      let (open_phase, idle) = outcome_phase-pending phase p in
      let (written, inactive) = rewrite-BindingsInv r row new l refl open_row open_phase in
      let made : after ≡ b' = cc h₁ in
      subst (λ z. BindingsInv z) made
        (write_state-BindingsInv (write_operation b r new) written scope r phase status blocker now
          (subst (λ z. Inactive b z) same inactive) idle)

  pub record-BindingsInv :
      (r : String) (scope : Scope) (status : Option RuntimeStatus) (receipt : Fields)
      (phase : Phase) (blocker : Option String) (now : String) (b' : Bindings)
      → record_package_binding_outcome b r scope status receipt phase blocker now ≡ ok b'
      → BindingsInv b'
  unfolding record_package_binding_outcome
  record-BindingsInv r scope status receipt phase blocker now b' h =
      let (valid, h₁) =
        raise_if-ok (not (is_outcome_phase phase)) phase_invalid
          (record_outcome_of b r (lookup r b.operations) scope status receipt phase blocker now)
          h in
      record_of-BindingsInv r (lookup r b.operations) scope status receipt phase blocker now b' refl
        (ground arith) h₁

  may_be_unknown-pending :
      (row : Operation) → may_be_unknown row ≡ true → is_completed row.phase ≡ false
  may_be_unknown-pending row h = by_row row.receipt row.phase h
    where
      by_row :
          (c : Option Fields) (p : Phase)
          → (elim c [
            | some r ↦ false
            | none ↦ elim p [ Phase.intent ↦ true | Phase.unknown ↦ true | _ ↦ false ]
          ])
            ≡ true
          → is_completed p ≡ false
      by_row (some c) p e = cc
      by_row none Phase.completed e = cc
      by_row none Phase.intent e = refl
      by_row none Phase.unknown e = refl
      by_row none Phase.outcome_pending_complete e = refl
      by_row none Phase.pending_reconcile e = refl
      by_row none Phase.active e = refl

  as_unknown-BindingsInv :
      (r : String) (row : Operation) (blocker : String) (projected : Bool) (now : String)
      → lookup r b.operations ≡ some row
      → is_completed row.phase ≡ false
      → BindingsInv (as_unknown b r row blocker projected now)
  as_unknown-BindingsInv r row blocker projected now l open_row =
      let new = record row { phase = Phase.unknown; updated_at = now; blocker = some blocker } in
      let (written, inactive) = rewrite-BindingsInv r row new l refl open_row refl in
      elim (Bool-cases projected) [
        | inl t ↦ rw t (
            write_state-BindingsInv (write_operation b r new) written row.scope r Phase.unknown none
              (some blocker) now inactive (λ e. cc))
        | inr f ↦ rw f written
      ]

  pub unknown-BindingsInv :
      (r blocker : String) (projected : Bool) (now : String) (b' : Bindings)
      → mark_package_binding_unknown b r blocker projected now ≡ ok b'
      → BindingsInv b'
  unfolding mark_package_binding_unknown
  unknown-BindingsInv r blocker projected now b' h = elim (Option-cases (lookup r b.operations)) [
    | inl n ↦ cc (rw (n, mark_package_binding_unknown) at h)
    | inr (row, l) ↦ elim (Bool-cases (may_be_unknown row)) [
      | inl t ↦
          subst (λ z. BindingsInv z) (ground (arith, rw (l, t, mark_package_binding_unknown) at h))
            (as_unknown-BindingsInv r row blocker projected now l (may_be_unknown-pending row t))
      | inr f ↦
          subst (λ z. BindingsInv z) (ground (arith, rw (l, f, mark_package_binding_unknown) at h))
            inv
    ]
  ]

  -- What mark_package_binding_completed writes.
  abbrev completed_row : Operation → String → Operation
  completed_row row now = record row {
    phase = Phase.completed;
    updated_at = now;
    receipt = none;
    blocker = none;
  }

  complete_of-BindingsInv :
      (r : String) (row : Operation) (now : String) (b' : Bindings)
      → lookup r b.operations ≡ some row
      → complete_of b r row now ≡ ok b'
      → BindingsInv b'
  unfolding complete_of
  complete_of-BindingsInv r row now b' l h =
      let after =
        write_state (write_operation b r (completed_row row now)) row.scope r Phase.active
          row.status none now in
      let (u, h₁) =
        raise_if-ok (not (completes row.phase)) outcome_missing
          (raise_if (not (is_running row.status)) outcome_invalid >> ok after) h in
      let (v, h₂) = raise_if-ok (not (is_running row.status)) outcome_invalid (ok after) h₁ in
      let made : after ≡ b' = cc h₂ in
      subst (λ z. BindingsInv z) made
        (complete-BindingsInv b inv r row (completed_row row now) row.status now l refl refl refl
          (ground arith))

  pub completed-BindingsInv :
      (r now : String) (b' : Bindings)
      → mark_package_binding_completed b r now ≡ ok b'
      → BindingsInv b'
  unfolding mark_package_binding_completed
  completed-BindingsInv r now b' h = elim (Option-cases (lookup r b.operations)) [
    | inl n ↦ cc (rw (n, mark_package_binding_completed) at h)
    | inr (row, l) ↦
        complete_of-BindingsInv r row now b' l (rw (l, mark_package_binding_completed) at h)
  ]
