-- ===== src/ProductStore/Bindings/Invariant.antt =====
-- What the writes of the binding journal keep: one activation at a time, and no broker receipt of a
-- completed one.
use cyrene_yield.Common.{
  String, ◌≡◌, ◌≢◌, refl, sym, ap, ◌∙◌, subst, true, false, Option, none, some, inl, inr, lookup,
  insert, lookup-insert_self, lookup-insert_ne, lookup-insert_cases, ◌==◌, eq_iff, Bool-cases,
}
use cyrene_yield.ProductStore.Bindings.{
  Phase, RuntimeStatus, Scope, Operation, Owner, Bindings, is_completed, is_running,
  write_operation, write_state,
}

-- The state of a binding is active, with an installation.
abbrev pub ActiveAt : Bindings → String → String → Type 0
ActiveAt b binding_id installation_id =
    (o : Owner) × (lookup binding_id b.owners ≡ some o)
    × (o.phase ≡ Phase.active)
    × (o.installation_id ≡ installation_id)

-- A completed operation of a binding, with its installation.
abbrev pub CompletedFor : Bindings → String → String → Type 0
CompletedFor b binding_id installation_id =
    (r : String) × (x : Operation) × (lookup r b.operations ≡ some x)
    × (is_completed x.phase ≡ true)
    × (x.scope.binding_id ≡ binding_id)
    × (x.scope.installation_id ≡ installation_id)

pub record BindingsInv (b : Bindings) : Type 0 where
  -- No two operations of a binding are pending.
  pub one_pending :
      (r q : String) (x y : Operation)
      → lookup r b.operations ≡ some x
      → lookup q b.operations ≡ some y
      → x.scope.binding_id ≡ y.scope.binding_id
      → is_completed x.phase ≡ false
      → is_completed y.phase ≡ false
      → r ≡ q
  -- A completed operation holds no receipt, was seen running, and its binding is active.
  pub erased :
      (r : String) (x : Operation)
      → lookup r b.operations ≡ some x
      → is_completed x.phase ≡ true
      → (x.receipt ≡ none)
        × (is_running x.status ≡ true)
        × ActiveAt b x.scope.binding_id x.scope.installation_id
  -- No operation of an active binding is pending, and one of them is completed.
  pub settled :
      (id : String) (o : Owner)
      → lookup id b.owners ≡ some o
      → o.phase ≡ Phase.active
      → (r : String) (x : Operation) → lookup r b.operations ≡ some x
      → x.scope.binding_id ≡ id
      → is_completed x.phase ≡ true
  pub backed :
      (id : String) (o : Owner)
      → lookup id b.owners ≡ some o
      → o.phase ≡ Phase.active
      → CompletedFor b id o.installation_id

-- The binding is not active.
abbrev pub Inactive : Bindings → String → Type 0
Inactive b binding_id = (o : Owner) → lookup binding_id b.owners ≡ some o → o.phase ≢ Phase.active

module _ (b : Bindings) (inv : BindingsInv b) where
  -- An operation that is pending has an inactive binding.
  pub Inactive-pending :
      (r : String) (x : Operation)
      → lookup r b.operations ≡ some x
      → is_completed x.phase ≡ false
      → Inactive b x.scope.binding_id
  Inactive-pending r x l p o lo a = cc (inv.settled x.scope.binding_id o lo a r x l refl)

  -- A write of the operation r that leaves it pending, in a binding that is not active and has no other
  -- pending operation.
  module _ (r : String) (row : Operation) (inactive : Inactive b row.scope.binding_id)
      (pending : is_completed row.phase ≡ false)
      (old : (x : Operation) → lookup r b.operations ≡ some x → is_completed x.phase ≡ false)
      (only : (q : String) (y : Operation)
        → lookup q b.operations ≡ some y
        → y.scope.binding_id ≡ row.scope.binding_id
        → is_completed y.phase ≡ false
        → q ≡ r) where
    pub write_operation-BindingsInv : BindingsInv (write_operation b r row)
    write_operation-BindingsInv = record {
      one_pending = λ p q x y lp lq same px py.
          elim (lookup-insert_cases r p row x b.operations lp) [
            | inl (rp, ex) ↦ elim (lookup-insert_cases r q row y b.operations lq) [
              | inl (rq, ey) ↦ sym rp ∙ rq
              | inr (nq, oq) ↦
                  sym rp
                  ∙ sym (
                      only q y oq (sym same ∙ ap (λ (z : Operation). z.scope.binding_id) (sym ex))
                        py)
            ]
            | inr (np, op) ↦ elim (lookup-insert_cases r q row y b.operations lq) [
              | inl (rq, ey) ↦
                  only p x op (same ∙ ap (λ (z : Operation). z.scope.binding_id) (sym ey)) px ∙ rq
              | inr (nq, oq) ↦ inv.one_pending p q x y op oq same px py
            ]
          ];
      erased = λ p x l done. elim (lookup-insert_cases r p row x b.operations l) [
        | inl (rp, ex) ↦ cc (ex, pending, done)
        | inr (np, op) ↦ inv.erased p x op done
      ];
      settled = λ id o l a p x lx e. elim (lookup-insert_cases r p row x b.operations lx) [
        | inl (rp, ex) ↦ absurd (
            inactive o
              (subst (λ z. lookup z b.owners ≡ some o)
                (sym e ∙ ap (λ (z : Operation). z.scope.binding_id) (sym ex)) l)
              a)
        | inr (np, op) ↦ inv.settled id o l a p x op e
      ];
      backed = λ id o l a.
          let (q, x, lx, done, e, i) = inv.backed id o l a in
          let other : r ≢ q =
            λ rq. cc (old x (subst (λ z. lookup z b.operations ≡ some x) (sym rq) lx), done) in
          (q, x, lookup-insert_ne r q row b.operations other ∙ lx, done, e, i);
    }

  -- A state that is not active, of a binding that is not.
  pub write_state-BindingsInv :
      (scope : Scope) (request_id : String) (phase : Phase) (status : Option RuntimeStatus)
      (blocker : Option String) (now : String)
      → Inactive b scope.binding_id
      → phase ≢ Phase.active
      → BindingsInv (write_state b scope request_id phase status blocker now)
  unfolding write_state
  write_state-BindingsInv scope request_id phase status blocker now inactive idle = record {
    one_pending = inv.one_pending;
    erased = λ r x l done.
        let (none_left, running, (o, lo, a, i)) = inv.erased r x l done in
        let other : scope.binding_id ≢ x.scope.binding_id =
          λ e. inactive o (subst (λ z. lookup z b.owners ≡ some o) (sym e) lo) a in
        (
          none_left,
          running,
          (o, lookup-insert_ne scope.binding_id x.scope.binding_id _ b.owners other ∙ lo, a, i),
        );
    settled = λ id o l a. elim (lookup-insert_cases scope.binding_id id _ o b.owners l) [
      | inl (e, eo) ↦ absurd (idle (ap (λ (z : Owner). z.phase) eo ∙ a))
      | inr (n, lo) ↦ inv.settled id o lo a
    ];
    backed = λ id o l a. elim (lookup-insert_cases scope.binding_id id _ o b.owners l) [
      | inl (e, eo) ↦ absurd (idle (ap (λ (z : Owner). z.phase) eo ∙ a))
      | inr (n, lo) ↦ inv.backed id o lo a
    ];
  }

  -- The completion of the operation r, which is running, in a binding in which no other is pending.
  module _ (r : String) (old row : Operation) (status : Option RuntimeStatus) (now : String)
      (found : lookup r b.operations ≡ some old) (same : old.scope ≡ row.scope)
      (done : is_completed row.phase ≡ true) (erased : row.receipt ≡ none)
      (running : is_running row.status ≡ true) where
    -- Every operation of the binding but r is completed.
    others :
        (q : String) (y : Operation)
        → lookup q b.operations ≡ some y
        → y.scope.binding_id ≡ row.scope.binding_id
        → r ≢ q
        → is_completed y.phase ≡ true
    others q y l e n = elim (Bool-cases (is_completed old.phase)) [
      | inl t ↦
          let (x, z, (o, lo, a, i)) = inv.erased r old found t in
          inv.settled old.scope.binding_id o lo a q y l
            (e ∙ ap (λ (s : Scope). s.binding_id) (sym same))
      | inr f ↦ elim (Bool-cases (is_completed y.phase)) [
        | inl t ↦ t
        | inr g ↦ absurd (
            n (
              inv.one_pending r q old y found l (ap (λ (s : Scope). s.binding_id) same ∙ sym e) f
                g))
      ]
    ]

    -- The completed operations of a binding have one installation.
    agrees :
        (q : String) (y : Operation)
        → lookup q b.operations ≡ some y
        → row.scope.binding_id ≡ y.scope.binding_id
        → is_completed y.phase ≡ true
        → row.scope.installation_id ≡ y.scope.installation_id
    agrees q y l e t =
        let (u, v, (o, lo, a, i)) = inv.erased q y l t in
        let od =
          inv.settled y.scope.binding_id o lo a r old found
            (ap (λ (s : Scope). s.binding_id) same ∙ e) in
        let (u', v', (o', lo', a', i')) = inv.erased r old found od in
        let one : ◌≡◌ {A = Option Owner} (some o') (some o) =
          sym lo'
          ∙ subst (λ z. lookup z b.owners ≡ some o)
              (sym e ∙ ap (λ (s : Scope). s.binding_id) (sym same)) lo in
        let one' : o' ≡ o = cc one in
        ap (λ (s : Scope). s.installation_id) (sym same)
        ∙ sym i'
        ∙ ap (λ (z : Owner). z.installation_id) one'
        ∙ i

    abbrev new_owner : Owner
    new_owner = record {
      package_id = row.scope.package_id;
      installation_id = row.scope.installation_id;
      request_id = r;
      phase = Phase.active;
      status = status;
      blocker = none;
      updated_at = now;
    }

    pub complete-BindingsInv :
        BindingsInv (write_state (write_operation b r row) row.scope r Phase.active status none now)
    unfolding write_state
    complete-BindingsInv = record {
      one_pending = λ p q x y lp lq e px py. elim (lookup-insert_cases r p row x b.operations lp) [
        | inl (rp, ex) ↦ cc (ex, done, px)
        | inr (np, op) ↦ elim (lookup-insert_cases r q row y b.operations lq) [
          | inl (rq, ey) ↦ cc (ey, done, py)
          | inr (nq, oq) ↦ inv.one_pending p q x y op oq e px py
        ]
      ];
      erased = λ p x l t. elim (lookup-insert_cases r p row x b.operations l) [
        | inl (rp, ex) ↦
            subst
              (λ (z : Operation).
                (z.receipt ≡ none)
                × (is_running z.status ≡ true)
                × ActiveAt
                    (write_state (write_operation b r row) row.scope r Phase.active status none now)
                    z.scope.binding_id z.scope.installation_id)
              ex
              (
                erased,
                running,
                (new_owner, lookup-insert_self row.scope.binding_id new_owner b.owners, refl, refl),
              )
        | inr (np, op) ↦
            let (u, v, (o, lo, a, i)) = inv.erased p x op t in
            elim (Bool-cases (row.scope.binding_id == x.scope.binding_id)) [
              | inl e ↦
                  let e' = (eq_iff row.scope.binding_id x.scope.binding_id).0 e in
                  (
                    u,
                    v,
                    (
                      new_owner,
                      subst
                          (λ z.
                            lookup z (insert row.scope.binding_id new_owner b.owners)
                            ≡ some new_owner)
                          e' (lookup-insert_self row.scope.binding_id new_owner b.owners),
                      refl,
                      agrees p x op e' t,
                    ),
                  )
              | inr n ↦ (
                u,
                v,
                (
                  o,
                  lookup-insert_ne row.scope.binding_id x.scope.binding_id _ b.owners
                        (λ e. cc ((eq_iff row.scope.binding_id x.scope.binding_id).1 e))
                      ∙ lo,
                  a,
                  i,
                ),
              )
            ]
      ];
      settled = λ id o l a p x lx e. elim (lookup-insert_cases r p row x b.operations lx) [
        | inl (rp, ex) ↦ ap (λ (z : Operation). is_completed z.phase) (sym ex) ∙ done
        | inr (np, op) ↦ elim (lookup-insert_cases row.scope.binding_id id _ o b.owners l) [
          | inl (f, eo) ↦ others p x op (e ∙ sym f) np
          | inr (n, lo) ↦ inv.settled id o lo a p x op e
        ]
      ];
      backed = λ id o l a. elim (lookup-insert_cases row.scope.binding_id id _ o b.owners l) [
        | inl (f, eo) ↦ (
          r,
          row,
          lookup-insert_self r row b.operations,
          done,
          f,
          ap (λ (z : Owner). z.installation_id) eo,
        )
        | inr (n, lo) ↦
            let (q, x, lx, t, e, i) = inv.backed id o lo a in
            let other : r ≢ q = λ rq.
              let eq : ◌≡◌ {A = Option Operation} (some old) (some x) =
                sym found ∙ subst (λ z. lookup z b.operations ≡ some x) (sym rq) lx in
              let eq' : old ≡ x = cc eq in
              n (
                ap (λ (s : Scope). s.binding_id) (sym same)
                ∙ ap (λ (z : Operation). z.scope.binding_id) eq'
                ∙ e) in
            (q, x, lookup-insert_ne r q row b.operations other ∙ lx, t, e, i)
      ];
    }
