-- ===== src/Lifecycle/Store/Invariant.antt =====
-- The store over any sequence of calls that write it, by any callers: its invariant, and what it
-- keeps of every run.
use cyrene_yield.Common.{
  String, ◌≡◌, refl, ap, ◌∙◌, Bool, true, false, ◌⊎◌, none, some, arith, Dict, lookup, insert,
  has_key, lookup-insert, lookup-insert_self, has_key-insert, ◌==◌, eq_iff, Bool-cases, inl, inr,
  if◌then◌else◌,
}
use cyrene_yield.Lifecycle.Plan.{ExecutionPlan}
use cyrene_yield.Lifecycle.Run.{ProductRun}
use cyrene_yield.Lifecycle.Store.{Store, empty_store, reload_plan, set_default}

pub record StoreInv (s : Store) : Type 0 where
  -- a run stands under its own identity
  pub keyed : (id : String) (r : ProductRun) → lookup id s.runs ≡ some r → r.run_id ≡ id
  -- a run's key leads back to it
  pub indexed :
      (id : String) (r : ProductRun)
      → lookup id s.runs ≡ some r
      → lookup r.idempotency_key s.idempotency ≡ some id
  -- a key leads to a run that has it
  pub owned :
      (key id : String)
      → lookup key s.idempotency ≡ some id
      → (r : ProductRun) × (lookup id s.runs ≡ some r) × (r.idempotency_key ≡ key)
  -- a run's plan is stored
  pub planned :
      (id : String) (r : ProductRun) → lookup id s.runs ≡ some r → has_key r.plan_id s.plans ≡ true

pub StoreInv-empty : StoreInv empty_store
unfolding lookup
StoreInv-empty = record {
  keyed = λ id r h. cc;
  indexed = λ id r h. cc;
  owned = λ key id h. cc;
  planned = λ id r h. cc;
}

-- A run as it is found in a store that replaced it, or in which it was new.
lookup-insert_cases :
    (k j : String) (v w : ProductRun) (d : Dict ProductRun)
    → lookup j (insert k v d) ≡ some w
    → ((k ≡ j) × (v ≡ w)) ⊎ ((k == j ≡ false) × (lookup j d ≡ some w))
lookup-insert_cases k j v w d h = elim (Bool-cases (k == j)) [
  | inl t ↦
      inl (let e : some v ≡ some w = rw (lookup-insert k j v d, t) at h in ((eq_iff k j).0 t, cc))
  | inr f ↦ inr (f, rw (lookup-insert k j v d, f) at h)
]

pub lookup_same :
    (k j : String) (v w : ProductRun) (d : Dict ProductRun)
    → lookup k d ≡ some v
    → lookup j d ≡ some w
    → k ≡ j
    → v ≡ w
lookup_same k j v w d h g e = cc

same_key : (v w : ProductRun) → v ≡ w → v.idempotency_key ≡ w.idempotency_key
same_key v w e = ap (λ (x : ProductRun). x.idempotency_key) e

has_key-set_default :
    (plan : ExecutionPlan) (id : String) (d : Dict ExecutionPlan)
    → has_key id d ≡ true
    → has_key id (set_default plan d) ≡ true
unfolding set_default
has_key-set_default plan id d h =
    ground (arith, has_key-insert plan.plan_id id (reload_plan plan) d)

has_key-set_default_self :
    (plan : ExecutionPlan) (d : Dict ExecutionPlan)
    → has_key plan.plan_id (set_default plan d) ≡ true
unfolding set_default
has_key-set_default_self plan d = ground (
  arith,
  has_key-insert plan.plan_id plan.plan_id (reload_plan plan) d,
  eq_iff plan.plan_id plan.plan_id,
)

module _ (s : Store) (inv : StoreInv s) where
  pub StoreInv-replace :
      (current r' : ProductRun) (id : String)
      → lookup id s.runs ≡ some current
      → r'.run_id ≡ id
      → r'.idempotency_key ≡ current.idempotency_key
      → r'.plan_id ≡ current.plan_id
      → StoreInv (record s { runs = insert id r' s.runs })
  StoreInv-replace current r' id at same key plan = record {
    keyed = λ j r h. elim (lookup-insert_cases id j r' r s.runs h) [
      | inl (e, v) ↦ rw (← v) (same ∙ e)
      | inr (f, old) ↦ inv.keyed j r old
    ];
    indexed = λ j r h. elim (lookup-insert_cases id j r' r s.runs h) [
      | inl (e, v) ↦ rw (← v, key, ← e) (inv.indexed id current at)
      | inr (f, old) ↦ inv.indexed j r old
    ];
    owned = λ k j h.
        let (r, found, own) = inv.owned k j h in
        elim (Bool-cases (id == j)) [
          | inl t ↦ (
            r',
            rw (lookup-insert id j r' s.runs, t),
            key
                ∙ same_key current r
                    (lookup_same id j current r s.runs at found ((eq_iff id j).0 t))
                ∙ own,
          )
          | inr f ↦ (r, rw (lookup-insert id j r' s.runs, f) found, own)
        ];
    planned = λ j r h. elim (lookup-insert_cases id j r' r s.runs h) [
      | inl (e, v) ↦ rw (← v, plan) (inv.planned id current at)
      | inr (f, old) ↦ inv.planned j r old
    ];
  }

  pub StoreInv-add :
      (plan : ExecutionPlan) (r' : ProductRun) (key id : String)
      → lookup key s.idempotency ≡ none
      → lookup id s.runs ≡ none
      → r'.run_id ≡ id
      → r'.idempotency_key ≡ key
      → r'.plan_id ≡ plan.plan_id
      → StoreInv (record {
        plans = set_default plan s.plans;
        runs = insert id r' s.runs;
        idempotency = insert key id s.idempotency;
      })
  StoreInv-add plan r' key id unused fresh same own p = record {
    keyed = λ j r h. elim (lookup-insert_cases id j r' r s.runs h) [
      | inl (e, v) ↦ rw (← v) (same ∙ e)
      | inr (f, old) ↦ inv.keyed j r old
    ];
    indexed = λ j r h. elim (lookup-insert_cases id j r' r s.runs h) [
      | inl (e, v) ↦ rw (← v, own, ← e) (lookup-insert_self key id s.idempotency)
      | inr (f, old) ↦ rw (lookup-insert key r.idempotency_key id s.idempotency) (
          other (key == r.idempotency_key) r.idempotency_key j
            (λ t. (eq_iff key r.idempotency_key).0 t) (inv.indexed j r old))
    ];
    owned = λ k j h.
        let e : (if key == k then some id else lookup k s.idempotency) ≡ some j =
          rw (lookup-insert key k id s.idempotency) at h in
        elim (Bool-cases (key == k)) [
          | inl t ↦
              let ij : id ≡ j = ground arith in
              (r', rw (← ij) (lookup-insert_self id r' s.runs), own ∙ (eq_iff key k).0 t)
          | inr f ↦
              let (r, found, o) = inv.owned k j (rw f at e) in
              (r, rw (lookup-insert id j r' s.runs, ne id j r found) found, o)
        ];
    planned = λ j r h. elim (lookup-insert_cases id j r' r s.runs h) [
      | inl (e, v) ↦ rw (← v, p) (has_key-set_default_self plan s.plans)
      | inr (f, old) ↦ has_key-set_default plan r.plan_id s.plans (inv.planned j r old)
    ];
  }
    where
      other :
          (b : Bool) (k j : String)
          → (b ≡ true → key ≡ k)
          → lookup k s.idempotency ≡ some j
          → (if b then some id else lookup k s.idempotency) ≡ some j
      other true k j h l = absurd (cc (h refl))
      other false k j h l = l

      ne : (i j : String) (r : ProductRun) → lookup j s.runs ≡ some r → (id == j) ≡ false
      ne i j r l = elim (Bool-cases (id == j)) [
        | inl t ↦ absurd (cc ((eq_iff id j).0 t))
        | inr f ↦ f
      ]
