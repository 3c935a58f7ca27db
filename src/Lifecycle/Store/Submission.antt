-- ===== src/Lifecycle/Store/Submission.antt =====
-- create_or_get: the branches of a submission, and that to submit twice is to submit once.
use cyrene_yield.Common.{
  String, ◌≡◌, refl, ap, ◌∙◌, not, ◌||◌, ◌⊎◌, Option, none, some, arith, lookup, insert,
  lookup-insert_self, ◌==◌, eq_iff, concat, ok, err, Option-cases, inl, inr, if◌then◌else◌,
}
use cyrene_yield.Values.{Fields}
use cyrene_yield.Lifecycle.Status.{idempotency_conflict}
use cyrene_yield.Lifecycle.Plan.{ExecutionPlan}
use cyrene_yield.Lifecycle.Run.{ProductRun, new_run, reload_run}
use cyrene_yield.Lifecycle.Store.{
  Store, Clock, get_existing, set_default, create_new, create_or_get,
}

-- A submission under a key that is taken, by the stored run of the key.
create_or_get_existing :
    (t : Store) (plan : ExecutionPlan) (kind key : String) (metadata : Fields) (fresh : String)
    (clock : Clock) (id : String) (r : ProductRun)
    → lookup key t.idempotency ≡ some id
    → lookup id t.runs ≡ some r
    → create_or_get t plan kind key metadata fresh clock ≡ (
        if not (r.plan_id == plan.plan_id) || not (r.product_kind == kind)
        then err idempotency_conflict
        else ok (r, t))
unfolding create_or_get
create_or_get_existing t plan kind key metadata fresh clock id r used at =
    rw (used, create_or_get) (rw (at, get_existing))

module _ (s : Store) (plan : ExecutionPlan) (kind key : String) (metadata : Fields) (fresh : String)
    (clock : Clock) where
  -- The run of a submission under a new key, and the store with it.
  abbrev pub first_run : ProductRun
  first_run = new_run kind plan.plan_id key metadata fresh (clock 0) (clock 1)

  abbrev pub store_with_first : Store
  store_with_first = record {
    plans = set_default plan s.plans;
    runs = insert (concat "run-" fresh) (reload_run first_run) s.runs;
    idempotency = insert key (concat "run-" fresh) s.idempotency;
  }

  -- A submission that returns found the run of its key, with the same plan and kind, and wrote
  -- nothing; or its key was new, and it stored its plan and a run of generation 0.
  pub create_or_get_effect :
      (s' : Store) (run : ProductRun)
      → create_or_get s plan kind key metadata fresh clock ≡ ok (run, s')
      → ((id : String) × (lookup key s.idempotency ≡ some id)
          × (lookup id s.runs ≡ some run)
          × (run.plan_id ≡ plan.plan_id)
          × (run.product_kind ≡ kind)
          × (s' ≡ s))
        ⊎ ((lookup key s.idempotency ≡ none) × (run ≡ first_run) × (s' ≡ store_with_first))
  unfolding create_or_get
  create_or_get_effect s' run h = elim (Option-cases (lookup key s.idempotency)) [
    | inl unused ↦ inr (let (a, b) = made (rw (unused, create_or_get) at h) in (unused, a, b))
    | inr (id, used) ↦ inl (found id used (lookup id s.runs) refl (rw (used, create_or_get) at h))
  ]
    where
      made :
          create_new s plan kind key metadata fresh clock ≡ ok (run, s')
          → (run ≡ first_run) × (s' ≡ store_with_first)
      made e = (ground arith, ground arith)

      found :
          (id : String)
          → lookup key s.idempotency ≡ some id
          → (o : Option ProductRun) → lookup id s.runs ≡ o
          → get_existing s plan kind o ≡ ok (run, s')
          → (id : String) × (lookup key s.idempotency ≡ some id)
            × (lookup id s.runs ≡ some run)
            × (run.plan_id ≡ plan.plan_id)
            × (run.product_kind ≡ kind)
            × (s' ≡ s)
      found id used none e g = cc
      found id used (some x) e g =
          let same_run : x ≡ run = ground arith in
          (
            id,
            used,
            e ∙ ap some same_run,
            rw (← same_run) (ground (arith, eq_iff x.plan_id plan.plan_id)),
            rw (← same_run) (ground (arith, eq_iff x.product_kind kind)),
            ground arith,
          )

  -- After a submission that returned, another under the same key writes nothing: it returns the run
  -- of the first, as it is stored, if it has the same plan and kind, and else it is a conflict.
  pub create_or_get_again :
      (s' : Store) (run : ProductRun)
      → create_or_get s plan kind key metadata fresh clock ≡ ok (run, s')
      → (plan' : ExecutionPlan) (kind' : String) (metadata' : Fields) (fresh' : String)
        (clock' : Clock)
      → (stored : ProductRun) × ((stored ≡ run) ⊎ (stored ≡ reload_run run))
        × (create_or_get s' plan' kind' key metadata' fresh' clock' ≡ (
            if not (plan.plan_id == plan'.plan_id) || not (kind == kind')
            then err idempotency_conflict
            else ok (stored, s')))
  create_or_get_again s' run h plan' kind' metadata' fresh' clock' =
      elim (create_or_get_effect s' run h) [
        | inl (id, used, at, p, k, e) ↦ (
          run,
          inl refl,
          rw (e, ← p, ← k)
              (create_or_get_existing s plan' kind' key metadata' fresh' clock' id run used at),
        )
        | inr (unused, r, e) ↦ (
          reload_run run,
          inr refl,
          rw e (
              create_or_get_existing store_with_first plan' kind' key metadata' fresh' clock'
                (concat "run-" fresh) (reload_run run)
                (lookup-insert_self key (concat "run-" fresh) s.idempotency)
                (rw r (lookup-insert_self (concat "run-" fresh) (reload_run first_run) s.runs))
              ∙ rw r (unfold reload_run in refl)),
        )
      ]
