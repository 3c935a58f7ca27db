-- ===== src/Lifecycle/ControlPlane/Starting.antt =====
-- start_next_attempt and resume_attempt: what they need and what they store.
use cyrene_yield.Common.{
  ◌+◌, String, ◌≡◌, ◌≢◌, refl, sym, ap, ◌∙◌, subst, Bool, true, false, not, ◌⊎◌, Option, none, some,
  List, [], ◌∷◌, ◌++◌, any, ◌==◌, length, length-append, suc, get_last?, lookup, insert,
  lookup-insert_self, Result, ok, err, >>=-eq-ok, raise_if-ok, inl, inr,
}
use cyrene_yield.Lifecycle.Status.{StepStatus, PlanStatus, Error, unknown_step}
use cyrene_yield.Lifecycle.Plan.{ExecutionPlan, step_of}
use cyrene_yield.Lifecycle.Attempt.{Attempt, reload_attempt}
use cyrene_yield.Lifecycle.Run.{
  ProductRun, terminal, latest_attempt, with_attempt, reload_attempts, reload_run,
}
use cyrene_yield.Lifecycle.Store.{Store, Clock, load_run, load_plan, compare_and_set}
use cyrene_yield.Lifecycle.Store.Replacing.{persisted, compare_and_set_effect, load_run-ok}
use cyrene_yield.Lifecycle.Reconciler.{ActionKind, Action, status_of}
use cyrene_yield.Lifecycle.ControlPlane.{
  action_of, next_attempt, with_started, attempt_step, save_started, start_next_attempt,
  is_resumable, rewound, resume_attempt,
}

-- The run with one more attempt.
abbrev pub started : ProductRun → Attempt → String → ProductRun
started r a step_id = record r {
  attempts = r.attempts ++ a ∷ [];
  step_statuses = insert step_id StepStatus.running r.step_statuses;
  observed_status = PlanStatus.running;
}

with_started-ok :
    (r u : ProductRun) (a : Attempt) (step_id : String)
    → with_started r a step_id ≡ ok u
    → (u ≡ started r a step_id)
      × (terminal r ≡ false)
      × (any (λ b. b.attempt_id == a.attempt_id) r.attempts ≡ false)
unfolding with_started
with_started-ok r u a step_id h =
    let (t, h₁, h₂) = >>=-eq-ok (with_attempt r a) _ h in
    let (open_run, h₃) = raise_if-ok _ _ _ h₁ in
    let (own, h₄) = raise_if-ok _ _ _ h₃ in
    let (fresh, h₅) = raise_if-ok _ _ _ h₄ in
    let te : t ≡ record r { attempts = r.attempts ++ a ∷ [] } = ok_inj (sym h₅) in
    let (live, h₆) = raise_if-ok _ _ _ h₂ in
    (
      sym (ok_inj h₆)
          ∙ ap
              (λ (x : ProductRun). record x {
                step_statuses = insert step_id StepStatus.running x.step_statuses;
                observed_status = PlanStatus.running;
              })
              te,
      open_run,
      fresh,
    )
  where
    ok_inj : {x y : ProductRun} → ◌≡◌ {A = Result Error ProductRun} (ok x) (ok y) → x ≡ y
    ok_inj e = cc

latest-reload :
    (as' : List Attempt) (a : Attempt)
    → get_last? (reload_attempts (as' ++ a ∷ [])) ≡ some (reload_attempt a)
unfolding reload_attempts
latest-reload [] a = refl
latest-reload (b ∷ []) a = refl
latest-reload (b ∷ c ∷ as') a = latest-reload (c ∷ as') a

length-reload : (as' : List Attempt) → length (reload_attempts as') ≡ length as'
unfolding reload_attempts
length-reload [] = refl
length-reload (a ∷ as') = ap suc (length-reload as')

-- What is stored of a run that was given an attempt.
pub record Started (s' : Store) (r : ProductRun) (a : Attempt) (step_id : String) : Type 0 where
  pub stored : ProductRun
  pub found : lookup r.run_id s'.runs ≡ some stored
  pub latest : latest_attempt stored ≡ some (reload_attempt a)
  pub attempts : length stored.attempts ≡ length r.attempts + 1
  pub status : stored.observed_status ≡ PlanStatus.running
  pub step_status : status_of stored step_id ≡ StepStatus.running
  pub desired : stored.desired_state ≡ r.desired_state
  pub generation : stored.generation ≡ r.generation + 1

Started-reload :
    (s s' : Store) (current r : ProductRun) (a : Attempt) (step_id now : String)
    → current.generation ≡ r.generation
    → s' ≡ record s {
      runs = insert r.run_id (reload_run (persisted current (started r a step_id) now)) s.runs;
    }
    → Started s' r a step_id
unfolding reload_run status_of
Started-reload s s' current r a step_id now g e = record {
  stored = reload_run (persisted current (started r a step_id) now);
  found = rw e (
      lookup-insert_self r.run_id (reload_run (persisted current (started r a step_id) now))
        s.runs);
  latest = latest-reload r.attempts a;
  attempts = length-reload (r.attempts ++ a ∷ []) ∙ length-append r.attempts (a ∷ []);
  status = refl;
  step_status = rw (lookup-insert_self step_id StepStatus.running r.step_statuses, status_of);
  desired = refl;
  generation = rw g;
}

save_started_effect :
    (s s' : Store) (r : ProductRun) (a b : Attempt) (step_id now : String)
    → save_started s r a step_id now ≡ ok (b, s')
    → (b ≡ a)
      × (terminal r ≡ false)
      × (any (λ c. c.attempt_id == a.attempt_id) r.attempts ≡ false)
      × Started s' r a step_id
unfolding save_started
save_started_effect s s' r a b step_id now h =
    let (u, h₁, h₂) = >>=-eq-ok (with_started r a step_id) _ h in
    let (ue, open_run, fresh) = with_started-ok r u a step_id h₁ in
    let (saved, h₃, h₄) = >>=-eq-ok (compare_and_set s u r.generation now) _ h₂ in
    let (ab, ss) = pair_inj h₄ in
    let (current, at, g, pe, se, kept) =
      compare_and_set_effect s saved.1 u saved.0 r.generation now h₃ in
    (
      sym ab,
      open_run,
      fresh,
      Started-reload s s' current r a step_id now g (
          sym ss
          ∙ se
          ∙ (ap (λ (x : ProductRun). record s { runs = insert u.run_id (reload_run x) s.runs }) pe)
          ∙ ap
              (λ (x : ProductRun). record s {
                runs = insert x.run_id (reload_run (persisted current x now)) s.runs;
              })
              ue),
    )
  where
    pair_inj :
        {x y : Attempt} {t v : Store}
        → ◌≡◌ {A = Result Error (Attempt × Store)} (ok (x, t)) (ok (y, v))
        → (x ≡ y) × (t ≡ v)
    pair_inj e = (cc, cc)

attempt_step-ok :
    (k : ActionKind) (o : Option String) (step_id : String)
    → attempt_step k o ≡ ok step_id
    → ((k ≡ ActionKind.create_attempt) ⊎ (k ≡ ActionKind.retry_attempt)) × (o ≡ some step_id)
unfolding attempt_step
attempt_step-ok ActionKind.create_attempt (some x) step_id h = (inl refl, cc)
attempt_step-ok ActionKind.create_attempt none step_id h = cc
attempt_step-ok ActionKind.retry_attempt (some x) step_id h = (inr refl, cc)
attempt_step-ok ActionKind.retry_attempt none step_id h = cc
attempt_step-ok _ o step_id h = cc

-- An attempt is started only of a stored run that is not terminal and whose action is to create or
-- to retry one, for the step that the action names and under an identity that no attempt of the run
-- has. It becomes the run's last attempt, the run and the step are running, and the generation is
-- one more.
pub start_next_attempt_effect :
    (s s' : Store) (run_id : String) (a : Attempt) (clock : Clock)
    → start_next_attempt s run_id clock ≡ ok (a, s')
    → (run : ProductRun) × (action : Action) × (step_id : String) × (lookup run_id s.runs
        ≡ some run)
      × (action_of s run ≡ ok action)
      × ((action.kind ≡ ActionKind.create_attempt) ⊎ (action.kind ≡ ActionKind.retry_attempt))
      × (action.step_id ≡ some step_id)
      × (a ≡ next_attempt run step_id clock)
      × (terminal run ≡ false)
      × (any (λ c. c.attempt_id == a.attempt_id) run.attempts ≡ false)
      × Started s' run a step_id
unfolding start_next_attempt
start_next_attempt_effect s s' run_id a clock h =
    let (run, loaded, h₁) = >>=-eq-ok (load_run s run_id) _ h in
    let (action, chosen, h₂) = >>=-eq-ok (action_of s run) _ h₁ in
    let (step_id, named, h₃) = >>=-eq-ok (attempt_step action.kind action.step_id) _ h₂ in
    let (kind, step) = attempt_step-ok action.kind action.step_id step_id named in
    let (e, open_run, fresh, started') =
      save_started_effect s s' run (next_attempt run step_id clock) a step_id (clock 2) h₃ in
    (
      run,
      action,
      step_id,
      load_run-ok s run_id run loaded,
      chosen,
      kind,
      step,
      e,
      open_run,
      subst (λ (x : Attempt). any (λ c. c.attempt_id == x.attempt_id) run.attempts ≡ false) (sym e)
          fresh,
      subst (λ x. Started s' run x step_id) (sym e) started',
    )

-- An attempt is resumed only of a stored run that failed, was cancelled or awaits a retry, for a step
-- of its plan. The run is made active and running again with one more attempt and keeps those that
-- it had.
pub resume_attempt_effect :
    (s s' : Store) (run_id step_id : String) (a : Attempt) (clock : Clock)
    → resume_attempt s run_id step_id clock ≡ ok (a, s')
    → (run : ProductRun) × (plan : ExecutionPlan) × (lookup run_id s.runs ≡ some run)
      × (is_resumable run.observed_status ≡ true)
      × (load_plan s run.plan_id ≡ ok plan)
      × (step_of plan step_id ≢ err unknown_step)
      × (a ≡ next_attempt run step_id clock)
      × Started s' (rewound run) a step_id
unfolding resume_attempt
resume_attempt_effect s s' run_id step_id a clock h =
    let (run, loaded, h₁) = >>=-eq-ok (load_run s run_id) _ h in
    let (resumable, h₂) = raise_if-ok _ _ _ h₁ in
    let (plan, planned, h₃) = >>=-eq-ok (load_plan s run.plan_id) _ h₂ in
    let (step, found, h₄) = >>=-eq-ok (step_of plan step_id) _ h₃ in
    let (e, open_run, fresh, started') =
      save_started_effect s s' (rewound run) (next_attempt run step_id clock) a step_id (clock 2)
        h₄ in
    (
      run,
      plan,
      load_run-ok s run_id run loaded,
      not_false (is_resumable run.observed_status) resumable,
      planned,
      (λ missing. cc),
      e,
      subst (λ x. Started s' (rewound run) x step_id) (sym e) started',
    )
  where
    not_false : (b : Bool) → not b ≡ false → b ≡ true
    not_false true n = refl
    not_false false n = cc
