-- ===== src/Examples/Control.antt =====
-- The reconciler and the control plane at concrete stores.
use native.Mathlib.Decide.{ℕ_discrete}
use cyrene_yield.Common.{
  ℕ, String, ◌≡◌, ◌≢◌, refl, true, false, ◌⊎◌, Option, none, some, [], ◌∷◌, any, ◌==◌, eq_iff,
  lookup, insert, concat, values, keys, has_key, delete, String-discrete, ok, err, same,
}
use cyrene_yield.Common.Decimal.{show}
use cyrene_yield.Values.{normalized_fields, Fields-discrete}
use cyrene_yield.Lifecycle.Status.{
  AttemptStatus, PlanStatus, StepStatus, StepStatus-discrete, PlanStatus-discrete,
  AttemptStatus-discrete, attempt_terminal, no_attempt_allowed, not_resumable, unknown_step,
  plan_terminal,
}
use cyrene_yield.Lifecycle.Step.{new_policy, new_step}
use cyrene_yield.Lifecycle.Plan.{
  ExecutionPlan, ordered_steps, new_plan, step_of, missing_dependencies_of,
}
use cyrene_yield.Lifecycle.Attempt.{Attempt, Attempt-discrete, attempt_eq, Observation}
use cyrene_yield.Lifecycle.Run.{ProductRun, terminal}
use cyrene_yield.Lifecycle.Store.{
  Store, load_run, load_plan, construct_plan, compare_and_set, assert_history_immutable,
}
use cyrene_yield.Lifecycle.Reconciler.{
  ActionKind, Action, on_attempt, status_of, is_runnable, next_action, step_action,
}
use cyrene_yield.Lifecycle.Reconciler.Decisions.{IfOk, Justified, next_action-Justified}
use cyrene_yield.Lifecycle.ControlPlane.{
  action_of, control_next_action, next_attempt, start_next_attempt, is_resumable, rewound,
  resume_attempt, save_started, observe_attempt, apply_terminal_action, with_started,
}
use cyrene_yield.Lifecycle.ControlPlane.Starting.{
  Started, start_next_attempt_effect, resume_attempt_effect,
}
use cyrene_yield.Lifecycle.ControlPlane.Observing.{
  AwaitsCleanup, observe-terminal_refused, cleanup_never_confirmed,
}
use cyrene_yield.Examples.Data.{
  plan, clock, later, run, store, first_attempt, running_store, cancelled_attempt, cancelled_run,
  cancelled_store, failed_run, failed_store,
}

next_action-Justified_example : IfOk (λ a. Justified plan run a) (next_action plan run)
next_action-Justified_example = next_action-Justified plan run

starts : start_next_attempt store "run-1" clock ≡ ok (first_attempt, running_store)
unfolding start_next_attempt load_run load_plan construct_plan new_plan new_policy new_step
    ordered_steps missing_dependencies_of lookup insert values keys has_key delete normalized_fields
    action_of next_action status_of step_action save_started with_started next_attempt
    compare_and_set assert_history_immutable show concat plan_terminal same StepStatus-discrete
    PlanStatus-discrete is_runnable
starts = refl

start_next_attempt_effect_example :
    (r : ProductRun) × (action : Action) × (step_id : String) × (lookup "run-1" store.runs ≡ some r)
    × (action_of store r ≡ ok action)
    × ((action.kind ≡ ActionKind.create_attempt) ⊎ (action.kind ≡ ActionKind.retry_attempt))
    × (action.step_id ≡ some step_id)
    × (first_attempt ≡ next_attempt r step_id clock)
    × (terminal r ≡ false)
    × (any (λ c. c.attempt_id == "run-1:1") r.attempts ≡ false)
    × Started running_store r first_attempt step_id
start_next_attempt_effect_example =
    start_next_attempt_effect store running_store "run-1" first_attempt clock starts

abbrev resumed_attempt : Attempt
resumed_attempt = record first_attempt { attempt_id = "run-1:2"; number = 2 }

abbrev resumed_store : Store
resumed_store = record store {
  runs =
      (
        "run-1",
        record failed_run {
          observed_status = PlanStatus.running;
          generation = 5;
          attempts = record first_attempt { status = AttemptStatus.failed } ∷ resumed_attempt ∷ [];
          step_statuses = ("preflight", StepStatus.running) ∷ [];
        },
      )
      ∷ [];
}

resumes :
    resume_attempt failed_store "run-1" "preflight" clock ≡ ok (resumed_attempt, resumed_store)
unfolding resume_attempt step_of load_run load_plan construct_plan new_plan new_policy new_step
    ordered_steps missing_dependencies_of lookup insert values keys has_key delete normalized_fields
    save_started with_started next_attempt compare_and_set assert_history_immutable show concat
    plan_terminal same PlanStatus-discrete attempt_terminal attempt_eq Attempt-discrete
    String-discrete ℕ_discrete AttemptStatus-discrete Fields-discrete
resumes = refl

resume_attempt_effect_example :
    (r : ProductRun) × (p : ExecutionPlan) × (lookup "run-1" failed_store.runs ≡ some r)
    × (is_resumable r.observed_status ≡ true)
    × (load_plan failed_store r.plan_id ≡ ok p)
    × (step_of p "preflight" ≢ err unknown_step)
    × (resumed_attempt ≡ next_attempt r "preflight" clock)
    × Started resumed_store (rewound r) resumed_attempt "preflight"
resume_attempt_effect_example =
    resume_attempt_effect failed_store resumed_store "run-1" "preflight" resumed_attempt clock
      resumes

loads_cancelled : load_run cancelled_store "run-1" ≡ ok cancelled_run
unfolding load_run lookup
loads_cancelled = refl

loads_plan : load_plan cancelled_store "plan-1" ≡ ok plan
unfolding load_run load_plan construct_plan new_plan new_policy new_step ordered_steps
    missing_dependencies_of lookup insert values keys has_key delete normalized_fields
loads_plan = refl

u_ne_t : ◌≡◌ {A = String} "u" "t" → ⊥
u_ne_t e = differs ((eq_iff "u" "t").1 e)
  where
    differs : false ≡ true → ⊥
    differs x = cc

abbrev confirmation : Observation
confirmation = record {
  execution_references = none;
  cleanup_confirmed = some true;
  error = none;
  metadata = none;
}

observe-terminal_refused_example :
    observe_attempt cancelled_store "run-1" "run-1:1" AttemptStatus.cancelled confirmation none
      later
    ≢ ok (cancelled_run, cancelled_store)
unfolding attempt_terminal
observe-terminal_refused_example =
    observe-terminal_refused cancelled_store "run-1" "run-1:1" cancelled_run cancelled_attempt later
      loads_cancelled refl refl u_ne_t AttemptStatus.cancelled confirmation none
      (cancelled_run, cancelled_store)

awaits : AwaitsCleanup cancelled_store "run-1" cancelled_run cancelled_attempt
awaits = record {
  loaded = loads_cancelled;
  plan = plan;
  planned = loads_plan;
  latest = refl;
  found = refl;
  wanted = refl;
  requested = refl;
  cancelled = refl;
  unconfirmed = refl;
}

cleanup_never_confirmed_example :
    (control_next_action cancelled_store "run-1"
      ≡ ok (on_attempt ActionKind.wait cancelled_run cancelled_attempt))
    × ((status : AttemptStatus) (o : Observation) (expected : Option ℕ)
          (result : ProductRun × Store)
        → observe_attempt cancelled_store "run-1" "run-1:1" status o expected later ≢ ok result)
    × (start_next_attempt cancelled_store "run-1" later ≡ err no_attempt_allowed)
    × ((step_id : String)
        → resume_attempt cancelled_store "run-1" step_id later ≡ err not_resumable)
    × (apply_terminal_action cancelled_store "run-1" later ≡ ok (cancelled_run, cancelled_store))
cleanup_never_confirmed_example =
    cleanup_never_confirmed cancelled_store "run-1" cancelled_run cancelled_attempt awaits later
      u_ne_t
