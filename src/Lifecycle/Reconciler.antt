-- ===== src/Lifecycle/Reconciler.antt =====
-- ProductReconciler of lifecycle/reconciler.py: one next action from a plan and a run.
pub mod Decisions
use cyrene_yield.Common.{
  String, Bool, true, false, not, ◌&&◌, Option, none, some, List, [], ◌∷◌, all, any, length, same,
  Result, ok, ◌>>=◌, lookup, values, if◌then◌else◌,
}
use cyrene_yield.Lifecycle.Status.{
  StepStatus, StepStatus-discrete, DesiredState, AttemptStatus, Error,
}
use cyrene_yield.Lifecycle.Step.{StepDependency, PlanStep, allows}
use cyrene_yield.Lifecycle.Plan.{ExecutionPlan, ordered_steps, step_of}
use cyrene_yield.Lifecycle.Attempt.{Attempt}
use cyrene_yield.Lifecycle.Run.{ProductRun, terminal, latest_attempt, attempts_for_step}

pub data ActionKind : Type 0 where
  create_attempt retry_attempt wait request_cancellation finalize_succeeded finalize_failed
        finalize_blocked finalize_cancelled noop :
      ActionKind

-- ReconcileAction, less its `reason`, which is a text for logs.
pub record Action : Type 0 where
  pub kind : ActionKind
  pub run_id : String
  pub step_id : Option String
  pub attempt_id : Option String

abbrev pub on_run : ActionKind → ProductRun → Action
on_run k r = record { kind = k; run_id = r.run_id; step_id = none; attempt_id = none }

abbrev pub on_attempt : ActionKind → ProductRun → Attempt → Action
on_attempt k r a = record {
  kind = k;
  run_id = r.run_id;
  step_id = some a.step_id;
  attempt_id = some a.attempt_id;
}

-- status in {PENDING, RUNNING, CANCELLING}
unfoldable pub is_active : AttemptStatus → Bool
is_active AttemptStatus.pending = true
is_active AttemptStatus.running = true
is_active AttemptStatus.cancelling = true
is_active _ = false

abbrev pub is_cancelled : AttemptStatus → Bool
is_cancelled AttemptStatus.cancelled = true
is_cancelled _ = false

abbrev pub is_step_blocked : StepStatus → Bool
is_step_blocked StepStatus.blocked = true
is_step_blocked _ = false

abbrev pub is_step_pending : StepStatus → Bool
is_step_pending StepStatus.pending = true
is_step_pending _ = false

abbrev pub is_step_succeeded : Option StepStatus → Bool
is_step_succeeded (some StepStatus.succeeded) = true
is_step_succeeded _ = false

-- run.step_statuses.get(step_id, StepStatus.PENDING)
unfoldable pub status_of : ProductRun → String → StepStatus
status_of r step_id = elim (lookup step_id r.step_statuses) [
  | none ↦ StepStatus.pending
  | some s ↦ s
]

unfoldable pub dependency_met : ProductRun → StepDependency → Bool
dependency_met r d = same StepStatus-discrete (status_of r d.step_id) d.required_status

unfoldable pub is_runnable : ProductRun → PlanStep → Bool
unfolding dependency_met
is_runnable r s = is_step_pending (status_of r s.step_id) && all (dependency_met r) s.dependencies

-- The loop of _next_runnable_step.
unfoldable pub first_runnable : ProductRun → List PlanStep → Option PlanStep
first_runnable r [] = none
first_runnable r (s ∷ ss) = if is_runnable r s then some s else first_runnable r ss

unfoldable pub next_runnable_step : ExecutionPlan → ProductRun → Result Error (Option PlanStep)
unfolding first_runnable
next_runnable_step plan r = do steps ← ordered_steps plan.steps; ok (first_runnable r steps)

unfoldable pub all_succeeded : ExecutionPlan → ProductRun → Bool
all_succeeded plan r = all (λ s. is_step_succeeded (lookup s.step_id r.step_statuses)) plan.steps

-- `if run.desired_state is DesiredState.CANCELLED`
unfoldable pub cancel_action : ProductRun → Option Attempt → Action
cancel_action r none = on_run ActionKind.finalize_cancelled r
cancel_action r (some latest) =
    if is_active latest.status
    then on_attempt ActionKind.request_cancellation r latest
    else if is_cancelled latest.status && not latest.cleanup_confirmed
    then on_attempt ActionKind.wait r latest
    else on_run ActionKind.finalize_cancelled r

abbrev pub on_step : ProductRun → PlanStep → Action
on_step r s = record {
  kind = ActionKind.create_attempt;
  run_id = r.run_id;
  step_id = some s.step_id;
  attempt_id = none;
}

unfoldable pub chosen_action : ExecutionPlan → ProductRun → Option PlanStep → Action
chosen_action plan r (some s) = on_step r s
chosen_action plan r none =
    if all_succeeded plan r
    then on_run ActionKind.finalize_succeeded r
    else on_run ActionKind.wait r

-- What follows when no attempt decides the action.
unfoldable pub step_action : ExecutionPlan → ProductRun → Result Error Action
unfolding next_runnable_step chosen_action
step_action plan r = do step ← next_runnable_step plan r; ok (chosen_action plan r step)

-- latest.status in {FAILED, LOST}
unfoldable pub retry_action : ExecutionPlan → ProductRun → Attempt → Result Error Action
retry_action plan r latest = do
  step ← step_of plan latest.step_id
  ok (
      if allows step.retry_policy latest.status (length (attempts_for_step r latest.step_id))
      then on_attempt ActionKind.retry_attempt r latest
      else on_attempt ActionKind.finalize_failed r latest)

unfoldable pub latest_action :
    ExecutionPlan → ProductRun → Attempt → AttemptStatus → Result Error Action
unfolding retry_action step_action
latest_action plan r latest AttemptStatus.pending = ok (on_attempt ActionKind.wait r latest)
latest_action plan r latest AttemptStatus.running = ok (on_attempt ActionKind.wait r latest)
latest_action plan r latest AttemptStatus.cancelling = ok (on_attempt ActionKind.wait r latest)
latest_action plan r latest AttemptStatus.failed = retry_action plan r latest
latest_action plan r latest AttemptStatus.lost = retry_action plan r latest
latest_action plan r latest AttemptStatus.blocked =
    ok (on_attempt ActionKind.finalize_blocked r latest)
latest_action plan r latest _ = step_action plan r

abbrev pub any_blocked : ProductRun → Bool
any_blocked r = any is_step_blocked (values r.step_statuses)

unfoldable pub active_action : ExecutionPlan → ProductRun → Option Attempt → Result Error Action
unfolding latest_action
active_action plan r none =
    if any_blocked r then ok (on_run ActionKind.finalize_blocked r) else step_action plan r
active_action plan r (some latest) =
    if any_blocked r
    then ok (on_run ActionKind.finalize_blocked r)
    else latest_action plan r latest latest.status

unfoldable pub desired_action :
    ExecutionPlan → ProductRun → DesiredState → Option Attempt → Result Error Action
unfolding cancel_action active_action
desired_action plan r DesiredState.cancelled latest = ok (cancel_action r latest)
desired_action plan r DesiredState.active latest = active_action plan r latest

-- ProductReconciler.next_action
unfoldable pub next_action : ExecutionPlan → ProductRun → Result Error Action
unfolding desired_action
next_action plan r =
    if terminal r
    then ok (on_run ActionKind.noop r)
    else desired_action plan r r.desired_state (latest_attempt r)
