-- ===== src/Lifecycle/ControlPlane.antt =====
-- ProductControlPlane of lifecycle/reconciler.py: the service over the store and the reconciler.
pub mod Starting
pub mod Observing
use cyrene_yield.Common.{
  concat, ℕ, ◌+◌, String, Bool, true, false, not, Option, none, some, length, nat_eq, Result, ok,
  err, ◌>>=◌, ◌>>◌, raise_if, if◌then◌else◌,
}
use cyrene_yield.Common.Decimal.{show}
use cyrene_yield.Values.{Fields}
use cyrene_yield.Lifecycle.Status.{
  StepStatus, PlanStatus, DesiredState, AttemptStatus, Error, no_attempt_allowed, not_resumable,
  unknown_attempt, stale_generation, key_error,
}
use cyrene_yield.Lifecycle.Plan.{ExecutionPlan, step_of}
use cyrene_yield.Lifecycle.Attempt.{Attempt, new_attempt, Observation, with_observation}
use cyrene_yield.Lifecycle.Run.{
  ProductRun, terminal, with_attempt, attempt_by_id, with_observed_attempt, with_step_status,
  with_desired_state, with_observed_status,
}
use cyrene_yield.Lifecycle.Store.{Store, Clock, create_or_get, load_run, load_plan, compare_and_set}
use cyrene_yield.Lifecycle.Reconciler.{ActionKind, Action, next_action}

unfoldable pub submit :
    Store
    → ExecutionPlan
    → String
    → String
    → Fields
    → String
    → Clock
    → Result Error (ProductRun × Store)
submit = create_or_get

-- The run's action, by its plan in the store.
unfoldable pub action_of : Store → ProductRun → Result Error Action
action_of s run = do plan ← load_plan s run.plan_id; next_action plan run

-- ProductControlPlane.next_action
unfoldable pub control_next_action : Store → String → Result Error Action
control_next_action s run_id = do run ← load_run s run_id; action_of s run

-- f"{run.run_id}:{int(attempt_number)}"
unfoldable pub attempt_name : ProductRun → ℕ → String
attempt_name r n = concat r.run_id (concat ":" (show n))

unfoldable pub next_attempt : ProductRun → String → Clock → Attempt
unfolding new_attempt attempt_name
next_attempt r step_id clock =
    let n = length r.attempts + 1 in
    new_attempt (attempt_name r n) r.run_id n step_id (clock 0) (clock 1)

-- with_attempt, with_step_status, with_observed_status in a chain
unfoldable pub with_started : ProductRun → Attempt → String → Result Error ProductRun
unfolding with_attempt with_step_status with_observed_status
with_started r attempt step_id = do
  started ← with_attempt r attempt
  with_observed_status (with_step_status started step_id StepStatus.running) PlanStatus.running

-- The step for which an action asks a new attempt.
unfoldable pub attempt_step : ActionKind → Option String → Result Error String
attempt_step ActionKind.create_attempt (some step_id) = ok step_id
attempt_step ActionKind.create_attempt none = err key_error
attempt_step ActionKind.retry_attempt (some step_id) = ok step_id
attempt_step ActionKind.retry_attempt none = err key_error
attempt_step _ _ = err no_attempt_allowed

-- What start_next_attempt and resume_attempt do with their new attempt.
unfoldable pub save_started :
    Store → ProductRun → Attempt → String → String → Result Error (Attempt × Store)
save_started s run attempt step_id now = do
  updated ← with_started run attempt step_id
  saved ← compare_and_set s updated run.generation now
  ok (attempt, saved.1)

unfoldable pub start_next_attempt : Store → String → Clock → Result Error (Attempt × Store)
unfolding attempt_step
start_next_attempt s run_id clock = do
  run ← load_run s run_id
  action ← action_of s run
  step_id ← attempt_step action.kind action.step_id
  save_started s run (next_attempt run step_id clock) step_id (clock 2)

abbrev pub is_resumable : PlanStatus → Bool
is_resumable PlanStatus.failed = true
is_resumable PlanStatus.cancelled = true
is_resumable PlanStatus.awaiting_retry = true
is_resumable _ = false

abbrev pub rewound : ProductRun → ProductRun
rewound run = record run {
  desired_state = DesiredState.active;
  observed_status = PlanStatus.running;
}

unfoldable pub resume_attempt : Store → String → String → Clock → Result Error (Attempt × Store)
resume_attempt s run_id step_id clock = do
  run ← load_run s run_id
  raise_if (not (is_resumable run.observed_status)) not_resumable
  plan ← load_plan s run.plan_id
  _ ← step_of plan step_id
  save_started s (rewound run) (next_attempt run step_id clock) step_id (clock 2)

abbrev pub is_stale : Option ℕ → ℕ → Bool
is_stale none generation = false
is_stale (some expected) generation = not (nat_eq generation expected)

-- The status that an observation gives to the run.
unfoldable pub with_status_of : ProductRun → AttemptStatus → Result Error ProductRun
unfolding with_observed_status
with_status_of r AttemptStatus.failed = with_observed_status r PlanStatus.awaiting_retry
with_status_of r AttemptStatus.lost = with_observed_status r PlanStatus.awaiting_retry
with_status_of r AttemptStatus.cancelling = with_observed_status r PlanStatus.cancelling
with_status_of r AttemptStatus.cancelled = with_observed_status r PlanStatus.cancel_requested
with_status_of r _ = ok r

unfoldable pub found_attempt : Option Attempt → Result Error Attempt
found_attempt none = err unknown_attempt
found_attempt (some a) = ok a

-- The part of observe_attempt after the attempt is found.
unfoldable pub apply_observation :
    Store
    → ProductRun
    → Attempt
    → AttemptStatus
    → Observation
    → Clock
    → Result Error (ProductRun × Store)
apply_observation s run attempt status o clock = do
  observed ← with_observation attempt status o (clock 0)
  changed ← with_observed_attempt run observed
  updated ← with_status_of changed status
  compare_and_set s updated run.generation (clock 1)

unfoldable pub observe_attempt :
    Store
    → String
    → String
    → AttemptStatus
    → Observation
    → Option ℕ
    → Clock
    → Result Error (ProductRun × Store)
unfolding found_attempt
observe_attempt s run_id attempt_id status o expected clock = do
  run ← load_run s run_id
  raise_if (is_stale expected run.generation) stale_generation
  attempt ← found_attempt (attempt_by_id run attempt_id)
  apply_observation s run attempt status o clock

unfoldable pub request_cancel : Store → String → Clock → Result Error (ProductRun × Store)
unfolding with_desired_state with_observed_status
request_cancel s run_id clock = do
  run ← load_run s run_id
  let change = (do
    desired ← with_desired_state run DesiredState.cancelled
    updated ← with_observed_status desired PlanStatus.cancel_requested
    compare_and_set s updated run.generation (clock 0))
  if terminal run then ok (run, s) else change

-- The table of apply_terminal_action.
unfoldable pub final_status : ActionKind → Option PlanStatus
final_status ActionKind.finalize_succeeded = some PlanStatus.succeeded
final_status ActionKind.finalize_failed = some PlanStatus.failed
final_status ActionKind.finalize_blocked = some PlanStatus.blocked
final_status ActionKind.finalize_cancelled = some PlanStatus.cancelled
final_status _ = none

unfoldable pub finish_run :
    Store → ProductRun → Option PlanStatus → Clock → Result Error (ProductRun × Store)
unfolding with_observed_status
finish_run s run none clock = ok (run, s)
finish_run s run (some target) clock = do
  updated ← with_observed_status run target
  compare_and_set s updated run.generation (clock 0)

unfoldable pub apply_terminal_action : Store → String → Clock → Result Error (ProductRun × Store)
unfolding final_status finish_run
apply_terminal_action s run_id clock = do
  run ← load_run s run_id
  action ← action_of s run
  finish_run s run (final_status action.kind) clock
