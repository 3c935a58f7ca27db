-- ===== src/Lifecycle/Status.antt =====
-- The enumerations of lifecycle/contracts.py, and the exceptions that the package raises.
use mathlib.Core.Bool.{Bool, true, false}

pub data StepStatus : Type 0 where
  pending running succeeded failed blocked cancelling cancelled : StepStatus

pub data PlanStatus : Type 0 where
  pending running awaiting_retry succeeded failed blocked cancel_requested cancelling cancelled :
      PlanStatus

pub data DesiredState : Type 0 where
  active cancelled : DesiredState

pub data AttemptStatus : Type 0 where
  pending running succeeded failed lost blocked cancelling cancelled : AttemptStatus

unfoldable pub StepStatus-discrete : Discrete StepStatus
StepStatus-discrete = hlevel

unfoldable pub PlanStatus-discrete : Discrete PlanStatus
PlanStatus-discrete = hlevel

unfoldable pub DesiredState-discrete : Discrete DesiredState
DesiredState-discrete = hlevel

unfoldable pub AttemptStatus-discrete : Discrete AttemptStatus
AttemptStatus-discrete = hlevel

-- AttemptStatus.terminal
unfoldable pub attempt_terminal : AttemptStatus → Bool
attempt_terminal AttemptStatus.succeeded = true
attempt_terminal AttemptStatus.failed = true
attempt_terminal AttemptStatus.lost = true
attempt_terminal AttemptStatus.blocked = true
attempt_terminal AttemptStatus.cancelled = true
attempt_terminal _ = false

-- The set of statuses on which ProductRun.terminal is decided.
unfoldable pub plan_terminal : PlanStatus → Bool
plan_terminal PlanStatus.succeeded = true
plan_terminal PlanStatus.failed = true
plan_terminal PlanStatus.blocked = true
plan_terminal PlanStatus.cancelled = true
plan_terminal _ = false

unfoldable pub step_status_from_attempt : AttemptStatus → StepStatus
step_status_from_attempt AttemptStatus.pending = StepStatus.pending
step_status_from_attempt AttemptStatus.running = StepStatus.running
step_status_from_attempt AttemptStatus.succeeded = StepStatus.succeeded
step_status_from_attempt AttemptStatus.failed = StepStatus.failed
step_status_from_attempt AttemptStatus.lost = StepStatus.failed
step_status_from_attempt AttemptStatus.blocked = StepStatus.blocked
step_status_from_attempt AttemptStatus.cancelling = StepStatus.cancelling
step_status_from_attempt AttemptStatus.cancelled = StepStatus.cancelled

-- One constructor for each place that raises, under the exception's class.
pub data Error : Type 0 where
  -- ValueError
  retry_bound_missing : Error
  step_id_required : Error
  capability_required : Error
  depends_on_itself : Error
  plan_id_required : Error
  duplicate_steps : Error
  missing_dependencies : Error
  cyclic_dependencies : Error
  terminal_attempt : Error
  terminal_run : Error
  product_kind_required : Error
  idempotency_key_required : Error
  other_run : Error
  duplicate_attempt : Error
  key_immutable : Error
  plan_immutable : Error
  kind_immutable : Error
  history_removed : Error
  no_attempt_allowed : Error
  not_resumable : Error
  -- KeyError
  unknown_step : Error
  unknown_attempt : Error
  unknown_run : Error
  unknown_plan : Error
  key_error : Error
  -- RuntimeError
  stale_generation : Error
  idempotency_conflict : Error
  -- The fuel of a loop ran out; no run of the code ends so.
  out_of_fuel : Error
