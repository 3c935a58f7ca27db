-- ===== src/Examples/Data.antt =====
-- A plan of two steps, a store that holds a run of it, and the calls that lead there.
use cyrene_yield.Common.{String, true, false, none, List, [], ◌∷◌}
use cyrene_yield.Values.{Fields}
use cyrene_yield.Lifecycle.Status.{StepStatus, PlanStatus, DesiredState, AttemptStatus}
use cyrene_yield.Lifecycle.Step.{StepDependency, RetryPolicy, PlanStep}
use cyrene_yield.Lifecycle.Plan.{ExecutionPlan}
use cyrene_yield.Lifecycle.Attempt.{Attempt}
use cyrene_yield.Lifecycle.Run.{ProductRun}
use cyrene_yield.Lifecycle.Store.{Store, Clock}

abbrev pub twice : RetryPolicy
twice = record { max_attempts = 2; retry_failed = true; retry_lost = true }

abbrev pub step_named : String → List StepDependency → PlanStep
step_named id deps = record {
  step_id = id;
  capability = "training";
  inputs = [];
  outputs = [];
  environment_identity = none;
  resource_reference = none;
  dependencies = deps;
  retry_policy = twice;
  execution_payload_ref = none;
  metadata = Fields.end;
  provenance = Fields.end;
  status = StepStatus.pending;
}

abbrev pub after : String → StepDependency
after id = record { step_id = id; required_status = StepStatus.succeeded }

-- `train` is declared before the step that it depends on.
abbrev pub train : PlanStep
train = step_named "train" (after "preflight" ∷ [])

abbrev pub preflight : PlanStep
preflight = step_named "preflight" []

abbrev pub steps : List PlanStep
steps = train ∷ preflight ∷ []

abbrev pub plan : ExecutionPlan
plan = record {
  plan_id = "plan-1";
  steps = steps;
  contract_version = "cyrene.control-plane.v1";
  metadata = Fields.end;
  provenance = Fields.end;
}

abbrev pub cyclic : List PlanStep
cyclic = step_named "a" (after "b" ∷ []) ∷ step_named "b" (after "a" ∷ []) ∷ []

abbrev pub clock : Clock
clock n = "t"

abbrev pub run : ProductRun
run = record {
  run_id = "run-1";
  product_kind = "yield";
  plan_id = "plan-1";
  idempotency_key = "key";
  desired_state = DesiredState.active;
  observed_status = PlanStatus.pending;
  generation = 0;
  attempts = [];
  step_statuses = [];
  metadata = Fields.end;
  created_at = "t";
  updated_at = "t";
}

-- The store after the first submission.
abbrev pub store : Store
store = record {
  plans = ("plan-1", plan) ∷ [];
  runs = ("run-1", run) ∷ [];
  idempotency = ("key", "run-1") ∷ [];
}

abbrev pub first_attempt : Attempt
first_attempt = record {
  attempt_id = "run-1:1";
  run_id = "run-1";
  number = 1;
  step_id = "preflight";
  status = AttemptStatus.pending;
  execution_references = [];
  cleanup_confirmed = false;
  error = none;
  metadata = Fields.end;
  created_at = "t";
  observed_at = "t";
}

abbrev pub running_run : ProductRun
running_run = record run {
  observed_status = PlanStatus.running;
  generation = 1;
  attempts = first_attempt ∷ [];
  step_statuses = ("preflight", StepStatus.running) ∷ [];
}

-- The store after the first attempt is started.
abbrev pub running_store : Store
running_store = record store { runs = ("run-1", running_run) ∷ [] }

abbrev pub cancelled_attempt : Attempt
cancelled_attempt = record first_attempt { status = AttemptStatus.cancelled }

abbrev pub cancelled_run : ProductRun
cancelled_run = record run {
  desired_state = DesiredState.cancelled;
  observed_status = PlanStatus.cancel_requested;
  generation = 3;
  attempts = cancelled_attempt ∷ [];
  step_statuses = ("preflight", StepStatus.cancelled) ∷ [];
}

-- The store after the attempt is observed as cancelled and the cancellation is requested.
abbrev pub cancelled_store : Store
cancelled_store = record store { runs = ("run-1", cancelled_run) ∷ [] }

abbrev pub failed_run : ProductRun
failed_run = record run {
  observed_status = PlanStatus.failed;
  generation = 4;
  attempts = record first_attempt { status = AttemptStatus.failed } ∷ [];
  step_statuses = ("preflight", StepStatus.failed) ∷ [];
}

abbrev pub failed_store : Store
failed_store = record store { runs = ("run-1", failed_run) ∷ [] }

abbrev pub later : Clock
later n = "u"
