-- ===== src/Lifecycle/Step.antt =====
-- StepDependency, RetryPolicy and PlanStep of lifecycle/contracts.py. A constructor that checks its
-- fields is a function into `Result`; an ArtifactRef is kept as the value that persists it.
use cyrene_yield.Common.{
  ℕ, String, Bool, false, Option, List, ◌==◌, any, leb, ltb, is_empty, Result, ok, ◌>>◌, raise_if,
  if◌then◌else◌,
}
use cyrene_yield.Values.{Value, Fields}
use cyrene_yield.Lifecycle.Status.{
  StepStatus, AttemptStatus, Error, retry_bound_missing, step_id_required, capability_required,
  depends_on_itself,
}

pub record StepDependency : Type 0 where
  pub step_id : String
  pub required_status : StepStatus

pub record RetryPolicy : Type 0 where
  pub max_attempts : ℕ
  pub retry_failed : Bool
  pub retry_lost : Bool

-- RetryPolicy.__post_init__; an int below zero is refused as zero is.
unfoldable pub new_policy : RetryPolicy → Result Error RetryPolicy
new_policy p = do raise_if (ltb p.max_attempts 1) retry_bound_missing; ok p

retry_flag : RetryPolicy → AttemptStatus → Bool
retry_flag p AttemptStatus.failed = p.retry_failed
retry_flag p AttemptStatus.lost = p.retry_lost
retry_flag p _ = false

unfoldable pub allows : RetryPolicy → AttemptStatus → ℕ → Bool
unfolding retry_flag
allows p status attempts_so_far =
    if leb p.max_attempts attempts_so_far then false else retry_flag p status

pub record PlanStep : Type 0 where
  pub step_id : String
  pub capability : String
  pub inputs : List Value
  pub outputs : List String
  pub environment_identity : Option String
  pub resource_reference : Option String
  pub dependencies : List StepDependency
  pub retry_policy : RetryPolicy
  pub execution_payload_ref : Option String
  pub metadata : Fields
  pub provenance : Fields
  pub status : StepStatus

-- PlanStep.__post_init__
unfoldable pub new_step : PlanStep → Result Error PlanStep
new_step s = do
  raise_if (is_empty s.step_id) step_id_required
  raise_if (is_empty s.capability) capability_required
  raise_if (any (λ d. d.step_id == s.step_id) s.dependencies) depends_on_itself
  ok s
