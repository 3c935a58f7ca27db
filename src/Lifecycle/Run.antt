-- ===== src/Lifecycle/Run.antt =====
-- ProductRun of lifecycle/contracts.py. A method that returns a new dataclass returns the record.
use cyrene_yield.Common.{
  concat, ℕ, String, Bool, not, ◌&&◌, Option, none, some, List, [], ◌∷◌, ◌++◌, ◌==◌, any, filter,
  find, get_last?, same, is_empty, Result, ok, err, ◌>>◌, raise_if, Dict, insert, if◌then◌else◌,
}
use cyrene_yield.Values.{Fields, normalized_fields}
use cyrene_yield.Lifecycle.Status.{
  StepStatus, PlanStatus, PlanStatus-discrete, DesiredState, DesiredState-discrete,
  attempt_terminal, plan_terminal, step_status_from_attempt, Error, terminal_attempt, terminal_run,
  product_kind_required, idempotency_key_required, other_run, duplicate_attempt, unknown_attempt,
}
use cyrene_yield.Lifecycle.Attempt.{Attempt, reload_attempt, attempt_eq}

pub record ProductRun : Type 0 where
  pub run_id : String
  pub product_kind : String
  pub plan_id : String
  pub idempotency_key : String
  pub desired_state : DesiredState
  pub observed_status : PlanStatus
  pub generation : ℕ
  pub attempts : List Attempt
  pub step_statuses : Dict StepStatus
  pub metadata : Fields
  pub created_at : String
  pub updated_at : String

-- The run that ProductRun.create makes; `fresh` is the uuid of `run_id or f"run-{uuid.uuid4()}"`.
abbrev pub new_run : String → String → String → Fields → String → String → String → ProductRun
new_run product_kind plan_id idempotency_key metadata fresh created_at updated_at = record {
  run_id = concat "run-" fresh;
  product_kind = product_kind;
  plan_id = plan_id;
  idempotency_key = idempotency_key;
  desired_state = DesiredState.active;
  observed_status = PlanStatus.pending;
  generation = 0;
  attempts = [];
  step_statuses = [];
  metadata = metadata;
  created_at = created_at;
  updated_at = updated_at;
}

-- ProductRun.create, which the store calls with no run_id.
unfoldable pub create_run :
    String → String → String → Fields → String → String → String → Result Error ProductRun
create_run product_kind plan_id idempotency_key metadata fresh created_at updated_at = do
  raise_if (is_empty product_kind) product_kind_required
  raise_if (is_empty idempotency_key) idempotency_key_required
  ok (new_run product_kind plan_id idempotency_key metadata fresh created_at updated_at)

-- ProductRun.terminal
abbrev pub terminal : ProductRun → Bool
terminal r = plan_terminal r.observed_status

-- ProductRun.latest_attempt
abbrev pub latest_attempt : ProductRun → Option Attempt
latest_attempt r = get_last? r.attempts

-- ProductRun.attempts_for_step
unfoldable pub attempts_for_step : ProductRun → String → List Attempt
attempts_for_step r step_id = filter (λ a. a.step_id == step_id) r.attempts

-- ProductRun.with_attempt
unfoldable pub with_attempt : ProductRun → Attempt → Result Error ProductRun
with_attempt r a = do
  raise_if (terminal r) terminal_run
  raise_if (not (a.run_id == r.run_id)) other_run
  raise_if (any (λ b. b.attempt_id == a.attempt_id) r.attempts) duplicate_attempt
  ok (record r { attempts = r.attempts ++ a ∷ [] })

-- The comprehension that puts the observed attempt in the place of its former self.
unfoldable pub replace_attempt : Attempt → List Attempt → List Attempt
replace_attempt o [] = []
replace_attempt o (a ∷ as') =
    (if a.attempt_id == o.attempt_id then o else a) ∷ replace_attempt o as'

-- The part of with_observed_attempt after `previous` is found.
unfoldable pub observe_previous : ProductRun → Attempt → Option Attempt → Result Error ProductRun
unfolding replace_attempt
observe_previous r o none = err unknown_attempt
observe_previous r o (some previous) = do
  raise_if (attempt_terminal previous.status && not (attempt_eq o previous)) terminal_attempt
  ok (record r {
    attempts = replace_attempt o r.attempts;
    step_statuses = insert o.step_id (step_status_from_attempt o.status) r.step_statuses;
  })

abbrev pub attempt_by_id : ProductRun → String → Option Attempt
attempt_by_id r id = find (λ a. a.attempt_id == id) r.attempts

-- ProductRun.with_observed_attempt
unfoldable pub with_observed_attempt : ProductRun → Attempt → Result Error ProductRun
unfolding observe_previous
with_observed_attempt r o = observe_previous r o (attempt_by_id r o.attempt_id)

-- ProductRun.with_step_status
unfoldable pub with_step_status : ProductRun → String → StepStatus → ProductRun
with_step_status r step_id status = record r {
  step_statuses = insert step_id status r.step_statuses;
}

-- ProductRun.with_desired_state
unfoldable pub with_desired_state : ProductRun → DesiredState → Result Error ProductRun
with_desired_state r d = do
  raise_if (terminal r && not (same DesiredState-discrete d r.desired_state)) terminal_run
  ok (record r { desired_state = d })

-- ProductRun.with_observed_status
unfoldable pub with_observed_status : ProductRun → PlanStatus → Result Error ProductRun
with_observed_status r s = do
  raise_if (terminal r && not (same PlanStatus-discrete s r.observed_status)) terminal_run
  ok (record r { observed_status = s })

unfoldable pub reload_attempts : List Attempt → List Attempt
unfolding reload_attempt
reload_attempts [] = []
reload_attempts (a ∷ as') = reload_attempt a ∷ reload_attempts as'

-- A run written by `to_dict` and read back by `from_dict`.
unfoldable pub reload_run : ProductRun → ProductRun
unfolding reload_attempts
reload_run r = record r {
  attempts = reload_attempts r.attempts;
  metadata = normalized_fields r.metadata;
}
