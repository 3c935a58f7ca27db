-- ===== src/Lifecycle/Store.antt =====
-- JsonFileControlPlaneStore of lifecycle/store.py. The state is the content of its file. A call
-- that raises writes nothing, so it returns no store, and its caller keeps the old one.
pub mod History
pub mod Replacing
pub mod Reach
pub mod Invariant
pub mod Submission
use cyrene_yield.Common.{
  ℕ, ◌+◌, String, not, ◌&&◌, ◌||◌, Option, none, some, List, [], ◌∷◌, ◌==◌, all, filter, nat_eq,
  Result, ok, err, ◌>>=◌, ◌>>◌, raise_if, Dict, lookup, insert, has_key, keys, values,
  if◌then◌else◌,
}
use cyrene_yield.Values.{Fields, normalized_fields}
use cyrene_yield.Lifecycle.Status.{
  attempt_terminal, Error, terminal_attempt, key_immutable, plan_immutable, kind_immutable,
  history_removed, unknown_run, unknown_plan, key_error, stale_generation, idempotency_conflict,
}
use cyrene_yield.Lifecycle.Step.{PlanStep, new_policy, new_step}
use cyrene_yield.Lifecycle.Plan.{ExecutionPlan, new_plan}
use cyrene_yield.Lifecycle.Attempt.{Attempt, attempt_eq}
use cyrene_yield.Lifecycle.Run.{ProductRun, create_run, terminal, reload_run}

pub record Store : Type 0 where
  pub plans : Dict ExecutionPlan
  pub runs : Dict ProductRun
  pub idempotency : Dict String

-- What __init__ writes to a file that does not exist.
abbrev pub empty_store : Store
empty_store = record { plans = []; runs = []; idempotency = [] }

-- Successive readings of the clock by one call.
abbrev pub Clock : Type 0
Clock = ℕ → String

unfoldable pub reload_step : PlanStep → PlanStep
reload_step s = record s {
  metadata = normalized_fields s.metadata;
  provenance = normalized_fields s.provenance;
}

unfoldable pub reload_steps : List PlanStep → List PlanStep
unfolding reload_step
reload_steps [] = []
reload_steps (s ∷ ss) = reload_step s ∷ reload_steps ss

-- A plan as `to_dict` writes it.
unfoldable pub reload_plan : ExecutionPlan → ExecutionPlan
unfolding reload_steps
reload_plan p = record p {
  steps = reload_steps p.steps;
  metadata = normalized_fields p.metadata;
  provenance = normalized_fields p.provenance;
}

-- The constructors that ExecutionPlan.from_dict runs, the steps' first.
unfoldable pub construct_steps : List PlanStep → Result Error (List PlanStep)
construct_steps [] = ok []
construct_steps (s ∷ ss) = do
  _ ← new_policy s.retry_policy
  t ← new_step s
  ts ← construct_steps ss
  ok (t ∷ ts)

unfoldable pub construct_plan : ExecutionPlan → Result Error ExecutionPlan
unfolding construct_steps
construct_plan p = do ss ← construct_steps p.steps; new_plan (record p { steps = ss })

-- The branch of create_or_get on a key that is taken.
unfoldable pub get_existing :
    Store → ExecutionPlan → String → Option ProductRun → Result Error (ProductRun × Store)
get_existing s plan product_kind none = err key_error
get_existing s plan product_kind (some existing) =
    if not (existing.plan_id == plan.plan_id) || not (existing.product_kind == product_kind)
    then err idempotency_conflict
    else ok (existing, s)

-- `plans.setdefault(plan_id, plan.to_dict())`
unfoldable pub set_default : ExecutionPlan → Dict ExecutionPlan → Dict ExecutionPlan
unfolding reload_plan
set_default plan plans =
    if has_key plan.plan_id plans then plans else insert plan.plan_id (reload_plan plan) plans

-- The branch of create_or_get on a new key.
unfoldable pub create_new :
    Store
    → ExecutionPlan
    → String
    → String
    → Fields
    → String
    → Clock
    → Result Error (ProductRun × Store)
unfolding create_run set_default reload_run
create_new s plan product_kind key metadata fresh clock = do
  run ← create_run product_kind plan.plan_id key metadata fresh (clock 0) (clock 1)
  ok (
    run,
    record {
      plans = set_default plan s.plans;
      runs = insert run.run_id (reload_run run) s.runs;
      idempotency = insert key run.run_id s.idempotency;
    },
  )

unfoldable pub create_or_get :
    Store
    → ExecutionPlan
    → String
    → String
    → Fields
    → String
    → Clock
    → Result Error (ProductRun × Store)
unfolding get_existing create_new
create_or_get s plan product_kind key metadata fresh clock = elim (lookup key s.idempotency) [
  | some id ↦ get_existing s plan product_kind (lookup id s.runs)
  | none ↦ create_new s plan product_kind key metadata fresh clock
]

unfoldable pub load_run : Store → String → Result Error ProductRun
load_run s run_id = elim (lookup run_id s.runs) [ none ↦ err unknown_run | some r ↦ ok r ]

unfoldable pub load_plan : Store → String → Result Error ExecutionPlan
load_plan s plan_id = elim (lookup plan_id s.plans) [
  | none ↦ err unknown_plan
  | some p ↦ construct_plan p
]

-- {item.attempt_id: item for item in attempts}, from what was read before
unfoldable pub by_attempt_id : List Attempt → Dict Attempt → Dict Attempt
by_attempt_id [] d = d
by_attempt_id (a ∷ as') d = by_attempt_id as' (insert a.attempt_id a d)

-- One round of the last loop of _assert_history_immutable.
unfoldable pub candidate_ok : Attempt → Option Attempt → Result Error (Unit {0})
candidate_ok item none = err key_error
candidate_ok item (some candidate) =
    raise_if (attempt_terminal item.status && not (attempt_eq candidate item)) terminal_attempt

unfoldable pub check_candidates : Dict Attempt → Dict Attempt → Result Error (Unit {0})
unfolding candidate_ok
check_candidates [] later = ok tt
check_candidates ((id, item) ∷ earlier) later = do
  candidate_ok item (lookup id later)
  check_candidates earlier later

-- _assert_history_immutable
unfoldable pub assert_history_immutable : ProductRun → ProductRun → Result Error (Unit {0})
unfolding check_candidates by_attempt_id
assert_history_immutable previous replacement = do
  raise_if (not (previous.idempotency_key == replacement.idempotency_key)) key_immutable
  raise_if (not (previous.plan_id == replacement.plan_id)) plan_immutable
  raise_if (not (previous.product_kind == replacement.product_kind)) kind_immutable
  let earlier = by_attempt_id previous.attempts []
  let later = by_attempt_id replacement.attempts []
  raise_if (not (all (λ id. has_key id later) (keys earlier))) history_removed
  check_candidates earlier later

-- The part of compare_and_set after the current run is read.
unfoldable pub replace_run :
    Store → ProductRun → ℕ → ProductRun → String → Result Error (ProductRun × Store)
unfolding reload_run
replace_run s run expected current now = do
  raise_if (not (nat_eq current.generation expected)) stale_generation
  assert_history_immutable current run
  let persisted = record run {
    generation = current.generation + 1;
    created_at = current.created_at;
    updated_at = now;
  }
  ok (persisted, record s { runs = insert persisted.run_id (reload_run persisted) s.runs })

unfoldable pub compare_and_set : Store → ProductRun → ℕ → String → Result Error (ProductRun × Store)
unfolding replace_run load_run
compare_and_set s run expected now = do
  current ← load_run s run.run_id
  replace_run s run expected current now

unfoldable pub list_nonterminal : Store → List ProductRun
list_nonterminal s = filter (λ r. not (terminal r)) (values s.runs)
