-- ===== src/Lifecycle/Plan.antt =====
-- ExecutionPlan of lifecycle/contracts.py: the checks of its constructor, and the loop that orders
-- its steps.
mod Deletion
pub mod Termination
pub mod Soundness
pub mod Completeness
pub mod Validity
use cyrene_yield.Common.{
  ℕ, zero, suc, String, Bool, not, ◌&&◌, none, some, List, [], ◌∷◌, ◌++◌, ◌==◌, all, filter, find,
  contains, length, to_set, nat_eq, is_empty, Result, is_nil, ok, err, ◌>>=◌, ◌>>◌, raise_if, Dict,
  insert, has_key, delete, if◌then◌else◌,
}
use cyrene_yield.Values.{Fields}
use cyrene_yield.Lifecycle.Status.{
  Error, plan_id_required, duplicate_steps, missing_dependencies, cyclic_dependencies, unknown_step,
  key_error, out_of_fuel,
}
use cyrene_yield.Lifecycle.Step.{StepDependency, PlanStep}

pub record ExecutionPlan : Type 0 where
  pub plan_id : String
  pub steps : List PlanStep
  pub contract_version : String
  pub metadata : Fields
  pub provenance : Fields

abbrev pub step_ids : List PlanStep → List String
step_ids [] = []
step_ids (s ∷ ss) = s.step_id ∷ step_ids ss

-- {step.step_id: step for step in steps}, from what was read before
unfoldable pub by_id : List PlanStep → Dict PlanStep → Dict PlanStep
by_id [] d = d
by_id (s ∷ ss) d = by_id ss (insert s.step_id s d)

-- all(dependency.step_id in completed for dependency in step.dependencies)
abbrev pub deps_in : List String → PlanStep → Bool
deps_in completed s = all (λ d. contains d.step_id completed) s.dependencies

-- The steps that the comprehension `ready` keeps.
abbrev pub is_ready : Dict PlanStep → List String → PlanStep → Bool
is_ready remaining completed s = has_key s.step_id remaining && deps_in completed s

-- `for step in ready: del remaining[step.step_id]`
unfoldable pub delete_all : List PlanStep → Dict PlanStep → Result Error (Dict PlanStep)
delete_all [] d = ok d
delete_all (s ∷ ss) d =
    if has_key s.step_id d then delete_all ss (delete s.step_id d) else err key_error

-- One pass of the body of `while remaining`, then the rest of the loop.
unfoldable pub order_loop :
    ℕ → List PlanStep → Dict PlanStep → List String → List PlanStep → Result Error (List PlanStep)
order_loop f steps [] completed ordered = ok ordered
order_loop zero steps (r ∷ rs) completed ordered = err out_of_fuel
order_loop (suc f) steps (r ∷ rs) completed ordered =
    let ready = filter (is_ready (r ∷ rs) completed) steps in
    let rest = (do
      remaining ← delete_all ready (r ∷ rs)
      order_loop f steps remaining (completed ++ step_ids ready) (ordered ++ ready)) in
    if is_nil ready then err cyclic_dependencies else rest

-- A round removes a step at least, so there are no more rounds than steps.
unfoldable pub ordered_steps : List PlanStep → Result Error (List PlanStep)
unfolding order_loop by_id delete_all
ordered_steps steps = order_loop (length steps) steps (by_id steps []) [] []

-- The identities that some step depends on and no step has.
unfoldable pub missing_in : List String → List StepDependency → List String
missing_in known [] = []
missing_in known (d ∷ ds) =
    let rest = missing_in known ds in if contains d.step_id known then rest else d.step_id ∷ rest

unfoldable pub missing_dependencies_of : List String → List PlanStep → List String
unfolding missing_in
missing_dependencies_of known [] = []
missing_dependencies_of known (s ∷ ss) =
    missing_in known s.dependencies ++ missing_dependencies_of known ss

-- ExecutionPlan.__post_init__
unfoldable pub new_plan : ExecutionPlan → Result Error ExecutionPlan
new_plan p = do
  raise_if (is_empty p.plan_id) plan_id_required
  raise_if (not (nat_eq (length (step_ids p.steps)) (length (to_set (step_ids p.steps)))))
      duplicate_steps
  raise_if (not (is_nil (missing_dependencies_of (step_ids p.steps) p.steps))) missing_dependencies
  _ ← ordered_steps p.steps
  ok p

-- ExecutionPlan.step
unfoldable pub step_of : ExecutionPlan → String → Result Error PlanStep
step_of p id = elim (find (λ s. s.step_id == id) p.steps) [
  | none ↦ err unknown_step
  | some s ↦ ok s
]
