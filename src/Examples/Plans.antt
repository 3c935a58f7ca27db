-- ===== src/Examples/Plans.antt =====
-- The ordering of steps at concrete plans.
use mathlib.Core.List.{Perm}
use cyrene_yield.Common.{
  ℕ, String, ◌≡◌, refl, List, [], ◌∷◌, arith, ◌==◌, ok, err, if◌then◌else◌, Unique, insert, has_key,
  delete,
}
use cyrene_yield.Values.{Fields, int, field, end}
use cyrene_yield.Lifecycle.Status.{Error, cyclic_dependencies}
use cyrene_yield.Lifecycle.Step.{PlanStep}
use cyrene_yield.Lifecycle.Plan.{ordered_steps, new_plan, missing_dependencies_of, step_ids}
use cyrene_yield.Lifecycle.Plan.Termination.{ordered_steps_error}
use cyrene_yield.Lifecycle.Plan.Soundness.{Topological, ordered_steps_sound}
use cyrene_yield.Lifecycle.Plan.Completeness.{ordered_steps_complete}
use cyrene_yield.Lifecycle.Plan.Validity.{IsValid, new_plan-IsValid}
use cyrene_yield.Examples.Data.{train, preflight, steps, plan, cyclic}

steps-Unique : Unique (step_ids steps)
steps-Unique = (refl, (refl, tt))

runs_preflight_first : ordered_steps steps ≡ ok (preflight ∷ train ∷ [])
unfolding ordered_steps insert has_key delete
runs_preflight_first = refl

rejects_cycle : ordered_steps cyclic ≡ err cyclic_dependencies
unfolding ordered_steps insert has_key
rejects_cycle = refl

abbrev rank : String → ℕ
rank id = if id == "preflight" then 0 else 1

ordered_steps_error_example : ◌≡◌ {A = Error} cyclic_dependencies cyclic_dependencies
ordered_steps_error_example =
    ordered_steps_error cyclic cyclic_dependencies (refl, (refl, tt)) rejects_cycle

ordered_steps_sound_example :
    Topological [] (preflight ∷ train ∷ []) × Perm (preflight ∷ train ∷ []) steps
ordered_steps_sound_example =
    ordered_steps_sound steps (preflight ∷ train ∷ []) steps-Unique runs_preflight_first

ordered_steps_complete_example : (order : List PlanStep) × (ordered_steps steps ≡ ok order)
ordered_steps_complete_example =
    ordered_steps_complete rank steps steps-Unique (((refl, omega arith), tt), (tt, tt))

accepts_plan : new_plan plan ≡ ok plan
unfolding new_plan ordered_steps missing_dependencies_of insert has_key delete
accepts_plan = refl

new_plan-IsValid_example : (plan ≡ plan) × IsValid plan
new_plan-IsValid_example = new_plan-IsValid plan plan accepts_plan

abbrev unsorted : Fields
unsorted = field "b" (int 1) (field "a" (int 2) end)
