-- ===== src/Lifecycle/Plan/Validity.antt =====
-- The checks of ExecutionPlan.__post_init__.
use mathlib.Core.List.{Perm}
use cyrene_yield.Common.{
  ℕ, String, ◌≡◌, refl, ◌≢◌, List, [], ◌∷◌, arith, eq_iff, length, to_set, Unique, length-Unique,
  Unique-length, ok, Result-cases, inl, inr,
}
use cyrene_yield.Lifecycle.Step.{StepDependency, PlanStep}
use cyrene_yield.Lifecycle.Plan.{
  ExecutionPlan, step_ids, missing_in, missing_dependencies_of, ordered_steps, new_plan,
}
use cyrene_yield.Lifecycle.Plan.Soundness.{Topological, ordered_steps_sound}
use cyrene_yield.Lifecycle.Plan.Completeness.{RankedDeps, Ranked, ordered_steps_complete}

-- What the constructor promises of a plan.
pub record IsValid (p : ExecutionPlan) : Type 0 where
  pub named : p.plan_id ≢ ""
  pub distinct : Unique (step_ids p.steps)
  pub order : List PlanStep
  pub computed : ordered_steps p.steps ≡ ok order
  pub sorted : Topological [] order
  pub complete : Perm order p.steps

missing_in-nil :
    (rank : String → ℕ) (known : List String) (n : ℕ) (ds : List StepDependency)
    → RankedDeps rank known n ds
    → missing_in known ds ≡ []
unfolding missing_in
missing_in-nil rank known n [] h = refl
missing_in-nil rank known n (d ∷ ds) h = rw h.0.0 (missing_in-nil rank known n ds h.1)

missing-nil :
    (rank : String → ℕ) (known : List String) (ss : List PlanStep)
    → Ranked rank known ss
    → missing_dependencies_of known ss ≡ []
unfolding missing_dependencies_of
missing-nil rank known [] h = refl
missing-nil rank known (s ∷ ss) h =
    rw (missing_in-nil rank known (rank s.step_id) s.dependencies h.0)
      (missing-nil rank known ss h.1)

-- A plan that the constructor returns is the one that it was given, its identity is not empty, its
-- steps are distinct, and `ordered_steps` returns a topological order of them.
pub new_plan-IsValid : (p q : ExecutionPlan) → new_plan p ≡ ok q → (q ≡ p) × IsValid q
unfolding new_plan
new_plan-IsValid p q h = elim (Result-cases (ordered_steps p.steps)) [
  | inr (e, refused) ↦ ground arith
  | inl (order, e) ↦
      let same_plan : q ≡ p = ground arith in
      let named : p.plan_id ≢ "" = ground (arith, eq_iff p.plan_id "") in
      let lengths : length (to_set (step_ids p.steps)) ≡ length (step_ids p.steps) = ground arith in
      let u = length-Unique (step_ids p.steps) lengths in
      let (sorted, perm) = ordered_steps_sound p.steps order u e in
      (
        same_plan,
        rw same_plan (record {
          named = named;
          distinct = u;
          order = order;
          computed = e;
          sorted = sorted;
          complete = perm;
        }),
      )
]

-- A named plan of distinct steps whose dependencies are steps of the plan and can be ranked is
-- accepted.
pub new_plan_accepts :
    (rank : String → ℕ) (p : ExecutionPlan)
    → p.plan_id ≢ ""
    → Unique (step_ids p.steps)
    → Ranked rank (step_ids p.steps) p.steps
    → new_plan p ≡ ok p
unfolding new_plan
new_plan_accepts rank p named u ranked =
    let (order, e) = ordered_steps_complete rank p.steps u ranked in
    rw (missing-nil rank (step_ids p.steps) p.steps ranked, e)
      (ground (arith, eq_iff p.plan_id "", Unique-length (step_ids p.steps)))
