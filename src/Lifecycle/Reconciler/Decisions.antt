-- ===== src/Lifecycle/Reconciler/Decisions.antt =====
-- What each action of ProductReconciler.next_action says of the plan and the run.
use cyrene_yield.Common.{
  ℕ, ◌<◌, ◌≡◌, refl, Bool, true, false, not, ◌&&◌, ◌⊎◌, Option, none, some, List, [], ◌∷◌, arith,
  length, all, All, lookup, same_iff, Result, ok, err, Result-cases, Bool-cases, inl, inr,
}
use cyrene_yield.Lifecycle.Status.{StepStatus, StepStatus-discrete, DesiredState, AttemptStatus}
use cyrene_yield.Lifecycle.Step.{StepDependency, PlanStep, allows}
use cyrene_yield.Lifecycle.Plan.{ExecutionPlan, ordered_steps, step_of}
use cyrene_yield.Lifecycle.Attempt.{Attempt}
use cyrene_yield.Lifecycle.Run.{ProductRun, terminal, latest_attempt, attempts_for_step}
use cyrene_yield.Lifecycle.Reconciler.{
  ActionKind, Action, on_attempt, is_active, is_cancelled, is_step_pending, is_step_succeeded,
  status_of, dependency_met, is_runnable, first_runnable, all_succeeded, chosen_action,
  cancel_action, step_action, retry_action, latest_action, any_blocked, active_action,
  desired_action, next_action,
}

-- A fact about a result that holds nothing when it is an error.
abbrev pub IfOk {ℓ κ} : {E : Type 0} {A : Type ℓ} → (A → Type κ) → Result E A → Type κ
IfOk P (ok a) = P a
IfOk P (err e) = Unit

-- The run goes on: it is not terminal, nobody wants it cancelled, and no step of it is blocked.
abbrev pub Going : ProductRun → Type 0
Going r = (terminal r ≡ false) × (r.desired_state ≡ DesiredState.active)

abbrev pub Clear : ProductRun → Type 0
Clear r = (any_blocked r ≡ false) × Going r

-- What an action names besides its run.
abbrev NamesNothing : Action → Type 0
NamesNothing x = (x.step_id ≡ none) × (x.attempt_id ≡ none)

abbrev NamesAttempt : Attempt → Action → Type 0
NamesAttempt a x = (x.step_id ≡ some a.step_id) × (x.attempt_id ≡ some a.attempt_id)

abbrev Unsettled : ProductRun → Attempt → Type 0
Unsettled r a =
    ((is_active a.status ≡ true) × (r.desired_state ≡ DesiredState.active))
    ⊎ ((a.status ≡ AttemptStatus.cancelled)
        × (a.cleanup_confirmed ≡ false)
        × (r.desired_state ≡ DesiredState.cancelled))

-- What justifies an action of a kind, with the step and the attempt that it names.
abbrev pub Grounds : ExecutionPlan → ProductRun → Action → ActionKind → Type 0
Grounds plan r x ActionKind.create_attempt =
    (order : List PlanStep) × (s : PlanStep) × (ordered_steps plan.steps ≡ ok order)
    × (first_runnable r order ≡ some s)
    × (x.step_id ≡ some s.step_id)
    × (x.attempt_id ≡ none)
    × (status_of r s.step_id ≡ StepStatus.pending)
    × All (λ d. status_of r d.step_id ≡ d.required_status) s.dependencies
    × Clear r
Grounds plan r x ActionKind.retry_attempt =
    (a : Attempt) × (s : PlanStep) × (latest_attempt r ≡ some a)
    × NamesAttempt a x
    × ((a.status ≡ AttemptStatus.failed) ⊎ (a.status ≡ AttemptStatus.lost))
    × (step_of plan a.step_id ≡ ok s)
    × (length (attempts_for_step r a.step_id) < s.retry_policy.max_attempts)
    × Clear r
Grounds plan r x ActionKind.finalize_succeeded =
    All (λ s. lookup s.step_id r.step_statuses ≡ some StepStatus.succeeded) plan.steps
    × NamesNothing x
    × Clear r
Grounds plan r x ActionKind.finalize_failed =
    (a : Attempt) × (s : PlanStep) × (latest_attempt r ≡ some a)
    × NamesAttempt a x
    × ((a.status ≡ AttemptStatus.failed) ⊎ (a.status ≡ AttemptStatus.lost))
    × (step_of plan a.step_id ≡ ok s)
    × (allows s.retry_policy a.status (length (attempts_for_step r a.step_id)) ≡ false)
    × Clear r
Grounds plan r x ActionKind.finalize_blocked =
    Going r
    × (((any_blocked r ≡ true) × NamesNothing x)
        ⊎ ((a : Attempt) × (latest_attempt r ≡ some a)
            × NamesAttempt a x
            × (a.status ≡ AttemptStatus.blocked)))
Grounds plan r x ActionKind.request_cancellation =
    (a : Attempt) × (latest_attempt r ≡ some a)
    × NamesAttempt a x
    × (is_active a.status ≡ true)
    × (terminal r ≡ false)
    × (r.desired_state ≡ DesiredState.cancelled)
Grounds plan r x ActionKind.finalize_cancelled =
    (terminal r ≡ false)
    × (r.desired_state ≡ DesiredState.cancelled)
    × NamesNothing x
    × ((latest_attempt r ≡ none)
        ⊎ ((a : Attempt) × (latest_attempt r ≡ some a)
            × (is_active a.status ≡ false)
            × (a.status ≡ AttemptStatus.cancelled → a.cleanup_confirmed ≡ true)))
Grounds plan r x ActionKind.wait =
    (terminal r ≡ false)
    × (((a : Attempt) × (latest_attempt r ≡ some a) × NamesAttempt a x × Unsettled r a)
        ⊎ ((order : List PlanStep) × (ordered_steps plan.steps ≡ ok order)
            × (first_runnable r order ≡ none)
            × (all_succeeded plan r ≡ false)
            × NamesNothing x
            × Clear r))
Grounds plan r x ActionKind.noop = (terminal r ≡ true) × NamesNothing x

abbrev pub Justified : ExecutionPlan → ProductRun → Action → Type 0
Justified plan r x = (x.run_id ≡ r.run_id) × Grounds plan r x x.kind

all_deps :
    (r : ProductRun) (ds : List StepDependency)
    → all (dependency_met r) ds ≡ true
    → All (λ d. status_of r d.step_id ≡ d.required_status) ds
unfolding dependency_met
all_deps r [] h = tt
all_deps r (d ∷ ds) h = (
  (same_iff StepStatus-discrete (status_of r d.step_id) d.required_status).0 (ground arith),
  all_deps r ds (ground arith),
)

first_runnable-is_runnable :
    (r : ProductRun) (ss : List PlanStep) (s : PlanStep)
    → first_runnable r ss ≡ some s
    → is_runnable r s ≡ true
unfolding first_runnable
first_runnable-is_runnable r [] s h = cc
first_runnable-is_runnable r (t ∷ ss) s h = ground (arith, first_runnable-is_runnable r ss s)

pending_of : (s : StepStatus) → is_step_pending s ≡ true → s ≡ StepStatus.pending
pending_of s h = ground arith

runnable_sound :
    (r : ProductRun) (s : PlanStep)
    → is_runnable r s ≡ true
    → (status_of r s.step_id ≡ StepStatus.pending)
      × All (λ d. status_of r d.step_id ≡ d.required_status) s.dependencies
runnable_sound r s h =
    split (is_step_pending (status_of r s.step_id)) refl (unfold is_runnable in h)
  where
    split :
        (b : Bool)
        → is_step_pending (status_of r s.step_id) ≡ b
        → (b && all (dependency_met r) s.dependencies) ≡ true
        → (status_of r s.step_id ≡ StepStatus.pending)
          × All (λ d. status_of r d.step_id ≡ d.required_status) s.dependencies
    split true e g = (pending_of (status_of r s.step_id) e, all_deps r s.dependencies g)
    split false e g = cc

succeeded_of : (o : Option StepStatus) → is_step_succeeded o ≡ true → o ≡ some StepStatus.succeeded
succeeded_of o h = ground arith

all_succeeded_sound :
    (r : ProductRun) (ss : List PlanStep)
    → all (λ s. is_step_succeeded (lookup s.step_id r.step_statuses)) ss ≡ true
    → All (λ s. lookup s.step_id r.step_statuses ≡ some StepStatus.succeeded) ss
all_succeeded_sound r [] h = tt
all_succeeded_sound r (s ∷ ss) h = (
  succeeded_of (lookup s.step_id r.step_statuses) (ground arith),
  all_succeeded_sound r ss (ground arith),
)

chosen-Justified :
    (plan : ExecutionPlan) (r : ProductRun) (order : List PlanStep) (o : Option PlanStep)
    → ordered_steps plan.steps ≡ ok order
    → first_runnable r order ≡ o
    → Clear r
    → Justified plan r (chosen_action plan r o)
unfolding chosen_action
chosen-Justified plan r order (some s) e f clear =
    let (p, d) = runnable_sound r s (first_runnable-is_runnable r order s f) in
    (refl, (order, s, e, f, refl, refl, p, d, clear))
chosen-Justified plan r order none e f clear = elim (Bool-cases (all_succeeded plan r)) [
  | inl t ↦
      rw t
        (refl, (all_succeeded_sound r plan.steps (unfold all_succeeded in t), (refl, refl), clear))
  | inr n ↦ rw n (refl, (clear.1.0, inr (order, e, f, n, (refl, refl), clear)))
]

step_action-Justified :
    (plan : ExecutionPlan) (r : ProductRun)
    → Clear r
    → IfOk (λ a. Justified plan r a) (step_action plan r)
unfolding step_action
step_action-Justified plan r clear = elim (Result-cases (ordered_steps plan.steps)) [
  | inl (order, e) ↦
      rw (e, step_action) (chosen-Justified plan r order (first_runnable r order) e refl clear)
  | inr (x, e) ↦ rw (e, step_action) tt
]

below_of_allows :
    (s : PlanStep) (status : AttemptStatus) (n : ℕ)
    → allows s.retry_policy status n ≡ true
    → n < s.retry_policy.max_attempts
unfolding allows
below_of_allows s status n h = ground arith

retry_action-Justified :
    (plan : ExecutionPlan) (r : ProductRun) (a : Attempt)
    → latest_attempt r ≡ some a
    → (a.status ≡ AttemptStatus.failed) ⊎ (a.status ≡ AttemptStatus.lost)
    → Clear r
    → IfOk (λ x. Justified plan r x) (retry_action plan r a)
unfolding retry_action
retry_action-Justified plan r a l st clear = elim (Result-cases (step_of plan a.step_id)) [
  | inr (x, e) ↦ rw (e, retry_action) tt
  | inl (s, e) ↦
      elim (Bool-cases (allows s.retry_policy a.status (length (attempts_for_step r a.step_id)))) [
        | inl t ↦
            rw (e, t, retry_action)
              (
                refl,
                (
                  a,
                  s,
                  l,
                  (refl, refl),
                  st,
                  e,
                  below_of_allows s a.status (length (attempts_for_step r a.step_id)) t,
                  clear,
                ),
              )
        | inr n ↦ rw (e, n, retry_action) (refl, (a, s, l, (refl, refl), st, e, n, clear))
      ]
]

waits_active :
    (plan : ExecutionPlan) (r : ProductRun) (a : Attempt)
    → latest_attempt r ≡ some a
    → is_active a.status ≡ true
    → Going r
    → Justified plan r (on_attempt ActionKind.wait r a)
waits_active plan r a l active (t, d) = (refl, (t, inl (a, l, (refl, refl), inl (active, d))))

latest_action-Justified :
    (plan : ExecutionPlan) (r : ProductRun) (a : Attempt) (st : AttemptStatus)
    → latest_attempt r ≡ some a
    → a.status ≡ st
    → Clear r
    → IfOk (λ x. Justified plan r x) (latest_action plan r a st)
unfolding latest_action is_active
latest_action-Justified plan r a AttemptStatus.pending l e clear =
    waits_active plan r a l (rw e refl) clear.1
latest_action-Justified plan r a AttemptStatus.running l e clear =
    waits_active plan r a l (rw e refl) clear.1
latest_action-Justified plan r a AttemptStatus.succeeded l e clear =
    step_action-Justified plan r clear
latest_action-Justified plan r a AttemptStatus.failed l e clear =
    retry_action-Justified plan r a l (inl e) clear
latest_action-Justified plan r a AttemptStatus.lost l e clear =
    retry_action-Justified plan r a l (inr e) clear
latest_action-Justified plan r a AttemptStatus.blocked l e clear =
    (refl, (clear.1, inr (a, l, (refl, refl), e)))
latest_action-Justified plan r a AttemptStatus.cancelling l e clear =
    waits_active plan r a l (rw e refl) clear.1
latest_action-Justified plan r a AttemptStatus.cancelled l e clear =
    step_action-Justified plan r clear

active_action-Justified :
    (plan : ExecutionPlan) (r : ProductRun) (o : Option Attempt)
    → latest_attempt r ≡ o
    → Going r
    → IfOk (λ x. Justified plan r x) (active_action plan r o)
unfolding active_action
active_action-Justified plan r none l g = elim (Bool-cases (any_blocked r)) [
  | inl t ↦ rw t (refl, (g, inl (t, (refl, refl))))
  | inr n ↦ rw n (step_action-Justified plan r (n, g))
]
active_action-Justified plan r (some a) l g = elim (Bool-cases (any_blocked r)) [
  | inl t ↦ rw t (refl, (g, inl (t, (refl, refl))))
  | inr n ↦ rw n (latest_action-Justified plan r a a.status l refl (n, g))
]

confirmed_of :
    (a : Attempt)
    → (is_cancelled a.status && not a.cleanup_confirmed) ≡ false
    → a.status ≡ AttemptStatus.cancelled
    → a.cleanup_confirmed ≡ true
confirmed_of a h e = ground arith

unconfirmed_of :
    (a : Attempt)
    → (is_cancelled a.status && not a.cleanup_confirmed) ≡ true
    → (a.status ≡ AttemptStatus.cancelled) × (a.cleanup_confirmed ≡ false)
unconfirmed_of a h = (ground arith, ground arith)

cancel_action-Justified :
    (plan : ExecutionPlan) (r : ProductRun) (o : Option Attempt)
    → latest_attempt r ≡ o
    → terminal r ≡ false
    → r.desired_state ≡ DesiredState.cancelled
    → Justified plan r (cancel_action r o)
unfolding cancel_action
cancel_action-Justified plan r none l t d = (refl, (t, d, (refl, refl), inl l))
cancel_action-Justified plan r (some a) l t d = elim (Bool-cases (is_active a.status)) [
  | inl act ↦ rw act (refl, (a, l, (refl, refl), act, t, d))
  | inr idle ↦ elim (Bool-cases (is_cancelled a.status && not a.cleanup_confirmed)) [
    | inl w ↦
        let (c, u) = unconfirmed_of a w in
        rw (idle, w) (refl, (t, inl (a, l, (refl, refl), inr (c, u, d))))
    | inr f ↦ rw (idle, f) (refl, (t, d, (refl, refl), inr (a, l, idle, confirmed_of a f)))
  ]
]

-- Whatever action the reconciler chooses is of the run, and the run and the plan justify it: it
-- starts a step, which it names, only if that is the first pending one of the topological order
-- whose dependencies all have the status that is required; retries the latest attempt, which it
-- names with its step, only below the step's bound; finishes as succeeded only if every step of the
-- plan is recorded as succeeded, as cancelled only if no attempt is active and a cancelled one has
-- confirmed its cleanup, as failed only if the retry policy allows no further attempt, and as
-- blocked only if a step or the latest attempt is; waits only for the latest attempt, which it
-- names, or if no step can start and not all have succeeded; and does nothing only for a terminal
-- run.
pub next_action-Justified :
    (plan : ExecutionPlan) (r : ProductRun) → IfOk (λ a. Justified plan r a) (next_action plan r)
unfolding next_action
next_action-Justified plan r = elim (Bool-cases (terminal r)) [
  | inl t ↦ rw t (refl, (t, (refl, refl)))
  | inr n ↦ rw n (by_desire r.desired_state refl n)
]
  where
    by_desire :
        (d : DesiredState)
        → r.desired_state ≡ d
        → terminal r ≡ false
        → IfOk (λ a. Justified plan r a) (desired_action plan r d (latest_attempt r))
    by_desire DesiredState.active e n =
        active_action-Justified plan r (latest_attempt r) refl (n, e)
    by_desire DesiredState.cancelled e n =
        cancel_action-Justified plan r (latest_attempt r) refl n e
