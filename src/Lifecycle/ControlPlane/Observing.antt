-- ===== src/Lifecycle/ControlPlane/Observing.antt =====
-- Observations of terminal attempts, and a cancellation whose cleanup was not confirmed in time.
use cyrene_yield.Common.{
  ℕ, String, ◌≡◌, ◌≢◌, refl, sym, ap, subst, ◌∙◌, Bool, true, false, not, ◌&&◌, Option, some, ◌==◌,
  eq_iff, find_holds, same, same_iff, ok, err, >>=-eq-ok, raise_if-ok, Bool-cases, inl, inr,
  if◌then◌else◌,
}
use cyrene_yield.Lifecycle.Status.{
  PlanStatus, DesiredState, AttemptStatus, AttemptStatus-discrete, attempt_terminal, plan_terminal,
  Error, terminal_attempt, stale_generation, no_attempt_allowed, not_resumable,
}
use cyrene_yield.Lifecycle.Plan.{ExecutionPlan}
use cyrene_yield.Lifecycle.Attempt.{
  Attempt, Attempt-discrete, reload_attempt, attempt_eq, Observation, with_observation,
}
use cyrene_yield.Lifecycle.Run.{
  ProductRun, latest_attempt, attempt_by_id, observe_previous, with_observed_attempt,
}
use cyrene_yield.Lifecycle.Store.{Store, Clock, load_run, load_plan}
use cyrene_yield.Lifecycle.Reconciler.{ActionKind, on_attempt, is_active, next_action}
use cyrene_yield.Lifecycle.ControlPlane.{
  action_of, control_next_action, attempt_step, start_next_attempt, resume_attempt, is_stale,
  apply_observation, observe_attempt, final_status, apply_terminal_action, with_status_of,
}

-- What an observation keeps of the attempt, and when it was made.
with_observation_fields :
    (a b : Attempt) (status : AttemptStatus) (o : Observation) (now : String)
    → with_observation a status o now ≡ ok b
    → (b.attempt_id ≡ a.attempt_id) × (b.observed_at ≡ now) × (b.status ≡ status)
unfolding with_observation
with_observation_fields a b status o now h =
    let (t, e) =
      passed (attempt_terminal a.status && not (same AttemptStatus-discrete status a.status))
        terminal_attempt h in
    (
      ap (λ (x : Attempt). x.attempt_id) (sym e),
      ap (λ (x : Attempt). x.observed_at) (sym e),
      ap (λ (x : Attempt). x.status) (sym e),
    )
  where
    passed :
        (t : Bool) (e : Error) {x y : Attempt}
        → (if t then err e else ok x) ≡ ok y
        → (t ≡ false) × (x ≡ y)
    passed true e h = cc
    passed false e h = (refl, cc)

attempt_eq-observed_at : (a b : Attempt) → attempt_eq b a ≡ true → b.observed_at ≡ a.observed_at
unfolding attempt_eq
attempt_eq-observed_at a b h =
    ap (λ (x : Attempt). x.observed_at)
      ((same_iff Attempt-discrete (reload_attempt b) (reload_attempt a)).0 h)

observed_terminal :
    (r : ProductRun) (a b : Attempt) {x : ProductRun}
    → attempt_terminal a.status ≡ true
    → b.observed_at ≢ a.observed_at
    → observe_previous r b (some a) ≡ ok x
    → ⊥
unfolding observe_previous
observed_terminal r a b t ne h = elim (Bool-cases (attempt_eq b a)) [
  | inl same_as ↦ ne (attempt_eq-observed_at a b same_as)
  | inr differs ↦ cc (rw (t, differs) at h)
]

apply_refused :
    (s : Store) (run : ProductRun) (a : Attempt) (clock : Clock)
    → attempt_terminal a.status ≡ true
    → attempt_by_id run a.attempt_id ≡ some a
    → clock 0 ≢ a.observed_at
    → (status : AttemptStatus) (o : Observation) (result : ProductRun × Store)
    → apply_observation s run a status o clock ≢ ok result
unfolding apply_observation with_observed_attempt with_status_of with_observation
apply_refused s run a clock t found later status o result h =
    let (b, made, h₂) = >>=-eq-ok (with_observation a status o (clock 0)) _ h in
    let (id, at, st) = with_observation_fields a b status o (clock 0) made in
    let (x, changed, h₃) = >>=-eq-ok (with_observed_attempt run b) _ h₂ in
    observed_terminal run a b t (λ e. later (sym at ∙ e))
      (rw (id, found, with_observed_attempt) at changed)

-- A terminal attempt takes no observation made at a later reading of the clock, whatever it says
-- and whichever generation it expects.
pub observe-terminal_refused :
    (s : Store) (run_id attempt_id : String) (run : ProductRun) (a : Attempt) (clock : Clock)
    → load_run s run_id ≡ ok run
    → attempt_by_id run attempt_id ≡ some a
    → attempt_terminal a.status ≡ true
    → clock 0 ≢ a.observed_at
    → (status : AttemptStatus) (o : Observation) (expected : Option ℕ) (result : ProductRun × Store)
    → observe_attempt s run_id attempt_id status o expected clock ≢ ok result
unfolding observe_attempt
observe-terminal_refused s run_id attempt_id run a clock loaded found t later status o expected
      result h =
    apply_refused s run a clock t
      (subst (λ id. attempt_by_id run id ≡ some a)
        (sym (
          (eq_iff a.attempt_id attempt_id).0
            (find_holds (λ (y : Attempt). y.attempt_id == attempt_id) run.attempts a found)))
        found)
      later status o result
      (raise_if-ok (is_stale expected run.generation) stale_generation
        (apply_observation s run a status o clock) (rw (loaded, found, observe_attempt) at h)).1

-- A run that is to be cancelled, whose last attempt is recorded as cancelled with its cleanup not
-- confirmed.
pub record AwaitsCleanup (s : Store) (run_id : String) (run : ProductRun) (a : Attempt)
    : Type 0 where
  pub loaded : load_run s run_id ≡ ok run
  pub plan : ExecutionPlan
  pub planned : load_plan s run.plan_id ≡ ok plan
  pub latest : latest_attempt run ≡ some a
  pub found : attempt_by_id run a.attempt_id ≡ some a
  pub wanted : run.desired_state ≡ DesiredState.cancelled
  pub requested : run.observed_status ≡ PlanStatus.cancel_requested
  pub cancelled : a.status ≡ AttemptStatus.cancelled
  pub unconfirmed : a.cleanup_confirmed ≡ false

module _ (s : Store) (run_id : String) (run : ProductRun) (a : Attempt)
    (w : AwaitsCleanup s run_id run a) where
  waits : action_of s run ≡ ok (on_attempt ActionKind.wait run a)
  unfolding action_of next_action plan_terminal is_active
  waits =
      rw (w.planned, action_of)
        (rw (w.requested, next_action) (rw (w.wanted, w.latest) (rw (w.cancelled, w.unconfirmed))))

  -- Take a stored run that is to be cancelled and has the status CANCEL_REQUESTED, whose latest
  -- attempt is recorded as cancelled with its cleanup not confirmed. As long as that is what is
  -- stored, at every reading of the clock but that of the attempt's observation: the action is to
  -- wait, no observation of the attempt is accepted, so none can confirm the cleanup, no attempt is
  -- started or resumed, and the terminal action changes nothing.
  pub cleanup_never_confirmed :
      (clock : Clock)
      → clock 0 ≢ a.observed_at
      → (control_next_action s run_id ≡ ok (on_attempt ActionKind.wait run a))
        × ((status : AttemptStatus) (o : Observation) (expected : Option ℕ)
              (result : ProductRun × Store)
            → observe_attempt s run_id a.attempt_id status o expected clock ≢ ok result)
        × (start_next_attempt s run_id clock ≡ err no_attempt_allowed)
        × ((step_id : String) → resume_attempt s run_id step_id clock ≡ err not_resumable)
        × (apply_terminal_action s run_id clock ≡ ok (run, s))
  unfolding control_next_action start_next_attempt attempt_step resume_attempt apply_terminal_action
      final_status attempt_terminal
  cleanup_never_confirmed clock later = (
    rw (w.loaded, control_next_action) waits,
    observe-terminal_refused s run_id a.attempt_id run a clock w.loaded w.found
        (rw w.cancelled refl) later,
    rw (w.loaded, start_next_attempt) (rw (waits, start_next_attempt)),
    (λ step_id. rw (w.loaded, resume_attempt) (rw w.requested)),
    rw (w.loaded, apply_terminal_action) (rw (waits, apply_terminal_action)),
  )
