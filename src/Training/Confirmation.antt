-- ===== src/Training/Confirmation.antt =====
-- When a cancellation is recorded as one whose cleanup is confirmed.
use cyrene_yield.Common.{String, ◌≡◌, false, true, Option, none, some, ◌⊎◌}
use cyrene_yield.Lifecycle.Status.{AttemptStatus}
use cyrene_yield.Lifecycle.Attempt.{Attempt, Observation}
use cyrene_yield.Lifecycle.Store.{Clock, load_run}
use cyrene_yield.Lifecycle.ControlPlane.{observe_attempt}
use cyrene_yield.Runtime.Session.{TrainingStatus}
use cyrene_yield.Training.Executions.{
  recovery_error, Execution, State, Outcome, kept, observation_of,
}

-- An outcome that confirms no cleanup: the attempt, which already has this error, stays as it is, or it is
-- observed as cancelling, with the error and with its cleanup not confirmed.
abbrev pub Unconfirmed : State → String → Attempt → Clock → String → Outcome → Type 0
Unconfirmed s run_id attempt clock error out =
    ((attempt.cleanup_confirmed ≡ false)
      × (attempt.error ≡ some error)
      × (out ≡ (load_run s.store run_id, s)))
    ⊎ ((o : Observation) × (o.cleanup_confirmed ≡ some false)
        × (o.error ≡ some error)
        × (out
            ≡ kept s (
                observe_attempt s.store run_id attempt.attempt_id AttemptStatus.cancelling o none
                  clock)))

-- The engine's word that a session is gone, and the observation that records it.
pub record Confirmed (s : State) (run_id : String) (attempt : Attempt) (id : Option String)
    (cancel : String → Option Execution) (clock : Clock) (out : Outcome) : Type 0 where
  pub session_id : String
  pub known : id ≡ some session_id
  pub execution : Execution
  pub answered : cancel session_id ≡ some execution
  pub own : execution.session_id ≡ session_id
  pub gone : execution.status ≡ TrainingStatus.cancelled
  pub recorded :
      out
      ≡ kept s (
          observe_attempt s.store run_id attempt.attempt_id AttemptStatus.cancelled
            (observation_of attempt execution (some true))
            none
            clock)

module _ (repr : String → String) (run_id : String) (attempt : Attempt)
    (cancel : String → Option Execution) (clock : Clock) where
  -- The outcome of a cancellation in the state with the execution's identity.
  abbrev pub Settled : State → Option String → Outcome → Type 0
  Settled s id out =
      Confirmed s run_id attempt id cancel clock out
      ⊎ ((detail : String) × Unconfirmed s run_id attempt clock (recovery_error detail) out)
