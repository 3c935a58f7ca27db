-- ===== src/Runtime/Session.antt =====
-- TrainingSession of runtime.py with the TrainingRun and the TrainingAttempt of contracts/attempt.py,
-- TrainingStatus of contracts/status.py and TrainingResult of contracts/events.py.
use cyrene_yield.Common.{
  ℕ, String, Bool, true, false, Option, none, some, List, [], ◌∷◌, Dict, Result, get_last?,
}

pub data TrainingStatus : Type 0 where
  queued running cancelling completed failed cancelled lost awaiting_retry : TrainingStatus

unfoldable pub TrainingStatus-discrete : Discrete TrainingStatus
TrainingStatus-discrete = hlevel

-- The code of a process that ended by itself, or the signal that ended it (a negative code).
pub data ExitCode : Type 0 where
  exited : ℕ → ExitCode
  signalled : ℕ → ExitCode

-- What the runtime passes on without looking into it.
pub record Kinds : Type 1 where
  pub spec : Type 0
  pub lock : Type 0
  pub launch : Type 0
  pub handle : Type 0
  pub event : Type 0
  pub diagnostic : Type 0
  pub reference : Type 0

pub data RuntimeError : Type 0 where
  unknown_session cannot_retry_session cannot_retry_attempt not_configured : RuntimeError
  -- What a call of the engine, the executor or the provider raised, in preparing a launch and after it.
  engine_raised call_raised : String → RuntimeError

-- ExecutionControlError
pub record ControlError : Type 0 where
  pub message : String
  pub lost : Bool

-- An exception of the publication: ArtifactError, OSError or ValueError, as its text up to the first
-- colon, or another.
pub data PublishError : Type 0 where
  refused escaped : String → PublishError

pub record TrainingResult (k : Kinds) : Type 0 where
  pub status : TrainingStatus
  pub output_dir : String
  pub exit_code : Option ExitCode
  pub artifacts : Dict k.reference
  pub message : String

-- CancelOutcome of executors/base.py
pub record CancelOutcome : Type 0 where
  pub stopped : Bool
  pub remaining_pids : List ℕ
  pub message : String
  pub cleanup_confirmed : Bool

-- The engine's adapter and the attributes that the runtime reads and writes of a spec and a launch.
pub record Adapter (k : Kinds) : Type 0 where
  pub job_id : k.spec → String
  pub with_job_id : k.spec → String → k.spec
  pub output_dir : k.spec → String
  pub has_base_source : k.spec → Bool
  -- The messages of the issues, or `none` where the validation is ok.
  pub validate : k.spec → Option (List String)
  -- compile, then assert_executor_agnostic on the launch with its lock.
  pub compile : k.spec → k.lock → Result RuntimeError k.launch
  -- launch.extra with "product_spec" and "attempt_id"
  pub with_identity : k.launch → k.spec → String → k.launch
  pub parse_event : String → Option k.event
  -- The result, or the exception that it raises; `none` stands for the launch that `_empty_launch` makes of the spec.
  pub collect_result :
      k.spec → Option k.launch → Option ExitCode → TrainingStatus → Result String (TrainingResult k)

-- What the executor and the artifact provider answer in one call of the runtime.
pub record Executor (k : Kinds) : Type 0 where
  pub start : k.launch → Result ControlError k.handle
  pub read_new_output : k.handle → List String
  pub read_new_diagnostics : k.handle → List k.diagnostic
  pub diagnostics_degraded : k.handle → Bool
  -- handle.extra.get("lost")
  pub lost : k.handle → Bool
  -- `err` stands for an exception, here and in cancel.
  pub poll : k.handle → Result String (Option ExitCode)
  pub cancel : k.handle → Result String CancelOutcome

pub record Provider (k : Kinds) : Type 0 where
  pub publish_training_outputs : k.launch → Result PublishError (Dict k.reference)
  pub publish_adapter : k.spec → Result PublishError k.reference

pub record TrainingAttempt (k : Kinds) : Type 0 where
  pub attempt_id : String
  pub run_id : String
  pub ordinal : ℕ
  pub spec : k.spec
  pub status : TrainingStatus
  pub launch : Option k.launch
  pub binding : Option k.handle
  pub result : Option (TrainingResult k)
  pub events : List k.event
  pub error : String
  pub updated_at : String

pub record TrainingRun (k : Kinds) : Type 0 where
  pub run_id : String
  pub spec : k.spec
  pub status : TrainingStatus
  pub attempts : List (TrainingAttempt k)
  pub error : String
  pub updated_at : String

-- The run is always set by the calls that make a session. `session.events` is the same list as the
-- current attempt's or a list of its own; `poll` appends to both, so both are kept.
pub record TrainingSession (k : Kinds) : Type 0 where
  pub session_id : String
  pub spec : k.spec
  pub status : TrainingStatus
  pub launch : Option k.launch
  pub handle : Option k.handle
  pub result : Option (TrainingResult k)
  pub events : List k.event
  pub diagnostics : List k.diagnostic
  pub diagnostics_degraded : Bool
  pub error : String
  pub updated_at : String
  pub run : TrainingRun k

-- Successive readings of the clock by one call.
abbrev pub Clock : Type 0
Clock = ℕ → String

-- The status of a run that its last attempt has the given status.
abbrev pub derived : TrainingStatus → TrainingStatus
derived TrainingStatus.lost = TrainingStatus.awaiting_retry
derived s = s

-- The statuses that TrainingRuntime.wait keeps polling.
abbrev pub is_open : TrainingStatus → Bool
is_open TrainingStatus.queued = true
is_open TrainingStatus.running = true
is_open TrainingStatus.cancelling = true
is_open _ = false

module _ {k : Kinds} where
  abbrev pub current_attempt : TrainingRun k → Option (TrainingAttempt k)
  current_attempt r = get_last? r.attempts

  -- TrainingRun.derive_status
  unfoldable pub derive_status : TrainingRun k → TrainingStatus
  derive_status r = elim (current_attempt r) [
    | none ↦ TrainingStatus.queued
    | some a ↦ derived a.status
  ]

  -- An assignment to the object `current_attempt`, which the list of the run holds.
  unfoldable pub change_last :
      (TrainingAttempt k → TrainingAttempt k) → List (TrainingAttempt k) → List (TrainingAttempt k)
  change_last f [] = []
  change_last f (a ∷ []) = f a ∷ []
  change_last f (a ∷ b ∷ as') = a ∷ change_last f (b ∷ as')

  -- The same status for the session and for its run.
  abbrev pub both : TrainingSession k → TrainingStatus → TrainingSession k
  both s status = record s { status = status; run = record s.run { status = status } }

  -- The same status for the session, its run and the current attempt.
  abbrev pub all_three : TrainingSession k → TrainingStatus → TrainingSession k
  all_three s status = record s {
    status = status;
    run = record s.run {
      status = status;
      attempts = change_last (λ a. record a { status = status }) s.run.attempts;
    };
  }

  abbrev pub change_attempt :
      TrainingSession k → (TrainingAttempt k → TrainingAttempt k) → TrainingSession k
  change_attempt s f = record s { run = record s.run { attempts = change_last f s.run.attempts } }

  -- session.updated_at = datetime.now(), and the same for the run
  abbrev pub touched : TrainingSession k → String → TrainingSession k
  touched s now = record s { updated_at = now; run = record s.run { updated_at = now } }
