-- ===== src/Training/Reconciling.antt =====
-- TrainingControlPlane.reconcile_once, resume and _execute_step of control_plane.py, for a run whose
-- spec and lock are in the caches `_specs` and `_locks`.
use cyrene_yield.Common.{
  String, Bool, true, false, Option, none, some, List, [], ◌∷◌, lookup, insert, delete, Result, ok,
  err, if◌then◌else◌, ◌==◌,
}
use cyrene_yield.Lifecycle.Status.{AttemptStatus, Error, unknown_step}
use cyrene_yield.Lifecycle.Attempt.{Attempt, Observation}
use cyrene_yield.Lifecycle.Run.{ProductRun}
use cyrene_yield.Lifecycle.Store.{list_nonterminal, Store, Clock}
use cyrene_yield.Lifecycle.Reconciler.{ActionKind, Action}
use cyrene_yield.Lifecycle.ControlPlane.{
  observe_attempt, control_next_action, start_next_attempt, resume_attempt, apply_terminal_action,
  request_cancel,
}
use cyrene_yield.Training.Compiler.{preflight_step_id, tiny_dry_run_step_id, real_training_step_id}
use cyrene_yield.Training.Executions.{
  Execution, State, Outcome, kept, loaded, result_metadata, observe_training_session,
  observe_execution_if_present, cancel_execution,
}

pub data PreflightAnswer : Type 0 where
  -- Any status but the two below.
  passed : PreflightAnswer
  blocked : String → PreflightAnswer
  -- With the answer of can_safely_resolve_with_tiny_dry_run.
  unknown : Bool → String → PreflightAnswer

pub data TinyStatus : Type 0 where
  succeeded blocked unknown cancelled failed : TinyStatus

pub record TinyAnswer : Type 0 where
  pub status : TinyStatus
  pub session_id : Option String
  pub error : Option String
  pub artifacts : Option String

-- What the ports of the control plane answer in one call.
pub record Answers : Type 0 where
  pub durable_tiny_attempt : Bool
  pub preflight : PreflightAnswer
  pub tiny : TinyAnswer
  -- engine.submit of the bounded spec, and of the spec with the checkpoint to resume from
  pub submit_bounded : Execution
  pub submit : Option String → Execution
  pub poll : String → Option Execution
  pub cancel : String → Option Execution

abbrev tiny_status : TinyStatus → AttemptStatus
tiny_status TinyStatus.succeeded = AttemptStatus.succeeded
tiny_status TinyStatus.blocked = AttemptStatus.blocked
tiny_status TinyStatus.unknown = AttemptStatus.blocked
tiny_status TinyStatus.cancelled = AttemptStatus.cancelled
tiny_status TinyStatus.failed = AttemptStatus.failed

abbrev tiny_cancelled : TinyStatus → Bool
tiny_cancelled TinyStatus.cancelled = true
tiny_cancelled _ = false

abbrev plain : Option String → Observation
plain error = record {
  execution_references = none;
  cleanup_confirmed = none;
  error = error;
  metadata = none;
}

abbrev as_references : Option String → List String
as_references none = []
as_references (some id) = id ∷ []

abbrev tiny_observation : Attempt → TinyAnswer → Observation
tiny_observation attempt t = record {
  execution_references = some (as_references t.session_id);
  cleanup_confirmed = some (tiny_cancelled t.status);
  error = t.error;
  metadata = result_metadata t.artifacts none attempt.metadata;
}

-- An observation without an expected generation.
abbrev seen : State → String → Attempt → AttemptStatus → Observation → Clock → Outcome
seen s run_id attempt status o clock =
    kept s (observe_attempt s.store run_id attempt.attempt_id status o none clock)

-- The branch of the preflight step.
unfoldable pub execute_preflight : State → String → Attempt → PreflightAnswer → Clock → Outcome
execute_preflight s run_id attempt passed clock =
    seen s run_id attempt AttemptStatus.succeeded (plain none) clock
execute_preflight s run_id attempt (PreflightAnswer.blocked issues) clock =
    seen s run_id attempt AttemptStatus.blocked (plain (some issues)) clock
execute_preflight s run_id attempt (PreflightAnswer.unknown true issues) clock =
    seen s run_id attempt AttemptStatus.succeeded (plain none) clock
execute_preflight s run_id attempt (PreflightAnswer.unknown false issues) clock =
    seen s run_id attempt AttemptStatus.blocked (plain (some issues)) clock

module _ (repr : String → String) where
  -- The session of a submission is remembered, then observed.
  abbrev pub observe_submitted : State → String → Attempt → Execution → Clock → Outcome
  observe_submitted s run_id attempt x clock =
      let s' = record s {
        execution_sessions = insert attempt.attempt_id x.session_id s.execution_sessions;
      } in
      observe_training_session repr s' run_id attempt x none clock clock

  unfoldable pub execute_tiny : State → String → Attempt → Answers → Clock → Outcome
  unfolding observe_training_session result_metadata
  execute_tiny s run_id attempt a clock =
      if a.durable_tiny_attempt
      then observe_submitted s run_id attempt a.submit_bounded clock
      else seen s run_id attempt (tiny_status a.tiny.status) (tiny_observation attempt a.tiny) clock

  -- The checkpoint to resume from is taken out of the table before the submission.
  unfoldable pub execute_real : State → String → Attempt → Answers → Clock → Outcome
  unfolding observe_training_session
  execute_real s run_id attempt a clock =
      let taken = record s {
        resume_checkpoints = delete attempt.attempt_id s.resume_checkpoints;
      } in
      observe_submitted taken run_id attempt
        (a.submit (lookup attempt.attempt_id s.resume_checkpoints)) clock

  -- _execute_step
  unfoldable pub execute_step : State → String → Attempt → Answers → Clock → Outcome
  unfolding execute_preflight execute_tiny execute_real
  execute_step s run_id attempt a clock =
      if attempt.step_id == preflight_step_id
      then execute_preflight s run_id attempt a.preflight clock
      else if attempt.step_id == tiny_dry_run_step_id
      then execute_tiny s run_id attempt a clock
      else if attempt.step_id == real_training_step_id
      then execute_real s run_id attempt a clock
      else (err unknown_step, s)

  abbrev pub execute_started :
      State → String → Result Error (Attempt × Store) → Answers → Clock → Outcome
  execute_started s run_id (err e) a clock = (err e, s)
  execute_started s run_id (ok (attempt, store)) a clock =
      execute_step (record s { store = store }) run_id attempt a clock

  -- The part of reconcile_once after the action is chosen; `clock` is read by the call that starts or
  -- requests, and `clock'` by the one that observes.
  unfoldable pub act : State → String → Action → ActionKind → Answers → Clock → Clock → Outcome
  unfolding execute_step observe_execution_if_present cancel_execution
  act s run_id action ActionKind.finalize_succeeded a clock clock' =
      kept s (apply_terminal_action s.store run_id clock)
  act s run_id action ActionKind.finalize_failed a clock clock' =
      kept s (apply_terminal_action s.store run_id clock)
  act s run_id action ActionKind.finalize_blocked a clock clock' =
      kept s (apply_terminal_action s.store run_id clock)
  act s run_id action ActionKind.finalize_cancelled a clock clock' =
      kept s (apply_terminal_action s.store run_id clock)
  act s run_id action ActionKind.noop a clock clock' = loaded s run_id
  act s run_id action ActionKind.wait a clock clock' =
      observe_execution_if_present repr s run_id action.attempt_id a.poll clock clock'
  act s run_id action ActionKind.request_cancellation a clock clock' =
      cancel_execution repr s run_id action.attempt_id a.cancel clock
  act s run_id action _ a clock clock' =
      execute_started s run_id (start_next_attempt s.store run_id clock) a clock'

  abbrev pub act_on : State → String → Result Error Action → Answers → Clock → Clock → Outcome
  act_on s run_id (err e) a clock clock' = (err e, s)
  act_on s run_id (ok action) a clock clock' = act s run_id action action.kind a clock clock'

  -- TrainingControlPlane.reconcile_once
  unfoldable pub reconcile_once : State → String → Answers → Clock → Clock → Outcome
  unfolding act
  reconcile_once s run_id a clock clock' =
      act_on s run_id (control_next_action s.store run_id) a clock clock'

  -- The attempt that resume made, with its checkpoint in the table.
  abbrev pub execute_resumed :
      State → String → String → Result Error (Attempt × Store) → Answers → Clock → Outcome
  execute_resumed s run_id checkpoint (err e) a clock = (err e, s)
  execute_resumed s run_id checkpoint (ok (attempt, store)) a clock =
      execute_step
        (record s {
          store = store;
          resume_checkpoints = insert attempt.attempt_id checkpoint s.resume_checkpoints;
        })
        run_id attempt a clock

  -- TrainingControlPlane.resume, of a checkpoint path that exists
  unfoldable pub resume : State → String → String → String → Answers → Clock → Clock → Outcome
  unfolding execute_step
  resume s run_id checkpoint step_id a clock clock' =
      execute_resumed s run_id checkpoint (resume_attempt s.store run_id step_id clock) a clock'

-- TrainingControlPlane.load, request_cancel and list_nonterminal
abbrev pub load : State → String → Outcome
load = loaded

unfoldable pub cancel_run : State → String → Clock → Outcome
cancel_run s run_id clock = kept s (request_cancel s.store run_id clock)

abbrev pub nonterminal_runs : State → List ProductRun
nonterminal_runs s = list_nonterminal s.store
