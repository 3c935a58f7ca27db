-- ===== src/Training/Executions.antt =====
-- TrainingControlPlane of control_plane.py: how an attempt's execution is observed, cancelled and, if
-- it is unknown, quarantined.
use cyrene_yield.Common.{
  String, Bool, true, false, not, ◌&&◌, Option, none, some, List, [], ◌∷◌, concat, is_empty, ◌==◌,
  same, Dict, lookup, insert, Result, ok, err, if◌then◌else◌,
}
use cyrene_yield.Values.{Value, Fields, set_field}
use cyrene_yield.Lifecycle.Status.{
  AttemptStatus, AttemptStatus-discrete, DesiredState, DesiredState-discrete, Error,
}
use cyrene_yield.Lifecycle.Attempt.{Attempt, Observation}
use cyrene_yield.Lifecycle.Run.{ProductRun, attempt_by_id}
use cyrene_yield.Lifecycle.Store.{Store, Clock, load_run}
use cyrene_yield.Lifecycle.ControlPlane.{observe_attempt, request_cancel, found_attempt}
use cyrene_yield.Runtime.Session.{TrainingStatus}

-- What is read of the session that the engine returns; the artifacts and the events are their
-- canonical JSON, `none` where there are none.
pub record Execution : Type 0 where
  pub session_id : String
  pub status : TrainingStatus
  pub error : String
  pub artifacts : Option String
  pub events : Option String

pub record State : Type 0 where
  pub store : Store
  pub execution_sessions : Dict String
  pub resume_checkpoints : Dict String

-- What a call returns or raises, and the state that it leaves in either case.
abbrev pub Outcome : Type 0
Outcome = Result Error ProductRun × State

abbrev pub kept : State → Result Error (ProductRun × Store) → Outcome
kept s (err e) = (err e, s)
kept s (ok (run, store)) = (ok run, record s { store = store })

-- self._control.load
abbrev pub loaded : State → String → Outcome
loaded s run_id = (load_run s.store run_id, s)

-- _attempt_status
unfoldable pub attempt_status : TrainingStatus → AttemptStatus
attempt_status TrainingStatus.queued = AttemptStatus.pending
attempt_status TrainingStatus.running = AttemptStatus.running
attempt_status TrainingStatus.cancelling = AttemptStatus.cancelling
attempt_status TrainingStatus.completed = AttemptStatus.succeeded
attempt_status TrainingStatus.failed = AttemptStatus.failed
attempt_status TrainingStatus.cancelled = AttemptStatus.cancelled
attempt_status TrainingStatus.lost = AttemptStatus.lost
attempt_status TrainingStatus.awaiting_retry = AttemptStatus.lost

abbrev set_some : String → Option String → Fields → Fields
set_some k none fs = fs
set_some k (some v) fs = set_field k (Value.text v) fs

abbrev is_none : Option String → Bool
is_none none = true
is_none (some v) = false

-- _result_metadata
unfoldable pub result_metadata : Option String → Option String → Fields → Option Fields
unfolding set_field
result_metadata artifacts events existing =
    if is_none artifacts && is_none events
    then none
    else some (
        set_some "cyrene.yield.training_events.v1" events
          (set_some "cyrene.yield.result_artifacts.v1" artifacts existing))

abbrev non_empty : String → Option String
non_empty s = if is_empty s then none else some s

-- The keyword arguments of an observation of a session.
abbrev pub observation_of : Attempt → Execution → Option Bool → Observation
observation_of attempt x confirmed = record {
  execution_references = some (x.session_id ∷ []);
  cleanup_confirmed = confirmed;
  error = non_empty x.error;
  metadata = result_metadata x.artifacts x.events attempt.metadata;
}

abbrev pub unconfirmed : Attempt → String → Observation
unconfirmed attempt error = record {
  execution_references = some attempt.execution_references;
  cleanup_confirmed = some false;
  error = some error;
  metadata = none;
}

abbrev pub recovery_error : String → String
recovery_error detail = concat "EXECUTION_RECOVERY_UNAVAILABLE: " detail

-- The observation that ends _quarantine_unknown_execution.
abbrev quarantine : State → String → Attempt → String → Clock → Outcome
quarantine s run_id attempt detail clock = kept s (
    observe_attempt s.store run_id attempt.attempt_id AttemptStatus.cancelling
      (unconfirmed attempt (
        recovery_error
          (concat detail "; automatic retry is quarantined until cleanup is confirmed")))
      none clock)

-- The request for cancellation before it; where it raises, nothing is observed.
abbrev pub after_request : State → String → Attempt → String → Clock → Outcome → Outcome
after_request s run_id attempt detail clock (err e, s') = (err e, s')
after_request s run_id attempt detail clock (ok run, s') = quarantine s' run_id attempt detail clock

abbrev pub requested : State → String → Clock → Result Error ProductRun → Outcome
requested s run_id clock (err e) = (err e, s)
requested s run_id clock (ok run) =
    if same DesiredState-discrete run.desired_state DesiredState.cancelled
    then (ok run, s)
    else kept s (request_cancel s.store run_id clock)

-- _quarantine_unknown_execution
unfoldable pub quarantine_unknown_execution :
    State → String → Attempt → String → Clock → Clock → Outcome
quarantine_unknown_execution s run_id attempt detail clock clock' =
    after_request s run_id attempt detail clock'
      (requested s run_id clock (load_run s.store run_id))

abbrev pub already_recorded : Attempt → String → Bool
already_recorded attempt error =
    same AttemptStatus-discrete attempt.status AttemptStatus.cancelling
    && not attempt.cleanup_confirmed
    && elim attempt.error [ none ↦ false | some e ↦ e == error ]

-- _record_unconfirmed_cancellation
unfoldable pub record_unconfirmed_cancellation : State → String → Attempt → String → Clock → Outcome
record_unconfirmed_cancellation s run_id attempt detail clock =
    if already_recorded attempt (recovery_error detail)
    then loaded s run_id
    else kept s (
        observe_attempt s.store run_id attempt.attempt_id AttemptStatus.cancelling
          (unconfirmed attempt (recovery_error detail)) none clock)

-- _execution_session_id: the identity, and the state with it in the cache
abbrev pub first_reference : State → Attempt → List String → Option String × State
first_reference s attempt [] = (none, s)
first_reference s attempt (id ∷ ids) =
    (some id, record s { execution_sessions = insert attempt.attempt_id id s.execution_sessions })

abbrev cached_or : State → Attempt → Option String → Option String × State
cached_or s attempt (some id) = (some id, s)
cached_or s attempt none = first_reference s attempt attempt.execution_references

unfoldable pub execution_session_id : State → Attempt → Option String × State
execution_session_id s attempt =
    cached_or s attempt (lookup attempt.attempt_id s.execution_sessions)

-- `repr` is Python's, of a text.
module _ (repr : String → String) where
  abbrev pub mismatched : String → String → String
  mismatched expected actual =
      concat "execution reference "
        (concat (repr expected) (concat " returned mismatched session " (repr actual)))

  -- _observe_training_session
  unfoldable pub observe_training_session :
      State → String → Attempt → Execution → Option String → Clock → Clock → Outcome
  unfolding attempt_status result_metadata quarantine_unknown_execution
  observe_training_session s run_id attempt x expected clock clock' =
      let observed = kept s (
        observe_attempt s.store run_id attempt.attempt_id (attempt_status x.status)
          (observation_of attempt x none) none clock) in
      elim expected [
        | none ↦ observed
        | some id ↦
            if not (x.session_id == id)
            then quarantine_unknown_execution s run_id attempt (mismatched id x.session_id) clock
                clock'
            else observed
      ]

  -- The part of _observe_execution_if_present after the identity is known; the engine's poll answers
  -- `none` where it raises KeyError.
  unfoldable pub observe_polled :
      State
      → String
      → Attempt
      → Option String
      → (String → Option Execution)
      → Clock
      → Clock
      → Outcome
  unfolding observe_training_session quarantine_unknown_execution
  observe_polled s run_id attempt none poll clock clock' =
      quarantine_unknown_execution s run_id attempt
        "active Attempt has no durable execution reference" clock clock'
  observe_polled s run_id attempt (some id) poll clock clock' = elim (poll id) [
    | none ↦
        quarantine_unknown_execution s run_id attempt
          (concat "execution reference "
            (concat (repr id) " cannot be observed after controller restart"))
          clock clock'
    | some x ↦ observe_training_session s run_id attempt x (some id) clock clock'
  ]

  -- The part of _cancel_execution after the engine's answer.
  unfoldable pub cancel_answered :
      State → String → Attempt → String → Option Execution → Clock → Outcome
  unfolding record_unconfirmed_cancellation attempt_status result_metadata
  cancel_answered s run_id attempt id none clock =
      record_unconfirmed_cancellation s run_id attempt
        (concat "execution reference " (
          concat (repr id) " cannot be cancelled after controller restart; cleanup is unconfirmed"))
        clock
  cancel_answered s run_id attempt id (some x) clock =
      if not (x.session_id == id)
      then record_unconfirmed_cancellation s run_id attempt
          (concat (mismatched id x.session_id) "; cleanup is unconfirmed") clock
      else if not (same AttemptStatus-discrete (attempt_status x.status) AttemptStatus.cancelled)
      then record_unconfirmed_cancellation s run_id attempt
          (if is_empty x.error
            then "execution adapter did not confirm cancellation cleanup"
            else x.error)
          clock
      else kept s (
          observe_attempt s.store run_id attempt.attempt_id AttemptStatus.cancelled
            (observation_of attempt x (some true)) none clock)

  unfoldable pub cancel_identified :
      State → String → Attempt → Option String → (String → Option Execution) → Clock → Outcome
  unfolding cancel_answered record_unconfirmed_cancellation
  cancel_identified s run_id attempt none cancel clock =
      record_unconfirmed_cancellation s run_id attempt
        "active Attempt has no durable execution reference; cleanup is unconfirmed" clock
  cancel_identified s run_id attempt (some id) cancel clock =
      cancel_answered s run_id attempt id (cancel id) clock

  -- _require_attempt
  unfoldable pub require_attempt : State → String → String → Result Error Attempt
  require_attempt s run_id attempt_id = elim (load_run s.store run_id) [
    | err e ↦ err e
    | ok run ↦ found_attempt (attempt_by_id run attempt_id)
  ]

  abbrev pub cancel_found :
      State → String → Result Error Attempt → (String → Option Execution) → Clock → Outcome
  cancel_found s run_id (err e) cancel clock = (err e, s)
  cancel_found s run_id (ok attempt) cancel clock =
      let (id, s') = execution_session_id s attempt in
      cancel_identified s' run_id attempt id cancel clock

  -- _cancel_execution
  unfoldable pub cancel_execution :
      State → String → Option String → (String → Option Execution) → Clock → Outcome
  unfolding require_attempt execution_session_id cancel_identified
  cancel_execution s run_id none cancel clock = loaded s run_id
  cancel_execution s run_id (some attempt_id) cancel clock =
      cancel_found s run_id (require_attempt s run_id attempt_id) cancel clock

  abbrev pub observe_found :
      State → String → Result Error Attempt → (String → Option Execution) → Clock → Clock → Outcome
  observe_found s run_id (err e) poll clock clock' = (err e, s)
  observe_found s run_id (ok attempt) poll clock clock' =
      let (id, s') = execution_session_id s attempt in
      observe_polled s' run_id attempt id poll clock clock'

  -- _observe_execution_if_present
  unfoldable pub observe_execution_if_present :
      State → String → Option String → (String → Option Execution) → Clock → Clock → Outcome
  unfolding require_attempt execution_session_id observe_polled
  observe_execution_if_present s run_id none poll clock clock' = loaded s run_id
  observe_execution_if_present s run_id (some attempt_id) poll clock clock' =
      observe_found s run_id (require_attempt s run_id attempt_id) poll clock clock'
