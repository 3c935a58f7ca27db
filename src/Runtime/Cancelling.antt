-- ===== src/Runtime/Cancelling.antt =====
-- TrainingRuntime.cancel of runtime.py.
use cyrene_yield.Common.{
  String, Bool, ◌&&◌, Option, none, some, [], is_nil, is_empty, Result, ok, err, if◌then◌else◌,
}
use cyrene_yield.Runtime.Session.{
  TrainingStatus, Kinds, RuntimeError, not_configured, call_raised, TrainingResult, CancelOutcome,
  Adapter, Executor, TrainingSession, Clock, change_last, both, all_three, change_attempt, touched,
}
use cyrene_yield.Runtime.Polling.{mark_attempt_lost}

-- outcome.stopped and outcome.cleanup_confirmed and not outcome.remaining_pids
abbrev pub cleanup_ok : CancelOutcome → Bool
cleanup_ok o = o.stopped && o.cleanup_confirmed && is_nil o.remaining_pids

abbrev pub text_or : String → String → String
text_or a b = if is_empty a then b else a

module _ {k : Kinds} (adapter : Adapter k) where
  -- session.result = adapter.collect_result(...): the session, and the exception if the call raises one.
  abbrev pub with_told :
      TrainingSession k
      → (TrainingResult k → TrainingSession k)
      → Result String (TrainingResult k)
      → TrainingSession k × Option RuntimeError
  with_told s told (err e) = (s, some (call_raised e))
  with_told s told (ok result) = (told result, none)

  -- The branch of a confirmed cleanup.
  unfoldable pub cancel_confirmed :
      TrainingSession k → CancelOutcome → TrainingSession k × Option RuntimeError
  unfolding change_last
  cancel_confirmed s o =
      let ended = all_three s TrainingStatus.cancelled in
      with_told ended
        (λ result.
          let told = record result { message = text_or o.message result.message } in
          change_attempt (record ended { result = some told })
            (λ a. record a { result = some told }))
        (adapter.collect_result s.spec s.launch none TrainingStatus.cancelled)

  unfoldable pub cancel_unconfirmed :
      TrainingSession k → CancelOutcome → Clock → TrainingSession k × Option RuntimeError
  unfolding mark_attempt_lost change_last
  cancel_unconfirmed s o clock =
      let message = text_or o.message "unable to confirm process-tree cleanup" in
      let lost = mark_attempt_lost adapter s message clock in
      with_told lost
        (λ result.
          let told = record result { message = message } in
          change_attempt (record lost { result = some told })
            (λ a. record a { result = some told; error = message }))
        (adapter.collect_result s.spec s.launch none TrainingStatus.lost)

  -- The end of cancel, which an exception leaves out.
  abbrev pub settled :
      String → TrainingSession k × Option RuntimeError → TrainingSession k × Option RuntimeError
  settled now (s, some e) = (s, some e)
  settled now (s, none) = (touched s now, none)

  -- The part of cancel after the executor's answer.
  unfoldable pub cancel_outcome :
      TrainingSession k → CancelOutcome → Clock → TrainingSession k × Option RuntimeError
  unfolding cancel_confirmed cancel_unconfirmed
  cancel_outcome s o clock =
      settled (clock 2)
        (if cleanup_ok o then cancel_confirmed s o else cancel_unconfirmed s o clock)

  abbrev pub cancel_by_answer :
      TrainingSession k
      → Result String CancelOutcome
      → Clock
      → TrainingSession k × Option RuntimeError
  cancel_by_answer s (err e) clock = (s, some (call_raised e))
  cancel_by_answer s (ok o) clock = cancel_outcome s o clock

  -- The session that a call leaves, and the exception if it raised one.
  unfoldable pub cancel_launched :
      Option (Executor k)
      → TrainingSession k
      → k.handle
      → Clock
      → TrainingSession k × Option RuntimeError
  unfolding cancel_outcome change_last
  cancel_launched none s handle clock = (all_three s TrainingStatus.cancelling, some not_configured)
  cancel_launched (some e) s handle clock =
      cancel_by_answer (all_three s TrainingStatus.cancelling) (e.cancel handle) clock

  abbrev pub cancelled_early : TrainingSession k → String → TrainingSession k
  cancelled_early s now = record (both s TrainingStatus.cancelled) {
    updated_at = now;
    result = some (record {
      status = TrainingStatus.cancelled;
      output_dir = adapter.output_dir s.spec;
      exit_code = none;
      artifacts = [];
      message = "cancelled before process start";
    });
  }

  unfoldable pub cancel_open :
      Option (Executor k)
      → TrainingSession k
      → Option k.handle
      → Clock
      → TrainingSession k × Option RuntimeError
  unfolding cancel_launched
  cancel_open executor s none clock = (cancelled_early s (clock 0), none)
  cancel_open executor s (some handle) clock = cancel_launched executor s handle clock

  unfoldable pub cancel_in :
      Option (Executor k)
      → TrainingSession k
      → TrainingStatus
      → Clock
      → TrainingSession k × Option RuntimeError
  unfolding cancel_open
  cancel_in executor s TrainingStatus.completed clock = (s, none)
  cancel_in executor s TrainingStatus.failed clock = (s, none)
  cancel_in executor s TrainingStatus.cancelled clock = (s, none)
  cancel_in executor s TrainingStatus.awaiting_retry clock = (s, none)
  cancel_in executor s TrainingStatus.lost clock = (both s TrainingStatus.awaiting_retry, none)
  cancel_in executor s _ clock = cancel_open executor s s.handle clock

  -- TrainingRuntime.cancel of the session that was found
  unfoldable pub cancel_session :
      Option (Executor k) → TrainingSession k → Clock → TrainingSession k × Option RuntimeError
  unfolding cancel_in
  cancel_session executor s clock = cancel_in executor s s.status clock
