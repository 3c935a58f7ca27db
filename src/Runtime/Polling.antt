-- ===== src/Runtime/Polling.antt =====
-- TrainingRuntime.poll and _mark_attempt_lost of runtime.py.
use cyrene_yield.Common.{
  String, Bool, true, false, ◌&&◌, ◌||◌, Option, none, some, List, [], ◌∷◌, ◌++◌, nat_eq, Result,
  ok, err, if◌then◌else◌, Dict, insert, same,
}
use cyrene_yield.Runtime.Session.{
  TrainingStatus, TrainingStatus-discrete, Kinds, RuntimeError, not_configured, call_raised,
  ExitCode, PublishError, refused, escaped, TrainingResult, Adapter, Executor, Provider,
  TrainingSession, Clock, change_last, all_three, change_attempt, touched,
}

-- COMPLETED if code == 0 else FAILED
abbrev pub exit_status : ExitCode → TrainingStatus
exit_status (ExitCode.exited n) =
    if nat_eq n 0 then TrainingStatus.completed else TrainingStatus.failed
exit_status (ExitCode.signalled n) = TrainingStatus.failed

abbrev pub is_live : TrainingStatus → Bool
is_live TrainingStatus.queued = true
is_live TrainingStatus.running = true
is_live _ = false

module _ {k : Kinds} (adapter : Adapter k) where
  -- The events that the new lines hold.
  unfoldable pub parsed : List String → List k.event
  parsed [] = []
  parsed (line ∷ rest) = elim (adapter.parse_event line) [
    | none ↦ parsed rest
    | some event ↦ event ∷ parsed rest
  ]

  -- An event is appended to the session's list and to the attempt's; where these are one list, once.
  abbrev pub with_events : TrainingSession k → List k.event → TrainingSession k
  with_events s new =
      change_attempt (record s { events = s.events ++ new })
        (λ a. record a { events = a.events ++ new })

  abbrev pub with_diagnostics : TrainingSession k → Executor k → k.handle → TrainingSession k
  with_diagnostics s e handle = record s {
    diagnostics = s.diagnostics ++ e.read_new_diagnostics handle;
    diagnostics_degraded = e.diagnostics_degraded handle || s.diagnostics_degraded;
  }

  -- TrainingRuntime._mark_attempt_lost
  unfoldable pub mark_attempt_lost : TrainingSession k → String → Clock → TrainingSession k
  unfolding change_last
  mark_attempt_lost s message clock = record s {
    status = TrainingStatus.awaiting_retry;
    error = message;
    updated_at = clock 1;
    run = record s.run {
      status = TrainingStatus.awaiting_retry;
      error = message;
      updated_at = clock 1;
      attempts =
          change_last
            (λ a. record a { status = TrainingStatus.lost; error = message; updated_at = clock 0 })
            s.run.attempts;
    };
  }

  abbrev pub with_artifacts : TrainingResult k → Dict k.reference → TrainingResult k
  with_artifacts r artifacts = record r { artifacts = artifacts }

  -- What the `try` of poll leaves: the result with what was published, and the exception if one came.
  unfoldable pub publish_model :
      Provider k
      → k.spec
      → TrainingResult k
      → Dict k.reference
      → Bool
      → TrainingResult k × Option PublishError
  publish_model provider spec result outputs false = (with_artifacts result outputs, none)
  publish_model provider spec result outputs true = elim (provider.publish_adapter spec) [
    | err e ↦ (with_artifacts result outputs, some e)
    | ok model ↦ (with_artifacts result (insert "model" model outputs), none)
  ]

  unfoldable pub publish :
      Provider k
      → k.spec
      → k.launch
      → TrainingStatus
      → TrainingResult k
      → TrainingResult k × Option PublishError
  unfolding publish_model
  publish provider spec launch status result = elim (provider.publish_training_outputs launch) [
    | err e ↦ (result, some e)
    | ok outputs ↦ publish_model provider spec result outputs (
        same TrainingStatus-discrete status TrainingStatus.completed
        && adapter.has_base_source spec)
  ]

  -- The `except` of poll.
  unfoldable pub publish_failed : TrainingSession k → TrainingResult k → String → TrainingSession k
  unfolding change_last
  publish_failed s result code = record (all_three s TrainingStatus.failed) {
    result = some (record result { status = TrainingStatus.failed });
    error = code;
  }

  -- The session that the `try` leaves, and the exception that is not caught.
  unfoldable pub with_published :
      TrainingSession k
      → TrainingResult k × Option PublishError
      → TrainingSession k × Option RuntimeError
  unfolding publish_failed
  with_published s (result, none) = (record s { result = some result }, none)
  with_published s (result, some (refused code)) = (publish_failed s result code, none)
  with_published s (result, some (escaped e)) =
      (record s { result = some result }, some (call_raised e))

  -- The end of poll, which an exception leaves out.
  abbrev pub concluded :
      Clock → TrainingSession k × Option RuntimeError → TrainingSession k × Option RuntimeError
  concluded clock (s, some e) = (s, some e)
  concluded clock (s, none) =
      (touched (change_attempt s (λ a. record a { result = s.result })) (clock 2), none)

  -- The part of poll after the statuses are set.
  abbrev pub collected :
      Provider k
      → TrainingSession k
      → k.launch
      → TrainingStatus
      → Clock
      → Result String (TrainingResult k)
      → TrainingSession k × Option RuntimeError
  collected provider ended launch status clock (err e) = (ended, some (call_raised e))
  collected provider ended launch status clock (ok result) =
      concluded clock (with_published ended (publish provider ended.spec launch status result))

  -- The part of poll after the exit code is known.
  unfoldable pub finish :
      Provider k
      → TrainingSession k
      → k.launch
      → ExitCode
      → Clock
      → TrainingSession k × Option RuntimeError
  unfolding publish with_published change_last
  finish provider s launch code clock =
      let status = exit_status code in
      collected provider (all_three s status) launch status clock
        (adapter.collect_result s.spec (some launch) (some code) status)

  -- What follows the executor's word on the process.
  abbrev pub answered_exit :
      Provider k
      → TrainingSession k
      → k.launch
      → Clock
      → Result String (Option ExitCode)
      → TrainingSession k × Option RuntimeError
  answered_exit provider seen launch clock (err e) = (seen, some (call_raised e))
  answered_exit provider seen launch clock (ok none) = (seen, none)
  answered_exit provider seen launch clock (ok (some code)) = finish provider seen launch code clock

  abbrev pub seen_by : Executor k → TrainingSession k → k.handle → TrainingSession k
  seen_by e s handle = with_diagnostics (with_events s (parsed (e.read_new_output handle))) e handle

  -- The part of poll that reads what the executor has to tell.
  unfoldable pub observe :
      Executor k
      → Provider k
      → TrainingSession k
      → k.launch
      → k.handle
      → Clock
      → TrainingSession k × Option RuntimeError
  unfolding parsed mark_attempt_lost finish change_last
  observe e provider s launch handle clock =
      if e.lost handle
      then (mark_attempt_lost (seen_by e s handle) "worker/operation lost" clock, none)
      else answered_exit provider (seen_by e s handle) launch clock (e.poll handle)

  unfoldable pub observe_launched :
      Option (Executor k)
      → Provider k
      → TrainingSession k
      → Option k.launch
      → Option k.handle
      → Clock
      → TrainingSession k × Option RuntimeError
  unfolding observe
  observe_launched (some e) provider s (some launch) (some handle) clock =
      observe e provider s launch handle clock
  observe_launched none provider s (some launch) (some handle) clock = (s, some not_configured)
  observe_launched executor provider s launch none clock = (s, none)
  observe_launched executor provider s none (some handle) clock = (s, none)

  -- TrainingRuntime.poll of the session that was found: the session that it leaves, and the exception if
  -- it raised one
  unfoldable pub poll_session :
      Option (Executor k)
      → Provider k
      → TrainingSession k
      → Clock
      → TrainingSession k × Option RuntimeError
  unfolding observe_launched
  poll_session executor provider s clock =
      if is_live s.status
      then observe_launched executor provider s s.launch s.handle clock
      else (s, none)
