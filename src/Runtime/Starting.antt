-- ===== src/Runtime/Starting.antt =====
-- TrainingRuntime.submit, retry, restore_session and _start_attempt of runtime.py.
use cyrene_yield.Common.{
  ℕ, ◌+◌, String, Bool, true, false, not, Option, none, some, List, [], ◌∷◌, ◌++◌, length, is_empty,
  concat, Result, ok, err, ◌>>=◌, ◌>>◌, raise_if, if◌then◌else◌,
}
use cyrene_yield.Common.Decimal.{show}
use cyrene_yield.Runtime.Session.{
  TrainingStatus, Kinds, RuntimeError, cannot_retry_session, cannot_retry_attempt, ControlError,
  Adapter, Executor, TrainingAttempt, TrainingSession, Clock, current_attempt,
}

unfoldable pub join : List String → String
join [] = ""
join (m ∷ []) = m
join (m ∷ n ∷ ms) = concat m (concat "; " (join (n ∷ ms)))

-- f"{session.session_id}:{ordinal}"
abbrev pub attempt_name : String → ℕ → String
attempt_name session_id ordinal = concat session_id (concat ":" (show ordinal))

abbrev pub can_retry : TrainingStatus → Bool
can_retry TrainingStatus.awaiting_retry = true
can_retry TrainingStatus.lost = true
can_retry TrainingStatus.failed = true
can_retry _ = false

module _ {k : Kinds} (adapter : Adapter k) where
  abbrev pub not_configured_error : ControlError
  not_configured_error = record {
    message = "YIELD_EXECUTION_NOT_CONFIGURED: configure the Platform execution adapter";
    lost = false;
  }

  -- self._require_executor().start(launch)
  unfoldable pub start_launch : Option (Executor k) → k.launch → Result ControlError k.handle
  start_launch none launch = err not_configured_error
  start_launch (some e) launch = e.start launch

  unfoldable pub new_session : String → k.spec → String → TrainingSession k
  new_session session_id spec now = record {
    session_id = session_id;
    spec = spec;
    status = TrainingStatus.queued;
    launch = none;
    handle = none;
    result = none;
    events = [];
    diagnostics = [];
    diagnostics_degraded = false;
    error = "";
    updated_at = now;
    run = record {
      run_id = session_id;
      spec = spec;
      status = TrainingStatus.queued;
      attempts = [];
      error = "";
      updated_at = now;
    };
  }

  unfoldable pub new_training_attempt : TrainingSession k → k.launch → String → TrainingAttempt k
  new_training_attempt s launch now =
      let ordinal = length s.run.attempts + 1 in
      record {
        attempt_id = attempt_name s.session_id ordinal;
        run_id = s.run.run_id;
        ordinal = ordinal;
        spec = s.spec;
        status = TrainingStatus.queued;
        launch = some launch;
        binding = none;
        result = none;
        events = [];
        error = "";
        updated_at = now;
      }

  -- The launch of an attempt, with its identity in `extra`; the attempt holds the same object.
  abbrev pub identified : TrainingSession k → k.launch → k.launch
  identified s launch =
      adapter.with_identity launch s.spec (attempt_name s.session_id (length s.run.attempts + 1))

  -- The branch of _start_attempt on ExecutionControlError.
  unfoldable pub start_refused :
      TrainingSession k → TrainingAttempt k → ControlError → Clock → TrainingSession k
  start_refused s attempt e clock =
      let status = if e.lost then TrainingStatus.lost else TrainingStatus.failed in
      let final = if e.lost then TrainingStatus.awaiting_retry else status in
      let failed = record attempt { status = status; error = e.message; updated_at = clock 1 } in
      record s {
        status = final;
        error = e.message;
        updated_at = clock 2;
        run = record s.run {
          attempts = s.run.attempts ++ failed ∷ [];
          status = final;
          error = e.message;
          updated_at = clock 2;
        };
      }

  unfoldable pub started_with :
      TrainingSession k → TrainingAttempt k → k.launch → k.handle → Clock → TrainingSession k
  started_with s attempt launch handle clock =
      let running = record attempt { status = TrainingStatus.running; binding = some handle } in
      record s {
        status = TrainingStatus.running;
        launch = some launch;
        handle = some handle;
        events = attempt.events;
        error = "";
        updated_at = clock 1;
        run = record s.run {
          attempts = s.run.attempts ++ running ∷ [];
          status = TrainingStatus.running;
          updated_at = clock 1;
        };
      }

  -- TrainingRuntime._start_attempt
  unfoldable pub start_attempt :
      Option (Executor k) → TrainingSession k → k.launch → Clock → TrainingSession k
  unfolding start_launch start_refused started_with new_training_attempt
  start_attempt executor s launch clock =
      let own = identified s launch in
      let attempt = new_training_attempt s own (clock 0) in
      elim (start_launch executor own) [
        | err e ↦ start_refused s attempt e clock
        | ok handle ↦ started_with s attempt own handle clock
      ]

  -- A session that failed before it was launched, with the message in its result.
  abbrev pub refused_session : TrainingSession k → String → TrainingSession k
  refused_session s message = record s {
    status = TrainingStatus.failed;
    error = message;
    result = some (record {
      status = TrainingStatus.failed;
      output_dir = adapter.output_dir s.spec;
      exit_code = none;
      artifacts = [];
      message = message;
    });
    run = record s.run { status = TrainingStatus.failed };
  }

  -- The launch of a session whose environment is locked.
  unfoldable pub launch_session :
      Option (Executor k)
      → TrainingSession k
      → k.lock
      → Clock
      → Result RuntimeError (TrainingSession k)
  unfolding start_attempt
  launch_session executor s lock clock = do
    launch ← adapter.compile s.spec lock
    ok (start_attempt executor s launch clock)

  -- The part of submit after the validation; `lock` is what _resolve_environment_lock answers.
  unfoldable pub submit_valid :
      Option (Executor k)
      → TrainingSession k
      → Result String k.lock
      → Clock
      → Result RuntimeError (TrainingSession k)
  unfolding launch_session
  submit_valid executor s (err message) clock = ok (refused_session s message)
  submit_valid executor s (ok lock) clock = launch_session executor s lock clock

  -- spec.job_id or str(uuid.uuid4())
  abbrev pub own_id : k.spec → String → String
  own_id spec fresh = if is_empty (adapter.job_id spec) then fresh else adapter.job_id spec

  abbrev pub own_session : k.spec → String → String → TrainingSession k
  own_session spec fresh now =
      new_session (own_id spec fresh) (adapter.with_job_id spec (own_id spec fresh)) now

  -- TrainingRuntime.submit, up to the entry in the table of sessions
  unfoldable pub submit_session :
      Option (Executor k)
      → k.spec
      → String
      → Result String k.lock
      → Clock
      → Result RuntimeError (TrainingSession k)
  unfolding submit_valid join
  submit_session executor spec fresh lock clock =
      let s = own_session spec fresh (clock 3) in
      elim (adapter.validate spec) [
        | some issues ↦ ok (refused_session s (join issues))
        | none ↦ submit_valid executor s lock clock
      ]

  abbrev pub attempt_ended : Option (TrainingAttempt k) → Bool
  attempt_ended none = true
  attempt_ended (some a) = elim a.status [
    | TrainingStatus.lost ↦ true
    | TrainingStatus.failed ↦ true
    | _ ↦ false
  ]

  -- The lock of a retry is resolved again; where that fails, the ValueError passes to the caller.
  unfoldable pub require_lock : Result String k.lock → Result RuntimeError k.lock
  require_lock (err message) = err (RuntimeError.engine_raised message)
  require_lock (ok lock) = ok lock

  -- The part of retry after its two checks. The source compiles before it resolves the environment;
  -- the order shows only in which of the two is raised where both fail.
  unfoldable pub retry_open :
      Option (Executor k)
      → TrainingSession k
      → Result String k.lock
      → Clock
      → Result RuntimeError (TrainingSession k)
  unfolding require_lock launch_session
  retry_open executor s answer clock = do
    lock ← require_lock answer
    launch_session executor s lock clock

  -- TrainingRuntime.retry of the session that was found
  unfoldable pub retry_session :
      Option (Executor k)
      → TrainingSession k
      → Result String k.lock
      → Clock
      → Result RuntimeError (TrainingSession k)
  unfolding retry_open
  retry_session executor s answer clock = do
    raise_if (not (can_retry s.status)) cannot_retry_session
    raise_if (not (attempt_ended (current_attempt s.run))) cannot_retry_attempt
    retry_open executor s answer clock

  -- The session that restore_session makes of a Kernel receipt; `spec` and `attempt_id` are read from
  -- the extra of the launch.
  unfoldable pub restored_session :
      k.spec → String → k.launch → k.handle → String → TrainingSession k
  restored_session spec attempt_id launch handle now =
      let session_id = adapter.job_id spec in
      record {
        session_id = session_id;
        spec = spec;
        status = TrainingStatus.running;
        launch = some launch;
        handle = some handle;
        result = none;
        events = [];
        diagnostics = [];
        diagnostics_degraded = false;
        error = "";
        updated_at = now;
        run = record {
          run_id = session_id;
          spec = spec;
          status = TrainingStatus.running;
          attempts =
              (record {
                attempt_id = attempt_id;
                run_id = session_id;
                ordinal = 1;
                spec = spec;
                status = TrainingStatus.running;
                launch = some launch;
                binding = some handle;
                result = none;
                events = [];
                error = "";
                updated_at = now;
              })
              ∷ [];
          error = "";
          updated_at = now;
        };
      }
