-- ===== src/Runtime/Outcomes.antt =====
-- What it takes for a session to end as completed or as cancelled, and what a retry keeps.
use cyrene_yield.Common.{
  ◌+◌, String, ◌≡◌, ◌≢◌, refl, sym, ap, subst, true, false, Option, none, some, [], ◌∷◌, ◌++◌,
  arith, length, Result, ok, err, ◌∙◌, Result-cases, Bool-cases, inl, inr, Dict,
}
use cyrene_yield.Runtime.Session.{
  TrainingStatus, Kinds, RuntimeError, ExitCode, TrainingResult, Adapter, Executor, Provider,
  call_raised, CancelOutcome, PublishError, refused, escaped, TrainingAttempt, TrainingSession,
  Clock, all_three, is_open,
}
use cyrene_yield.Runtime.Starting.{
  start_attempt, start_launch, start_refused, started_with, new_training_attempt, retry_session,
  can_retry, attempt_name, identified,
}
use cyrene_yield.Runtime.Polling.{
  mark_attempt_lost, publish, publish_failed, with_published, finish, observe, observe_launched,
  poll_session, is_live, exit_status, concluded, collected, answered_exit, seen_by,
}
use cyrene_yield.Runtime.Cancelling.{
  with_told, settled, cancel_by_answer, cleanup_ok, cancel_confirmed, cancel_unconfirmed,
  cancel_outcome, cancel_launched, cancel_open, cancel_in, cancel_session,
}
use cyrene_yield.Runtime.Agreement.{retry_session-eq-ok}

module _ {k : Kinds} (adapter : Adapter k) where
  -- The attempt that a start makes, by the session before it.
  pub record Appended (s s' : TrainingSession k) : Type 0 where
    pub attempt : TrainingAttempt k
    pub attempts : s'.run.attempts ≡ s.run.attempts ++ attempt ∷ []
    pub ordinal : attempt.ordinal ≡ length s.run.attempts + 1
    pub name : attempt.attempt_id ≡ attempt_name s.session_id (length s.run.attempts + 1)
    pub identity : s'.session_id ≡ s.session_id

  start_attempt-Appended :
      (executor : Option (Executor k)) (s : TrainingSession k) (launch : k.launch) (clock : Clock)
      → Appended s (start_attempt adapter executor s launch clock)
  unfolding start_attempt start_refused started_with new_training_attempt
  start_attempt-Appended executor s launch clock =
      elim (Result-cases (start_launch adapter executor (identified adapter s launch))) [
        | inl (handle, e) ↦
            rw (e, start_attempt)
              (record {
                attempt = _;
                attempts = refl;
                ordinal = refl;
                name = refl;
                identity = refl;
              })
        | inr (raised, e) ↦
            rw (e, start_attempt)
              (record {
                attempt = _;
                attempts = refl;
                ordinal = refl;
                name = refl;
                identity = refl;
              })
      ]

  -- A retry that is accepted starts from a session that failed, was lost or awaits it, keeps every
  -- attempt that the run has, and appends exactly one, with the next ordinal and its own identity.
  pub retry_session_effect :
      (executor : Option (Executor k)) (s s' : TrainingSession k) (lock : Result String k.lock)
      (clock : Clock)
      → retry_session adapter executor s lock clock ≡ ok s'
      → (can_retry s.status ≡ true) × Appended s s'
  retry_session_effect executor s s' lock clock h =
      let (launch, t, e) = retry_session-eq-ok adapter executor s s' lock clock h in
      (t, subst (λ x. Appended s x) (sym e) (start_attempt-Appended executor s launch clock))

  exit_status-completed :
      (code : ExitCode) → exit_status code ≡ TrainingStatus.completed → code ≡ ExitCode.exited 0
  exit_status-completed (ExitCode.exited n) h = ap ExitCode.exited (ground arith)
  exit_status-completed (ExitCode.signalled n) h = cc

  publish-ok :
      (provider : Provider k) (spec : k.spec) (launch : k.launch) (status : TrainingStatus)
      (r : TrainingResult k)
      → (publish adapter provider spec launch status r).1 ≡ none
      → (outputs : Dict k.reference) × (provider.publish_training_outputs launch ≡ ok outputs)
  unfolding publish
  publish-ok provider spec launch status r h =
      elim (Result-cases (provider.publish_training_outputs launch)) [
        | inl (outputs, e) ↦ (outputs, e)
        | inr (raised, e) ↦ cc (rw (e, publish) at h)
      ]

  concluded-completed :
      (s : TrainingSession k) (p : TrainingResult k × Option PublishError) (clock : Clock)
      → (concluded adapter clock (with_published adapter s p)).1 ≡ none
      → (concluded adapter clock (with_published adapter s p)).0.status ≡ TrainingStatus.completed
      → (p.1 ≡ none) × (s.status ≡ TrainingStatus.completed)
  unfolding with_published publish_failed
  concluded-completed s (r, none) clock n h = (refl, h)
  concluded-completed s (r, some (refused e)) clock n h = cc h
  concluded-completed s (r, some (escaped e)) clock n h = cc n

  -- What a session that a poll completed had to be told.
  pub record Completed (executor : Option (Executor k)) (provider : Provider k)
      (s : TrainingSession k) : Type 0 where
    pub answers : Executor k
    pub configured : executor ≡ some answers
    pub launch : k.launch
    pub handle : k.handle
    pub launched : (s.launch ≡ some launch) × (s.handle ≡ some handle)
    pub not_lost : answers.lost handle ≡ false
    pub exited : answers.poll handle ≡ ok (some (ExitCode.exited 0))
    pub result : TrainingResult k
    pub collects :
        adapter.collect_result s.spec
          (some launch)
          (some (ExitCode.exited 0))
          TrainingStatus.completed
        ≡ ok result
    pub outputs : Dict k.reference
    pub published : provider.publish_training_outputs launch ≡ ok outputs

  -- What was collected and published in an end of poll that completed the session.
  abbrev Ended : Provider k → k.spec → k.launch → Result String (TrainingResult k) → Type 0
  Ended provider spec launch r =
      ((result : TrainingResult k) × (r ≡ ok result))
      × ((outputs : Dict k.reference) × (provider.publish_training_outputs launch ≡ ok outputs))

  collected-completed :
      (provider : Provider k) (s : TrainingSession k) (launch : k.launch) (status : TrainingStatus)
      (clock : Clock) (r : Result String (TrainingResult k))
      → (collected adapter provider s launch status clock r).1 ≡ none
      → (collected adapter provider s launch status clock r).0.status ≡ TrainingStatus.completed
      → (s.status ≡ TrainingStatus.completed) × Ended provider s.spec launch r
  collected-completed provider s launch status clock (err e) n h = cc n
  collected-completed provider s launch status clock (ok r) n h =
      let (p, c) =
        concluded-completed s (publish adapter provider s.spec launch status r) clock n h in
      (c, ((r, refl), publish-ok provider s.spec launch status r p))

  -- The word of the executor that ends a session as completed.
  abbrev Exited :
      Provider k → TrainingSession k → k.launch → Result String (Option ExitCode) → Type 0
  Exited provider s launch r =
      (r ≡ ok (some (ExitCode.exited 0)))
      × Ended provider s.spec launch (
          adapter.collect_result s.spec (some launch) (some (ExitCode.exited 0))
            TrainingStatus.completed)

  answered_exit-completed :
      (provider : Provider k) (s : TrainingSession k) (launch : k.launch) (clock : Clock)
      (r : Result String (Option ExitCode))
      → s.status ≢ TrainingStatus.completed
      → (answered_exit adapter provider s launch clock r).1 ≡ none
      → (answered_exit adapter provider s launch clock r).0.status ≡ TrainingStatus.completed
      → Exited provider s launch r
  unfolding finish
  answered_exit-completed provider s launch clock (err e) unfinished n h = cc n
  answered_exit-completed provider s launch clock (ok none) unfinished n h = elim (unfinished h) [ ]
  answered_exit-completed provider s launch clock (ok (some code)) unfinished n h =
      let (c, ended) =
        collected-completed provider (all_three s (exit_status code)) launch (exit_status code)
          clock (adapter.collect_result s.spec (some launch) (some code) (exit_status code)) n h in
      let zero = exit_status-completed code c in
      (
        ap (λ z. ok (some z)) zero,
        subst
            (λ z.
              Ended provider s.spec launch
                (adapter.collect_result s.spec (some launch) (some z) TrainingStatus.completed))
            zero
            (subst
              (λ z.
                Ended provider s.spec launch
                  (adapter.collect_result s.spec (some launch) (some code) z))
              c ended),
      )

  observe-completed :
      (e : Executor k) (provider : Provider k) (s : TrainingSession k) (launch : k.launch)
      (handle : k.handle) (clock : Clock)
      → s.status ≢ TrainingStatus.completed
      → (observe adapter e provider s launch handle clock).1 ≡ none
      → (observe adapter e provider s launch handle clock).0.status ≡ TrainingStatus.completed
      → (e.lost handle ≡ false) × Exited provider s launch (e.poll handle)
  unfolding observe mark_attempt_lost
  observe-completed e provider s launch handle clock unfinished n h =
      elim (Bool-cases (e.lost handle)) [
        | inl t ↦ cc (rw (t, observe) at h)
        | inr f ↦ (
          f,
          answered_exit-completed provider (seen_by adapter e s handle) launch clock (e.poll handle)
              unfinished (rw (f, observe) at n) (rw (f, observe) at h),
        )
      ]

  observe_launched-completed :
      (executor : Option (Executor k)) (provider : Provider k) (s : TrainingSession k)
      (launch : Option k.launch) (handle : Option k.handle) (clock : Clock)
      → s.launch ≡ launch
      → s.handle ≡ handle
      → s.status ≢ TrainingStatus.completed
      → (observe_launched adapter executor provider s launch handle clock).1 ≡ none
      → (observe_launched adapter executor provider s launch handle clock).0.status
        ≡ TrainingStatus.completed
      → Completed executor provider s
  unfolding observe_launched
  observe_launched-completed (some e) provider s (some launch) (some handle) clock le he unfinished
        n h =
      let (f, (exited, ((result, collects), (outputs, published)))) =
        observe-completed e provider s launch handle clock unfinished n h in
      record {
        answers = e;
        configured = refl;
        launch = launch;
        handle = handle;
        launched = (le, he);
        not_lost = f;
        exited = exited;
        result = result;
        collects = collects;
        outputs = outputs;
        published = published;
      }
  observe_launched-completed none provider s (some launch) (some handle) clock le he unfinished n
        h =
      cc n
  observe_launched-completed (some e) provider s (some launch) none clock le he unfinished n h =
      elim (unfinished h) [ ]
  observe_launched-completed none provider s (some launch) none clock le he unfinished n h =
      elim (unfinished h) [ ]
  observe_launched-completed (some e) provider s none none clock le he unfinished n h =
      elim (unfinished h) [ ]
  observe_launched-completed none provider s none none clock le he unfinished n h =
      elim (unfinished h) [ ]
  observe_launched-completed (some e) provider s none (some handle) clock le he unfinished n h =
      elim (unfinished h) [ ]
  observe_launched-completed none provider s none (some handle) clock le he unfinished n h =
      elim (unfinished h) [ ]

  live_ne_completed :
      (status : TrainingStatus) → is_live status ≡ true → status ≢ TrainingStatus.completed
  live_ne_completed status live e = cc (rw e at live)

  -- A poll of a live session that returns, and leaves it completed, had an executor that has not
  -- lost the process and tells that it exited with code 0; a result was collected, and the training
  -- outputs of the launch were published.
  pub poll_session-completed :
      (executor : Option (Executor k)) (provider : Provider k) (s s' : TrainingSession k)
      (clock : Clock)
      → is_live s.status ≡ true
      → poll_session adapter executor provider s clock ≡ (s', none)
      → s'.status ≡ TrainingStatus.completed
      → Completed executor provider s
  unfolding poll_session
  poll_session-completed executor provider s s' clock live h done =
      let launched = observe_launched adapter executor provider s s.launch s.handle clock in
      let polled : launched ≡ (s', none) = rw (live, poll_session) at h in
      observe_launched-completed executor provider s s.launch s.handle clock refl refl
        (live_ne_completed s.status live) (ap (λ z. z.1) polled)
        (ap (λ z. z.0.status) polled ∙ done)

  -- What a cancellation leaves of a session whose process was told to stop, by the executor's answer.
  abbrev pub Stopped :
      TrainingSession k × Option RuntimeError → Result String CancelOutcome → Type 0
  Stopped (s', raised) (err e) =
      (raised ≡ some (call_raised e))
      × (s'.status ≡ TrainingStatus.cancelling)
      × (s'.run.status ≡ s'.status)
  Stopped (s', raised) (ok o) =
      (cleanup_ok o ≡ true → s'.status ≡ TrainingStatus.cancelled)
      × (cleanup_ok o ≡ false → s'.status ≡ TrainingStatus.awaiting_retry)
      × (s'.run.status ≡ s'.status)

  -- A status that the session and its run have.
  abbrev Both : TrainingStatus → TrainingSession k → Type 0
  Both status s = (s.status ≡ status) × (s.run.status ≡ s.status)

  settled-Both :
      (status : TrainingStatus) (now : String) (s : TrainingSession k)
      (told : TrainingResult k → TrainingSession k) (r : Result String (TrainingResult k))
      → Both status s
      → ((result : TrainingResult k) → Both status (told result))
      → Both status (settled adapter now (with_told adapter s told r)).0
  settled-Both status now s told (err e) both after = both
  settled-Both status now s told (ok result) both after = after result

  cancel_outcome-Stopped :
      (s : TrainingSession k) (o : CancelOutcome) (clock : Clock)
      → Stopped (cancel_outcome adapter s o clock) (ok o)
  unfolding cancel_outcome cancel_confirmed cancel_unconfirmed mark_attempt_lost
  cancel_outcome-Stopped s o clock = elim (Bool-cases (cleanup_ok o)) [
    | inl t ↦
        let (status, agree) =
          settled-Both TrainingStatus.cancelled (clock 2) _ _
            (adapter.collect_result s.spec s.launch none TrainingStatus.cancelled) (refl, refl)
            (λ result. (refl, refl)) in
        ((λ x. rw (t, cancel_outcome) status), (λ x. cc (t, x)), rw (t, cancel_outcome) agree)
    | inr f ↦
        let (status, agree) =
          settled-Both TrainingStatus.awaiting_retry (clock 2) _ _
            (adapter.collect_result s.spec s.launch none TrainingStatus.lost) (refl, refl)
            (λ result. (refl, refl)) in
        ((λ x. cc (f, x)), (λ x. rw (f, cancel_outcome) status), rw (f, cancel_outcome) agree)
  ]

  cancel_by_answer-Stopped :
      (s : TrainingSession k) (r : Result String CancelOutcome) (clock : Clock)
      → Stopped (cancel_by_answer adapter (all_three s TrainingStatus.cancelling) r clock) r
  cancel_by_answer-Stopped s (err e) clock = (refl, refl, refl)
  cancel_by_answer-Stopped s (ok o) clock =
      cancel_outcome-Stopped (all_three s TrainingStatus.cancelling) o clock

  -- Cancelling a session that has a process and is not settled follows the executor's answer,
  -- whether or not the result can then be collected: it ends as cancelled if the executor stopped
  -- the process, confirmed its cleanup and left no process, and else as awaiting a retry. If the
  -- executor's call raises, the call raises too and the session is left cancelling. In each case the
  -- run has the status of the session.
  pub cancel_session-Stopped :
      (e : Executor k) (s : TrainingSession k) (handle : k.handle) (clock : Clock)
      → is_open s.status ≡ true
      → s.handle ≡ some handle
      → Stopped (cancel_session adapter (some e) s clock) (e.cancel handle)
  unfolding cancel_session cancel_in cancel_open cancel_launched
  cancel_session-Stopped e s handle clock live at = by_status s.status refl
    where
      launched : Stopped (cancel_open adapter (some e) s s.handle clock) (e.cancel handle)
      launched = rw (at, cancel_open) (cancel_by_answer-Stopped s (e.cancel handle) clock)

      by_status :
          (status : TrainingStatus)
          → s.status ≡ status
          → Stopped (cancel_in adapter (some e) s status clock) (e.cancel handle)
      by_status TrainingStatus.queued q = launched
      by_status TrainingStatus.running q = launched
      by_status TrainingStatus.cancelling q = launched
      by_status TrainingStatus.completed q = cc (rw q at live)
      by_status TrainingStatus.failed q = cc (rw q at live)
      by_status TrainingStatus.cancelled q = cc (rw q at live)
      by_status TrainingStatus.awaiting_retry q = cc (rw q at live)
      by_status TrainingStatus.lost q = cc (rw q at live)
