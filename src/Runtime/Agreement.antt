-- ===== src/Runtime/Agreement.antt =====
-- What the calls of TrainingRuntime keep of a session: the session, its run and the current attempt
-- agree, and a live session has a process to observe.
use cyrene_yield.Common.{
  String, ◌≡◌, ◌≢◌, refl, subst, true, false, not, Option, none, some, List, [], ◌∷◌, ◌++◌, arith,
  get_last?, get_last?-append, Result, ok, err, Result-cases, Option-cases, Bool-cases, >>=-eq-ok,
  raise_if, ◌>>◌, raise_if-ok, inl, inr,
}
use cyrene_yield.Runtime.Session.{
  TrainingStatus, Kinds, RuntimeError, cannot_retry_session, cannot_retry_attempt, Adapter,
  Executor, ControlError, TrainingAttempt, TrainingSession, Clock, derived, current_attempt,
  change_last, all_three, change_attempt, is_open,
}
use cyrene_yield.Runtime.Starting.{
  start_attempt, start_launch, start_refused, started_with, new_training_attempt, submit_valid,
  submit_session, retry_session, require_lock, identified, launch_session, retry_open, can_retry,
  attempt_ended, own_id, own_session, refused_session, new_session, join,
}
use cyrene_yield.Runtime.Polling.{mark_attempt_lost}

module _ {k : Kinds} where
  -- The current attempt of a run, if there is one, stands for the status of its session.
  abbrev pub Follows : TrainingStatus → Option (TrainingAttempt k) → Type 0
  Follows status none = Unit {0}
  Follows status (some a) = (derived a.status ≡ status) × (a.status ≢ TrainingStatus.awaiting_retry)

  pub record SessionInv (s : TrainingSession k) : Type 0 where
    pub own : s.run.run_id ≡ s.session_id
    pub agree : s.run.status ≡ s.status
    pub follows : Follows s.status (get_last? s.run.attempts)
    pub launched :
        is_open s.status ≡ true
        → (l : k.launch) × (h : k.handle) × (s.launch ≡ some l) × (s.handle ≡ some h)

  pub Follows-change_last :
      (status : TrainingStatus) (f : TrainingAttempt k → TrainingAttempt k)
      (as' : List (TrainingAttempt k))
      → ((a : TrainingAttempt k) → get_last? as' ≡ some a → Follows status (some (f a)))
      → Follows status (get_last? (change_last f as'))
  unfolding change_last
  Follows-change_last status f [] h = tt
  Follows-change_last status f (a ∷ []) h = h a refl
  Follows-change_last status f (a ∷ b ∷ []) h = h b refl
  Follows-change_last status f (a ∷ b ∷ c ∷ as') h = Follows-change_last status f (b ∷ c ∷ as') h

  -- An assignment that leaves the status of the current attempt alone.
  Follows-same :
      (status : TrainingStatus) (f : TrainingAttempt k → TrainingAttempt k)
      (as' : List (TrainingAttempt k))
      → ((a : TrainingAttempt k) → (f a).status ≡ a.status)
      → Follows status (get_last? as')
      → Follows status (get_last? (change_last f as'))
  Follows-same status f as' same h =
      Follows-change_last status f as'
        (λ a e. let (d, n) = subst (Follows status) e h in (rw (same a) d, rw (same a) n))

  Follows-append :
      (status : TrainingStatus) (as' : List (TrainingAttempt k)) (a : TrainingAttempt k)
      → derived a.status ≡ status
      → a.status ≢ TrainingStatus.awaiting_retry
      → Follows status (get_last? (as' ++ a ∷ []))
  Follows-append status as' a d n = rw (get_last?-append as' a) (d, n)

  pub SessionInv-idle :
      (s : TrainingSession k)
      → s.run.run_id ≡ s.session_id
      → s.run.status ≡ s.status
      → Follows s.status (get_last? s.run.attempts)
      → is_open s.status ≡ false
      → SessionInv s
  SessionInv-idle s own agree follows idle = record {
    own = own;
    agree = agree;
    follows = follows;
    launched = λ live. cc;
  }

  pub SessionInv-ok :
      (s s' : TrainingSession k)
      → ◌≡◌ {A = Result RuntimeError (TrainingSession k)} (ok s) (ok s')
      → SessionInv s
      → SessionInv s'
  SessionInv-ok s s' h = subst (λ x. SessionInv x) (ground arith)

  -- An assignment to the current attempt that leaves its status, and one of the times.
  pub SessionInv-change_attempt :
      (s : TrainingSession k) (f : TrainingAttempt k → TrainingAttempt k)
      → ((a : TrainingAttempt k) → (f a).status ≡ a.status)
      → SessionInv s
      → SessionInv (change_attempt s f)
  SessionInv-change_attempt s f same inv = record {
    own = inv.own;
    agree = inv.agree;
    follows = Follows-same s.status f s.run.attempts same inv.follows;
    launched = inv.launched;
  }

module _ {k : Kinds} (adapter : Adapter k) where
  started_with-SessionInv :
      (s : TrainingSession k) (a : TrainingAttempt k) (launch : k.launch) (handle : k.handle)
      (clock : Clock)
      → s.run.run_id ≡ s.session_id
      → SessionInv (started_with adapter s a launch handle clock)
  unfolding started_with
  started_with-SessionInv s a launch handle clock own = record {
    own = own;
    agree = refl;
    follows = Follows-append TrainingStatus.running s.run.attempts _ refl (λ e. cc);
    launched = λ live. (launch, handle, refl, refl);
  }

  start_refused-SessionInv :
      (s : TrainingSession k) (a : TrainingAttempt k) (e : ControlError) (clock : Clock)
      → s.run.run_id ≡ s.session_id
      → SessionInv (start_refused adapter s a e clock)
  unfolding start_refused
  start_refused-SessionInv s a e clock own = elim (Bool-cases e.lost) [
    | inl t ↦
        SessionInv-idle _ own refl (Follows-append _ s.run.attempts _ (rw t refl) (rw t (λ x. cc)))
          (rw t refl)
    | inr f ↦
        SessionInv-idle _ own refl (Follows-append _ s.run.attempts _ (rw f refl) (rw f (λ x. cc)))
          (rw f refl)
  ]

  pub start_attempt-SessionInv :
      (executor : Option (Executor k)) (s : TrainingSession k) (launch : k.launch) (clock : Clock)
      → s.run.run_id ≡ s.session_id
      → SessionInv (start_attempt adapter executor s launch clock)
  unfolding start_attempt
  start_attempt-SessionInv executor s launch clock own =
      elim (Result-cases (start_launch adapter executor (identified adapter s launch))) [
        | inl (handle, e) ↦
            rw (e, start_attempt)
              (started_with-SessionInv s
                (new_training_attempt adapter s (identified adapter s launch) (clock 0))
                (identified adapter s launch) handle clock own)
        | inr (raised, e) ↦
            rw (e, start_attempt)
              (start_refused-SessionInv s
                (new_training_attempt adapter s (identified adapter s launch) (clock 0)) raised
                clock own)
      ]

  -- A session that was launched is the outcome of a start.
  pub launch_session-eq-ok :
      (executor : Option (Executor k)) (s s' : TrainingSession k) (lock : k.lock) (clock : Clock)
      → launch_session adapter executor s lock clock ≡ ok s'
      → (launch : k.launch) × (adapter.compile s.spec lock ≡ ok launch)
        × (s' ≡ start_attempt adapter executor s launch clock)
  unfolding launch_session
  launch_session-eq-ok executor s s' lock clock h =
      let (launch, c, e) =
        >>=-eq-ok (adapter.compile s.spec lock) (λ l. ok (start_attempt adapter executor s l clock))
          h in
      (launch, c, cc)

  launch_session-SessionInv :
      (executor : Option (Executor k)) (s s' : TrainingSession k) (lock : k.lock) (clock : Clock)
      → s.run.run_id ≡ s.session_id
      → launch_session adapter executor s lock clock ≡ ok s'
      → SessionInv s'
  launch_session-SessionInv executor s s' lock clock own h =
      let (launch, c, e) = launch_session-eq-ok executor s s' lock clock h in
      rw e (start_attempt-SessionInv executor s launch clock own)

  refused_session-SessionInv :
      (session_id message now : String) (spec : k.spec)
      → SessionInv (refused_session adapter (new_session adapter session_id spec now) message)
  unfolding new_session
  refused_session-SessionInv session_id message now spec = SessionInv-idle _ refl refl tt refl

  submit_valid-SessionInv :
      (executor : Option (Executor k)) (session_id now : String) (spec : k.spec)
      (lock : Result String k.lock) (clock : Clock) (s : TrainingSession k)
      → submit_valid adapter executor (new_session adapter session_id spec now) lock clock ≡ ok s
      → SessionInv s
  unfolding submit_valid new_session
  submit_valid-SessionInv executor session_id now spec (err message) clock s h =
      SessionInv-ok _ s h (refused_session-SessionInv session_id message now spec)
  submit_valid-SessionInv executor session_id now spec (ok lock) clock s h =
      launch_session-SessionInv executor (new_session adapter session_id spec now) s lock clock refl
        h

  pub submit_session-SessionInv :
      (executor : Option (Executor k)) (spec : k.spec) (fresh : String)
      (lock : Result String k.lock) (clock : Clock) (s : TrainingSession k)
      → submit_session adapter executor spec fresh lock clock ≡ ok s
      → SessionInv s
  unfolding submit_session
  submit_session-SessionInv executor spec fresh lock clock s h =
      elim (Option-cases (adapter.validate spec)) [
        | inl n ↦
            submit_valid-SessionInv executor (own_id adapter spec fresh) (clock 3)
              (adapter.with_job_id spec (own_id adapter spec fresh)) lock clock s
              (rw (n, submit_session) at h)
        | inr (issues, e) ↦
            SessionInv-ok
              (refused_session adapter (own_session adapter spec fresh (clock 3)) (join issues)) s
              (rw (e, submit_session) at h)
              (refused_session-SessionInv (own_id adapter spec fresh) (join issues) (clock 3)
                (adapter.with_job_id spec (own_id adapter spec fresh)))
      ]

  pub retry_session-eq-ok :
      (executor : Option (Executor k)) (s s' : TrainingSession k) (answer : Result String k.lock)
      (clock : Clock)
      → retry_session adapter executor s answer clock ≡ ok s'
      → (launch : k.launch) × (can_retry s.status ≡ true)
        × (s' ≡ start_attempt adapter executor s launch clock)
  unfolding retry_session retry_open
  retry_session-eq-ok executor s s' answer clock h =
      let (t, h₁) =
        raise_if-ok (not (can_retry s.status)) cannot_retry_session
          (raise_if (not (attempt_ended adapter (current_attempt s.run))) cannot_retry_attempt
            >> retry_open adapter executor s answer clock)
          h in
      let (u, h₂) =
        raise_if-ok (not (attempt_ended adapter (current_attempt s.run))) cannot_retry_attempt
          (retry_open adapter executor s answer clock) h₁ in
      let (lock, l, h₃) =
        >>=-eq-ok (require_lock adapter answer)
          (λ lock. launch_session adapter executor s lock clock) h₂ in
      let (launch, c, e) = launch_session-eq-ok executor s s' lock clock h₃ in
      (launch, ground arith, e)

  pub retry_session-SessionInv :
      (executor : Option (Executor k)) (s s' : TrainingSession k) (answer : Result String k.lock)
      (clock : Clock)
      → retry_session adapter executor s answer clock ≡ ok s'
      → SessionInv s
      → SessionInv s'
  retry_session-SessionInv executor s s' answer clock h inv =
      let (launch, t, e) = retry_session-eq-ok executor s s' answer clock h in
      rw e (start_attempt-SessionInv executor s launch clock inv.own)

  pub mark_attempt_lost-SessionInv :
      (s : TrainingSession k) (message : String) (clock : Clock)
      → s.run.run_id ≡ s.session_id
      → SessionInv (mark_attempt_lost adapter s message clock)
  unfolding mark_attempt_lost
  mark_attempt_lost-SessionInv s message clock own =
      SessionInv-idle _ own refl
        (Follows-change_last TrainingStatus.awaiting_retry _ s.run.attempts
          (λ a e. (refl, λ x. cc)))
        refl

  pub all_three-SessionInv :
      (s : TrainingSession k) (status : TrainingStatus)
      → s.run.run_id ≡ s.session_id
      → derived status ≡ status
      → status ≢ TrainingStatus.awaiting_retry
      → is_open status ≡ false
      → SessionInv (all_three s status)
  all_three-SessionInv s status own d n idle =
      SessionInv-idle _ own refl (Follows-change_last status _ s.run.attempts (λ a e. (d, n))) idle
