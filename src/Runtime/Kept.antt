-- ===== src/Runtime/Kept.antt =====
-- What holds of a session through poll_session and cancel_session of TrainingRuntime.
use cyrene_yield.Common.{
  String, ◌≡◌, ◌≢◌, refl, subst, true, Option, none, some, List, ◌++◌, arith, get_last?, Bool,
  false, Result, ok, err, if◌then◌else◌, Bool-cases, ◌⊎◌, inl, inr,
}
use cyrene_yield.Runtime.Session.{
  TrainingStatus, Kinds, ExitCode, TrainingResult, Adapter, Executor, Provider, CancelOutcome,
  RuntimeError, PublishError, refused, escaped, TrainingAttempt, TrainingSession, Clock,
  change_last, all_three, touched, is_open, derived,
}
use cyrene_yield.Runtime.Polling.{
  parsed, publish_failed, with_published, finish, observe, observe_launched, poll_session, is_live,
  exit_status, with_events, with_diagnostics, concluded, collected, answered_exit, seen_by,
}
use cyrene_yield.Runtime.Cancelling.{
  with_told, settled, cancel_by_answer, cleanup_ok, cancel_confirmed, cancel_unconfirmed,
  cancel_outcome, cancel_launched, cancel_open, cancel_in,
}
use cyrene_yield.Runtime.Agreement.{
  Follows, Follows-change_last, SessionInv, SessionInv-idle, SessionInv-change_attempt,
  all_three-SessionInv, mark_attempt_lost-SessionInv,
}

module _ {k : Kinds} (adapter : Adapter k) where
  -- The times and the result are no part of the invariant.
  touched-SessionInv :
      (s : TrainingSession k) (now : String) → SessionInv s → SessionInv (touched s now)
  touched-SessionInv s now inv = record {
    own = inv.own;
    agree = inv.agree;
    follows = inv.follows;
    launched = inv.launched;
  }

  with_result-SessionInv :
      (s : TrainingSession k) (r : Option (TrainingResult k))
      → SessionInv s
      → SessionInv (record s { result = r })
  with_result-SessionInv s r inv = record {
    own = inv.own;
    agree = inv.agree;
    follows = inv.follows;
    launched = inv.launched;
  }

  exit_status-idle :
      (code : ExitCode)
      → (exit_status code ≡ TrainingStatus.completed) ⊎ (exit_status code ≡ TrainingStatus.failed)
  exit_status-idle (ExitCode.exited n) = ground arith
  exit_status-idle (ExitCode.signalled n) = inr refl

  ended-SessionInv :
      (s : TrainingSession k) (code : ExitCode)
      → s.run.run_id ≡ s.session_id
      → SessionInv (all_three s (exit_status code))
  ended-SessionInv s code own = elim (exit_status-idle code) [
    | inl c ↦ rw c (all_three-SessionInv adapter s TrainingStatus.completed own refl (λ e. cc) refl)
    | inr f ↦ rw f (all_three-SessionInv adapter s TrainingStatus.failed own refl (λ e. cc) refl)
  ]

  with_published-SessionInv :
      (s : TrainingSession k) (p : TrainingResult k × Option PublishError)
      → SessionInv s
      → SessionInv (with_published adapter s p).0
  unfolding with_published publish_failed
  with_published-SessionInv s (r, none) inv = with_result-SessionInv s (some r) inv
  with_published-SessionInv s (r, some (refused e)) inv =
      SessionInv-idle _ inv.own refl
        (all_three-SessionInv adapter s TrainingStatus.failed inv.own refl (λ x. cc) refl).follows
        refl
  with_published-SessionInv s (r, some (escaped e)) inv = with_result-SessionInv s (some r) inv

  concluded-SessionInv :
      (p : TrainingSession k × Option RuntimeError) (clock : Clock)
      → SessionInv p.0
      → SessionInv (concluded adapter clock p).0
  concluded-SessionInv (s, some e) clock inv = inv
  concluded-SessionInv (s, none) clock inv =
      touched-SessionInv _ (clock 2) (SessionInv-change_attempt _ _ (λ a. refl) inv)

  collected-SessionInv :
      (provider : Provider k) (s : TrainingSession k) (launch : k.launch) (status : TrainingStatus)
      (clock : Clock) (r : Result String (TrainingResult k))
      → SessionInv s
      → SessionInv (collected adapter provider s launch status clock r).0
  collected-SessionInv provider s launch status clock (err e) inv = inv
  collected-SessionInv provider s launch status clock (ok r) inv =
      concluded-SessionInv _ clock (with_published-SessionInv s _ inv)

  finish-SessionInv :
      (provider : Provider k) (s : TrainingSession k) (launch : k.launch) (code : ExitCode)
      (clock : Clock)
      → s.run.run_id ≡ s.session_id
      → SessionInv (finish adapter provider s launch code clock).0
  unfolding finish
  finish-SessionInv provider s launch code clock own =
      collected-SessionInv provider (all_three s (exit_status code)) launch (exit_status code) clock
        _ (ended-SessionInv s code own)

  answered_exit-SessionInv :
      (provider : Provider k) (s : TrainingSession k) (launch : k.launch) (clock : Clock)
      (r : Result String (Option ExitCode))
      → SessionInv s
      → SessionInv (answered_exit adapter provider s launch clock r).0
  answered_exit-SessionInv provider s launch clock (err e) inv = inv
  answered_exit-SessionInv provider s launch clock (ok none) inv = inv
  answered_exit-SessionInv provider s launch clock (ok (some code)) inv =
      finish-SessionInv provider s launch code clock inv.own

  seen-SessionInv :
      (s : TrainingSession k) (e : Executor k) (handle : k.handle) (new : List k.event)
      → SessionInv s
      → SessionInv (with_diagnostics adapter (with_events adapter s new) e handle)
  seen-SessionInv s e handle new inv =
      let i =
        SessionInv-change_attempt s (λ a. record a { events = a.events ++ new }) (λ a. refl) inv in
      record { own = i.own; agree = i.agree; follows = i.follows; launched = i.launched }

  observe-SessionInv :
      (e : Executor k) (provider : Provider k) (s : TrainingSession k) (launch : k.launch)
      (handle : k.handle) (clock : Clock)
      → SessionInv s
      → SessionInv (observe adapter e provider s launch handle clock).0
  unfolding observe
  observe-SessionInv e provider s launch handle clock inv =
      let seen = seen_by adapter e s handle in
      elim (Bool-cases (e.lost handle)) [
        | inl t ↦
            rw (t, observe)
              (mark_attempt_lost-SessionInv adapter seen "worker/operation lost" clock inv.own)
        | inr f ↦
            rw (f, observe)
              (answered_exit-SessionInv provider seen launch clock (e.poll handle)
                (seen-SessionInv s e handle (parsed adapter (e.read_new_output handle)) inv))
      ]

  observe_launched-SessionInv :
      (executor : Option (Executor k)) (provider : Provider k) (s : TrainingSession k)
      (launch : Option k.launch) (handle : Option k.handle) (clock : Clock)
      → SessionInv s
      → SessionInv (observe_launched adapter executor provider s launch handle clock).0
  unfolding observe_launched
  observe_launched-SessionInv (some e) provider s (some launch) (some handle) clock inv =
      observe-SessionInv e provider s launch handle clock inv
  observe_launched-SessionInv none provider s (some launch) (some handle) clock inv = inv
  observe_launched-SessionInv (some e) provider s (some launch) none clock inv = inv
  observe_launched-SessionInv none provider s (some launch) none clock inv = inv
  observe_launched-SessionInv (some e) provider s none none clock inv = inv
  observe_launched-SessionInv none provider s none none clock inv = inv
  observe_launched-SessionInv (some e) provider s none (some handle) clock inv = inv
  observe_launched-SessionInv none provider s none (some handle) clock inv = inv

  pub poll_session-SessionInv :
      (executor : Option (Executor k)) (provider : Provider k) (s : TrainingSession k)
      (clock : Clock)
      → SessionInv s
      → SessionInv (poll_session adapter executor provider s clock).0
  unfolding poll_session
  poll_session-SessionInv executor provider s clock inv =
      by_live (is_live s.status)
        (observe_launched-SessionInv executor provider s s.launch s.handle clock inv)
    where
      by_live :
          (b : Bool)
          → SessionInv (observe_launched adapter executor provider s s.launch s.handle clock).0
          → SessionInv
              (if b
                then observe_launched adapter executor provider s s.launch s.handle clock
                else (s, none)).0
      by_live true launched = launched
      by_live false launched = inv

  with_told-SessionInv :
      (s : TrainingSession k) (told : TrainingResult k → TrainingSession k)
      (r : Result String (TrainingResult k))
      → SessionInv s
      → ((result : TrainingResult k) → SessionInv (told result))
      → SessionInv (with_told adapter s told r).0
  with_told-SessionInv s told (err e) inv after = inv
  with_told-SessionInv s told (ok result) inv after = after result

  cancel_confirmed-SessionInv :
      (s : TrainingSession k) (o : CancelOutcome)
      → s.run.run_id ≡ s.session_id
      → SessionInv (cancel_confirmed adapter s o).0
  unfolding cancel_confirmed
  cancel_confirmed-SessionInv s o own =
      let ended = all_three-SessionInv adapter s TrainingStatus.cancelled own refl (λ e. cc) refl in
      with_told-SessionInv _ _ _ ended
        (λ result. SessionInv-change_attempt _ _ (λ a. refl) (with_result-SessionInv _ _ ended))

  cancel_unconfirmed-SessionInv :
      (s : TrainingSession k) (o : CancelOutcome) (clock : Clock)
      → s.run.run_id ≡ s.session_id
      → SessionInv (cancel_unconfirmed adapter s o clock).0
  unfolding cancel_unconfirmed
  cancel_unconfirmed-SessionInv s o clock own =
      let lost = mark_attempt_lost-SessionInv adapter s _ clock own in
      with_told-SessionInv _ _ _ lost
        (λ result. SessionInv-change_attempt _ _ (λ a. refl) (with_result-SessionInv _ _ lost))

  settled-SessionInv :
      (now : String) (p : TrainingSession k × Option RuntimeError)
      → SessionInv p.0
      → SessionInv (settled adapter now p).0
  settled-SessionInv now (s, some e) inv = inv
  settled-SessionInv now (s, none) inv = touched-SessionInv s now inv

  cancel_outcome-SessionInv :
      (s : TrainingSession k) (o : CancelOutcome) (clock : Clock)
      → s.run.run_id ≡ s.session_id
      → SessionInv (cancel_outcome adapter s o clock).0
  unfolding cancel_outcome
  cancel_outcome-SessionInv s o clock own = elim (Bool-cases (cleanup_ok o)) [
    | inl t ↦
        rw (t, cancel_outcome)
          (settled-SessionInv (clock 2) _ (cancel_confirmed-SessionInv s o own))
    | inr f ↦
        rw (f, cancel_outcome)
          (settled-SessionInv (clock 2) _ (cancel_unconfirmed-SessionInv s o clock own))
  ]

  cancelling-SessionInv :
      (s : TrainingSession k)
      → is_open s.status ≡ true
      → SessionInv s
      → SessionInv (all_three s TrainingStatus.cancelling)
  unfolding change_last
  cancelling-SessionInv s live inv = record {
    own = inv.own;
    agree = refl;
    follows =
        Follows-change_last TrainingStatus.cancelling _ s.run.attempts (λ a x. (refl, λ y. cc));
    launched = λ t. inv.launched live;
  }

  cancel_by_answer-SessionInv :
      (s : TrainingSession k) (r : Result String CancelOutcome) (clock : Clock)
      → SessionInv s
      → SessionInv (cancel_by_answer adapter s r clock).0
  cancel_by_answer-SessionInv s (err e) clock inv = inv
  cancel_by_answer-SessionInv s (ok o) clock inv = cancel_outcome-SessionInv s o clock inv.own

  derived_ne_lost : (status : TrainingStatus) → derived status ≢ TrainingStatus.lost
  derived_ne_lost TrainingStatus.lost e = cc
  derived_ne_lost TrainingStatus.queued e = cc
  derived_ne_lost TrainingStatus.running e = cc
  derived_ne_lost TrainingStatus.cancelling e = cc
  derived_ne_lost TrainingStatus.completed e = cc
  derived_ne_lost TrainingStatus.failed e = cc
  derived_ne_lost TrainingStatus.cancelled e = cc
  derived_ne_lost TrainingStatus.awaiting_retry e = cc

  -- No session with an attempt is itself lost.
  Follows-lost :
      (o : Option (TrainingAttempt k))
      → Follows TrainingStatus.lost o
      → Follows TrainingStatus.awaiting_retry o
  Follows-lost none h = tt
  Follows-lost (some a) h = elim (derived_ne_lost a.status h.0) [ ]

  cancel_open-SessionInv :
      (executor : Option (Executor k)) (s : TrainingSession k) (handle : Option k.handle)
      (clock : Clock)
      → s.handle ≡ handle
      → is_open s.status ≡ true
      → SessionInv s
      → SessionInv (cancel_open adapter executor s handle clock).0
  unfolding cancel_open cancel_launched change_last
  cancel_open-SessionInv executor s none clock e live inv =
      let (l, h, le, he) = inv.launched live in cc
  cancel_open-SessionInv none s (some handle) clock e live inv = cancelling-SessionInv s live inv
  cancel_open-SessionInv (some x) s (some handle) clock e live inv =
      cancel_by_answer-SessionInv (all_three s TrainingStatus.cancelling) (x.cancel handle) clock
        (cancelling-SessionInv s live inv)

  pub cancel_in-SessionInv :
      (executor : Option (Executor k)) (s : TrainingSession k) (status : TrainingStatus)
      (clock : Clock)
      → s.status ≡ status
      → SessionInv s
      → SessionInv (cancel_in adapter executor s status clock).0
  unfolding cancel_in
  cancel_in-SessionInv executor s TrainingStatus.queued clock e inv =
      cancel_open-SessionInv executor s s.handle clock refl (rw e refl) inv
  cancel_in-SessionInv executor s TrainingStatus.running clock e inv =
      cancel_open-SessionInv executor s s.handle clock refl (rw e refl) inv
  cancel_in-SessionInv executor s TrainingStatus.cancelling clock e inv =
      cancel_open-SessionInv executor s s.handle clock refl (rw e refl) inv
  cancel_in-SessionInv executor s TrainingStatus.completed clock e inv = inv
  cancel_in-SessionInv executor s TrainingStatus.failed clock e inv = inv
  cancel_in-SessionInv executor s TrainingStatus.cancelled clock e inv = inv
  cancel_in-SessionInv executor s TrainingStatus.awaiting_retry clock e inv = inv
  cancel_in-SessionInv executor s TrainingStatus.lost clock e inv =
      SessionInv-idle _ inv.own refl
        (Follows-lost (get_last? s.run.attempts)
          (subst (λ x. Follows x (get_last? s.run.attempts)) e inv.follows))
        refl
