-- ===== src/Runtime/Life.antt =====
-- Any sequence of the calls of TrainingRuntime on one session.
use cyrene_yield.Common.{String, ◌≡◌, refl, subst, Option, Result, ok}
use cyrene_yield.Runtime.Session.{Kinds, Adapter, Executor, Provider, TrainingSession, Clock}
use cyrene_yield.Runtime.Starting.{submit_session, retry_session, restored_session}
use cyrene_yield.Runtime.Polling.{poll_session}
use cyrene_yield.Runtime.Cancelling.{cancel_session}
use cyrene_yield.Runtime.Agreement.{SessionInv, submit_session-SessionInv, retry_session-SessionInv}
use cyrene_yield.Runtime.Kept.{poll_session-SessionInv, cancel_in-SessionInv}

module _ {k : Kinds} (adapter : Adapter k) where
  -- One call on a session, whatever the executor, the provider and the resolver answer in it.
  pub data Call : TrainingSession k → TrainingSession k → Type 0 where
    polled :
        (executor : Option (Executor k)) (provider : Provider k) {s s' : TrainingSession k}
        (clock : Clock)
        → (poll_session adapter executor provider s clock).0 ≡ s'
        → Call s s'
    cancelled_by :
        (executor : Option (Executor k)) {s s' : TrainingSession k} (clock : Clock)
        → (cancel_session adapter executor s clock).0 ≡ s'
        → Call s s'
    retried :
        (executor : Option (Executor k)) (lock : Result String k.lock) {s s' : TrainingSession k}
        (clock : Clock)
        → retry_session adapter executor s lock clock ≡ ok s'
        → Call s s'

  -- The sessions that a submission or a restored receipt and any calls after it lead to.
  pub data Life : TrainingSession k → Type 0 where
    submitted :
        (executor : Option (Executor k)) (spec : k.spec) (fresh : String)
        (lock : Result String k.lock) (clock : Clock) {s : TrainingSession k}
        → submit_session adapter executor spec fresh lock clock ≡ ok s
        → Life s
    restored :
        (spec : k.spec) (attempt_id : String) (launch : k.launch) (handle : k.handle) (now : String)
        → Life (restored_session adapter spec attempt_id launch handle now)
    called : {s s' : TrainingSession k} → Life s → Call s s' → Life s'

  Call-SessionInv : (s s' : TrainingSession k) → Call s s' → SessionInv s → SessionInv s'
  unfolding cancel_session
  Call-SessionInv s s' (polled executor provider clock h) inv =
      subst (λ x. SessionInv x) h (poll_session-SessionInv adapter executor provider s clock inv)
  Call-SessionInv s s' (cancelled_by executor clock h) inv =
      subst (λ x. SessionInv x) h (cancel_in-SessionInv adapter executor s s.status clock refl inv)
  Call-SessionInv s s' (retried executor lock clock h) inv =
      retry_session-SessionInv adapter executor s s' lock clock h inv

  -- Whatever is called on a session, and whatever the executor answers or raises, its run has the session's
  -- identity and status, that status is the one derived from the last attempt where there is one, and
  -- a session that is queued, running or cancelling has a launch and a process handle.
  pub Life-SessionInv : (s : TrainingSession k) → Life s → SessionInv s
  unfolding restored_session
  Life-SessionInv s (submitted executor spec fresh lock clock h) =
      submit_session-SessionInv adapter executor spec fresh lock clock s h
  Life-SessionInv s (restored spec attempt_id launch handle now) = record {
    own = refl;
    agree = refl;
    follows = (refl, λ e. cc);
    launched = λ live. (launch, handle, refl, refl);
  }
  Life-SessionInv s' (called {s = s} l c) = Call-SessionInv s s' c (Life-SessionInv s l)
