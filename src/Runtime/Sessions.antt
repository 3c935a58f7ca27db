-- ===== src/Runtime/Sessions.antt =====
-- The table of sessions that TrainingRuntime owns, and its calls by a session's identity.
use cyrene_yield.Common.{
  Bool, not, ◌||◌, if◌then◌else◌, List, [], ◌∷◌, String, Option, none, some, Dict, lookup, insert,
  Result, ok, err, ◌>>=◌,
}
use cyrene_yield.Runtime.Session.{
  is_open, Kinds, RuntimeError, unknown_session, Adapter, Executor, Provider, TrainingSession,
  Clock,
}
use cyrene_yield.Runtime.Starting.{submit_session, retry_session, restored_session}
use cyrene_yield.Runtime.Polling.{poll_session}
use cyrene_yield.Runtime.Cancelling.{cancel_session}

-- What one round of TrainingRuntime.wait meets; `late` tells whether the deadline has passed after it.
pub record Round (k : Kinds) : Type 0 where
  pub executor : Option (Executor k)
  pub provider : Provider k
  pub clock : Clock
  pub late : Bool

module _ {k : Kinds} (adapter : Adapter k) where
  -- TrainingRuntime._require
  unfoldable pub require_session :
      Dict (TrainingSession k) → String → Result RuntimeError (TrainingSession k)
  require_session sessions id = elim (lookup id sessions) [
    | none ↦ err unknown_session
    | some s ↦ ok s
  ]

  -- self._sessions[session_id] = session; a call that changes the session's object changes the entry.
  abbrev pub entered :
      Dict (TrainingSession k) → TrainingSession k → TrainingSession k × Dict (TrainingSession k)
  entered sessions s = (s, insert s.session_id s sessions)

  -- TrainingRuntime.submit
  unfoldable pub submit :
      Dict (TrainingSession k)
      → Option (Executor k)
      → k.spec
      → String
      → Result String k.lock
      → Clock
      → Result RuntimeError (TrainingSession k × Dict (TrainingSession k))
  submit sessions executor spec fresh lock clock = do
    s ← submit_session adapter executor spec fresh lock clock
    ok (entered sessions s)

  -- TrainingRuntime.retry
  unfoldable pub retry :
      Dict (TrainingSession k)
      → String
      → Option (Executor k)
      → Result String k.lock
      → Clock
      → Result RuntimeError (TrainingSession k × Dict (TrainingSession k))
  retry sessions id executor lock clock = do
    s ← require_session sessions id
    s' ← retry_session adapter executor s lock clock
    ok (entered sessions s')

  -- TrainingRuntime.poll, with the exception of a call that raised one after it read the session
  unfoldable pub poll :
      Dict (TrainingSession k)
      → String
      → Option (Executor k)
      → Provider k
      → Clock
      → Result RuntimeError (Option RuntimeError × (TrainingSession k × Dict (TrainingSession k)))
  poll sessions id executor provider clock = do
    s ← require_session sessions id
    let (s', raised) = poll_session adapter executor provider s clock
    ok (raised, entered sessions s')

  -- TrainingRuntime.cancel, with the exception of a call that raised one after it changed the session
  unfoldable pub cancel :
      Dict (TrainingSession k)
      → String
      → Option (Executor k)
      → Clock
      → Result RuntimeError (Option RuntimeError × Dict (TrainingSession k))
  cancel sessions id executor clock = do
    s ← require_session sessions id
    let (s', raised) = cancel_session adapter executor s clock
    ok (raised, insert s'.session_id s' sessions)

  -- TrainingRuntime.restore_session
  unfoldable pub restore_session :
      Dict (TrainingSession k)
      → k.spec
      → String
      → k.launch
      → k.handle
      → String
      → TrainingSession k × Dict (TrainingSession k)
  restore_session sessions spec attempt_id launch handle now =
      elim (lookup (adapter.job_id spec) sessions) [
        | some s ↦ (s, sessions)
        | none ↦ entered sessions (restored_session adapter spec attempt_id launch handle now)
      ]

  -- TrainingRuntime.get
  abbrev pub get : Dict (TrainingSession k) → String → Option (TrainingSession k)
  get sessions id = lookup id sessions

  abbrev wait_polled :
      Bool
      → Option RuntimeError × (TrainingSession k × Dict (TrainingSession k))
      → Result RuntimeError
          (Option RuntimeError × (Option (TrainingSession k) × Dict (TrainingSession k)))
      → Result RuntimeError
          (Option RuntimeError × (Option (TrainingSession k) × Dict (TrainingSession k)))
  wait_polled late (some e, (s, sessions)) rest = ok (some e, (none, sessions))
  wait_polled late (none, (s, sessions)) rest =
      if not (is_open s.status) || late then ok (none, (some s, sessions)) else rest

  -- TrainingRuntime.wait over the rounds that it meets, with the exception that ends it: no session if it
  -- raises or waits for another round.
  unfoldable pub wait :
      Dict (TrainingSession k)
      → String
      → List (Round k)
      → Result RuntimeError
          (Option RuntimeError × (Option (TrainingSession k) × Dict (TrainingSession k)))
  unfolding poll
  wait sessions id [] = ok (none, (none, sessions))
  wait sessions id (r ∷ rs) = do
    polled ← poll sessions id r.executor r.provider r.clock
    wait_polled r.late polled (wait polled.1.1 id rs)
