-- ===== src/Lifecycle/Store/Replacing.antt =====
-- compare_and_set: what it demands, what it writes and what it keeps.
use cyrene_yield.Common.{
  ℕ, ◌+◌, ◌≤◌, String, ◌≡◌, refl, sym, ap, ◌∙◌, subst, false, not, some, arith, lookup, insert,
  nat_eq, Result, ok, Option-cases, >>=-eq-ok, raise_if-ok, inl, inr,
}
use cyrene_yield.Lifecycle.Status.{Error}
use cyrene_yield.Lifecycle.Attempt.{Attempt, reload_attempt}
use cyrene_yield.Lifecycle.Run.{ProductRun, reload_run}
use cyrene_yield.Lifecycle.Store.{
  Store, load_run, assert_history_immutable, replace_run, compare_and_set,
}
use cyrene_yield.Lifecycle.Store.History.{
  HistoryKept, assert_history_sound, attempt_at-reload, reload_attempt_idem,
}

-- What a run keeps from one generation to a later one.
pub record RunKept (r r' : ProductRun) : Type 0 where
  pub key : r'.idempotency_key ≡ r.idempotency_key
  pub plan : r'.plan_id ≡ r.plan_id
  pub kind : r'.product_kind ≡ r.product_kind
  pub created : r'.created_at ≡ r.created_at
  pub newer : r.generation ≤ r'.generation
  pub history : HistoryKept r r'

pub RunKept-refl : (r : ProductRun) → RunKept r r
RunKept-refl r = record {
  key = refl;
  plan = refl;
  kind = refl;
  created = refl;
  newer = omega arith;
  history = λ id a l. (a, l, λ t. refl);
}

reload_attempt_status : (a b : Attempt) → reload_attempt b ≡ reload_attempt a → b.status ≡ a.status
unfolding reload_attempt
reload_attempt_status a b e = ap (λ (x : Attempt). x.status) e

pub RunKept-trans : (a b c : ProductRun) → RunKept a b → RunKept b c → RunKept a c
RunKept-trans a b c h k = record {
  key = k.key ∙ h.key;
  plan = k.plan ∙ h.plan;
  kind = k.kind ∙ h.kind;
  created = k.created ∙ h.created;
  newer = omega arith;
  history = λ id x l.
      let (y, ly, ky) = h.history id x l in
      let (z, lz, kz) = k.history id y ly in
      (z, lz, λ t. kz (rw (reload_attempt_status x y (ky t)) t) ∙ ky t);
}

pub load_run-ok :
    (s : Store) (id : String) (r : ProductRun) → load_run s id ≡ ok r → lookup id s.runs ≡ some r
unfolding load_run
load_run-ok s id r h = elim (Option-cases (lookup id s.runs)) [
  | inl e ↦ cc (rw (e, load_run) at h)
  | inr (x, e) ↦ e ∙ ap some (ok_inj (rw (e, load_run) at h))
]
  where
    ok_inj : {a b : ProductRun} → ◌≡◌ {A = Result Error ProductRun} (ok a) (ok b) → a ≡ b
    ok_inj e = cc

-- What is written of the run that compare_and_set is given.
abbrev pub persisted : ProductRun → ProductRun → String → ProductRun
persisted current run now = record run {
  generation = current.generation + 1;
  created_at = current.created_at;
  updated_at = now;
}

HistoryKept-reload : (r r' : ProductRun) → HistoryKept r r' → HistoryKept r (reload_run r')
HistoryKept-reload r r' h id a l =
    let (b, lb, kept) = h id a l in
    (reload_attempt b, attempt_at-reload id r' b lb, λ t. reload_attempt_idem b ∙ kept t)

RunKept-persisted :
    (current run : ProductRun) (now : String)
    → run.idempotency_key ≡ current.idempotency_key
    → run.plan_id ≡ current.plan_id
    → run.product_kind ≡ current.product_kind
    → HistoryKept current run
    → RunKept current (reload_run (persisted current run now))
unfolding reload_run
RunKept-persisted current run now key plan kind kept = record {
  key = key;
  plan = plan;
  kind = kind;
  created = refl;
  newer = omega arith;
  history = HistoryKept-reload current (persisted current run now) kept;
}

-- A replacement that is accepted names a stored run at exactly the generation that was expected,
-- returns the run one generation later, writes it as the only change to the store, and keeps the
-- run's identity, its creation time and its history.
pub compare_and_set_effect :
    (s s' : Store) (run p : ProductRun) (expected : ℕ) (now : String)
    → compare_and_set s run expected now ≡ ok (p, s')
    → (current : ProductRun) × (lookup run.run_id s.runs ≡ some current)
      × (current.generation ≡ expected)
      × (p ≡ persisted current run now)
      × (s' ≡ record s { runs = insert run.run_id (reload_run p) s.runs })
      × RunKept current (reload_run p)
unfolding compare_and_set
compare_and_set_effect s s' run p expected now h =
    let (current, loaded, h₀) =
      >>=-eq-ok (load_run s run.run_id) (λ c. replace_run s run expected c now) h in
    let (fresh, h₁) = raise_if-ok _ _ _ h₀ in
    let (u, q, h₂) = >>=-eq-ok (assert_history_immutable current run) _ h₁ in
    let (key, plan, kind, kept) = assert_history_sound current run q in
    let (pe, se) = saved (persisted current run now) h₂ in
    (
      current,
      load_run-ok s run.run_id current loaded,
      generation_eq current.generation expected fresh,
      pe,
      se,
      subst (λ x. RunKept current (reload_run x)) (sym pe)
          (RunKept-persisted current run now key plan kind kept),
    )
  where
    saved :
        (q : ProductRun)
        → ◌≡◌ {A = Result Error (ProductRun × Store)}
            (ok (q, record s { runs = insert run.run_id (reload_run q) s.runs }))
            (ok (p, s'))
        → (p ≡ q) × (s' ≡ record s { runs = insert run.run_id (reload_run p) s.runs })
    saved q e =
        let pq : q ≡ p = cc in
        (
          sym pq,
          subst (λ x. s' ≡ record s { runs = insert run.run_id (reload_run x) s.runs }) pq (cc),
        )

    generation_eq : (a b : ℕ) → not (nat_eq a b) ≡ false → a ≡ b
    generation_eq a b e = ground arith
