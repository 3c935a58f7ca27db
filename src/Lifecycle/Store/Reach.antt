-- ===== src/Lifecycle/Store/Reach.antt =====
-- Every sequence of calls that write the control-plane store, by any callers in any order.
use cyrene_yield.Common.{
  ℕ, ◌+◌, ◌<◌, String, ◌≡◌, refl, ap, subst, false, none, some, arith, lookup, lookup-insert,
  lookup-insert_self, ◌==◌, eq_iff, concat, nat_eq, ok, err, Bool-cases, inl, inr,
}
use cyrene_yield.Values.{Fields}
use cyrene_yield.Lifecycle.Status.{stale_generation}
use cyrene_yield.Lifecycle.Plan.{ExecutionPlan}
use cyrene_yield.Lifecycle.Run.{ProductRun, reload_run}
use cyrene_yield.Lifecycle.Store.{
  Store, Clock, create_or_get, load_run, replace_run, compare_and_set,
}
use cyrene_yield.Lifecycle.Store.Replacing.{
  RunKept, RunKept-refl, RunKept-trans, compare_and_set_effect,
}
use cyrene_yield.Lifecycle.Store.Submission.{first_run, create_or_get_effect}
use cyrene_yield.Lifecycle.Store.Invariant.{StoreInv, StoreInv-replace, StoreInv-add, lookup_same}

-- A call of the store that returned. A submission draws a uuid that no stored run has.
pub data Step (s s' : Store) : Type 0 where
  submitted :
      (plan : ExecutionPlan) (kind key : String) (metadata : Fields) (fresh : String)
      (clock : Clock) (run : ProductRun)
      → lookup (concat "run-" fresh) s.runs ≡ none
      → create_or_get s plan kind key metadata fresh clock ≡ ok (run, s')
      → Step s s'
  replaced :
      (run : ProductRun) (expected : ℕ) (now : String) (p : ProductRun)
      → compare_and_set s run expected now ≡ ok (p, s')
      → Step s s'

pub data Reach (s : Store) : Store → Type 0 where
  here : Reach s s
  next : {t u : Store} → Reach s t → Step t u → Reach s u

RunKept-fields :
    (r r' : ProductRun)
    → RunKept r (reload_run r')
    → (r'.idempotency_key ≡ r.idempotency_key) × (r'.plan_id ≡ r.plan_id)
unfolding reload_run
RunKept-fields r r' k = (k.key, k.plan)

pub Step-StoreInv : (s s' : Store) → Step s s' → StoreInv s → StoreInv s'
unfolding reload_run
Step-StoreInv s s' (submitted plan kind key metadata fresh clock run new h) inv =
    elim (create_or_get_effect s plan kind key metadata fresh clock s' run h) [
      | inl (id, used, at, p, k, e) ↦ rw e inv
      | inr (unused, r, e) ↦ rw e (
          StoreInv-add s inv plan (reload_run (first_run s plan kind key metadata fresh clock)) key
            (concat "run-" fresh) unused new refl refl refl)
    ]
Step-StoreInv s s' (replaced run expected now p h) inv =
    let (current, at, g, pe, se, kept) = compare_and_set_effect s s' run p expected now h in
    rw se (
      StoreInv-replace s inv current (reload_run p) run.run_id at
        (ap (λ (x : ProductRun). x.run_id) pe) kept.key kept.plan)

-- Every store that the calls can reach from the empty one satisfies the invariant.
pub Reach-StoreInv : (s s' : Store) → Reach s s' → StoreInv s → StoreInv s'
Reach-StoreInv s s' here inv = inv
Reach-StoreInv s s' (next {t = t} r st) inv = Step-StoreInv t s' st (Reach-StoreInv s t r inv)

-- Each run of the first store is in the second, and has kept what runs keep.
abbrev pub StoreKept : Store → Store → Type 0
StoreKept s s' =
    (id : String) (r : ProductRun)
    → lookup id s.runs ≡ some r
    → (r' : ProductRun) × (lookup id s'.runs ≡ some r') × RunKept r r'

Step-StoreKept : (s s' : Store) → Step s s' → StoreKept s s'
Step-StoreKept s s' (submitted plan kind key metadata fresh clock run new h) id r l =
    elim (create_or_get_effect s plan kind key metadata fresh clock s' run h) [
      | inl (i, used, at, p, k, e) ↦ (r, rw e l, RunKept-refl r)
      | inr (unused, q, e) ↦ (
        r,
        rw
            (
              e,
              lookup-insert (concat "run-" fresh) id
                  (reload_run (first_run s plan kind key metadata fresh clock)) s.runs,
              ne (concat "run-" fresh) new,
            )
            l,
        RunKept-refl r,
      )
    ]
  where
    ne : (k : String) → lookup k s.runs ≡ none → (k == id) ≡ false
    ne k u = elim (Bool-cases (k == id)) [ inl t ↦ absurd (cc ((eq_iff k id).0 t)) | inr f ↦ f ]
Step-StoreKept s s' (replaced run expected now p h) id r l =
    let (current, at, g, pe, se, kept) = compare_and_set_effect s s' run p expected now h in
    elim (Bool-cases (run.run_id == id)) [
      | inl t ↦ (
        reload_run p,
        rw (se, lookup-insert run.run_id id (reload_run p) s.runs, t),
        subst (λ x. RunKept x (reload_run p))
            (lookup_same run.run_id id current r s.runs at l ((eq_iff run.run_id id).0 t)) kept,
      )
      | inr f ↦ (r, rw (se, lookup-insert run.run_id id (reload_run p) s.runs, f) l, RunKept-refl r)
    ]

-- Whatever calls are made, in whatever order, a stored run stays stored, keeps its idempotency key,
-- plan, kind and creation time, never falls back to an earlier generation, loses no attempt, and
-- keeps every terminal attempt as it was.
pub Reach-StoreKept : (s s' : Store) → Reach s s' → StoreKept s s'
Reach-StoreKept s s' here id r l = (r, l, RunKept-refl r)
Reach-StoreKept s s' (next {t = t} r st) id x l =
    let (y, ly, ky) = Reach-StoreKept s t r id x l in
    let (z, lz, kz) = Step-StoreKept t s' st id y ly in (z, lz, RunKept-trans x y z ky kz)

older_is_stale :
    (s : Store) (run r : ProductRun) (expected : ℕ) (now : String)
    → lookup run.run_id s.runs ≡ some r
    → expected < r.generation
    → compare_and_set s run expected now ≡ err stale_generation
unfolding compare_and_set
older_is_stale s run r expected now l lt =
    let differ : nat_eq r.generation expected ≡ false = ground arith in
    rw (l, load_run) (rw (differ, replace_run))

-- Once a replacement at a generation has been accepted, every later one that expects the same
-- generation of the same run is refused as stale, whatever was called in between: no update is lost
-- and none is applied twice.
pub replaced_once :
    (s s' s'' : Store) (run run' p : ProductRun) (expected : ℕ) (now now' : String)
    → compare_and_set s run expected now ≡ ok (p, s')
    → Reach s' s''
    → run'.run_id ≡ run.run_id
    → compare_and_set s'' run' expected now' ≡ err stale_generation
unfolding reload_run
replaced_once s s' s'' run run' p expected now now' h reach same =
    let (current, at, g, pe, se, kept) = compare_and_set_effect s s' run p expected now h in
    let stored : lookup run.run_id s'.runs ≡ some (reload_run p) =
      rw se (lookup-insert_self run.run_id (reload_run p) s.runs) in
    let (r, found, later) = Reach-StoreKept s' s'' reach run.run_id (reload_run p) stored in
    let gen : p.generation ≡ current.generation + 1 = ap (λ (x : ProductRun). x.generation) pe in
    older_is_stale s'' run' r expected now' (rw same found) (omega (arith, later.newer, gen, g))
