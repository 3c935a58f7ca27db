-- ===== src/Lifecycle/Store/History.antt =====
-- _assert_history_immutable and compare_and_set: what a stored run keeps from one generation to the
-- next.

use cyrene_yield.Common.{
  String, ◌≡◌, refl, sym, ap, ◌∙◌, Bool, true, false, not, Option, none, some, List, [], ◌∷◌, arith,
  ◌==◌, eq_iff, Dict, lookup, insert, lookup-insert, same_iff, Result, ok, err, Option-cases,
  raise_if-ok, Bool-cases, ◌>>◌, inl, inr, if◌then◌else◌,
}
use cyrene_yield.Values.Normal.{normalized_fields_idem}
use cyrene_yield.Lifecycle.Status.{attempt_terminal, Error}
use cyrene_yield.Lifecycle.Attempt.{Attempt, Attempt-discrete, reload_attempt, attempt_eq}
use cyrene_yield.Lifecycle.Run.{ProductRun, reload_attempts, reload_run}
use cyrene_yield.Lifecycle.Store.{
  by_attempt_id, candidate_ok, check_candidates, assert_history_immutable,
}

-- The last attempt with an identity, or else `o`.
abbrev pub last_with : String → List Attempt → Option Attempt → Option Attempt
last_with id [] o = o
last_with id (a ∷ as') o = last_with id as' (if a.attempt_id == id then some a else o)

abbrev pub attempt_at : String → ProductRun → Option Attempt
attempt_at id r = last_with id r.attempts none

pub lookup-by_attempt_id :
    (id : String) (as' : List Attempt) (d : Dict Attempt)
    → lookup id (by_attempt_id as' d) ≡ last_with id as' (lookup id d)
unfolding by_attempt_id
lookup-by_attempt_id id [] d = refl
lookup-by_attempt_id id (a ∷ as') d =
    lookup-by_attempt_id id as' (insert a.attempt_id a d)
    ∙ ap (last_with id as') (lookup-insert a.attempt_id id a d)

pub reload_attempt_idem : (a : Attempt) → reload_attempt (reload_attempt a) ≡ reload_attempt a
unfolding reload_attempt
reload_attempt_idem a = ap (λ m. record a { metadata = m }) (normalized_fields_idem a.metadata).0

reload_option : Option Attempt → Option Attempt
reload_option none = none
reload_option (some a) = some (reload_attempt a)

last_with-reload :
    (id : String) (as' : List Attempt) (o : Option Attempt)
    → last_with id (reload_attempts as') (reload_option o) ≡ reload_option (last_with id as' o)
unfolding reload_attempts reload_option
last_with-reload id [] o = refl
last_with-reload id (a ∷ as') o =
    ap (last_with id (reload_attempts as')) (branch (a.attempt_id == id))
    ∙ last_with-reload id as' (if a.attempt_id == id then some a else o)
  where
    branch :
        (b : Bool)
        → (if b then some (reload_attempt a) else reload_option o)
          ≡ reload_option (if b then some a else o)
    branch true = refl
    branch false = refl

-- The attempt of a run that was written and read back.
pub attempt_at-reload :
    (id : String) (r : ProductRun) (a : Attempt)
    → attempt_at id r ≡ some a
    → attempt_at id (reload_run r) ≡ some (reload_attempt a)
unfolding reload_run
attempt_at-reload id r a h =
    unfold reload_option in last_with-reload id r.attempts none ∙ ap reload_option h

-- No attempt is lost, and a terminal one is what it was.
abbrev pub HistoryKept : ProductRun → ProductRun → Type 0
HistoryKept r r' =
    (id : String) (a : Attempt)
    → attempt_at id r ≡ some a
    → (b : Attempt) × (attempt_at id r' ≡ some b)
      × (attempt_terminal a.status ≡ true → reload_attempt b ≡ reload_attempt a)

attempt_eq→eq : (a b : Attempt) → attempt_eq a b ≡ true → reload_attempt a ≡ reload_attempt b
unfolding attempt_eq
attempt_eq→eq a b h = (same_iff Attempt-discrete (reload_attempt a) (reload_attempt b)).0 h

check_candidates_kept :
    (earlier later : Dict Attempt) (id : String) (a : Attempt)
    → check_candidates earlier later ≡ ok tt
    → lookup id earlier ≡ some a
    → (b : Attempt) × (lookup id later ≡ some b)
      × (attempt_terminal a.status ≡ true → attempt_eq b a ≡ true)
unfolding check_candidates lookup
check_candidates_kept [] later id a h l = cc
check_candidates_kept ((j, item) ∷ earlier) later id a h l = elim (Option-cases (lookup j later)) [
  | inl e ↦ cc (rw (e, candidate_ok) at h)
  | inr (b, e) ↦ elim (Bool-cases (j == id)) [
    | inl q ↦ (
      b,
      rw (sym ((eq_iff j id).0 q)) e,
      λ t. candidate_kept item a b (rw e at h) (ground arith) t,
    )
    | inr q ↦
        check_candidates_kept earlier later id a (rest (candidate_ok item (lookup j later)) h)
          (rw q at l)
  ]
]
  where
    rest :
        (m : Result Error (Unit {0}))
        → (m >> check_candidates earlier later) ≡ ok tt
        → check_candidates earlier later ≡ ok tt
    rest (ok u) h = h
    rest (err e) h = cc

    candidate_kept :
        (item a b : Attempt)
        → (candidate_ok item (some b) >> check_candidates earlier later) ≡ ok tt
        → item ≡ a
        → attempt_terminal a.status ≡ true
        → attempt_eq b a ≡ true
    candidate_kept item a b h e t = ground arith

passed_eq : (a b : String) → not (a == b) ≡ false → b ≡ a
passed_eq a b h = ground (arith, eq_iff a b)

-- When the check passes, the identity of the intent is the same and the history is kept.
pub assert_history_sound :
    (r r' : ProductRun)
    → assert_history_immutable r r' ≡ ok tt
    → (r'.idempotency_key ≡ r.idempotency_key)
      × (r'.plan_id ≡ r.plan_id)
      × (r'.product_kind ≡ r.product_kind)
      × HistoryKept r r'
unfolding assert_history_immutable lookup
assert_history_sound r r' h =
    let (key, h₁) = raise_if-ok _ _ _ h in
    let (plan, h₂) = raise_if-ok _ _ _ h₁ in
    let (kind, h₃) = raise_if-ok _ _ _ h₂ in
    let (present, checked) = raise_if-ok _ _ _ h₃ in
    (
      passed_eq r.idempotency_key r'.idempotency_key key,
      passed_eq r.plan_id r'.plan_id plan,
      passed_eq r.product_kind r'.product_kind kind,
      λ id a l.
          let (b, at, kept) =
            check_candidates_kept (by_attempt_id r.attempts []) (by_attempt_id r'.attempts []) id a
              checked (lookup-by_attempt_id id r.attempts [] ∙ l) in
          (b, sym (lookup-by_attempt_id id r'.attempts []) ∙ at, λ t. attempt_eq→eq b a (kept t)),
    )
