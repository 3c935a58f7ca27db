-- ===== src/Lifecycle/Plan/Soundness.antt =====
-- The order that ExecutionPlan.ordered_steps returns is topological, and has each step once.
use mathlib.Core.List.{Perm, perm_middle, append-nil, append_assoc}
use mathlib.Core.List.Perm
use cyrene_yield.Common.{
  ℕ, zero, suc, String, ◌≡◌, refl, sym, subst, Bool, true, false, List, [], ◌∷◌, ◌++◌, arith,
  eq_iff, length, filter, is_nil, contains, contains-append, all, Unique, All, Dict, has_key, ok,
  Bool-cases, inl, inr, if◌then◌else◌,
}
use cyrene_yield.Lifecycle.Step.{StepDependency, PlanStep}
use cyrene_yield.Lifecycle.Plan.{step_ids, by_id, deps_in, is_ready, order_loop, ordered_steps}
use cyrene_yield.Lifecycle.Plan.Deletion.{has_key-by_id, has_key-delete_all, contains-filter_self}
use cyrene_yield.Lifecycle.Plan.Termination.{round_deletes}

-- Each step's dependencies are among `done` or the steps before it.
abbrev pub Topological : List String → List PlanStep → Type 0
Topological done [] = Unit
Topological done (s ∷ ss) = (deps_in done s ≡ true) × Topological (done ++ s.step_id ∷ []) ss

pub step_ids-append : (xs ys : List PlanStep) → step_ids (xs ++ ys) ≡ step_ids xs ++ step_ids ys
step_ids-append [] ys = refl
step_ids-append (x ∷ xs) ys = rw (step_ids-append xs ys)

Topological-append :
    (done : List String) (xs ys : List PlanStep)
    → Topological done xs
    → Topological (done ++ step_ids xs) ys
    → Topological done (xs ++ ys)
Topological-append done [] ys tx ty = rw append-nil at ty
Topological-append done (x ∷ xs) ys tx ty = (
  tx.0,
  Topological-append (done ++ x.step_id ∷ []) xs ys tx.1
      (subst (λ c. Topological c ys) (sym (append_assoc done (x.step_id ∷ []) (step_ids xs))) ty),
)

-- More steps done leave a dependency satisfied.
all_deps-append :
    (c e : List String) (ds : List StepDependency)
    → all (λ d. contains d.step_id c) ds ≡ true
    → all (λ d. contains d.step_id (c ++ e)) ds ≡ true
all_deps-append c e [] h = refl
all_deps-append c e (d ∷ ds) h =
    ground (arith, contains-append d.step_id c e, all_deps-append c e ds)

ready-Topological :
    (d : Dict PlanStep) (c e : List String) (ss : List PlanStep)
    → Topological (c ++ e) (filter (is_ready d c) ss)
ready-Topological d c e [] = tt
ready-Topological d c e (s ∷ ss) = elim (Bool-cases (is_ready d c s)) [
  | inl t ↦ rw t (
    all_deps-append c e s.dependencies (ground arith),
    subst (λ x. Topological x (filter (is_ready d c) ss)) (sym (append_assoc c e (s.step_id ∷ [])))
        (ready-Topological d c (e ++ s.step_id ∷ []) ss),
  )
  | inr f ↦ rw f (ready-Topological d c e ss)
]

-- The steps of the dictionary are those of the round and those of the next dictionary.
remaining-perm :
    (d d' : Dict PlanStep) (r : PlanStep → Bool) (ids : List String) (ss : List PlanStep)
    → ((k : String) → has_key k d' ≡ (if contains k ids then false else has_key k d))
    → All (λ s. contains s.step_id ids ≡ r s) ss
    → ((s : PlanStep) → r s ≡ true → has_key s.step_id d ≡ true)
    → Perm
        (filter r ss ++ filter (λ s. has_key s.step_id d') ss)
        (filter (λ s. has_key s.step_id d) ss)
remaining-perm d d' r ids [] hd hr hk = Perm.refl []
remaining-perm d d' r ids (s ∷ ss) hd hr hk =
    split (r s) (has_key s.step_id d) (has_key s.step_id d') (filter r ss) _ _
      (rw hr.0 at (hd s.step_id)) (hk s) (remaining-perm d d' r ids ss hd hr.1 hk)
  where
    split :
        (b k k' : Bool) (xs ys zs : List PlanStep)
        → k' ≡ (if b then false else k)
        → (b ≡ true → k ≡ true)
        → Perm (xs ++ ys) zs
        → Perm
            ((if b then s ∷ xs else xs) ++ (if k' then s ∷ ys else ys))
            (if k then s ∷ zs else zs)
    split true true false xs ys zs e h p = Perm.cons s p
    split true false k' xs ys zs e h p = cc (h refl)
    split true true true xs ys zs e h p = cc
    split false true true xs ys zs e h p = Perm.trans (perm_middle xs ys) (Perm.cons s p)
    split false true false xs ys zs e h p = cc
    split false false true xs ys zs e h p = cc
    split false false false xs ys zs e h p = p

filter_none : (ss : List PlanStep) → filter (λ s. has_key {V = PlanStep} s.step_id []) ss ≡ []
unfolding has_key
filter_none [] = refl
filter_none (s ∷ ss) = filter_none ss

filter_known :
    (d : Dict PlanStep) (known : List String) (ss : List PlanStep)
    → ((k : String) → contains k known ≡ true → has_key k d ≡ true)
    → All (λ s. contains s.step_id known ≡ true) ss
    → filter (λ s. has_key s.step_id d) ss ≡ ss
filter_known d known [] h a = refl
filter_known d known (s ∷ ss) h a = ground (arith, h s.step_id, filter_known d known ss h a.1)

pub own_ids :
    (c : List String) (ss : List PlanStep)
    → All (λ s. contains s.step_id (c ++ step_ids ss) ≡ true) ss
own_ids c [] = tt
own_ids c (s ∷ ss) = (
  ground (arith, contains-append s.step_id c (s.step_id ∷ step_ids ss), eq_iff s.step_id s.step_id),
  subst (λ l. All (λ t. contains t.step_id l ≡ true) ss)
      (append_assoc c (s.step_id ∷ []) (step_ids ss)) (own_ids (c ++ s.step_id ∷ []) ss),
)

order_loop_sound :
    (f : ℕ) (ss : List PlanStep) (d : Dict PlanStep) (o order : List PlanStep)
    → Unique (step_ids ss)
    → Topological [] o
    → order_loop f ss d (step_ids o) o ≡ ok order
    → Topological [] order × Perm order (o ++ filter (λ s. has_key s.step_id d) ss)
unfolding order_loop
order_loop_sound f ss [] o order u t h =
    let e : o ≡ order = cc in
    (
      subst (Topological []) e t,
      rw (filter_none ss, append-nil) (subst (λ x. Perm x o) e (Perm.refl o)),
    )
order_loop_sound zero ss (r ∷ rs) o order u t h = cc
order_loop_sound (suc f) ss (r ∷ rs) o order u t h =
    let d = r ∷ rs in
    let ready = filter (is_ready (r ∷ rs) (step_ids o)) ss in
    elim (Bool-cases (is_nil ready)) [
      | inl empty ↦ cc (rw empty at h)
      | inr n ↦
          let (d', q, shorter) = round_deletes ss (r ∷ rs) (step_ids o) u n in
          let rest : order_loop f ss d' (step_ids (o ++ ready)) (o ++ ready) ≡ ok order =
            rw (step_ids-append o ready) (rw (n, q) at h) in
          let first : Topological (step_ids o) ready =
            rw append-nil at (ready-Topological (r ∷ rs) (step_ids o) [] ss) in
          let (sorted, p) =
            order_loop_sound f ss d' (o ++ ready) order u (Topological-append [] o ready t first)
              rest in
          (
            sorted,
            Perm.trans (rw append_assoc at p) (
                Perm.append_left o (
                  remaining-perm (r ∷ rs) d' (is_ready (r ∷ rs) (step_ids o)) (step_ids ready) ss
                    (λ k. has_key-delete_all k ready (r ∷ rs) d' q)
                    (contains-filter_self (is_ready (r ∷ rs) (step_ids o)) ss u)
                    (λ s e. ground arith))),
          )
    ]

-- Of distinct steps, the order that the loop returns is a permutation of the plan's steps in which
-- each step stands behind all that it depends on.
pub ordered_steps_sound :
    (ss order : List PlanStep)
    → Unique (step_ids ss)
    → ordered_steps ss ≡ ok order
    → Topological [] order × Perm order ss
unfolding ordered_steps
ordered_steps_sound ss order u h =
    let (sorted, p) = order_loop_sound (length ss) ss (by_id ss []) [] order u tt h in
    (
      sorted,
      rw
          (filter_known (by_id ss []) (step_ids ss) ss
            (λ k e. ground (arith, has_key-by_id k ss [])) (own_ids [] ss))
          at p,
    )
