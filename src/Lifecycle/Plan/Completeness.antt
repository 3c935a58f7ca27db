-- ===== src/Lifecycle/Plan/Completeness.antt =====
-- ExecutionPlan.ordered_steps orders every acyclic plan.
use cyrene_yield.Common.{
  ℕ, zero, suc, ◌≤◌, ◌<◌, String, ◌≡◌, refl, true, false, List, [], ◌∷◌, ◌++◌, arith, ◌==◌, eq_iff,
  length, filter, is_nil, contains, contains-append, all, Unique, All, Dict, has_key, ok,
  Bool-cases, ◌⊎◌, subst, inl, inr,
}
use cyrene_yield.Lifecycle.Step.{StepDependency, PlanStep}
use cyrene_yield.Lifecycle.Plan.{step_ids, by_id, deps_in, is_ready, order_loop, ordered_steps}
use cyrene_yield.Lifecycle.Plan.Deletion.{has_key-by_id, has_key-delete_all, length-by_id}
use cyrene_yield.Lifecycle.Plan.Termination.{round_deletes}

-- A dependency is a step of the plan, and has a lower rank than the step that names it.
abbrev pub RankedDeps : (String → ℕ) → List String → ℕ → List StepDependency → Type 0
RankedDeps rank known n = All (λ d. (contains d.step_id known ≡ true) × (rank d.step_id < n))

abbrev pub Ranked : (String → ℕ) → List String → List PlanStep → Type 0
Ranked rank known = All (λ s. RankedDeps rank known (rank s.step_id) s.dependencies)

-- A dependency that is not done.
open_dep :
    (rank : String → ℕ) (known c : List String) (n : ℕ) (ds : List StepDependency)
    → RankedDeps rank known n ds
    → all (λ d. contains d.step_id c) ds ≡ false
    → (k : String) × (contains k c ≡ false) × (contains k known ≡ true) × (rank k < n)
open_dep rank known c n [] a h = cc
open_dep rank known c n (d ∷ ds) a h = elim (Bool-cases (contains d.step_id c)) [
  | inl t ↦ open_dep rank known c n ds a.1 (rw t at h)
  | inr f ↦ (d.step_id, f, a.0.0, a.0.1)
]

-- A known identity is ready, or waits for another of lower rank.
ready_or_lower :
    (rank : String → ℕ) (known c : List String) (d : Dict PlanStep) (k : String)
    (ss : List PlanStep)
    → Ranked rank known ss
    → contains k (step_ids ss) ≡ true
    → has_key k d ≡ true
    → (is_nil (filter (is_ready d c) ss) ≡ false)
      ⊎ ((j : String) × (contains j c ≡ false) × (contains j known ≡ true) × (rank j < rank k))
ready_or_lower rank known c d k [] a h p = cc
ready_or_lower rank known c d k (s ∷ ss) a h p = elim (Bool-cases (s.step_id == k)) [
  | inl e ↦ elim (Bool-cases (deps_in c s)) [
    | inl t ↦ inl (ground (arith, eq_iff s.step_id k))
    | inr f ↦
        let (j, q, known', lower) = open_dep rank known c (rank s.step_id) s.dependencies a.0 f in
        inr (j, q, known', subst (λ x. rank j < rank x) ((eq_iff s.step_id k).0 e) lower)
  ]
  | inr n ↦ elim (ready_or_lower rank known c d k ss a.1 (rw n at h) p) [
    | inl r ↦ inl (ground arith)
    | inr j ↦ inr j
  ]
]

module _ (rank : String → ℕ) (ss : List PlanStep) (ranked : Ranked rank (step_ids ss) ss) where
  -- The loop's invariant: of the plan's steps, those not done are the dictionary's.
  abbrev Covers : List String → Dict PlanStep → Type 0
  Covers c d =
      ((k : String) → contains k (step_ids ss) ≡ true → contains k c ≡ false → has_key k d ≡ true)
      × ((k : String) → has_key k d ≡ true → contains k (step_ids ss) ≡ true)

  some_ready :
      (n : ℕ) (c : List String) (d : Dict PlanStep) (k : String)
      → Covers c d
      → has_key k d ≡ true
      → rank k < n
      → is_nil (filter (is_ready d c) ss) ≡ false
  some_ready zero c d k cov p l = absurd (omega arith)
  some_ready (suc n) c d k cov p l =
      elim (ready_or_lower rank (step_ids ss) c d k ss ranked (cov.1 k p) p) [
        | inl r ↦ r
        | inr (j, q, known, lower) ↦ some_ready n c d j cov (cov.0 j known q) (omega arith)
      ]

  order_loop_total :
      (f : ℕ) (d : Dict PlanStep) (c : List String) (o : List PlanStep)
      → Unique (step_ids ss)
      → length d ≤ f
      → Covers c d
      → (order : List PlanStep) × (order_loop f ss d c o ≡ ok order)
  unfolding order_loop has_key
  order_loop_total f [] c o u l cov = (o, refl)
  order_loop_total zero (r ∷ rs) c o u l cov = absurd (omega arith)
  order_loop_total (suc f) (r ∷ rs) c o u l cov =
      let ready = filter (is_ready (r ∷ rs) c) ss in
      let n : is_nil ready ≡ false =
        some_ready (suc (rank r.0)) c (r ∷ rs) r.0 cov (ground (arith, eq_iff r.0 r.0))
          (omega arith) in
      let (d', q, shorter) = round_deletes ss (r ∷ rs) c u n in
      let covers : Covers (c ++ step_ids ready) d' = (
        (λ k known open_k. ground (
          arith,
          has_key-delete_all k ready (r ∷ rs) d' q,
          contains-append k c (step_ids ready),
          cov.0 k known,
        )),
        (λ k p. cov.1 k (ground (arith, has_key-delete_all k ready (r ∷ rs) d' q))),
      ) in
      let (order, e) =
        order_loop_total f d' (c ++ step_ids ready) (o ++ ready) u (omega arith) covers in
      (order, rw (n, q) e)

-- A plan whose steps are distinct, depend on steps of the plan alone and admit a rank that every
-- dependency lowers is ordered, so the error about cycles is raised for cycles only.
pub ordered_steps_complete :
    (rank : String → ℕ) (ss : List PlanStep)
    → Unique (step_ids ss)
    → Ranked rank (step_ids ss) ss
    → (order : List PlanStep) × (ordered_steps ss ≡ ok order)
unfolding ordered_steps has_key
ordered_steps_complete rank ss u ranked =
    order_loop_total rank ss ranked (length ss) (by_id ss []) [] [] u
      (omega (arith, length-by_id ss []))
      (
        (λ k known p. ground (arith, has_key-by_id k ss [])),
        (λ k p. ground (arith, has_key-by_id k ss [])),
      )
