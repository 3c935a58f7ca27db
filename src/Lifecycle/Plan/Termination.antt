-- ===== src/Lifecycle/Plan/Termination.antt =====
-- ExecutionPlan.ordered_steps ends: it returns, or it raises because of a cycle.
use cyrene_yield.Common.{
  ℕ, zero, suc, ◌+◌, ◌≤◌, ◌<◌, String, ◌≡◌, false, List, [], ◌∷◌, ◌++◌, arith, length, filter,
  is_nil, Unique, Dict, ok, err, Bool-cases, inl, inr,
}
use cyrene_yield.Lifecycle.Status.{Error, cyclic_dependencies}
use cyrene_yield.Lifecycle.Step.{PlanStep}
use cyrene_yield.Lifecycle.Plan.{step_ids, by_id, is_ready, delete_all, order_loop, ordered_steps}
use cyrene_yield.Lifecycle.Plan.Deletion.{
  Present, delete_all_succeeds, length-delete_all, length-by_id, Unique-filter,
}

-- The steps that are ready are all in the dictionary.
pub filter-Present :
    (d : Dict PlanStep) (c : List String) (ss : List PlanStep)
    → Present d (filter (is_ready d c) ss)
filter-Present d c [] = tt
filter-Present d c (s ∷ ss) = elim (Bool-cases (is_ready d c s)) [
  | inl t ↦ rw t (ground arith, filter-Present d c ss)
  | inr f ↦ rw f (filter-Present d c ss)
]

-- One round deletes the ready steps, and makes the dictionary shorter.
pub round_deletes :
    (ss : List PlanStep) (d : Dict PlanStep) (c : List String)
    → Unique (step_ids ss)
    → is_nil (filter (is_ready d c) ss) ≡ false
    → (d' : Dict PlanStep) × (delete_all (filter (is_ready d c) ss) d ≡ ok d')
      × (length d' < length d)
round_deletes ss d c u n =
    let ready = filter (is_ready d c) ss in
    let (d', e) =
      delete_all_succeeds ready d (Unique-filter (is_ready d c) ss u) (filter-Present d c ss) in
    (d', e, shorter ready n (length-delete_all ready d d' e))
  where
    shorter : {m k : ℕ} (xs : List PlanStep) → is_nil xs ≡ false → m + length xs ≤ k → m < k
    shorter [] h l = cc
    shorter (x ∷ xs) h l = omega arith

order_loop_error :
    (f : ℕ) (ss : List PlanStep) (d : Dict PlanStep) (c : List String) (o : List PlanStep)
    (e : Error)
    → Unique (step_ids ss)
    → length d ≤ f
    → order_loop f ss d c o ≡ err e
    → e ≡ cyclic_dependencies
unfolding order_loop
order_loop_error f ss [] c o e u l h = cc
order_loop_error zero ss (r ∷ rs) c o e u l h = absurd (omega arith)
order_loop_error (suc f) ss (r ∷ rs) c o e u l h =
    elim (Bool-cases (is_nil (filter (is_ready (r ∷ rs) c) ss))) [
      | inl t ↦ cc (rw t at h)
      | inr n ↦
          let (d', q, shorter) = round_deletes ss (r ∷ rs) c u n in
          order_loop_error f ss d' (c ++ step_ids (filter (is_ready (r ∷ rs) c) ss))
            (o ++ filter (is_ready (r ∷ rs) c) ss) e u (omega arith) (rw (n, q) at h)
    ]

-- With distinct step identities the loop never runs out of the rounds that it is given and deletes
-- no absent key: whatever it raises is the error about cycles.
pub ordered_steps_error :
    (ss : List PlanStep) (e : Error)
    → Unique (step_ids ss)
    → ordered_steps ss ≡ err e
    → e ≡ cyclic_dependencies
unfolding ordered_steps
ordered_steps_error ss e u h =
    order_loop_error (length ss) ss (by_id ss []) [] [] e u (omega (arith, length-by_id ss [])) h
