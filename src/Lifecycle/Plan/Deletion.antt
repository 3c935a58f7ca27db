-- ===== src/Lifecycle/Plan/Deletion.antt =====
-- What `delete_all` and the dictionary of steps hold, for the loop of ExecutionPlan.ordered_steps.
use cyrene_yield.Common.{
  ◌+◌, ◌≤◌, String, ◌≡◌, refl, Bool, true, false, ◌||◌, List, [], ◌∷◌, arith, eq_iff, length,
  filter, contains, Unique, All, Dict, insert, has_key, delete, has_key-insert, has_key-delete,
  length-delete-lt, length-insert-le, ok, if◌then◌else◌, Bool-cases, inl, inr,
}
use cyrene_yield.Lifecycle.Step.{PlanStep}
use cyrene_yield.Lifecycle.Plan.{step_ids, by_id, delete_all}

pub has_key-by_id :
    (k : String) (ss : List PlanStep) (d : Dict PlanStep)
    → has_key k (by_id ss d) ≡ contains k (step_ids ss) || has_key k d
unfolding by_id
has_key-by_id k [] d = refl
has_key-by_id k (s ∷ ss) d =
    ground (arith, has_key-by_id k ss (insert s.step_id s d), has_key-insert s.step_id k s d)

pub length-by_id :
    (ss : List PlanStep) (d : Dict PlanStep) → length (by_id ss d) ≤ length ss + length d
unfolding by_id
length-by_id [] d = omega arith
length-by_id (s ∷ ss) d =
    omega (arith, length-by_id ss (insert s.step_id s d), length-insert-le s.step_id s d)

pub has_key-delete_all :
    (k : String) (ss : List PlanStep) (d d' : Dict PlanStep)
    → delete_all ss d ≡ ok d'
    → has_key k d' ≡ (if contains k (step_ids ss) then false else has_key k d)
unfolding delete_all
has_key-delete_all k [] d d' h = ground arith
has_key-delete_all k (s ∷ ss) d d' h = ground (
  arith,
  has_key-delete_all k ss (delete s.step_id d) d',
  has_key-delete s.step_id k d,
  eq_iff s.step_id k,
)

pub length-delete_all :
    (ss : List PlanStep) (d d' : Dict PlanStep)
    → delete_all ss d ≡ ok d'
    → length d' + length ss ≤ length d
unfolding delete_all
length-delete_all [] d d' h = ground arith
length-delete_all (s ∷ ss) d d' h =
    ground (arith, length-delete_all ss (delete s.step_id d) d', length-delete-lt s.step_id d)

abbrev pub Present : Dict PlanStep → List PlanStep → Type 0
Present d = All (λ s. has_key s.step_id d ≡ true)

Present-delete :
    (k : String) (d : Dict PlanStep) (ss : List PlanStep)
    → contains k (step_ids ss) ≡ false
    → Present d ss
    → Present (delete k d) ss
Present-delete k d [] u h = tt
Present-delete k d (s ∷ ss) u h = (
  ground (arith, has_key-delete k s.step_id d, eq_iff s.step_id k, eq_iff k s.step_id, h.0),
  Present-delete k d ss (ground arith) h.1,
)

-- Distinct steps that are all there can be deleted one after the other.
pub delete_all_succeeds :
    (ss : List PlanStep) (d : Dict PlanStep)
    → Unique (step_ids ss)
    → Present d ss
    → (d' : Dict PlanStep) × (delete_all ss d ≡ ok d')
unfolding delete_all
delete_all_succeeds [] d u h = (d, refl)
delete_all_succeeds (s ∷ ss) d u h =
    let (d', e) =
      delete_all_succeeds ss (delete s.step_id d) u.1 (Present-delete s.step_id d ss u.0 h.1) in
    (d', rw h.0 e)

-- A step that a filter keeps has an identity of the list.
contains-filter :
    (k : String) (p : PlanStep → Bool) (ss : List PlanStep)
    → contains k (step_ids ss) ≡ false
    → contains k (step_ids (filter p ss)) ≡ false
contains-filter k p [] h = refl
contains-filter k p (s ∷ ss) h = ground (arith, contains-filter k p ss)

pub Unique-filter :
    (p : PlanStep → Bool) (ss : List PlanStep)
    → Unique (step_ids ss)
    → Unique (step_ids (filter p ss))
Unique-filter p [] u = tt
Unique-filter p (s ∷ ss) u = elim (Bool-cases (p s)) [
  | inl t ↦ rw t (contains-filter s.step_id p ss u.0, Unique-filter p ss u.1)
  | inr f ↦ rw f (Unique-filter p ss u.1)
]

-- Among distinct identities, a step's is among those that a filter keeps when it is kept.
pub contains-filter_self :
    (p : PlanStep → Bool) (ss : List PlanStep)
    → Unique (step_ids ss)
    → All (λ s. contains s.step_id (step_ids (filter p ss)) ≡ p s) ss
contains-filter_self p [] u = tt
contains-filter_self p (s ∷ ss) u = (
  ground (arith, contains-filter s.step_id p ss, eq_iff s.step_id s.step_id),
  rest ss u.0 (contains-filter_self p ss u.1),
)
  where
    rest :
        (ts : List PlanStep)
        → contains s.step_id (step_ids ts) ≡ false
        → All (λ t. contains t.step_id (step_ids (filter p ss)) ≡ p t) ts
        → All (λ t. contains t.step_id (step_ids (filter p (s ∷ ss))) ≡ p t) ts
    rest [] h a = tt
    rest (t ∷ ts) h a = (
      ground (arith, eq_iff s.step_id t.step_id, eq_iff t.step_id s.step_id),
      rest ts (ground arith) a.1,
    )
