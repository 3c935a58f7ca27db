-- ===== src/Checkpoint/Cleanup.antt =====
-- Which checkpoints the cleanup removes and which it leaves.
use mathlib.Core.List.{Memᴰ}
use cyrene_yield.Common.{
  ℕ, ◌<◌, leb, String, Bool-cases, zero, suc, ◌+◌, ◌-◌, ◌≤◌, ◌≡◌, refl, sym, ap, ◌∙◌, subst, ◌⊎◌,
  inl, inr, Bool, true, false, some, List, [], ◌∷◌, ◌++◌, arith, length, length-append, ltb, All,
  All-map, All-Mem, take, sort_by, Sorted, sort_by-Sorted, All-sort_by_back, length-sort_by,
  if◌then◌else◌,
}
use cyrene_yield.Checkpoint.{
  CheckpointInfo, Entry, max_step, latest_of, list_checkpoints, find_latest_checkpoint, step_le,
  to_remove, slice_to_difference, remove_all, cleanup_old_checkpoints,
}

module _ {A : Type 0} where
  -- xs[n:]
  unfoldable pub drop : ℕ → List A → List A
  drop zero xs = xs
  drop (suc n) [] = []
  drop (suc n) (x ∷ xs) = drop n xs

  take-drop : (n : ℕ) (xs : List A) → take n xs ++ drop n xs ≡ xs
  unfolding take drop
  take-drop zero xs = refl
  take-drop (suc n) [] = refl
  take-drop (suc n) (x ∷ xs) = ap (λ z. x ∷ z) (take-drop n xs)

  length-drop : (n : ℕ) (xs : List A) → length (drop n xs) ≡ length xs - n
  unfolding drop
  length-drop zero xs = omega arith
  length-drop (suc n) [] = omega arith
  length-drop (suc n) (x ∷ xs) = omega (arith, length-drop n xs)

  Mem-append : (x : A) (xs ys : List A) → Memᴰ x (xs ++ ys) → Memᴰ x xs ⊎ Memᴰ x ys
  Mem-append x [] ys m = inr m
  Mem-append x (y ∷ xs) ys (Memᴰ.head e) = inl (Memᴰ.head e)
  Mem-append x (y ∷ xs) ys (Memᴰ.tail m) = elim (Mem-append x xs ys m) [
    | inl l ↦ inl (Memᴰ.tail l)
    | inr r ↦ inr r
  ]

  Sorted-split :
      (le : A → A → Bool) (n : ℕ) (xs : List A)
      → Sorted le xs
      → All (λ x. All (λ y. le x y ≡ true) (drop n xs)) (take n xs)
  unfolding take drop
  Sorted-split le zero xs h = tt
  Sorted-split le (suc n) [] h = tt
  Sorted-split le (suc n) (x ∷ xs) h =
      (All-drop (λ y. le x y ≡ true) n xs h.0, Sorted-split le n xs h.1)
    where
      All-drop : (P : A → Type 0) (n : ℕ) (xs : List A) → All P xs → All P (drop n xs)
      All-drop P zero xs h = h
      All-drop P (suc n) [] h = tt
      All-drop P (suc n) (x ∷ xs) h = All-drop P n xs h.1

-- The paths that a removal of these checkpoints returns.
abbrev pub removable : (String → Bool) → List CheckpointInfo → List String
removable removes [] = []
removable removes (c ∷ cs) = (if removes c.path then c.path ∷ [] else []) ++ removable removes cs

remove_all-removable :
    (removes : String → Bool) (cs : List CheckpointInfo)
    → remove_all removes cs ≡ removable removes cs
unfolding remove_all
remove_all-removable removes [] = refl
remove_all-removable removes (c ∷ cs) = elim (Bool-cases (removes c.path)) [
  | inl t ↦ rw t (ap (λ z. c.path ∷ z) (remove_all-removable removes cs))
  | inr f ↦ rw f (remove_all-removable removes cs)
]

-- The checkpoints cs as those that are chosen for removal and those that are kept.
pub record Divided (limit : ℕ) (cs chosen kept : List CheckpointInfo) : Type 0 where
  pub either : All (λ c. Memᴰ c chosen ⊎ Memᴰ c kept) cs
  pub together : length chosen + length kept ≡ length cs
  pub few : length cs ≤ limit → chosen ≡ []
  pub many : limit < length cs → length kept ≡ limit
  pub oldest : All (λ r. All (λ k. r.step ≤ k.step) kept) chosen

to_remove-Divided :
    (limit : ℕ) (cs : List CheckpointInfo)
    → limit < length cs
    → Divided limit cs (to_remove limit cs) (drop (length cs - limit) (sort_by step_le cs))
unfolding to_remove slice_to_difference
to_remove-Divided limit cs more =
    let n = length cs - limit in
    let sorted = sort_by step_le cs in
    let whole = take-drop n sorted in
    let all_length = length-sort_by step_le cs in
    let left = length-drop n sorted in
    let both = sym (length-append (take n sorted) (drop n sorted)) ∙ ap length whole in
    let within : leb limit (length cs) ≡ true = ground (arith, more) in
    rw within (record {
      either = All-sort_by_back _ step_le cs (
          subst (λ z. All (λ c. Memᴰ c (take n sorted) ⊎ Memᴰ c (drop n sorted)) z) whole
            (All-map (take n sorted ++ drop n sorted)
              (λ c m. Mem-append c (take n sorted) (drop n sorted) m)
              (All-Mem (take n sorted ++ drop n sorted))));
      together = omega (arith, both, all_length);
      few = λ le. absurd (omega (arith, le, more));
      many = λ lt. omega (arith, left, all_length, more);
      oldest =
          All-map (take n sorted) (λ r below. All-map (drop n sorted) (λ k h. ground arith) below)
            (Sorted-split step_le n sorted
              (sort_by-Sorted step_le (λ x y z h k. ground arith) (λ x y h. ground arith) cs));
    })

-- Cleaning up divides the checkpoints that are listed into those chosen for removal and those kept:
-- every one is in one of the two; none is chosen if there are no more than the limit, and if there
-- are more, as many are kept as the limit says; none that is chosen has a greater step than one that
-- is kept; and the paths returned are those of the chosen ones that could be removed, in their
-- order.
pub cleanup_removes_oldest :
    (removes : String → Bool) (limit : ℕ) (entries : List Entry)
    → (chosen : List CheckpointInfo) × (kept : List CheckpointInfo) × Divided limit
        (list_checkpoints entries)
        chosen
        kept
      × (cleanup_old_checkpoints removes limit entries ≡ removable removes chosen)
unfolding cleanup_old_checkpoints
cleanup_removes_oldest removes limit entries =
    let cs = list_checkpoints entries in
    elim (Bool-cases (leb (length cs) limit)) [
      | inl t ↦
          let le : length cs ≤ limit = ground arith in
          (
            [],
            cs,
            record {
              either = All-map cs (λ c m. inr m) (All-Mem cs);
              together = omega arith;
              few = λ h. refl;
              many = λ lt. absurd (omega (arith, le, lt));
              oldest = tt;
            },
            rw (t, cleanup_old_checkpoints) refl,
          )
      | inr f ↦
          let lt : limit < length cs = ground arith in
          (
            to_remove limit cs,
            drop (length cs - limit) (sort_by step_le cs),
            to_remove-Divided limit cs lt,
            rw (f, cleanup_old_checkpoints) (remove_all-removable removes (to_remove limit cs)),
          )
    ]

abbrev Greatest : CheckpointInfo → List CheckpointInfo → Type 0
Greatest m cs = Memᴰ m cs × All (λ c. c.step ≤ m.step) cs

max_step-Greatest :
    (best : CheckpointInfo) (cs : List CheckpointInfo) → Greatest (max_step best cs) (best ∷ cs)
unfolding max_step
max_step-Greatest best [] = (Memᴰ.head refl, (omega arith, tt))
max_step-Greatest best (c ∷ cs) =
    compared (max_step-Greatest c cs) (max_step-Greatest best cs) (ltb best.step c.step) refl
  where
    skip :
        {x y z : CheckpointInfo} {zs : List CheckpointInfo} → Memᴰ x (y ∷ zs) → Memᴰ x (y ∷ z ∷ zs)
    skip (Memᴰ.head e) = Memᴰ.head e
    skip (Memᴰ.tail m) = Memᴰ.tail (Memᴰ.tail m)

    compared :
        Greatest (max_step c cs) (c ∷ cs)
        → Greatest (max_step best cs) (best ∷ cs)
        → (b : Bool) → ltb best.step c.step ≡ b
        → Greatest (max_step (if b then c else best) cs) (best ∷ c ∷ cs)
    compared (m, all_le) other true t =
        let above : best.step ≤ c.step = ground arith in
        (Memᴰ.tail m, (omega (arith, above, all_le.0), all_le))
    compared other (m, all_le) false f =
        let below : c.step ≤ best.step = ground arith in
        (skip m, (all_le.0, (omega (arith, below, all_le.0), all_le.1)))

latest_of-Greatest :
    (cs : List CheckpointInfo) (c : CheckpointInfo)
    → latest_of cs ≡ some c
    → Memᴰ c cs × All (λ x. x.step ≤ c.step) cs
latest_of-Greatest [] c h = cc h
latest_of-Greatest (x ∷ xs) c h =
    let same : max_step x xs ≡ c = cc h in
    subst (λ z. Greatest z (x ∷ xs)) same (max_step-Greatest x xs)

-- The latest checkpoint that is found is one of those listed, and none listed has a greater step.
pub find_latest_checkpoint-Greatest :
    (entries : List Entry) (c : CheckpointInfo)
    → find_latest_checkpoint entries ≡ some c
    → Memᴰ c (list_checkpoints entries) × All (λ x. x.step ≤ c.step) (list_checkpoints entries)
unfolding find_latest_checkpoint
find_latest_checkpoint-Greatest entries c h = latest_of-Greatest (list_checkpoints entries) c h
