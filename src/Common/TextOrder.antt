-- ===== src/Common/TextOrder.antt =====
-- The order of texts, and the first of a sorted list.
use Prim.Native.Nat.{ℕ, Ordering, compare as compare_ℕ}
use Prim.Native.Char.{Char, code}
use Prim.Native.String.compare
use Prim.Native.String.{String, ◌∷◌, compare, then}
use mathlib.Core.Path.{◌≡◌, refl, sym, ◌∙◌, ap}
use mathlib.Core.Logic.{inl, inr}
use mathlib.Core.List.{List, [], ◌∷◌}
use mathlib.Core.Bool.{Bool, true, false}
use native.Mathlib.Omega.{arith}
use cyrene_yield.Common.Tests.{Bool-cases}
use cyrene_yield.Common.Lists.{All}
use cyrene_yield.Common.Sorting.{not_gt, text_le, insert_by, sort_by, All-insert_by}

then_trans :
    (x y z : ℕ) (o p q : Ordering)
    → (not_gt o ≡ true → not_gt p ≡ true → not_gt q ≡ true)
    → not_gt (then (compare_ℕ x y) o) ≡ true
    → not_gt (then (compare_ℕ y z) p) ≡ true
    → not_gt (then (compare_ℕ x z) q) ≡ true
then_trans x y z o p q later h k = ground arith

then_total :
    (x y : ℕ) (o p : Ordering)
    → (not_gt o ≡ false → not_gt p ≡ true)
    → not_gt (then (compare_ℕ x y) o) ≡ false
    → not_gt (then (compare_ℕ y x) p) ≡ true
then_total x y o p later h = ground arith

cons_le :
    (c d : Char) (s t : String)
    → text_le (c ∷ s) (d ∷ t) ≡ not_gt (then (compare_ℕ (code c) (code d)) (compare s t))
cons_le c d s t = ap not_gt (λ i. compare.cons-cons c d s t i)

pub text_le_trans : (a b c : String) → text_le a b ≡ true → text_le b c ≡ true → text_le a c ≡ true
text_le_trans String.[] b String.[] h k = refl
text_le_trans String.[] b (String.◌∷◌ e u) h k = ap not_gt (λ i. compare.nil-cons e u i)
text_le_trans (String.◌∷◌ c s) String.[] e h k =
    let no : text_le (c ∷ s) String.[] ≡ false = ap not_gt (λ i. compare.cons-nil c s i) in cc
text_le_trans (String.◌∷◌ c s) (String.◌∷◌ d t) String.[] h k =
    let no : text_le (d ∷ t) String.[] ≡ false = ap not_gt (λ i. compare.cons-nil d t i) in cc
text_le_trans (String.◌∷◌ c s) (String.◌∷◌ d t) (String.◌∷◌ e u) h k =
    cons_le c e s u
    ∙ then_trans (code c) (code d) (code e) (compare s t) (compare t u) (compare s u)
        (text_le_trans s t u) (sym (cons_le c d s t) ∙ h) (sym (cons_le d e t u) ∙ k)

pub text_le_total : (a b : String) → text_le a b ≡ false → text_le b a ≡ true
text_le_total String.[] String.[] h = refl
text_le_total String.[] (String.◌∷◌ d t) h =
    let yes : text_le String.[] (d ∷ t) ≡ true = ap not_gt (λ i. compare.nil-cons d t i) in cc
text_le_total (String.◌∷◌ c s) String.[] h = ap not_gt (λ i. compare.nil-cons c s i)
text_le_total (String.◌∷◌ c s) (String.◌∷◌ d t) h =
    cons_le d c t s
    ∙ then_total (code c) (code d) (compare s t) (compare t s) (text_le_total s t)
        (sym (cons_le c d s t) ∙ h)

-- The first of a list is not above any other.
abbrev pub Least {ℓ} : {A : Type ℓ} → (A → A → Bool) → List A → Type 0
Least le [] = Unit
Least le (x ∷ xs) = All (λ y. le x y ≡ true) xs

-- Each before all that come after it.
abbrev pub Sorted {ℓ} : {A : Type ℓ} → (A → A → Bool) → List A → Type 0
Sorted le [] = Unit
Sorted le (x ∷ xs) = All (λ y. le x y ≡ true) xs × Sorted le xs

module _ {ℓ} {A : Type ℓ} (le : A → A → Bool)
    (trans : (x y z : A) → le x y ≡ true → le y z ≡ true → le x z ≡ true)
    (total : (x y : A) → le x y ≡ false → le y x ≡ true) where
  All-above :
      (x y : A) (ys : List A)
      → le x y ≡ true
      → All (λ z. le y z ≡ true) ys
      → All (λ z. le x z ≡ true) ys
  All-above x y [] h hs = tt
  All-above x y (z ∷ zs) h hs = (trans x y z h hs.0, All-above x y zs h hs.1)

  insert_by-Least : (x : A) (ys : List A) → Least le ys → Least le (insert_by le x ys)
  unfolding insert_by
  insert_by-Least x [] h = tt
  insert_by-Least x (y ∷ ys) h = elim (Bool-cases (le x y)) [
    | inl t ↦ rw t (t, All-above x y ys t h)
    | inr f ↦ rw f (All-insert_by (λ z. le y z ≡ true) le x ys (total x y f) h)
  ]

  pub sort_by-Least : (xs : List A) → Least le (sort_by le xs)
  unfolding sort_by
  sort_by-Least [] = tt
  sort_by-Least (x ∷ xs) = insert_by-Least x (sort_by le xs) (sort_by-Least xs)

  insert_by-Sorted : (x : A) (ys : List A) → Sorted le ys → Sorted le (insert_by le x ys)
  unfolding insert_by
  insert_by-Sorted x [] h = (tt, tt)
  insert_by-Sorted x (y ∷ ys) h = elim (Bool-cases (le x y)) [
    | inl t ↦ rw t ((t, All-above x y ys t h.0), h)
    | inr f ↦
        rw f
          (All-insert_by (λ z. le y z ≡ true) le x ys (total x y f) h.0, insert_by-Sorted x ys h.1)
  ]

  pub sort_by-Sorted : (xs : List A) → Sorted le (sort_by le xs)
  unfolding sort_by
  sort_by-Sorted [] = tt
  sort_by-Sorted (x ∷ xs) = insert_by-Sorted x (sort_by le xs) (sort_by-Sorted xs)
