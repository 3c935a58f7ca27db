-- ===== src/Environment/Versions/Joining.antt =====
-- What a comma does in a version constraint.
use cyrene_yield.Common.{
  codes-concat, codes, strip, lstrip, rstrip, ℕ, ◌≡◌, refl, sym, ap, ◌∙◌, subst, String, Bool, ◌&&◌,
  List, [], ◌∷◌, ◌++◌, concat, is_empty, nat_eq, eq_iff, Bool-cases, inl, inr, ok,
}
use cyrene_yield.Environment.Versions.{
  first_part, split_commas, Version, version, term_holds, terms_hold, satisfies,
}

codes-comma : (t : String) → codes (concat "," t) ≡ 44 ∷ codes t
unfolding codes concat
codes-comma t = codes-concat "," t

module _ (v : Version) where
  terms_hold-append :
      (xs ys : List (List ℕ)) → terms_hold v (xs ++ ys) ≡ terms_hold v xs && terms_hold v ys
  unfolding terms_hold
  terms_hold-append [] ys = refl
  terms_hold-append (x ∷ xs) ys = elim (Bool-cases (term_holds v (strip x))) [
    | inl t ↦ rw t (terms_hold-append xs ys)
    | inr f ↦ rw f refl
  ]

split_commas-first_part :
    (c : ℕ) (xs : List ℕ) (zs : List (List ℕ))
    → first_part (c ∷ []) (split_commas xs ++ zs) ≡ first_part (c ∷ []) (split_commas xs) ++ zs
unfolding split_commas
split_commas-first_part c [] zs = refl
split_commas-first_part c (x ∷ xs) zs = elim (Bool-cases (nat_eq x 44)) [
  | inl t ↦ rw t refl
  | inr f ↦ rw f (begun (split_commas xs))
]
  where
    begun :
        (ps : List (List ℕ))
        → first_part (c ∷ []) (first_part (x ∷ []) ps ++ zs)
          ≡ first_part (c ∷ []) (first_part (x ∷ []) ps) ++ zs
    begun [] = refl
    begun (p ∷ ps) = refl

split_commas_joined :
    (xs ys : List ℕ) → split_commas (xs ++ 44 ∷ ys) ≡ split_commas xs ++ split_commas ys
unfolding split_commas
split_commas_joined [] ys = refl
split_commas_joined (c ∷ xs) ys = elim (Bool-cases (nat_eq c 44)) [
  | inl t ↦ rw t (ap (λ z. [] ∷ z) (split_commas_joined xs ys))
  | inr f ↦ rw f (
      ap (first_part (c ∷ [])) (split_commas_joined xs ys)
      ∙ split_commas-first_part c xs (split_commas ys))
]

-- The empty constraint asks for nothing.
satisfies_empty :
    (actual : String) (v : Version)
    → satisfies actual "" ≡ ok (terms_hold v (split_commas (codes "")))
unfolding satisfies terms_hold term_holds split_commas codes rstrip lstrip
satisfies_empty actual v = refl

satisfies_known :
    (actual constraint : String) (v : Version)
    → version actual ≡ ok v
    → satisfies actual constraint ≡ ok (terms_hold v (split_commas (codes constraint)))
unfolding satisfies
satisfies_known actual constraint v h = elim (Bool-cases (is_empty constraint)) [
  | inl t ↦
      let none_asked : "" ≡ constraint = sym ((eq_iff constraint "").0 t) in
      subst (λ z. satisfies actual z ≡ ok (terms_hold v (split_commas (codes z)))) none_asked
        (satisfies_empty actual v)
  | inr f ↦ rw f (rw h refl)
]

-- Of a version that can be read, a constraint that joins two by a comma asks for both: it holds exactly if
-- each of them does, whatever terms, spaces and empty parts they have.
pub satisfies_joined :
    (actual a b : String) (v : Version) (p q : Bool)
    → version actual ≡ ok v
    → satisfies actual a ≡ ok p
    → satisfies actual b ≡ ok q
    → satisfies actual (concat a (concat "," b)) ≡ ok (p && q)
satisfies_joined actual a b v p q h ha hb =
    let va : ok (terms_hold v (split_commas (codes a))) ≡ ok p =
      sym (satisfies_known actual a v h) ∙ ha in
    let vb : ok (terms_hold v (split_commas (codes b))) ≡ ok q =
      sym (satisfies_known actual b v h) ∙ hb in
    let one : terms_hold v (split_commas (codes a)) ≡ p = cc va in
    let other : terms_hold v (split_commas (codes b)) ≡ q = cc vb in
    satisfies_known actual (concat a (concat "," b)) v h
    ∙ ap (λ z. ok (terms_hold v z))
        (ap split_commas (codes-concat a (concat "," b) ∙ ap (λ z. codes a ++ z) (codes-comma b))
          ∙ split_commas_joined (codes a) (codes b))
    ∙ ap ok (
        terms_hold-append v (split_commas (codes a)) (split_commas (codes b))
        ∙ rw (one, other) refl)
