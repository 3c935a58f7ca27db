-- ===== src/Environment/Resolver/Tallying.antt =====
-- What the loop of resolve counts, against what each candidate is judged to be.
use cyrene_yield.Common.{
  String, ◌≡◌, ◌≢◌, refl, sym, subst, ◌⊎◌, inl, inr, true, Option, List, [], ◌∷◌, ◌++◌, is_nil,
  concat, All, All-append, Bool-cases, ok, >>=-eq-ok,
}
use cyrene_yield.Environment.Contracts.{EnvironmentSpec, EnvironmentCandidate, HardwareRuntimeFacts}
use cyrene_yield.Environment.Resolver.{
  Match, is_compatible, is_unknown, is_blocked, verdict_of, checks, refused_of, unclear_of,
  match_candidate, Tally, add_verdict, tally,
}

module _ {A : Type 0} where
  append-is_nil : (xs ys : List A) → xs ++ ys ≡ [] → (xs ≡ []) × (ys ≡ [])
  append-is_nil [] ys h = (refl, h)
  append-is_nil (x ∷ xs) ys h = cc

  All-append_back : (P : A → Type 0) (xs ys : List A) → All P (xs ++ ys) → All P xs × All P ys
  All-append_back P [] ys h = (tt, h)
  All-append_back P (x ∷ xs) ys h = let (hx, hy) = All-append_back P xs ys h.1 in ((h.0, hx), hy)

  pub is_nil-eq : (xs : List A) → is_nil xs ≡ true → xs ≡ []
  is_nil-eq [] h = refl
  is_nil-eq (x ∷ xs) h = cc

module _ (spec : EnvironmentSpec) (facts : Option HardwareRuntimeFacts) where
  abbrev pub Compatible : EnvironmentCandidate → Type 0
  Compatible c = match_candidate spec facts c ≡ ok is_compatible

  abbrev pub Unclear : EnvironmentCandidate → Type 0
  Unclear c =
      (u : String) × (us : List String) × (match_candidate spec facts c ≡ ok (is_unknown (u ∷ us)))

  abbrev pub Refused : EnvironmentCandidate → Type 0
  Refused c = (bs : List String) × (match_candidate spec facts c ≡ ok (is_blocked bs))

  match_candidate_shape :
      (c : EnvironmentCandidate) (v : Match)
      → match_candidate spec facts c ≡ ok v
      → (bs : List String) × (us : List String) × (v ≡ verdict_of bs us)
  unfolding match_candidate
  match_candidate_shape c v h = elim (Bool-cases c.known_good) [
    | inl t ↦
        let (cs, e, r) =
          >>=-eq-ok (checks spec c facts) (λ cs. ok (verdict_of (refused_of cs) (unclear_of cs)))
            (rw (t, match_candidate) at h) in
        (refused_of cs, unclear_of cs, cc r)
    | inr f ↦
        let unproven = concat (concat "candidate " c.candidate_id) " is not known-good" in
        let e : ok (is_unknown (unproven ∷ [])) ≡ ok v = rw (f, match_candidate) at h in
        ([], unproven ∷ [], cc e)
  ]

  -- A reason makes a candidate unclear: there is one in the list.
  match_candidate_reason :
      (c : EnvironmentCandidate) (us : List String)
      → match_candidate spec facts c ≡ ok (is_unknown us)
      → us ≢ []
  match_candidate_reason c us h =
      let (bs, rs, e) = match_candidate_shape c (is_unknown us) h in reason bs rs e
    where
      reason : (bs rs : List String) → is_unknown us ≡ verdict_of bs rs → us ≢ []
      reason [] [] e = λ n. cc e
      reason [] (r ∷ rs) e = λ n. cc (e, n)
      reason (b ∷ bs) rs e = λ n. cc e

  add_verdict_back :
      (t : Tally) (c : EnvironmentCandidate) (v : Match)
      → (add_verdict t c v).unknown_reasons ≡ []
      → t.unknown_reasons ≡ []
  unfolding add_verdict
  add_verdict_back t c is_compatible h = h
  add_verdict_back t c (is_unknown us) h = (append-is_nil t.unknown_reasons us h).0
  add_verdict_back t c (is_blocked bs) h = h

  tally-unknown_back :
      (t t' : Tally) (cs : List EnvironmentCandidate)
      → tally spec facts t cs ≡ ok t'
      → t'.unknown_reasons ≡ []
      → t.unknown_reasons ≡ []
  unfolding tally
  tally-unknown_back t t' [] h e =
      let same : t ≡ t' = cc h in subst (λ z. z.unknown_reasons ≡ []) (sym same) e
  tally-unknown_back t t' (c ∷ cs) h e =
      let (v, judged, rest) =
        >>=-eq-ok (match_candidate spec facts c) (λ v. tally spec facts (add_verdict t c v) cs) h in
      add_verdict_back t c v (tally-unknown_back (add_verdict t c v) t' cs rest e)

  -- How a candidate stands to what the loop has counted, `Q` being what is known of all that match.
  abbrev pub Judged : (EnvironmentCandidate → Type 0) → Tally → EnvironmentCandidate → Type 0
  Judged Q t c = (Compatible c × Q c) ⊎ ((Unclear c × (t.unknown_reasons ≢ [])) ⊎ Refused c)

  module _ (Q : EnvironmentCandidate → Type 0) where
    verdict-Judged :
        (t t' : Tally) (c : EnvironmentCandidate) (v : Match)
        → match_candidate spec facts c ≡ ok v
        → (t'.unknown_reasons ≡ [] → (add_verdict t c v).unknown_reasons ≡ [])
        → All Q (add_verdict t c v).matches
        → All Q t.matches × Judged Q t' c
    unfolding add_verdict
    verdict-Judged t t' c is_compatible j back h =
        let (before, one) = All-append_back Q t.matches (c ∷ []) h in (before, inl (j, one.0))
    verdict-Judged t t' c (is_unknown []) j back h = absurd (match_candidate_reason c [] j refl)
    verdict-Judged t t' c (is_unknown (u ∷ us)) j back h = (
      h,
      inr (
          inl (
            (u, us, j),
            λ e.
                let none_left : u ∷ us ≡ [] =
                  (append-is_nil t.unknown_reasons (u ∷ us) (back e)).1 in
                cc none_left,
          )),
    )
    verdict-Judged t t' c (is_blocked bs) j back h = (h, inr (inr (bs, j)))

    pub tally-Judged :
        (t t' : Tally) (cs : List EnvironmentCandidate)
        → tally spec facts t cs ≡ ok t'
        → All Q t'.matches
        → All Q t.matches × All (Judged Q t') cs
    unfolding tally
    tally-Judged t t' [] h hs =
        let same : t ≡ t' = cc h in (subst (λ z. All Q z.matches) (sym same) hs, tt)
    tally-Judged t t' (c ∷ cs) h hs =
        let (v, judged, rest) =
          >>=-eq-ok (match_candidate spec facts c) (λ v. tally spec facts (add_verdict t c v) cs)
            h in
        let (after, others) = tally-Judged (add_verdict t c v) t' cs rest hs in
        let (before, one) =
          verdict-Judged t t' c v judged (tally-unknown_back (add_verdict t c v) t' cs rest)
            after in
        (before, (one, others))

    add_verdict-Compatible :
        (t : Tally) (c : EnvironmentCandidate) (v : Match)
        → match_candidate spec facts c ≡ ok v
        → Q c
        → All (λ x. Compatible x × Q x) t.matches
        → All (λ x. Compatible x × Q x) (add_verdict t c v).matches
    unfolding add_verdict
    add_verdict-Compatible t c is_compatible j q hs =
        All-append (λ x. Compatible x × Q x) t.matches (c ∷ []) hs ((j, q), tt)
    add_verdict-Compatible t c (is_unknown us) j q hs = hs
    add_verdict-Compatible t c (is_blocked bs) j q hs = hs

    pub tally-Compatible :
        (t t' : Tally) (cs : List EnvironmentCandidate)
        → tally spec facts t cs ≡ ok t'
        → All Q cs
        → All (λ x. Compatible x × Q x) t.matches
        → All (λ x. Compatible x × Q x) t'.matches
    unfolding tally
    tally-Compatible t t' [] h qs hs =
        let same : t ≡ t' = cc h in subst (λ z. All (λ x. Compatible x × Q x) z.matches) same hs
    tally-Compatible t t' (c ∷ cs) h qs hs =
        let (v, judged, rest) =
          >>=-eq-ok (match_candidate spec facts c) (λ v. tally spec facts (add_verdict t c v) cs)
            h in
        tally-Compatible (add_verdict t c v) t' cs rest qs.1
          (add_verdict-Compatible t c v judged qs.0 hs)
