-- ===== src/Environment/Resolver/Choice.antt =====
-- What EnvironmentResolver.resolve answers, against what each candidate is judged to be.
use mathlib.Core.List.{Memᴰ}
use cyrene_yield.Common.{
  All-map, All-Mem, String, ◌≡◌, ◌≢◌, refl, sym, subst, ◌⊎◌, inl, inr, true, Option, none, some,
  List, [], ◌∷◌, is_nil, All, Bool-cases, ok, >>=-eq-ok, text_le, text_le_trans, text_le_total,
  Least, sort_by, sort_by-Least, All-sort_by, All-sort_by_back, if◌then◌else◌,
}
use cyrene_yield.Values.{Fields}
use cyrene_yield.Environment.Contracts.{
  EnvironmentSpec, EnvironmentCandidate, EnvironmentLock, HardwareRuntimeFacts, ResolutionStatus,
  Resolution,
}
use cyrene_yield.Environment.Resolver.{
  is_compatible, match_candidate, Tally, tally, no_tally, candidate_le, lock_of, selected, resolve,
}
use cyrene_yield.Environment.Resolver.Tallying.{
  is_nil-eq, Compatible, Refused, Judged, tally-Judged, tally-Compatible,
}

module _ (digest_of : Fields → String) (spec : EnvironmentSpec)
    (facts : Option HardwareRuntimeFacts) (candidates : List EnvironmentCandidate)
    (now : String) where
  abbrev pub NotAbove : EnvironmentCandidate → EnvironmentCandidate → Type 0
  NotAbove c d =
      (match_candidate spec facts d ≢ ok is_compatible)
      ⊎ (text_le c.candidate_id d.candidate_id ≡ true)

  -- What a status and a lock say of the candidates.
  abbrev pub Answers : ResolutionStatus → Option EnvironmentLock → Type 0
  Answers ResolutionStatus.compatible lock =
      (c : EnvironmentCandidate) × (l : EnvironmentLock) × Memᴰ c candidates
      × Compatible spec facts c
      × (lock_of digest_of c now ≡ ok l)
      × (lock ≡ some l)
      × All (NotAbove c) candidates
  Answers ResolutionStatus.unknown lock =
      (lock ≡ none) × All (λ d. match_candidate spec facts d ≢ ok is_compatible) candidates
  Answers ResolutionStatus.blocked lock =
      (lock ≡ none) × (candidates ≢ []) × All (Refused spec facts) candidates

  candidate_le-Least :
      (cs : List EnvironmentCandidate) → Least candidate_le (sort_by candidate_le cs)
  candidate_le-Least cs =
      sort_by-Least candidate_le
        (λ x y z. text_le_trans x.candidate_id y.candidate_id z.candidate_id)
        (λ x y. text_le_total x.candidate_id y.candidate_id) cs

  candidate_le_refl : (c : EnvironmentCandidate) → candidate_le c c ≡ true
  candidate_le_refl c = elim (Bool-cases (candidate_le c c)) [
    | inl t ↦ t
    | inr f ↦ text_le_total c.candidate_id c.candidate_id f
  ]

  chosen-Answers :
      (c : EnvironmentCandidate) (cs : List EnvironmentCandidate) (t : Tally) (r : Resolution)
      → All (λ x. Compatible spec facts x × Memᴰ x candidates) (c ∷ cs)
      → All (Judged spec facts (λ x. candidate_le c x ≡ true) t) candidates
      → selected digest_of (c ∷ cs) candidates t now ≡ ok r
      → Answers r.status r.lock
  unfolding selected
  chosen-Answers c cs t r sound judged h =
      let (l, made, e) =
        >>=-eq-ok (lock_of digest_of c now)
          (λ l. ok (record { status = ResolutionStatus.compatible; lock = some l; reasons = [] }))
          h in
      let result : Resolution = record {
        status = ResolutionStatus.compatible;
        lock = some l;
        reasons = [];
      } in
      let same : result ≡ r = cc e in
      subst (λ z. Answers z.status z.lock) same
        (
          c,
          l,
          sound.0.1,
          sound.0.0,
          made,
          refl,
          All-map candidates
              (λ d j. elim j [
                | inl (comp, le) ↦ inr le
                | inr (inl ((u, us, e), ne)) ↦ inl (λ comp. cc (e, comp))
                | inr (inr (bs, e)) ↦ inl (λ comp. cc (e, comp))
              ])
              judged,
        )

module _ (digest_of : Fields → String) (spec : EnvironmentSpec)
    (facts : Option HardwareRuntimeFacts) (now : String) where
  unmatched :
      (t : Tally) (d : EnvironmentCandidate)
      → Judged spec facts (λ x. ⊥) t d
      → match_candidate spec facts d ≢ ok is_compatible
  unmatched t d (inl (comp, never)) = absurd never
  unmatched t d (inr (inl ((u, us, e), ne))) = λ comp. cc (e, comp)
  unmatched t d (inr (inr (bs, e))) = λ comp. cc (e, comp)

  Judged-Refused :
      (t : Tally) (d : EnvironmentCandidate)
      → t.unknown_reasons ≡ []
      → Judged spec facts (λ x. ⊥) t d
      → Refused spec facts d
  Judged-Refused t d none_unclear (inl (comp, never)) = absurd never
  Judged-Refused t d none_unclear (inr (inl (u, ne))) = absurd (ne none_unclear)
  Judged-Refused t d none_unclear (inr (inr refused)) = refused

  unchosen-Answers :
      (candidates : List EnvironmentCandidate) (t : Tally) (r : Resolution)
      → All (Judged spec facts (λ x. ⊥) t) candidates
      → selected digest_of [] candidates t now ≡ ok r
      → Answers digest_of spec facts candidates now r.status r.lock
  unfolding selected
  unchosen-Answers [] t r judged h =
      let empty : String = "environment catalog is empty" in
      let result : Resolution = record {
        status = ResolutionStatus.unknown;
        lock = none;
        reasons = if is_nil t.unknown_reasons then empty ∷ [] else t.unknown_reasons;
      } in
      let same : result ≡ r = cc h in
      subst (λ z. Answers digest_of spec facts [] now z.status z.lock) same (refl, tt)
  unchosen-Answers (c ∷ cs) t r judged h = elim (Bool-cases (is_nil t.unknown_reasons)) [
    | inl n ↦
        let result : Resolution = record {
          status = ResolutionStatus.blocked;
          lock = none;
          reasons = t.blocked_reasons;
        } in
        let e : ok result ≡ ok r = rw (n, selected) at h in
        let same : result ≡ r = cc e in
        subst (λ z. Answers digest_of spec facts (c ∷ cs) now z.status z.lock) same
          (
            refl,
            λ x. cc x,
            All-map (c ∷ cs) (λ d. Judged-Refused t d (is_nil-eq t.unknown_reasons n)) judged,
          )
    | inr f ↦
        let result : Resolution = record {
          status = ResolutionStatus.unknown;
          lock = none;
          reasons = t.unknown_reasons;
        } in
        let e : ok result ≡ ok r = rw (f, selected) at h in
        let same : result ≡ r = cc e in
        subst (λ z. Answers digest_of spec facts (c ∷ cs) now z.status z.lock) same
          (refl, All-map (c ∷ cs) (unmatched t) judged)
  ]

  -- Of what the resolver answers: `compatible` comes with the lock of a candidate that matches, and no
  -- candidate that matches has a smaller identity; `unknown` comes without a lock, and no candidate matches;
  -- `blocked` comes without a lock, there are candidates, and each is refused.
  pub resolve-Answers :
      (candidates : List EnvironmentCandidate) (r : Resolution)
      → resolve digest_of spec candidates facts now ≡ ok r
      → Answers digest_of spec facts candidates now r.status r.lock
  unfolding resolve
  resolve-Answers candidates r h =
      let (t, counted, rest) =
        >>=-eq-ok (tally spec facts no_tally candidates)
          (λ t. selected digest_of (sort_by candidate_le t.matches) candidates t now) h in
      let sound = All-sort_by _ candidate_le t.matches (
        tally-Compatible spec facts (λ x. Memᴰ x candidates) no_tally t candidates counted
          (All-Mem candidates) tt) in
      by_choice t counted (sort_by candidate_le t.matches) refl sound rest
    where
      by_choice :
          (t : Tally)
          → tally spec facts no_tally candidates ≡ ok t
          → (ms : List EnvironmentCandidate) → sort_by candidate_le t.matches ≡ ms
          → All (λ x. Compatible spec facts x × Memᴰ x candidates) ms
          → selected digest_of ms candidates t now ≡ ok r
          → Answers digest_of spec facts candidates now r.status r.lock
      by_choice t counted [] e sound chosen =
          unchosen-Answers candidates t r
            (tally-Judged spec facts (λ x. ⊥) no_tally t candidates counted
              (All-sort_by_back (λ x. ⊥) candidate_le t.matches
                (subst (λ z. All (λ x. ⊥) z) (sym e) tt))).1
            chosen
      by_choice t counted (m ∷ ms) e sound chosen =
          let Below : EnvironmentCandidate → Type 0 = λ x. candidate_le m x ≡ true in
          let least : Least candidate_le (m ∷ ms) =
            subst (Least candidate_le) e
              (candidate_le-Least digest_of spec facts candidates now t.matches) in
          let first = candidate_le_refl digest_of spec facts candidates now m in
          chosen-Answers digest_of spec facts candidates now m ms t r sound
            (tally-Judged spec facts Below no_tally t candidates counted (
              All-sort_by_back Below candidate_le t.matches
                (subst (λ z. All Below z) (sym e) (first, least)))).1
            chosen
