-- ===== src/Environment/Resolver/Locks.antt =====
-- The digest of a lock that the resolver makes.
use cyrene_yield.Common.{
  codes, is_digest, after_prefix, String, ◌≡◌, sym, ap, ◌∙◌, subst, true, false, not, some, ◌==◌,
  arith, eq_iff, is_empty, Bool-cases, inl, inr, Result, ok, ◌>>◌, >>=-eq-ok, raise_if,
}
use cyrene_yield.Values.{Fields}
use cyrene_yield.Environment.Versions.{EnvironmentError, digest_mismatch}
use cyrene_yield.Environment.Contracts.{
  EnvironmentLock, EnvironmentCandidate, mapping, check_digest, computed_digest,
  check_environment_digest, new_lock, with_digest, to_lock, candidate_lock, identity_payload,
}
use cyrene_yield.Environment.Resolver.{lock_of}

is_digest-not_empty : (x : String) → is_digest x ≡ true → is_empty x ≡ false
unfolding is_digest codes after_prefix
is_digest-not_empty x h = elim (Bool-cases (is_empty x)) [
  | inl t ↦
      let nothing : x ≡ "" = (eq_iff x "").0 t in
      let no_digest : is_digest "" ≡ true = subst (λ z. is_digest z ≡ true) nothing h in
      cc no_digest
  | inr f ↦ f
]

module _ (digest_of : Fields → String) where
  pub check_environment_digest-ok :
      (l : EnvironmentLock)
      → is_empty l.environment_digest ≡ false
      → check_environment_digest digest_of l ≡ ok tt
      → computed_digest digest_of l ≡ l.environment_digest
  unfolding check_environment_digest
  check_environment_digest-ok l given h =
      let (u, e, r) =
        >>=-eq-ok (check_digest (some l.environment_digest))
          (λ u.
            raise_if (not (l.environment_digest == computed_digest digest_of l)) digest_mismatch)
          (rw (given, check_environment_digest) at h) in
      ground (arith, eq_iff l.environment_digest (computed_digest digest_of l))

  pub new_lock-ok :
      (given l : EnvironmentLock)
      → new_lock digest_of given ≡ ok l
      → (check_environment_digest digest_of l ≡ ok tt)
        × (l ≡ record given { framework_versions = mapping given.framework_versions })
        × (check_digest given.dependency_lock_digest ≡ ok tt)
  unfolding new_lock
  new_lock-ok given l h =
      let made : EnvironmentLock = record given {
        framework_versions = mapping given.framework_versions;
      } in
      let last : Result EnvironmentError EnvironmentLock = ok made in
      let rest = check_environment_digest digest_of made >> last in
      let (a, ha, h₁) =
        >>=-eq-ok (check_digest made.base_image_digest)
          (λ x.
            check_digest made.dependency_lock_digest
            >> (check_digest made.custom_environment_digest >> rest))
          h in
      let (b, hb, h₂) =
        >>=-eq-ok (check_digest made.dependency_lock_digest)
          (λ x. check_digest made.custom_environment_digest >> rest) h₁ in
      let (c, hc, h₃) = >>=-eq-ok (check_digest made.custom_environment_digest) (λ x. rest) h₂ in
      let (d, hd, h₄) = >>=-eq-ok (check_environment_digest digest_of made) (λ x. last) h₃ in
      let same : made ≡ l = cc h₄ in
      (subst (λ z. check_environment_digest digest_of z ≡ ok tt) same hd, sym same, hb)

  -- If every digest computed has the form of one, a lock that the resolver makes of a candidate is
  -- identified: its digest is the one computed from its own content, it has the time of creation,
  -- and its profile, its versions of Python, of the engine and of the runtime, its accelerator, its
  -- driver, its provenance and its digests are those of the candidate; the digest of the dependency
  -- lock, where it is given, has the form of a digest.
  pub lock_of-Identified :
      (c : EnvironmentCandidate) (now : String) (l : EnvironmentLock)
      → ((payload : Fields) → is_digest (digest_of payload) ≡ true)
      → lock_of digest_of c now ≡ ok l
      → (computed_digest digest_of l ≡ l.environment_digest)
        × (l.created_at ≡ some now)
        × (l.runtime_profile ≡ c.runtime_profile)
        × (l.python_version ≡ c.python_version)
        × (l.engine ≡ c.engine)
        × (l.engine_version ≡ c.engine_version)
        × (l.runtime_version ≡ c.runtime_version)
        × (l.accelerator_runtime ≡ c.accelerator_runtime)
        × (l.minimum_driver ≡ c.minimum_driver)
        × (l.base_image_digest ≡ c.base_image_digest)
        × (l.dependency_lock_digest ≡ c.dependency_lock_digest)
        × (l.custom_environment_digest ≡ c.custom_environment_digest)
        × (l.resolution_provenance ≡ c.resolution_provenance)
        × (check_digest c.dependency_lock_digest ≡ ok tt)
  unfolding lock_of to_lock with_digest computed_digest
  lock_of-Identified c now l formed h =
      let (first, made, rest) =
        >>=-eq-ok (to_lock digest_of c) (λ l. with_digest digest_of l now) h in
      let (verified, e, dependency) = new_lock-ok (candidate_lock c) first made in
      let (checked, e', again) =
        new_lock-ok
          (record first {
            environment_digest = computed_digest digest_of first;
            created_at = some now;
          })
          l rest in
      let digest : l.environment_digest ≡ computed_digest digest_of first =
        ap (λ z. z.environment_digest) e' in
      let given : is_empty l.environment_digest ≡ false =
        rw digest (
          is_digest-not_empty (computed_digest digest_of first)
            (formed (identity_payload first))) in
      (
        check_environment_digest-ok l given checked,
        ap (λ z. z.created_at) e',
        ap (λ z. z.runtime_profile) e' ∙ ap (λ z. z.runtime_profile) e,
        ap (λ z. z.python_version) e' ∙ ap (λ z. z.python_version) e,
        ap (λ z. z.engine) e' ∙ ap (λ z. z.engine) e,
        ap (λ z. z.engine_version) e' ∙ ap (λ z. z.engine_version) e,
        ap (λ z. z.runtime_version) e' ∙ ap (λ z. z.runtime_version) e,
        ap (λ z. z.accelerator_runtime) e' ∙ ap (λ z. z.accelerator_runtime) e,
        ap (λ z. z.minimum_driver) e' ∙ ap (λ z. z.minimum_driver) e,
        ap (λ z. z.base_image_digest) e' ∙ ap (λ z. z.base_image_digest) e,
        ap (λ z. z.dependency_lock_digest) e' ∙ ap (λ z. z.dependency_lock_digest) e,
        ap (λ z. z.custom_environment_digest) e' ∙ ap (λ z. z.custom_environment_digest) e,
        ap (λ z. z.resolution_provenance) e' ∙ ap (λ z. z.resolution_provenance) e,
        dependency,
      )
