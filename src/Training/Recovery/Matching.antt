-- ===== src/Training/Recovery/Matching.antt =====
-- What a restart recovers of a run agrees with its plan, which cannot change.
use cyrene_yield.Common.{
  String, ◌≡◌, ◌≢◌, refl, sym, ap, subst, ◌∙◌, Bool, true, false, not, ◌&&◌, Option, none, some,
  List, [], ◌∷◌, ◌==◌, same_option, is_nil, is_empty, all, All, arith, eq_iff, Result, ok, err,
  ◌>>=◌, ◌>>◌, raise_if, raise_if-ok, >>=-eq-ok,
}
use cyrene_yield.Values.{Fields, get_field}
use cyrene_yield.Lifecycle.Status.{Error}
use cyrene_yield.Lifecycle.Step.{PlanStep}
use cyrene_yield.Lifecycle.Plan.{ExecutionPlan}
use cyrene_yield.Lifecycle.Run.{ProductRun}
use cyrene_yield.Lifecycle.Store.{Store, load_run, load_plan}
use cyrene_yield.Environment.Versions.{EnvironmentError}
use cyrene_yield.Environment.Contracts.{EnvironmentLock, computed_digest, new_lock}
use cyrene_yield.Environment.Resolver.Locks.{check_environment_digest-ok, new_lock-ok}
use cyrene_yield.Environment.Documents.{DocumentError, from_dict, as_invalid, lock_fields}
use cyrene_yield.Training.Recovery.{
  RecoveryError, other_intent, other_environment, Texts, stored_in, training_spec_metadata,
  environment_lock_metadata, metadata_mapping, read_lock, is_environment_of, recover_lock,
  read_training_spec, payload_ref, resolved_intent, recover_spec,
}

stored_in-ok : {A : Type 0} (r : Result Error A) {a : A} → stored_in r ≡ ok a → r ≡ ok a
stored_in-ok (err e) h = cc
stored_in-ok (ok a) h = cc h

same_steps :
    (digest : String) (steps : List PlanStep)
    → all (λ (s : PlanStep). same_option s.environment_identity (some digest)) steps ≡ true
    → All (λ (s : PlanStep). s.environment_identity ≡ some digest) steps
same_steps digest [] h = tt
same_steps digest (s ∷ steps) h =
    (by_identity s.environment_identity (ground arith), same_steps digest steps (ground arith))
  where
    by_identity : (o : Option String) → same_option o (some digest) ≡ true → o ≡ some digest
    by_identity none e = cc
    by_identity (some d) e = let same : d ≡ digest = (eq_iff d digest).0 e in cc same

not_nil : (steps : List PlanStep) → is_nil steps ≡ false → steps ≢ []
not_nil [] h e = cc h
not_nil (s ∷ steps) h e = cc e

and_true : (a b : Bool) → not (not a && b) ≡ false → (a ≡ false) × (b ≡ true)
and_true true b h = cc
and_true false true h = (refl, refl)
and_true false false h = cc

equal_texts : (a b : String) → not (a == b) ≡ false → a ≡ b
equal_texts a b h = ground (arith, eq_iff a b)

module _ {Spec : Type 0} (t : Texts Spec) where
  -- The lock is of the environment that every step of the plan names, and its digest is that of its content.
  pub record LockMatches (lock : EnvironmentLock) (plan : ExecutionPlan) : Type 0 where
    pub steps : plan.steps ≢ []
    pub environment :
        All (λ (s : PlanStep). s.environment_identity ≡ some lock.environment_digest) plan.steps
    pub content :
        is_empty lock.environment_digest ≡ false
        → computed_digest t.lock_digest_of lock ≡ lock.environment_digest

  -- The plan of a stored run.
  abbrev pub PlanOf : Store → String → ExecutionPlan → Type 0
  PlanOf s run_id plan =
      (run : ProductRun) × (load_run s run_id ≡ ok run) × (load_plan s run.plan_id ≡ ok plan)

  read_lock-content :
      (payload : Fields) (lock : EnvironmentLock)
      → read_lock t (from_dict t.str t.lock_digest_of payload) ≡ ok lock
      → is_empty lock.environment_digest ≡ false
      → computed_digest t.lock_digest_of lock ≡ lock.environment_digest
  unfolding from_dict
  read_lock-content payload lock h resolved =
      by_document (from_dict t.str t.lock_digest_of payload) refl h
    where
      by_constructor :
          (given : EnvironmentLock) (r : Result EnvironmentError EnvironmentLock)
          → new_lock t.lock_digest_of given ≡ r
          → as_invalid r ≡ ok lock
          → computed_digest t.lock_digest_of lock ≡ lock.environment_digest
      by_constructor given (err e) m k = cc
      by_constructor given (ok l) m k =
          let same : l ≡ lock = cc k in
          let (checked, kept, dependency) =
            new_lock-ok t.lock_digest_of given lock (m ∙ ap ok same) in
          check_environment_digest-ok t.lock_digest_of lock resolved checked

      by_document :
          (r : Result DocumentError EnvironmentLock)
          → from_dict t.str t.lock_digest_of payload ≡ r
          → read_lock t r ≡ ok lock
          → computed_digest t.lock_digest_of lock ≡ lock.environment_digest
      by_document (err e) m k = cc
      by_document (ok l) m k =
          let (given, e, n) =
            >>=-eq-ok (lock_fields t.str payload)
              (λ given. as_invalid (new_lock t.lock_digest_of given)) m in
          let same : l ≡ lock = cc k in
          by_constructor given (new_lock t.lock_digest_of given) refl (n ∙ ap ok same)

  recover_lock-Matches :
      (s : Store) (run_id : String) (lock : EnvironmentLock)
      → recover_lock t s run_id ≡ ok lock
      → (plan : ExecutionPlan) × PlanOf s run_id plan × LockMatches lock plan
  unfolding recover_lock
  recover_lock-Matches s run_id lock h =
      let checked : ExecutionPlan → EnvironmentLock → Result RecoveryError EnvironmentLock =
        λ plan lock. raise_if (not (is_environment_of t lock plan)) other_environment >> ok lock in
      let (run, e, h₁) =
        >>=-eq-ok (stored_in (load_run s run_id))
          (λ (run : ProductRun). do
            payload ← metadata_mapping t run.metadata environment_lock_metadata
            lock ← read_lock t (from_dict t.str t.lock_digest_of payload)
            plan ← stored_in (load_plan s run.plan_id)
            checked plan lock)
          h in
      let (payload, e', h₂) =
        >>=-eq-ok (metadata_mapping t run.metadata environment_lock_metadata)
          (λ payload. do
            lock ← read_lock t (from_dict t.str t.lock_digest_of payload)
            plan ← stored_in (load_plan s run.plan_id)
            checked plan lock)
          h₁ in
      let (l, e₃, h₃) =
        >>=-eq-ok (read_lock t (from_dict t.str t.lock_digest_of payload))
          (λ lock. stored_in (load_plan s run.plan_id) >>= λ plan. checked plan lock) h₂ in
      let (plan, e₄, h₄) =
        >>=-eq-ok (stored_in (load_plan s run.plan_id)) (λ plan. checked plan l) h₃ in
      let (environment, h₅) =
        raise_if-ok (not (is_environment_of t l plan)) other_environment (ok l) h₄ in
      let same : l ≡ lock = cc h₅ in
      let (filled, equal) =
        and_true (is_nil plan.steps)
          (all (λ (s : PlanStep). same_option s.environment_identity (some l.environment_digest))
            plan.steps)
          environment in
      subst (λ z. (plan : ExecutionPlan) × PlanOf s run_id plan × LockMatches z plan) same
        (
          plan,
          (run, stored_in-ok (load_run s run_id) e, stored_in-ok (load_plan s run.plan_id) e₄),
          record {
            steps = not_nil plan.steps filled;
            environment = same_steps l.environment_digest plan.steps equal;
            content = read_lock-content payload l e₃;
          },
        )

  recover_spec-Matches :
      (s : Store) (run_id : String) (spec : Spec)
      → recover_spec t s run_id ≡ ok spec
      → (plan : ExecutionPlan) × PlanOf s run_id plan
        × (payload_ref t spec ≡ resolved_intent t (get_field "resolved_intent" plan.metadata))
  unfolding recover_spec
  recover_spec-Matches s run_id spec h =
      let intent : ExecutionPlan → String =
        λ (plan : ExecutionPlan). resolved_intent t (get_field "resolved_intent" plan.metadata) in
      let checked : ExecutionPlan → Spec → Result RecoveryError Spec =
        λ plan spec. raise_if (not (payload_ref t spec == intent plan)) other_intent >> ok spec in
      let (run, e, h₁) =
        >>=-eq-ok (stored_in (load_run s run_id))
          (λ (run : ProductRun). do
            payload ← metadata_mapping t run.metadata training_spec_metadata
            spec ← read_training_spec t (t.read_spec payload)
            plan ← stored_in (load_plan s run.plan_id)
            checked plan spec)
          h in
      let (payload, e', h₂) =
        >>=-eq-ok (metadata_mapping t run.metadata training_spec_metadata)
          (λ payload. do
            spec ← read_training_spec t (t.read_spec payload)
            plan ← stored_in (load_plan s run.plan_id)
            checked plan spec)
          h₁ in
      let (x, e₃, h₃) =
        >>=-eq-ok (read_training_spec t (t.read_spec payload))
          (λ spec. stored_in (load_plan s run.plan_id) >>= λ plan. checked plan spec) h₂ in
      let (plan, e₄, h₄) =
        >>=-eq-ok (stored_in (load_plan s run.plan_id)) (λ plan. checked plan x) h₃ in
      let (matches, h₅) =
        raise_if-ok (not (payload_ref t x == intent plan)) other_intent (ok x) h₄ in
      let same : x ≡ spec = cc h₅ in
      (
        plan,
        (run, stored_in-ok (load_run s run_id) e, stored_in-ok (load_plan s run.plan_id) e₄),
        ap (payload_ref t) (sym same) ∙ equal_texts (payload_ref t x) (intent plan) matches,
      )

  PlanOf-unique :
      (s : Store) (run_id : String) (p q : ExecutionPlan)
      → PlanOf s run_id p
      → PlanOf s run_id q
      → p ≡ q
  PlanOf-unique s run_id p q (r, l, m) (r', l', m') =
      let runs : ◌≡◌ {A = Result Error ProductRun} (ok r) (ok r') = sym l ∙ l' in
      let same : r ≡ r' = cc runs in
      let plans : ◌≡◌ {A = Result Error ExecutionPlan} (ok p) (ok q) =
        sym m ∙ ap (λ (z : ProductRun). load_plan s z.plan_id) same ∙ m' in
      cc plans

  -- A lock and a spec that are recovered from the store after a restart are those that the run's plan
  -- names, whatever was written over them: the plan has steps, the environment of each is that of the lock,
  -- the digest of the spec is the plan's resolved intent, and a digest that the lock has is that of its
  -- content.
  pub recovered-Matches :
      (s : Store) (run_id : String) (lock : EnvironmentLock) (spec : Spec)
      → recover_lock t s run_id ≡ ok lock
      → recover_spec t s run_id ≡ ok spec
      → (plan : ExecutionPlan) × PlanOf s run_id plan
        × LockMatches lock plan
        × (payload_ref t spec ≡ resolved_intent t (get_field "resolved_intent" plan.metadata))
  recovered-Matches s run_id lock spec h k =
      let (plan, found, matches) = recover_lock-Matches s run_id lock h in
      let (plan', found', intent) = recover_spec-Matches s run_id spec k in
      (
        plan,
        found,
        matches,
        subst
            (λ (z : ExecutionPlan).
              payload_ref t spec ≡ resolved_intent t (get_field "resolved_intent" z.metadata))
            (sym (PlanOf-unique s run_id plan plan' found found')) intent,
      )
