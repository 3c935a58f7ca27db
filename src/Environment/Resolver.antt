-- ===== src/Environment/Resolver.antt =====
-- environment/resolver.py: EnvironmentResolver with _match and resolve.
pub mod Choice
pub mod Tallying
pub mod Locks
use cyrene_yield.Common.{
  codes, after_prefix, String, Bool, true, false, not, ◌&&◌, ◌||◌, Option, none, some, List, [],
  ◌∷◌, ◌++◌, ◌==◌, contains, is_nil, is_empty, concat, Dict, lookup, sort_by, text_le, Result, ok,
  err, ◌>>=◌, if◌then◌else◌,
}
use cyrene_yield.Values.{Fields}
use cyrene_yield.Environment.Versions.{
  EnvironmentError, Version, Groups, groups, version, version_lt, satisfies,
}
use cyrene_yield.Environment.Contracts.{
  EnvironmentSpec, EnvironmentCandidate, EnvironmentLock, HardwareRuntimeFacts, ResolutionStatus,
  Resolution, lower, to_lock, with_digest,
}

-- What one test of _match adds: nothing, or a reason to `unknown` or to `blocked`.
pub data Check : Type 0 where
  passes : Check
  unclear : String → Check
  refused : String → Check

-- `if value:` on a text that may be None
abbrev pub truthy : Option String → Option String
truthy none = none
truthy (some s) = if is_empty s then none else some s

-- What is wanted, if anything is, against what is known.
unfoldable pub agrees : Option String → Option String → String → String → Check
agrees none actual unclear_text refused_text = passes
agrees (some wanted) none unclear_text refused_text = unclear unclear_text
agrees (some wanted) (some actual) unclear_text refused_text =
    if actual == wanted then passes else refused refused_text

abbrev pub refused_unless : Bool → String → Check
refused_unless true text = passes
refused_unless false text = refused text

unfoldable pub check_python : EnvironmentSpec → EnvironmentCandidate → Result EnvironmentError Check
check_python spec candidate = elim (truthy spec.python_version_constraint) [
  | none ↦ ok passes
  | some constraint ↦ do
    holds ← satisfies candidate.python_version constraint
    ok (refused_unless holds "python version constraint mismatch")
]

abbrev pub begins : String → String → Bool
begins prefix text = elim (after_prefix (codes prefix) (codes text)) [
  | none ↦ false
  | some rest ↦ true
]

abbrev pub whole : Option Groups → Bool
whole none = false
whole (some g) = is_nil g.left

-- A constraint that is a version or begins with an operator.
unfoldable pub is_version_constraint : String → Bool
unfolding codes after_prefix groups
is_version_constraint text =
    begins "<" text
    || begins ">" text
    || begins "=" text
    || begins "!" text
    || whole (groups (codes text))

-- _framework_satisfies, of a version that is known
unfoldable pub framework_satisfies : String → String → Result EnvironmentError Bool
unfolding is_version_constraint
framework_satisfies actual constraint =
    if is_version_constraint constraint
    then satisfies actual constraint
    else ok (actual == constraint)

unfoldable pub check_framework :
    EnvironmentCandidate → String → String → Result EnvironmentError Check
unfolding framework_satisfies
check_framework candidate name constraint = elim (lookup name candidate.framework_versions) [
  | none ↦ ok (unclear (concat "framework version is unknown: " name))
  | some actual ↦ do
    holds ← framework_satisfies actual constraint
    ok (refused_unless holds (concat "framework constraint mismatch: " name))
]

unfoldable pub check_frameworks :
    EnvironmentCandidate → Dict String → Result EnvironmentError (List Check)
unfolding check_framework
check_frameworks candidate [] = ok []
check_frameworks candidate ((name, constraint) ∷ d) = do
  first ← check_framework candidate name constraint
  rest ← check_frameworks candidate d
  ok (first ∷ rest)

-- The list of what is supported, if there is one, against the fact in lower case.
unfoldable pub check_supported : List String → Option String → String → String → Check
check_supported [] fact unclear_text refused_text = passes
check_supported (s ∷ ss) none unclear_text refused_text = unclear unclear_text
check_supported (s ∷ ss) (some fact) unclear_text refused_text =
    refused_unless (contains (lower fact) (s ∷ ss)) refused_text

-- _driver_satisfies and its test
unfoldable pub check_driver : Option String → Option String → Result EnvironmentError Check
check_driver actual none = ok passes
check_driver none (some minimum) = ok (unclear "driver version is unknown")
check_driver (some actual) (some minimum) = do
  a ← version actual
  m ← version minimum
  ok (refused_unless (not (version_lt a m)) "driver requirement is not met")

unfoldable pub check_host_runtime : Option String → Option String → Check
check_host_runtime (some fact) (some wanted) =
    refused_unless (fact == wanted) "host accelerator runtime mismatch"
check_host_runtime _ _ = passes

unfoldable pub check_facts :
    EnvironmentCandidate → Option HardwareRuntimeFacts → Result EnvironmentError (List Check)
unfolding check_supported check_driver check_host_runtime
check_facts candidate none = ok []
check_facts candidate (some facts) = do
  driver ← check_driver facts.driver_version (truthy candidate.minimum_driver)
  ok (
      check_supported candidate.supported_architectures facts.architecture
        "hardware architecture is unknown" "hardware architecture is unsupported"
      ∷ check_supported candidate.supported_precisions facts.precision
          "hardware precision is unknown" "hardware precision is unsupported"
      ∷ driver
      ∷ check_host_runtime (truthy facts.accelerator_runtime) (truthy candidate.accelerator_runtime)
      ∷ [])

-- The tests of _match in their order.
unfoldable pub checks :
    EnvironmentSpec
    → EnvironmentCandidate
    → Option HardwareRuntimeFacts
    → Result EnvironmentError (List Check)
unfolding check_python check_frameworks check_facts agrees
checks spec c facts = do
  python ← check_python spec c
  frameworks ← check_frameworks c spec.framework_requirements
  host ← check_facts c facts
  ok (
      agrees (truthy spec.runtime_profile) (truthy (some c.runtime_profile))
          "candidate runtime profile is unknown" "runtime profile mismatch"
        ∷ python
        ∷ agrees (truthy spec.engine) c.engine "candidate engine is unknown" "engine mismatch"
        ∷ agrees (truthy spec.accelerator_runtime) c.accelerator_runtime
            "candidate accelerator runtime is unknown" "accelerator runtime mismatch"
        ∷ frameworks
      ++ (agrees spec.dependency_lock_ref c.dependency_lock_digest
            "candidate dependency lock is unknown" "dependency lock mismatch"
          ∷ agrees spec.base_image_ref c.base_image_digest "candidate base image is unknown"
              "base image mismatch"
          ∷ agrees spec.custom_environment_ref c.custom_environment_digest
              "candidate custom environment is unknown" "custom environment mismatch"
          ∷ host))

-- The two lists of reasons.
unfoldable pub unclear_of : List Check → List String
unclear_of [] = []
unclear_of (unclear text ∷ cs) = text ∷ unclear_of cs
unclear_of (_ ∷ cs) = unclear_of cs

unfoldable pub refused_of : List Check → List String
refused_of [] = []
refused_of (refused text ∷ cs) = text ∷ refused_of cs
refused_of (_ ∷ cs) = refused_of cs

-- What _match returns.
pub data Match : Type 0 where
  is_compatible : Match
  is_unknown is_blocked : List String → Match

abbrev pub verdict_of : List String → List String → Match
verdict_of (b ∷ bs) us = is_blocked (b ∷ bs)
verdict_of [] (u ∷ us) = is_unknown (u ∷ us)
verdict_of [] [] = is_compatible

-- _match
unfoldable pub match_candidate :
    EnvironmentSpec
    → Option HardwareRuntimeFacts
    → EnvironmentCandidate
    → Result EnvironmentError Match
unfolding checks unclear_of refused_of
match_candidate spec facts c =
    if not c.known_good
    then ok (is_unknown (concat (concat "candidate " c.candidate_id) " is not known-good" ∷ []))
    else do cs ← checks spec c facts; ok (verdict_of (refused_of cs) (unclear_of cs))

pub record Tally : Type 0 where
  pub matches : List EnvironmentCandidate
  pub unknown_reasons : List String
  pub blocked_reasons : List String

unfoldable pub add_verdict : Tally → EnvironmentCandidate → Match → Tally
add_verdict t c is_compatible = record t { matches = t.matches ++ c ∷ [] }
add_verdict t c (is_unknown us) = record t { unknown_reasons = t.unknown_reasons ++ us }
add_verdict t c (is_blocked bs) = record t { blocked_reasons = t.blocked_reasons ++ bs }

-- The loop over the candidates.
unfoldable pub tally :
    EnvironmentSpec
    → Option HardwareRuntimeFacts
    → Tally
    → List EnvironmentCandidate
    → Result EnvironmentError Tally
unfolding match_candidate add_verdict
tally spec facts t [] = ok t
tally spec facts t (c ∷ cs) = do
  verdict ← match_candidate spec facts c
  tally spec facts (add_verdict t c verdict) cs

abbrev pub no_tally : Tally
no_tally = record { matches = []; unknown_reasons = []; blocked_reasons = [] }

abbrev pub candidate_le : EnvironmentCandidate → EnvironmentCandidate → Bool
candidate_le a b = text_le a.candidate_id b.candidate_id

module _ (digest_of : Fields → String) where
  -- selected.to_lock(...).with_digest()
  unfoldable pub lock_of : EnvironmentCandidate → String → Result EnvironmentError EnvironmentLock
  lock_of c now = do l ← to_lock digest_of c; with_digest digest_of l now

  -- What is returned of the candidates that match, in the order of their identities.
  unfoldable pub selected :
      List EnvironmentCandidate
      → List EnvironmentCandidate
      → Tally
      → String
      → Result EnvironmentError Resolution
  unfolding lock_of
  selected (c ∷ cs) candidates t now = do
    l ← lock_of c now
    ok (record { status = ResolutionStatus.compatible; lock = some l; reasons = [] })
  selected [] [] t now = ok (record {
    status = ResolutionStatus.unknown;
    lock = none;
    reasons =
        if is_nil t.unknown_reasons then "environment catalog is empty" ∷ [] else t.unknown_reasons;
  })
  selected [] (c ∷ cs) t now =
      if not (is_nil t.unknown_reasons)
      then ok
          (record { status = ResolutionStatus.unknown; lock = none; reasons = t.unknown_reasons })
      else ok
          (record { status = ResolutionStatus.blocked; lock = none; reasons = t.blocked_reasons })

  -- resolve
  unfoldable pub resolve :
      EnvironmentSpec
      → List EnvironmentCandidate
      → Option HardwareRuntimeFacts
      → String
      → Result EnvironmentError Resolution
  unfolding tally selected sort_by
  resolve spec candidates facts now = do
    t ← tally spec facts no_tally candidates
    selected (sort_by candidate_le t.matches) candidates t now
