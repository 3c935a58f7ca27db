-- ===== src/Examples/Environments.antt =====
-- Tests and examples of the environment package.
use cyrene_yield.Common.{
  is_digest, ◌≡◌, refl, String, Bool, true, false, ◌&&◌, Option, none, some, List, [], ◌∷◌, ok,
  concat, lookup, sort_by,
}
use cyrene_yield.Values.{Fields}
use cyrene_yield.Environment.Versions.{version, satisfies}
use cyrene_yield.Environment.Versions.Joining.{satisfies_joined}
use cyrene_yield.Environment.Contracts.{
  EnvironmentSpec, EnvironmentCandidate, EnvironmentLock, HardwareRuntimeFacts, ResolutionStatus,
  Resolution, check_digest, computed_digest, candidate_lock, new_candidate, require_lock, lower,
  to_lock, with_digest,
}
use cyrene_yield.Environment.Resolver.{resolve, lock_of}
use cyrene_yield.Environment.Resolver.Choice.{Answers, resolve-Answers}
use cyrene_yield.Environment.Resolver.Locks.{lock_of-Identified}

abbrev pub a_digest : String
a_digest = "sha256:0123456789abcdef0123456789abcdef0123456789abcdef0123456789abcdef"

abbrev pub digest_all : Fields → String
digest_all payload = a_digest

abbrev spec : EnvironmentSpec
spec = record {
  runtime_profile = some "cuda";
  python_version_constraint = some ">=3.10,<3.13";
  engine = none;
  framework_requirements = ("torch", ">=2.1") ∷ [];
  accelerator_runtime = none;
  dependency_lock_ref = none;
  base_image_ref = none;
  custom_environment_ref = none;
}

abbrev candidate : String → String → Bool → EnvironmentCandidate
candidate id python known_good = record {
  candidate_id = id;
  python_version = python;
  framework_versions = ("torch", "2.4.1") ∷ [];
  runtime_profile = "cuda";
  engine = none;
  engine_version = none;
  runtime_version = none;
  accelerator_runtime = none;
  minimum_driver = some "535";
  base_image_digest = none;
  dependency_lock_digest = some a_digest;
  custom_environment_digest = none;
  resolution_provenance = none;
  supported_architectures = "x86_64" ∷ [];
  supported_precisions = [];
  known_good = known_good;
}

abbrev facts : Option HardwareRuntimeFacts
facts = some (record {
  architecture = some "X86_64";
  precision = none;
  driver_version = some "550.54";
  accelerator_runtime = none;
})

abbrev catalog : List EnvironmentCandidate
catalog =
    candidate "old" "3.9.1" true
    ∷ candidate "second" "3.11.4" true
    ∷ candidate "first" "3.12.0" true
    ∷ candidate "untried" "3.12.0" false
    ∷ []

abbrev pub first_lock : EnvironmentLock
first_lock = record (candidate_lock (candidate "first" "3.12.0" true)) {
  environment_digest = a_digest;
  created_at = some "now";
}

abbrev chosen : Resolution
chosen = record { status = ResolutionStatus.compatible; lock = some first_lock; reasons = [] }

resolves : resolve digest_all spec catalog facts "now" ≡ ok chosen
unfolding resolve satisfies lookup lower to_lock with_digest
resolves = refl

resolve-Answers_example :
    Answers digest_all spec facts catalog "now" ResolutionStatus.compatible (some first_lock)
resolve-Answers_example = resolve-Answers digest_all spec facts "now" catalog chosen resolves

locks : lock_of digest_all (candidate "first" "3.12.0" true) "now" ≡ ok first_lock
unfolding lock_of to_lock with_digest sort_by
locks = refl

formed : (payload : Fields) → is_digest (digest_all payload) ≡ true
unfolding is_digest
formed payload = refl

lock_of-Identified_example :
    (computed_digest digest_all first_lock ≡ a_digest)
    × (first_lock.created_at ≡ some "now")
    × (first_lock.runtime_profile ≡ "cuda")
    × (first_lock.python_version ≡ (candidate "first" "3.12.0" true).python_version)
    × (first_lock.engine ≡ (candidate "first" "3.12.0" true).engine)
    × (first_lock.engine_version ≡ (candidate "first" "3.12.0" true).engine_version)
    × (first_lock.runtime_version ≡ (candidate "first" "3.12.0" true).runtime_version)
    × (first_lock.accelerator_runtime ≡ (candidate "first" "3.12.0" true).accelerator_runtime)
    × (first_lock.minimum_driver ≡ (candidate "first" "3.12.0" true).minimum_driver)
    × (first_lock.base_image_digest ≡ (candidate "first" "3.12.0" true).base_image_digest)
    × (first_lock.dependency_lock_digest ≡ (candidate "first" "3.12.0" true).dependency_lock_digest)
    × (first_lock.custom_environment_digest
        ≡ (candidate "first" "3.12.0" true).custom_environment_digest)
    × (first_lock.resolution_provenance ≡ (candidate "first" "3.12.0" true).resolution_provenance)
    × (check_digest (some a_digest) ≡ ok tt)
lock_of-Identified_example =
    lock_of-Identified digest_all (candidate "first" "3.12.0" true) "now" first_lock formed locks

reads : version "3.11.4" ≡ ok (record { major = 3; minor = 11; micro = 4 })
unfolding version
reads = refl

asks_least : satisfies "3.11.4" " >= 3.10 " ≡ ok true
unfolding satisfies
asks_least = refl

asks_below : satisfies "3.11.4" "<3.11" ≡ ok false
unfolding satisfies
asks_below = refl

satisfies_joined_example :
    satisfies "3.11.4" (concat " >= 3.10 " (concat "," "<3.11")) ≡ ok (true && false)
satisfies_joined_example =
    satisfies_joined "3.11.4" " >= 3.10 " "<3.11" (record { major = 3; minor = 11; micro = 4 }) true
      false reads asks_least asks_below

required : require_lock chosen ≡ ok first_lock
unfolding require_lock
required = refl

lowered : (new_candidate (candidate "A" "3" true)).supported_architectures ≡ "x86_64" ∷ []
unfolding new_candidate sort_by
lowered = refl
