-- ===== src/Environment/Contracts.antt =====
-- environment/contracts.py: what a run asks of its environment, what is known of the environments that
-- exist, and the lock that records the one chosen. sha256_bytes and canonical_json_bytes are not in the
-- repository: `digest_of` stands for the first applied to the second.
use Prim.Native.Char.{Char, code}
use Prim.Native.String.{[] as end_of, ◌∷◌ as and_then}
use cyrene_yield.Common.{
  is_digest, String, Bool, not, Option, none, some, List, [], ◌∷◌, ◌==◌, nat_eq, is_empty, Dict,
  sort_by, text_le, Result, ok, err, ◌>>◌, raise_if, if◌then◌else◌,
}
use cyrene_yield.Values.{Value, Fields, set_field}
use cyrene_yield.Environment.Versions.{
  EnvironmentError, invalid_digest, digest_mismatch, not_compatible,
}

-- _mapping: sorted by key
abbrev pub key_le : String × String → String × String → Bool
key_le a b = text_le a.0 b.0

unfoldable pub mapping : Dict String → Dict String
mapping d = sort_by key_le d

-- _digest, of a value that may be None
unfoldable pub check_digest : Option String → Result EnvironmentError (Unit {0})
unfolding is_digest
check_digest none = ok tt
check_digest (some value) = raise_if (not (is_digest value)) (invalid_digest value)

-- A reference is an ArtifactRef, of which the digest is read.
pub record EnvironmentSpec : Type 0 where
  pub runtime_profile : Option String
  pub python_version_constraint : Option String
  pub engine : Option String
  pub framework_requirements : Dict String
  pub accelerator_runtime : Option String
  pub dependency_lock_ref : Option String
  pub base_image_ref : Option String
  pub custom_environment_ref : Option String

pub record EnvironmentLock : Type 0 where
  pub schema_version : String
  pub runtime_profile : String
  pub python_version : String
  pub framework_versions : Dict String
  pub engine : Option String
  pub engine_version : Option String
  pub runtime_version : Option String
  pub accelerator_runtime : Option String
  pub minimum_driver : Option String
  pub base_image_digest : Option String
  pub dependency_lock_digest : Option String
  pub custom_environment_digest : Option String
  pub resolution_provenance : Option String
  pub environment_digest : String
  pub created_at : Option String

pub record EnvironmentCandidate : Type 0 where
  pub candidate_id : String
  pub python_version : String
  pub framework_versions : Dict String
  pub runtime_profile : String
  pub engine : Option String
  pub engine_version : Option String
  pub runtime_version : Option String
  pub accelerator_runtime : Option String
  pub minimum_driver : Option String
  pub base_image_digest : Option String
  pub dependency_lock_digest : Option String
  pub custom_environment_digest : Option String
  pub resolution_provenance : Option String
  pub supported_architectures : List String
  pub supported_precisions : List String
  pub known_good : Bool

pub record HardwareRuntimeFacts : Type 0 where
  pub architecture : Option String
  pub precision : Option String
  pub driver_version : Option String
  pub accelerator_runtime : Option String

pub data ResolutionStatus : Type 0 where
  compatible unknown blocked : ResolutionStatus

pub record Resolution : Type 0 where
  pub status : ResolutionStatus
  pub lock : Option EnvironmentLock
  pub reasons : List String

-- require_lock
unfoldable pub require_lock : Resolution → Result EnvironmentError EnvironmentLock
require_lock r = elim r.status [
  | ResolutionStatus.compatible ↦ elim r.lock [ none ↦ err not_compatible | some l ↦ ok l ]
  | _ ↦ err not_compatible
]

-- str.lower, on ASCII
unfoldable pub lower_char : String → String → Char → Char
lower_char (and_then u us) (and_then l ls) c =
    let rest = lower_char us ls c in if nat_eq (code u) (code c) then l else rest
lower_char _ _ c = c

unfoldable pub lower : String → String
unfolding lower_char
lower end_of = end_of
lower (and_then c s) =
    and_then (lower_char "ABCDEFGHIJKLMNOPQRSTUVWXYZ" "abcdefghijklmnopqrstuvwxyz" c) (lower s)

abbrev pub lower_all : List String → List String
lower_all [] = []
lower_all (s ∷ ss) = lower s ∷ lower_all ss

-- EnvironmentCandidate.__post_init__
unfoldable pub new_candidate : EnvironmentCandidate → EnvironmentCandidate
unfolding mapping lower
new_candidate c = record c {
  framework_versions = mapping c.framework_versions;
  supported_architectures = sort_by text_le (lower_all c.supported_architectures);
  supported_precisions = sort_by text_le (lower_all c.supported_precisions);
}

abbrev pub texts : Dict String → Fields
texts [] = Fields.end
texts ((k, v) ∷ d) = Fields.field k (Value.text v) (texts d)

-- `if value is not None: payload[name] = value`
abbrev pub set_given : String → Option String → Fields → Fields
set_given name none payload = payload
set_given name (some value) payload = set_field name (Value.text value) payload

-- EnvironmentLock.identity_payload: the digest, the provenance and the time of creation are not in it.
unfoldable pub identity_payload : EnvironmentLock → Fields
unfolding set_field
identity_payload l =
    let payload = Fields.field "schema_version" (Value.text l.schema_version) (
      Fields.field "runtime_profile" (Value.text l.runtime_profile) (
        Fields.field "python_version" (Value.text l.python_version) (
          Fields.field "framework_versions" (Value.object (texts l.framework_versions))
            Fields.end))) in
    set_given "custom_environment_digest" l.custom_environment_digest (
      set_given "dependency_lock_digest" l.dependency_lock_digest (
        set_given "base_image_digest" l.base_image_digest (
          set_given "minimum_driver" l.minimum_driver (
            set_given "accelerator_runtime" l.accelerator_runtime (
              set_given "runtime_version" l.runtime_version (
                set_given "engine_version" l.engine_version
                  (set_given "engine" l.engine payload)))))))

-- The lock of a candidate, which has no digest yet.
abbrev pub candidate_lock : EnvironmentCandidate → EnvironmentLock
candidate_lock c = record {
  schema_version = "1";
  runtime_profile = c.runtime_profile;
  python_version = c.python_version;
  framework_versions = c.framework_versions;
  engine = c.engine;
  engine_version = c.engine_version;
  runtime_version = c.runtime_version;
  accelerator_runtime = c.accelerator_runtime;
  minimum_driver = c.minimum_driver;
  base_image_digest = c.base_image_digest;
  dependency_lock_digest = c.dependency_lock_digest;
  custom_environment_digest = c.custom_environment_digest;
  resolution_provenance = c.resolution_provenance;
  environment_digest = "";
  created_at = none;
}

module _ (digest_of : Fields → String) where
  -- computed_digest
  unfoldable pub computed_digest : EnvironmentLock → String
  computed_digest l = digest_of (identity_payload l)

  -- The test of a lock that has a digest.
  unfoldable pub check_environment_digest : EnvironmentLock → Result EnvironmentError (Unit {0})
  unfolding computed_digest check_digest
  check_environment_digest l = if is_empty l.environment_digest then ok tt else do
    check_digest (some l.environment_digest)
    raise_if (not (l.environment_digest == computed_digest l)) digest_mismatch

  -- EnvironmentLock.__post_init__
  unfoldable pub new_lock : EnvironmentLock → Result EnvironmentError EnvironmentLock
  unfolding check_environment_digest mapping check_digest
  new_lock given =
      let l = record given { framework_versions = mapping given.framework_versions } in
      do
        check_digest l.base_image_digest
        check_digest l.dependency_lock_digest
        check_digest l.custom_environment_digest
        check_environment_digest l
        ok l

  -- to_lock
  unfoldable pub to_lock : EnvironmentCandidate → Result EnvironmentError EnvironmentLock
  unfolding new_lock
  to_lock c = new_lock (candidate_lock c)

  -- with_digest, at the reading `now` of the clock
  unfoldable pub with_digest : EnvironmentLock → String → Result EnvironmentError EnvironmentLock
  unfolding new_lock computed_digest
  with_digest l now =
      new_lock (record l { environment_digest = computed_digest l; created_at = some now })
