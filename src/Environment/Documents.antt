-- ===== src/Environment/Documents.antt =====
-- EnvironmentLock.to_dict and from_dict of environment/contracts.py, of documents whose optional fields are
-- texts or null; `str` is Python's, of a value.
pub mod RoundTrip
use cyrene_yield.Common.{
  String, Bool, true, false, not, ◌||◌, ◌==◌, nat_eq, if◌then◌else◌, Option, none, some, List, [],
  ◌∷◌, Dict, is_empty, Result, ok, err, ◌>>=◌, ◌>>◌, raise_if,
}
use cyrene_yield.Values.{
  Value, null, bool, int, float, text, array, object, Items, nil, Fields, end, field, get_field,
  set_field,
}
use cyrene_yield.Environment.Versions.{EnvironmentError}
use cyrene_yield.Environment.Contracts.{EnvironmentLock, texts, set_given, new_lock}

pub data DocumentError : Type 0 where
  -- ValueError: the lock has no digest, or its constructor raises
  unresolved : DocumentError
  invalid : EnvironmentError → DocumentError
  -- KeyError
  missing : String → DocumentError
  -- AttributeError: framework_versions is no mapping
  not_mapping : DocumentError
  -- An optional field that is neither a text nor null, which the model leaves out.
  untyped : String → DocumentError

-- `for name in names: if value is not None: payload[name] = value`
abbrev pub set_all : List (String × Option String) → Fields → Fields
set_all [] payload = payload
set_all ((name, value) ∷ rest) payload = set_all rest (set_given name value payload)

-- The names of to_dict, with the attributes of the lock.
abbrev pub optional_fields : EnvironmentLock → List (String × Option String)
optional_fields l =
    ("engine", l.engine)
    ∷ ("engine_version", l.engine_version)
    ∷ ("runtime_version", l.runtime_version)
    ∷ ("accelerator_runtime", l.accelerator_runtime)
    ∷ ("minimum_driver", l.minimum_driver)
    ∷ ("base_image_digest", l.base_image_digest)
    ∷ ("dependency_lock_digest", l.dependency_lock_digest)
    ∷ ("custom_environment_digest", l.custom_environment_digest)
    ∷ ("resolution_provenance", l.resolution_provenance)
    ∷ ("created_at", l.created_at)
    ∷ []

abbrev pub required_fields : EnvironmentLock → Fields
required_fields l = field "schema_version" (text l.schema_version) (
    field "runtime_profile" (text l.runtime_profile) (
      field "python_version" (text l.python_version) (
        field "framework_versions" (object (texts l.framework_versions))
          (field "environment_digest" (text l.environment_digest) end))))

-- EnvironmentLock.to_dict
unfoldable pub to_dict : EnvironmentLock → Result DocumentError Fields
unfolding set_field
to_dict l = do
  raise_if (is_empty l.environment_digest) unresolved
  ok (set_all (optional_fields l) (required_fields l))

-- data.get(name)
abbrev pub optional_of : String → Option Value → Result DocumentError (Option String)
optional_of name none = ok none
optional_of name (some null) = ok none
optional_of name (some (text s)) = ok (some s)
optional_of name (some _) = err (untyped name)

-- not value, of a value that is no mapping
abbrev pub is_falsy : Value → Bool
is_falsy null = true
is_falsy (bool b) = not b
is_falsy (int n) = nat_eq n 0
is_falsy (float s) = s == "0.0" || s == "-0.0"
is_falsy (text s) = is_empty s
is_falsy (array nil) = true
is_falsy _ = false

abbrev pub as_invalid :
    Result EnvironmentError EnvironmentLock → Result DocumentError EnvironmentLock
as_invalid (err e) = err (invalid e)
as_invalid (ok l) = ok l

module _ (str : Value → String) where
  -- str(data[name])
  abbrev pub required_of : String → Option Value → Result DocumentError String
  required_of name none = err (missing name)
  required_of name (some v) = ok (str v)

  -- {str(key): str(item)} of a mapping, whose keys are texts
  abbrev pub pairs : Fields → Dict String
  pairs end = []
  pairs (field k v fs) = (k, str v) ∷ pairs fs

  -- data.get("framework_versions") or {}
  abbrev pub versions_of : Option Value → Result DocumentError (Dict String)
  versions_of none = ok []
  versions_of (some (object fs)) = ok (pairs fs)
  versions_of (some v) = if is_falsy v then ok [] else err not_mapping

  -- The arguments of from_dict's call of the constructor.
  unfoldable pub lock_fields : Fields → Result DocumentError EnvironmentLock
  unfolding get_field
  lock_fields d = do
    schema_version ← required_of "schema_version" (get_field "schema_version" d)
    runtime_profile ← required_of "runtime_profile" (get_field "runtime_profile" d)
    python_version ← required_of "python_version" (get_field "python_version" d)
    engine ← optional_of "engine" (get_field "engine" d)
    engine_version ← optional_of "engine_version" (get_field "engine_version" d)
    runtime_version ← optional_of "runtime_version" (get_field "runtime_version" d)
    accelerator_runtime ← optional_of "accelerator_runtime" (get_field "accelerator_runtime" d)
    minimum_driver ← optional_of "minimum_driver" (get_field "minimum_driver" d)
    base_image_digest ← optional_of "base_image_digest" (get_field "base_image_digest" d)
    dependency_lock_digest ←
        optional_of "dependency_lock_digest" (get_field "dependency_lock_digest" d)
    custom_environment_digest ←
        optional_of "custom_environment_digest" (get_field "custom_environment_digest" d)
    resolution_provenance ←
        optional_of "resolution_provenance" (get_field "resolution_provenance" d)
    environment_digest ← required_of "environment_digest" (get_field "environment_digest" d)
    created_at ← optional_of "created_at" (get_field "created_at" d)
    -- _mapping raises in the constructor, when the arguments have been read.
    framework_versions ← versions_of (get_field "framework_versions" d)
    ok (record {
      schema_version = schema_version;
      runtime_profile = runtime_profile;
      python_version = python_version;
      framework_versions = framework_versions;
      engine = engine;
      engine_version = engine_version;
      runtime_version = runtime_version;
      accelerator_runtime = accelerator_runtime;
      minimum_driver = minimum_driver;
      base_image_digest = base_image_digest;
      dependency_lock_digest = dependency_lock_digest;
      custom_environment_digest = custom_environment_digest;
      resolution_provenance = resolution_provenance;
      environment_digest = environment_digest;
      created_at = created_at;
    })

  -- EnvironmentLock.from_dict
  unfoldable pub from_dict : (Fields → String) → Fields → Result DocumentError EnvironmentLock
  unfolding lock_fields new_lock
  from_dict digest_of d = do given ← lock_fields d; as_invalid (new_lock digest_of given)
