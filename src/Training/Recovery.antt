-- ===== src/Training/Recovery.antt =====
-- TrainingControlPlane.submit, _require_spec, _require_lock and _metadata_mapping of control_plane.py: what a
-- run is submitted with, and how it is read back after a restart.
pub mod Matching
pub mod Restart
use cyrene_yield.Common.{
  String, Bool, true, false, not, ◌&&◌, Option, none, some, List, ◌==◌, same_option, is_nil,
  is_empty, all, concat, Dict, lookup, insert, Result, ok, err, ◌>>=◌, ◌>>◌, raise_if,
  if◌then◌else◌,
}
use cyrene_yield.Values.{
  Value, null, text, object, Fields, end, field, get_field, normalized_fields,
}
use cyrene_yield.Lifecycle.Status.{Error}
use cyrene_yield.Lifecycle.Step.{PlanStep}
use cyrene_yield.Lifecycle.Plan.{ExecutionPlan}
use cyrene_yield.Lifecycle.Run.{ProductRun}
use cyrene_yield.Lifecycle.Store.{Store, Clock, load_run, load_plan}
use cyrene_yield.Lifecycle.ControlPlane.{submit}
use cyrene_yield.Environment.Contracts.{EnvironmentLock}
use cyrene_yield.Environment.Documents.{DocumentError, to_dict, from_dict, is_falsy}
use cyrene_yield.Training.Compiler.{Source, CompileError, compile}

-- TrainingStateRecoveryError, and what the calls that it makes raise.
pub data RecoveryError : Type 0 where
  missing_metadata : String → RecoveryError
  invalid_metadata : String → RecoveryError
  invalid_spec : RecoveryError
  invalid_lock : RecoveryError
  other_intent : RecoveryError
  other_environment : RecoveryError
  of_store : Error → RecoveryError
  of_compile : CompileError → RecoveryError
  of_lock : DocumentError → RecoveryError

-- TRAINING_SPEC_METADATA and ENVIRONMENT_LOCK_METADATA
abbrev pub training_spec_metadata : String
training_spec_metadata = "cyrene.yield.training_spec.v1"

abbrev pub environment_lock_metadata : String
environment_lock_metadata = "cyrene.yield.environment_lock.v1"

abbrev pub stored_in : {A : Type 0} → Result Error A → Result RecoveryError A
stored_in (err e) = err (of_store e)
stored_in (ok a) = ok a

abbrev pub compiling : {A : Type 0} → Result CompileError A → Result RecoveryError A
compiling (err e) = err (of_compile e)
compiling (ok a) = ok a

-- What of the training spec and of the standard library is used: json.dumps with sorted keys and
-- json.loads, `none` where it raises; Python's str; the hexadecimal sha256 of canonical JSON, and
-- sha256_bytes of canonical_json_bytes, which a lock has as its digest; and of the class TrainingSpec its from_dict, `none` where it raises, its to_dict and what the compiler reads.
pub record Texts (Spec : Type 0) : Type 1 where
  pub dumps : Fields → String
  pub loads : String → Option Value
  pub str : Value → String
  pub digest_of : Fields → String
  pub lock_digest_of : Fields → String
  pub plan_digest : List PlanStep → Fields → Fields → String
  pub read_spec : Fields → Option Spec
  pub spec_document : Spec → Fields
  pub shape : Spec → Source

module _ {Spec : Type 0} (t : Texts Spec) where
  pub record Caches : Type 0 where
    pub specs : Dict Spec
    pub locks : Dict EnvironmentLock

  abbrev as_object : String → Option Value → Result RecoveryError Fields
  as_object key (some (object fs)) = ok fs
  as_object key _ = err (invalid_metadata key)

  -- _metadata_mapping
  abbrev raw_mapping : String → Option Value → Result RecoveryError Fields
  raw_mapping key (some (text raw)) = as_object key (t.loads raw)
  raw_mapping key _ = err (missing_metadata key)

  unfoldable pub metadata_mapping : Fields → String → Result RecoveryError Fields
  unfolding get_field
  metadata_mapping metadata key = raw_mapping key (get_field key metadata)

  abbrev read_lock : Result DocumentError EnvironmentLock → Result RecoveryError EnvironmentLock
  read_lock (err e) = err invalid_lock
  read_lock (ok lock) = ok lock

  -- {step.environment_identity for step in plan.steps} == {lock.environment_digest}
  abbrev pub is_environment_of : EnvironmentLock → ExecutionPlan → Bool
  is_environment_of lock plan =
      not (is_nil plan.steps)
      && all (λ (s : PlanStep). same_option s.environment_identity (some lock.environment_digest))
          plan.steps

  -- The part of _require_lock on a run whose lock is not in the cache.
  unfoldable pub recover_lock : Store → String → Result RecoveryError EnvironmentLock
  unfolding metadata_mapping from_dict
  recover_lock s run_id = do
    run ← stored_in (load_run s run_id)
    payload ← metadata_mapping run.metadata environment_lock_metadata
    lock ← read_lock (from_dict t.str t.lock_digest_of payload)
    plan ← stored_in (load_plan s run.plan_id)
    raise_if (not (is_environment_of lock plan)) other_environment
    ok lock

  abbrev cached_lock :
      Caches
      → String
      → Result RecoveryError EnvironmentLock
      → Result RecoveryError EnvironmentLock × Caches
  cached_lock c run_id (err e) = (err e, c)
  cached_lock c run_id (ok lock) = (ok lock, record c { locks = insert run_id lock c.locks })

  -- _require_lock
  unfoldable pub require_lock :
      Caches → Store → String → Result RecoveryError EnvironmentLock × Caches
  unfolding recover_lock
  require_lock c s run_id = elim (lookup run_id c.locks) [
    | some lock ↦ (ok lock, c)
    | none ↦ cached_lock c run_id (recover_lock s run_id)
  ]

  abbrev read_training_spec : Option Spec → Result RecoveryError Spec
  read_training_spec none = err invalid_spec
  read_training_spec (some spec) = ok spec

  -- f"sha256:{_digest(spec.to_dict())}"
  abbrev pub payload_ref : Spec → String
  payload_ref spec = concat "sha256:" (t.digest_of (t.spec_document spec))

  abbrev text_or_empty : Value → String
  text_or_empty (object end) = ""
  text_or_empty v = if is_falsy v then "" else t.str v

  -- str(plan.metadata.get("resolved_intent") or "")
  abbrev pub resolved_intent : Option Value → String
  resolved_intent none = ""
  resolved_intent (some v) = text_or_empty v

  -- The part of _require_spec on a run whose spec is not in the cache.
  unfoldable pub recover_spec : Store → String → Result RecoveryError Spec
  unfolding metadata_mapping get_field
  recover_spec s run_id = do
    run ← stored_in (load_run s run_id)
    payload ← metadata_mapping run.metadata training_spec_metadata
    spec ← read_training_spec (t.read_spec payload)
    plan ← stored_in (load_plan s run.plan_id)
    raise_if (not (payload_ref spec == resolved_intent (get_field "resolved_intent" plan.metadata)))
        other_intent
    ok spec

  abbrev cached_spec :
      Caches → String → Result RecoveryError Spec → Result RecoveryError Spec × Caches
  cached_spec c run_id (err e) = (err e, c)
  cached_spec c run_id (ok spec) = (ok spec, record c { specs = insert run_id spec c.specs })

  -- _require_spec
  unfoldable pub require_spec : Caches → Store → String → Result RecoveryError Spec × Caches
  unfolding recover_spec
  require_spec c s run_id = elim (lookup run_id c.specs) [
    | some spec ↦ (ok spec, c)
    | none ↦ cached_spec c run_id (recover_spec s run_id)
  ]

  abbrev pub intent_of : Spec → EnvironmentLock → Source
  intent_of spec lock = record (t.shape spec) {
    payload_ref = payload_ref spec;
    environment_digest = lock.environment_digest;
  }

  abbrev as_lock_document : Result DocumentError Fields → Result RecoveryError Fields
  as_lock_document (err e) = err (of_lock e)
  as_lock_document (ok d) = ok d

  -- idempotency_key or f"training:{spec_digest}:{lock.environment_digest}"
  abbrev default_key : Spec → EnvironmentLock → String
  default_key spec lock =
      concat "training:"
        (concat (t.digest_of (t.spec_document spec)) (concat ":" lock.environment_digest))

  abbrev submission_key : Option String → Spec → EnvironmentLock → String
  submission_key none spec lock = default_key spec lock
  submission_key (some key) spec lock = if is_empty key then default_key spec lock else key

  abbrev submission_metadata : Spec → Fields → Fields
  submission_metadata spec document =
      field "training_spec_digest" (text (t.digest_of (t.spec_document spec))) (
        field training_spec_metadata (text (t.dumps (t.spec_document spec)))
          (field environment_lock_metadata (text (t.dumps document)) end))

  abbrev pub remembered : Caches → Spec → EnvironmentLock → ProductRun → Caches
  remembered c spec lock run = record {
    specs = insert run.run_id spec c.specs;
    locks = insert run.run_id lock c.locks;
  }

  -- TrainingControlPlane.submit, of a spec whose environment resolves to `lock`; `fresh` is the uuid of the
  -- run.
  unfoldable pub submit_training :
      Caches
      → Store
      → Spec
      → EnvironmentLock
      → Option String
      → String
      → Clock
      → Result RecoveryError (ProductRun × Store × Caches)
  unfolding compile to_dict submit
  submit_training c s spec lock key fresh clock = do
    plan ← compiling (compile t.plan_digest (intent_of spec lock))
    document ← as_lock_document (to_dict lock)
    saved ← stored_in (
        submit s plan "cyrene.yield.training" (submission_key key spec lock)
          (submission_metadata spec document) fresh clock)
    ok (saved.0, saved.1, remembered c spec lock saved.0)
