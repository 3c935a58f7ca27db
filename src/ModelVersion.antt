-- ===== src/ModelVersion.antt =====
-- The ModelVersion contract, sdk/python/cyrene_yield_contracts/src/cyrene_yield_contracts/model_version.py:
-- a document that is normalised is a record; `..._document` is the dictionary that it is. The digest of the
-- canonical JSON is the argument `digest_of`, sha256 of the bytes in hexadecimal.
pub mod Texts
pub mod Artifacts
pub mod Accepted
pub mod Documents
pub mod Lineages
pub mod Sound
pub mod Rereading
pub mod RoundTrip
use cyrene_yield.Common.{
  ℕ, String, Bool, true, false, not, ◌&&◌, ◌||◌, Option, none, some, List, [], ◌∷◌, ◌++◌, ◌==◌,
  contains, any, concat, same_option, is_empty, Result, ok, err, ◌>>=◌, ◌>>◌, raise_if,
  if◌then◌else◌,
}
use cyrene_yield.Values.{Value, Items, Fields, get_field, field_names}
use cyrene_yield.ModelVersion.Texts.{
  is_resource_uri, is_repository, is_revision, is_model_version_id, id_prefix,
}
use cyrene_yield.ModelVersion.Artifacts.{
  VersionError, ArtifactRef, floating_point, invalid_mode, artifact_forbidden, artifact_required,
  invalid_uri, not_an_array, invalid_derived, invalid_repository, invalid_revision,
  invalid_composition, invalid_schema_version, invalid_id, same_artifacts, id_given, id_mismatch,
  as_json_object, expect_json_keys, required_value, normalize_artifact_ref, artifact_document,
}

-- _reject_floats
unfoldable mutual
  pub has_float : Value → Bool
  has_float Value.null = false
  has_float (Value.bool b) = false
  has_float (Value.int n) = false
  has_float (Value.negative n) = false
  has_float (Value.float s) = true
  has_float (Value.text s) = false
  has_float (Value.array xs) = has_float_items xs
  has_float (Value.object fs) = has_float_fields fs

  pub has_float_items : Items → Bool
  has_float_items Items.nil = false
  has_float_items (Items.cons x xs) = has_float x || has_float_items xs

  pub has_float_fields : Fields → Bool
  has_float_fields Fields.end = false
  has_float_fields (Fields.field k v fs) = has_float v || has_float_fields fs

pub data Override : Type 0 where
  inherited : Override
  overridden : ArtifactRef → Override

-- `data["mode"]`, compared with the two texts
abbrev pub mode_of : Value → Option Bool
mode_of (Value.text m) =
    if m == "INHERIT" then some false else if m == "OVERRIDE" then some true else none
mode_of _ = none

unfoldable pub override_of : Option Bool → Option Value → String → Result VersionError Override
unfolding normalize_artifact_ref
override_of (some false) none name = ok inherited
override_of (some false) (some artifact) name = err (artifact_forbidden name)
override_of (some true) none name = err (artifact_required name)
override_of (some true) (some artifact) name = do
  a ← normalize_artifact_ref artifact (concat name ".artifact") false
  ok (overridden a)
override_of none artifact name = err (invalid_mode name)

-- _normalize_override
unfoldable pub normalize_override : Value → String → Result VersionError Override
unfolding override_of as_json_object expect_json_keys required_value get_field
normalize_override value name = do
  data_ ← as_json_object value name
  expect_json_keys data_ ("mode" ∷ []) ("artifact" ∷ []) name
  mode ← required_value "mode" data_ name
  override_of (mode_of mode) (get_field "artifact" data_) name

pub record Lineage : Type 0 where
  pub training_run : Option String
  pub dataset_version : Option String
  pub input_artifacts : Option (List ArtifactRef)
  pub derived_from_model_version : Option String

-- `if name in data: _validate_resource_uri(...)`
unfoldable pub optional_uri : Option Value → String → Result VersionError (Option String)
optional_uri none name = ok none
optional_uri (some (Value.text s)) name = do
  raise_if (not (is_resource_uri s)) (invalid_uri name)
  ok (some s)
optional_uri (some _) name = err (invalid_uri name)

unfoldable pub artifact_list : Items → String → Result VersionError (List ArtifactRef)
unfolding normalize_artifact_ref
artifact_list Items.nil name = ok []
artifact_list (Items.cons x xs) name = do
  a ← normalize_artifact_ref x name false
  rest ← artifact_list xs name
  ok (a ∷ rest)

unfoldable pub optional_artifacts :
    Option Value → String → Result VersionError (Option (List ArtifactRef))
unfolding artifact_list
optional_artifacts none name = ok none
optional_artifacts (some (Value.array xs)) name = do
  artifacts ← artifact_list xs name
  ok (some artifacts)
optional_artifacts (some _) name = err (not_an_array name)

unfoldable pub optional_derived : Option Value → Result VersionError (Option String)
optional_derived none = ok none
optional_derived (some (Value.text s)) = do
  raise_if (not (is_model_version_id s)) invalid_derived
  ok (some s)
optional_derived (some _) = err invalid_derived

-- _normalize_lineage
unfoldable pub normalize_lineage : Value → Result VersionError Lineage
unfolding as_json_object expect_json_keys get_field optional_uri optional_artifacts optional_derived
normalize_lineage value = do
  data_ ← as_json_object value "lineage"
  expect_json_keys data_ []
      ("trainingRun" ∷ "datasetVersion" ∷ "inputArtifacts" ∷ "derivedFromModelVersion" ∷ [])
      "lineage"
  run ← optional_uri (get_field "trainingRun" data_) "lineage.trainingRun"
  dataset ← optional_uri (get_field "datasetVersion" data_) "lineage.datasetVersion"
  artifacts ← optional_artifacts (get_field "inputArtifacts" data_) "lineage.inputArtifacts"
  derived ← optional_derived (get_field "derivedFromModelVersion" data_)
  ok (record {
    training_run = run;
    dataset_version = dataset;
    input_artifacts = artifacts;
    derived_from_model_version = derived;
  })

pub record BaseModel : Type 0 where
  pub artifact : ArtifactRef
  pub repository : String
  pub revision : String

-- A value that must be a text with a property.
abbrev pub text_that : (String → Bool) → VersionError → Value → Result VersionError String
text_that test e (Value.text s) = if test s then ok s else err e
text_that test e _ = err e

unfoldable pub base_artifact : Fields → Result VersionError ArtifactRef
unfolding required_value normalize_artifact_ref
base_artifact data_ = do
  value ← required_value "artifact" data_ "baseModel"
  normalize_artifact_ref value "baseModel.artifact" true

-- The base model, of the object that is its source.
unfoldable pub sourced_base : Fields → Fields → Result VersionError BaseModel
unfolding required_value base_artifact
sourced_base data_ source = do
  repository_value ← required_value "repository" source "baseModel.source"
  revision_value ← required_value "revision" source "baseModel.source"
  repository ← text_that is_repository invalid_repository repository_value
  revision ← text_that is_revision invalid_revision revision_value
  artifact ← base_artifact data_
  ok (record { artifact = artifact; repository = repository; revision = revision })

-- _normalize_base_model
unfoldable pub normalize_base_model : Value → Result VersionError BaseModel
unfolding as_json_object expect_json_keys required_value sourced_base
normalize_base_model value = do
  data_ ← as_json_object value "baseModel"
  expect_json_keys data_ ("artifact" ∷ "source" ∷ []) [] "baseModel"
  source_value ← required_value "source" data_ "baseModel"
  source ← as_json_object source_value "baseModel.source"
  expect_json_keys source ("repository" ∷ "revision" ∷ []) [] "baseModel.source"
  sourced_base data_ source

-- What is composed: a full model, or a base model with an adapter.
pub data Composition : Type 0 where
  full_model base_plus_lora : Composition

pub data Parts : Type 0 where
  full : ArtifactRef → Parts
  adapted : BaseModel → ArtifactRef → Parts

pub record Payload : Type 0 where
  pub parts : Parts
  pub tokenizer : Override
  pub chat_template : Override
  pub lineage : Lineage

unfoldable pub composition_of : Option Value → Result VersionError Composition
composition_of (some (Value.text s)) =
    if s == "FULL_MODEL"
    then ok full_model
    else if s == "BASE_PLUS_LORA"
    then ok base_plus_lora
    else err invalid_composition
composition_of _ = err invalid_composition

abbrev pub part_names : Composition → List String
part_names full_model = "fullModelArtifact" ∷ []
part_names base_plus_lora = "baseModel" ∷ "adapterArtifact" ∷ []

abbrev pub required_names : Composition → Bool → List String
required_names c require_id =
    "schemaVersion" ∷ "composition" ∷ "tokenizer" ∷ "chatTemplate" ∷ "lineage" ∷ part_names c
    ++ (if require_id then "id" ∷ [] else [])

abbrev pub optional_names : Bool → List String
optional_names require_id = if require_id then [] else "id" ∷ []

-- The id of a document that must have one.
unfoldable pub required_id : Fields → Bool → Result VersionError (Option String)
unfolding required_value
required_id data_ false = ok none
required_id data_ true = do
  value ← required_value "id" data_ "model version"
  id ← text_that is_model_version_id invalid_id value
  ok (some id)

unfoldable pub normalize_parts : Composition → Fields → Result VersionError Parts
unfolding required_value normalize_artifact_ref normalize_base_model
normalize_parts full_model data_ = do
  value ← required_value "fullModelArtifact" data_ "model version"
  a ← normalize_artifact_ref value "fullModelArtifact" true
  ok (full a)
normalize_parts base_plus_lora data_ = do
  base_value ← required_value "baseModel" data_ "model version"
  base ← normalize_base_model base_value
  value ← required_value "adapterArtifact" data_ "model version"
  adapter ← normalize_artifact_ref value "adapterArtifact" true
  raise_if (base.artifact.digest == adapter.digest) same_artifacts
  ok (adapted base adapter)

abbrev pub is_schema_version : Value → Bool
is_schema_version (Value.text s) = s == "1"
is_schema_version _ = false

unfoldable pub read_override : String → Fields → Result VersionError Override
unfolding required_value normalize_override
read_override name data_ = do
  value ← required_value name data_ "model version"
  normalize_override value name

unfoldable pub read_lineage : Fields → Result VersionError Lineage
unfolding required_value normalize_lineage
read_lineage data_ = do
  value ← required_value "lineage" data_ "model version"
  normalize_lineage value

-- The contents, in the order in which they are read.
unfoldable pub read_payload : Composition → Fields → Result VersionError Payload
unfolding normalize_parts read_override read_lineage
read_payload composition data_ = do
  parts ← normalize_parts composition data_
  tokenizer ← read_override "tokenizer" data_
  chat_template ← read_override "chatTemplate" data_
  lineage ← read_lineage data_
  ok (record {
    parts = parts;
    tokenizer = tokenizer;
    chat_template = chat_template;
    lineage = lineage;
  })

-- The version of the schema, and the id of a document that must have one.
unfoldable pub read_head : Fields → Bool → Result VersionError (Option String)
unfolding required_value required_id
read_head data_ require_id = do
  schema_version ← required_value "schemaVersion" data_ "model version"
  raise_if (not (is_schema_version schema_version)) invalid_schema_version
  required_id data_ require_id

-- The document of a composition, once its composition is known.
unfoldable pub composed :
    Fields → Bool → Composition → Result VersionError (Payload × Option String)
unfolding expect_json_keys read_head read_payload
composed data_ require_id composition = do
  expect_json_keys data_ (required_names composition require_id) (optional_names require_id)
      "model version"
  id ← read_head data_ require_id
  payload ← read_payload composition data_
  ok (payload, id)

-- _normalize_model_version_payload: the normalised payload, and its id if one is required
unfoldable pub normalize_payload : Value → Bool → Result VersionError (Payload × Option String)
unfolding has_float has_float_fields as_json_object get_field composition_of composed
normalize_payload payload require_id = do
  raise_if (has_float payload) floating_point
  data_ ← as_json_object payload "model version"
  composition ← composition_of (get_field "composition" data_)
  composed data_ require_id composition

-- The dictionaries of what is normalised.
abbrev pub set_optional : String → Option Value → Fields → Fields
set_optional name none rest = rest
set_optional name (some v) rest = Fields.field name v rest

abbrev pub optional_text : Option String → Option Value
optional_text none = none
optional_text (some s) = some (Value.text s)

unfoldable pub override_document : Override → Fields
override_document inherited = Fields.field "mode" (Value.text "INHERIT") Fields.end
override_document (overridden a) =
    Fields.field "mode" (Value.text "OVERRIDE")
      (Fields.field "artifact" (Value.object (artifact_document a)) Fields.end)

unfoldable pub artifact_items : List ArtifactRef → Items
artifact_items [] = Items.nil
artifact_items (a ∷ rest) = Items.cons (Value.object (artifact_document a)) (artifact_items rest)

abbrev pub optional_items : Option (List ArtifactRef) → Option Value
optional_items none = none
optional_items (some artifacts) = some (Value.array (artifact_items artifacts))

unfoldable pub lineage_document : Lineage → Fields
lineage_document l = set_optional "trainingRun" (optional_text l.training_run) (
    set_optional "datasetVersion" (optional_text l.dataset_version) (
      set_optional "inputArtifacts" (optional_items l.input_artifacts) (
        set_optional "derivedFromModelVersion" (optional_text l.derived_from_model_version)
          Fields.end)))

unfoldable pub base_document : BaseModel → Fields
base_document b = Fields.field "artifact" (Value.object (artifact_document b.artifact)) (
    Fields.field "source"
      (Value.object (
        Fields.field "repository" (Value.text b.repository)
          (Fields.field "revision" (Value.text b.revision) Fields.end)))
      Fields.end)

abbrev pub with_parts : Parts → Fields → Fields
with_parts (full a) rest =
    Fields.field "fullModelArtifact" (Value.object (artifact_document a)) rest
with_parts (adapted base adapter) rest =
    Fields.field "baseModel" (Value.object (base_document base))
      (Fields.field "adapterArtifact" (Value.object (artifact_document adapter)) rest)

abbrev pub composition_text : Parts → String
composition_text (full a) = "FULL_MODEL"
composition_text (adapted base adapter) = "BASE_PLUS_LORA"

-- The document of a payload, with its id where one is given.
unfoldable pub payload_document : Payload → Option String → Fields
unfolding override_document lineage_document base_document artifact_document
payload_document p id = Fields.field "schemaVersion" (Value.text "1") (
    Fields.field "composition" (Value.text (composition_text p.parts)) (
      set_optional "id" (optional_text id) (
        with_parts p.parts (
          Fields.field "tokenizer" (Value.object (override_document p.tokenizer)) (
            Fields.field "chatTemplate" (Value.object (override_document p.chat_template))
              (Fields.field "lineage" (Value.object (lineage_document p.lineage)) Fields.end))))))

-- ModelVersion, which is frozen: `_payload` and `_id`
pub record ModelVersion : Type 0 where
  pub payload : Payload
  pub id : String

-- identity_payload
abbrev pub identity_payload : ModelVersion → Fields
identity_payload m = payload_document m.payload none

-- to_dict
abbrev pub to_dict : ModelVersion → Fields
to_dict m = payload_document m.payload (some m.id)

module _ (digest_of : Fields → String) where
  -- _model_version_id
  unfoldable pub model_version_id : Payload → String
  unfolding payload_document
  model_version_id p = concat id_prefix (digest_of (payload_document p none))

  -- create
  unfoldable pub create : Value → Result VersionError ModelVersion
  unfolding as_json_object normalize_payload model_version_id
  create payload = do
    data_ ← as_json_object payload "model version"
    raise_if (contains "id" (field_names data_)) id_given
    normalized ← normalize_payload (Value.object data_) false
    ok (record { payload = normalized.0; id = model_version_id normalized.0 })

  -- The comparison of from_dict.
  unfoldable pub identified : Payload × Option String → Result VersionError ModelVersion
  unfolding model_version_id
  identified (p, none) = err invalid_id
  identified (p, some id) = do
    raise_if (not (id == model_version_id p)) id_mismatch
    ok (record { payload = p; id = id })

  -- from_dict
  unfoldable pub from_dict : Value → Result VersionError ModelVersion
  unfolding normalize_payload identified
  from_dict payload = do normalized ← normalize_payload payload true; identified normalized
