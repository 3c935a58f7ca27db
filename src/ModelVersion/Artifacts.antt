-- ===== src/ModelVersion/Artifacts.antt =====
-- The references to artifacts in model_version.py: _normalize_artifact_ref with its checks, and
-- YieldArtifactKind of artifact_kind.py.
use cyrene_yield.Common.{
  ℕ, String, Bool, true, false, not, ◌||◌, Option, none, some, List, [], ◌∷◌, ◌==◌, contains, any,
  leb, same_option, is_empty, is_digest, Result, ok, err, ◌>>=◌, ◌>>◌, raise_if, if◌then◌else◌,
}
use cyrene_yield.Values.{Value, Fields, get_field, field_names}
use cyrene_yield.ModelVersion.Texts.{artifact_uri}

-- ValueError, by its message; the text is the name of the field.
pub data VersionError : Type 0 where
  floating_point invalid_derived invalid_repository invalid_revision invalid_composition :
      VersionError
  invalid_schema_version invalid_id same_artifacts id_given id_mismatch : VersionError
  not_an_object unknown_fields missing_fields not_an_integer unsafe_integer : String → VersionError
  not_texts invalid_digest uri_mismatch kind_not_text unsupported_kind : String → VersionError
  invalid_manifest not_a_model not_portable invalid_uri invalid_mode : String → VersionError
  artifact_forbidden artifact_required not_an_array : String → VersionError

-- YieldArtifactKind
pub data ArtifactKind : Type 0 where
  generic model dataset checkpoint training_spec metrics report : ArtifactKind

unfoldable pub kind_text : ArtifactKind → String
kind_text generic = "generic"
kind_text model = "model"
kind_text dataset = "dataset"
kind_text checkpoint = "checkpoint"
kind_text training_spec = "training_spec"
kind_text metrics = "metrics"
kind_text report = "report"

unfoldable pub kind_among : List ArtifactKind → String → Option ArtifactKind
unfolding kind_text
kind_among [] s = none
kind_among (k ∷ ks) s = let rest = kind_among ks s in if kind_text k == s then some k else rest

-- YieldArtifactKind(text)
unfoldable pub kind_of : String → Option ArtifactKind
unfolding kind_among
kind_of s =
    kind_among (generic ∷ model ∷ dataset ∷ checkpoint ∷ training_spec ∷ metrics ∷ report ∷ []) s

abbrev pub is_model : ArtifactKind → Bool
is_model model = true
is_model _ = false

pub record ArtifactRef : Type 0 where
  pub uri : String
  pub digest : String
  pub size_bytes : ℕ
  pub kind : ArtifactKind
  pub manifest_digest : Option String

-- _as_json_object
unfoldable pub as_json_object : Value → String → Result VersionError Fields
as_json_object (Value.object fs) name = ok fs
as_json_object _ name = err (not_an_object name)

-- _expect_json_keys
unfoldable pub expect_json_keys :
    Fields → List String → List String → String → Result VersionError (Unit {0})
expect_json_keys value required optional name = do
  raise_if (any (λ k. not (contains k required || contains k optional)) (field_names value))
      (unknown_fields name)
  raise_if (any (λ k. not (contains k (field_names value))) required) (missing_fields name)

-- data[key], of a key that is there
unfoldable pub required_value : String → Fields → String → Result VersionError Value
required_value key data_ name = elim (get_field key data_) [
  | none ↦ err (missing_fields name)
  | some v ↦ ok v
]

abbrev pub text_of : Value → Option String
text_of (Value.text s) = some s
text_of _ = none

abbrev pub both_texts :
    Option String → Option String → String → Result VersionError (String × String)
both_texts (some a) (some b) name = ok (a, b)
both_texts _ _ name = err (not_texts name)

-- _safe_integer
unfoldable pub safe_integer : Value → String → Result VersionError ℕ
safe_integer (Value.int n) name = if leb n 9007199254740991 then ok n else err (unsafe_integer name)
safe_integer (Value.negative n) name = err (unsafe_integer name)
safe_integer _ name = err (not_an_integer name)

unfoldable pub artifact_kind : Value → String → Result VersionError ArtifactKind
artifact_kind (Value.text s) name = elim (kind_of s) [
  | none ↦ err (unsupported_kind name)
  | some k ↦ ok k
]
artifact_kind _ name = err (kind_not_text name)

-- The digest of the manifest, where the key is there.
unfoldable pub manifest_of : Option Value → String → Result VersionError (Option String)
manifest_of none name = ok none
manifest_of (some (Value.text s)) name = do
  raise_if (is_empty s) (invalid_manifest name)
  raise_if (not (is_digest s)) (invalid_digest name)
  ok (some s)
manifest_of (some _) name = err (invalid_manifest name)

-- The test of an artifact that must be a portable model.
unfoldable pub check_portable : Bool → ArtifactRef → String → Result VersionError (Unit {0})
check_portable false a name = ok tt
check_portable true a name = do
  raise_if (not (is_model a.kind)) (not_a_model name)
  raise_if (not (same_option a.manifest_digest (some a.digest))) (not_portable name)

-- The uri and the digest must name the same content.
unfoldable pub check_uri : String → String × String → Result VersionError (String × String)
unfolding artifact_uri
check_uri name texts = do
  raise_if (not (is_digest texts.1)) (invalid_digest name)
  raise_if (not (texts.0 == artifact_uri texts.1)) (uri_mismatch name)
  ok texts

unfoldable pub read_uri : Fields → String → Result VersionError (String × String)
unfolding required_value check_uri
read_uri data_ name = do
  uri_value ← required_value "uri" data_ name
  digest_value ← required_value "digest" data_ name
  texts ← both_texts (text_of uri_value) (text_of digest_value) name
  check_uri name texts

unfoldable pub read_size : Fields → String → Result VersionError ℕ
unfolding required_value safe_integer
read_size data_ name = do value ← required_value "size_bytes" data_ name; safe_integer value name

unfoldable pub read_kind : Fields → String → Result VersionError ArtifactKind
unfolding required_value artifact_kind
read_kind data_ name = do value ← required_value "kind" data_ name; artifact_kind value name

abbrev pub new_artifact : String × String → ℕ → ArtifactKind → Option String → ArtifactRef
new_artifact texts size kind manifest = record {
  uri = texts.0;
  digest = texts.1;
  size_bytes = size;
  kind = kind;
  manifest_digest = manifest;
}

-- What is read of a reference, in its order.
unfoldable pub read_artifact : Fields → String → Result VersionError ArtifactRef
unfolding read_uri read_size read_kind manifest_of get_field
read_artifact data_ name = do
  texts ← read_uri data_ name
  size ← read_size data_ name
  kind ← read_kind data_ name
  manifest ← manifest_of (get_field "manifest_digest" data_) name
  ok (new_artifact texts size kind manifest)

-- _normalize_artifact_ref
unfoldable pub normalize_artifact_ref : Value → String → Bool → Result VersionError ArtifactRef
unfolding as_json_object expect_json_keys read_artifact check_portable
normalize_artifact_ref value name require_portable_model = do
  data_ ← as_json_object value name
  expect_json_keys data_ ("uri" ∷ "digest" ∷ "size_bytes" ∷ "kind" ∷ []) ("manifest_digest" ∷ [])
      name
  a ← read_artifact data_ name
  check_portable require_portable_model a name
  ok a

abbrev pub set_manifest : Option String → Fields → Fields
set_manifest none rest = rest
set_manifest (some s) rest = Fields.field "manifest_digest" (Value.text s) rest

-- The dictionary of a reference.
unfoldable pub artifact_document : ArtifactRef → Fields
artifact_document a = Fields.field "uri" (Value.text a.uri) (
    Fields.field "digest" (Value.text a.digest) (
      Fields.field "size_bytes" (Value.int a.size_bytes) (
        Fields.field "kind" (Value.text (kind_text a.kind))
          (set_manifest a.manifest_digest Fields.end))))
