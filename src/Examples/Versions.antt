-- ===== src/Examples/Versions.antt =====
-- A model version of a base model and an adapter, created and read back.
use cyrene_yield.Common.{
  ◌≡◌, refl, inl, String, true, none, some, concat, codes, is_hex_digest, is_digest, ok, err,
}
use cyrene_yield.Values.{Value, Fields, field_names}
use cyrene_yield.ModelVersion.{
  ModelVersion, create, from_dict, to_dict, adapted, inherited, payload_document,
}
use cyrene_yield.ModelVersion.Artifacts.{ArtifactRef, model, same_artifacts, kind_of}
use cyrene_yield.ModelVersion.Texts.{
  is_repository, is_revision, is_resource_uri, is_model_version_id,
}
use cyrene_yield.ModelVersion.RoundTrip.{
  IsModelVersion, to_dict-from_dict, from_dict-IsModelVersion,
}

abbrev hex_a : String
hex_a = "0123456789abcdef0123456789abcdef0123456789abcdef0123456789abcdef"

abbrev hex_b : String
hex_b = "ffffffffffffffffffffffffffffffffffffffffffffffffffffffffffffffff"

abbrev digest_all : Fields → String
digest_all payload = hex_a

abbrev portable : String → Value
portable uri_digest = Value.object (
    Fields.field "kind" (Value.text "model") (
      Fields.field "digest" (Value.text (concat "sha256:" uri_digest)) (
        Fields.field "manifest_digest" (Value.text (concat "sha256:" uri_digest)) (
          Fields.field "size_bytes" (Value.int 12) (
            Fields.field "uri" (Value.text (concat "artifact://sha256/" uri_digest)) Fields.end)))))

abbrev with_adapter : String → Value
with_adapter adapter = Value.object (
    Fields.field "composition" (Value.text "BASE_PLUS_LORA") (
      Fields.field "schemaVersion" (Value.text "1") (
        Fields.field "baseModel"
          (Value.object (
            Fields.field "artifact" (portable hex_a) (
              Fields.field "source"
                (Value.object (
                  Fields.field "repository" (Value.text "org/base") (
                    Fields.field "revision" (Value.text "0123456789abcdef0123456789abcdef01234567")
                      Fields.end)))
                Fields.end)))
          (Fields.field "adapterArtifact" (portable adapter) (
            Fields.field "tokenizer"
              (Value.object (Fields.field "mode" (Value.text "INHERIT") Fields.end))
              (Fields.field "chatTemplate"
                (Value.object (Fields.field "mode" (Value.text "INHERIT") Fields.end))
                (Fields.field "lineage"
                  (Value.object
                    (Fields.field "trainingRun" (Value.text "training-run://1") Fields.end))
                  Fields.end)))))))

abbrev reference : String → ArtifactRef
reference hex = record {
  uri = concat "artifact://sha256/" hex;
  digest = concat "sha256:" hex;
  size_bytes = 12;
  kind = model;
  manifest_digest = some (concat "sha256:" hex);
}

abbrev version : ModelVersion
version = record {
  payload = record {
    parts =
        adapted
          (record {
            artifact = reference hex_a;
            repository = "org/base";
            revision = "0123456789abcdef0123456789abcdef01234567";
          })
          (reference hex_b);
    tokenizer = inherited;
    chat_template = inherited;
    lineage = record {
      training_run = some "training-run://1";
      dataset_version = none;
      input_artifacts = none;
      derived_from_model_version = none;
    };
  };
  id = concat "model-version://sha256/" hex_a;
}

creates : create digest_all (with_adapter hex_b) ≡ ok version
unfolding create field_names is_repository is_revision is_digest kind_of is_resource_uri
creates = refl

refuses_itself : create digest_all (with_adapter hex_a) ≡ err same_artifacts
unfolding create field_names is_repository is_revision is_digest kind_of is_resource_uri
refuses_itself = refl

formed : (payload : Fields) → is_hex_digest (some (codes (digest_all payload))) ≡ true
unfolding codes
formed payload = refl

to_dict-from_dict_example : from_dict digest_all (Value.object (to_dict version)) ≡ ok version
to_dict-from_dict_example =
    to_dict-from_dict digest_all (with_adapter hex_b) version formed (inl creates)

reads : from_dict digest_all (Value.object (to_dict version)) ≡ ok version
unfolding from_dict payload_document field_names is_model_version_id is_repository is_revision
    is_digest kind_of is_resource_uri
reads = refl

from_dict-IsModelVersion_example : IsModelVersion digest_all version
from_dict-IsModelVersion_example =
    from_dict-IsModelVersion digest_all (Value.object (to_dict version)) version reads
