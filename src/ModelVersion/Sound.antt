-- ===== src/ModelVersion/Sound.antt =====
-- What the normalisers of model_version.py return is what the contract admits.
use cyrene_yield.Common.{
  String, ◌≡◌, subst, Bool, true, [], ◌∷◌, ◌==◌, ok, err, ◌>>=◌, ◌>>◌, raise_if, raise_if-ok,
  >>=-eq-ok, Bool-cases, inl, inr,
}
use cyrene_yield.Values.{Value, Fields}
use cyrene_yield.ModelVersion.Texts.{is_repository, is_revision}
use cyrene_yield.ModelVersion.Artifacts.{
  VersionError, invalid_repository, invalid_revision, same_artifacts, ArtifactRef, as_json_object,
  expect_json_keys, required_value, normalize_artifact_ref,
}
use cyrene_yield.ModelVersion.Accepted.{IsArtifact, normalize_artifact_ref-IsArtifact}
use cyrene_yield.ModelVersion.{
  Override, Lineage, BaseModel, Composition, full_model, base_plus_lora, Parts, full, adapted,
  Payload, text_that, base_artifact, sourced_base, read_override, read_lineage, read_payload,
  normalize_override, normalize_lineage, normalize_base_model, normalize_parts,
}
use cyrene_yield.ModelVersion.Documents.{IsOverride, IsLineage, IsBaseModel, IsParts, IsPayload}
use cyrene_yield.ModelVersion.Lineages.{normalize_override-IsOverride, normalize_lineage-IsLineage}

pub text_that-ok :
    (test : String → Bool) (e : VersionError) (v : Value) (s : String)
    → text_that test e v ≡ ok s
    → test s ≡ true
text_that-ok test e (Value.text t) s h = elim (Bool-cases (test t)) [
  | inl yes_it ↦
      let r : ok t ≡ ok s = rw yes_it at h in
      let same : t ≡ s = cc r in subst (λ z. test z ≡ true) same yes_it
  | inr not_it ↦ let r : err e ≡ ok s = rw not_it at h in cc r
]
text_that-ok test e _ s h = cc h

abbrev base_of : ArtifactRef → String → String → BaseModel
base_of artifact repository revision = record {
  artifact = artifact;
  repository = repository;
  revision = revision;
}

base_artifact-IsArtifact :
    (d : Fields) (a : ArtifactRef) → base_artifact d ≡ ok a → IsArtifact true a
unfolding base_artifact
base_artifact-IsArtifact d a h =
    let (v, ev, r) =
      >>=-eq-ok (required_value "artifact" d "baseModel")
        (λ v. normalize_artifact_ref v "baseModel.artifact" true) h in
    normalize_artifact_ref-IsArtifact v "baseModel.artifact" true a r

sourced_base-IsBaseModel :
    (d source : Fields) (b : BaseModel) → sourced_base d source ≡ ok b → IsBaseModel b
unfolding sourced_base
sourced_base-IsBaseModel d source b h =
    let (rv, erv, h₁) =
      >>=-eq-ok (required_value "repository" source "baseModel.source")
        (λ rv. do
          revision_value ← required_value "revision" source "baseModel.source"
          repository ← text_that is_repository invalid_repository rv
          revision ← text_that is_revision invalid_revision revision_value
          artifact ← base_artifact d
          ok (base_of artifact repository revision))
        h in
    let (vv, evv, h₂) =
      >>=-eq-ok (required_value "revision" source "baseModel.source")
        (λ revision_value. do
          repository ← text_that is_repository invalid_repository rv
          revision ← text_that is_revision invalid_revision revision_value
          artifact ← base_artifact d
          ok (base_of artifact repository revision))
        h₁ in
    let (repository, er, h₃) =
      >>=-eq-ok (text_that is_repository invalid_repository rv)
        (λ repository. do
          revision ← text_that is_revision invalid_revision vv
          artifact ← base_artifact d
          ok (base_of artifact repository revision))
        h₂ in
    let (revision, ev, h₄) =
      >>=-eq-ok (text_that is_revision invalid_revision vv)
        (λ revision. do artifact ← base_artifact d; ok (base_of artifact repository revision)) h₃ in
    let (artifact, ea, h₅) =
      >>=-eq-ok (base_artifact d) (λ artifact. ok (base_of artifact repository revision)) h₄ in
    let same : base_of artifact repository revision ≡ b = cc h₅ in
    subst IsBaseModel same (record {
      artifact = base_artifact-IsArtifact d artifact ea;
      repository = text_that-ok is_repository invalid_repository rv repository er;
      revision = text_that-ok is_revision invalid_revision vv revision ev;
    })

-- The base model of a source that is an object with its two keys.
normalize_base_model-IsBaseModel :
    (v : Value) (b : BaseModel) → normalize_base_model v ≡ ok b → IsBaseModel b
unfolding normalize_base_model
normalize_base_model-IsBaseModel v b h =
    let (d, ed, h₁) =
      >>=-eq-ok (as_json_object v "baseModel")
        (λ d. do
          expect_json_keys d ("artifact" ∷ "source" ∷ []) [] "baseModel"
          source_value ← required_value "source" d "baseModel"
          source ← as_json_object source_value "baseModel.source"
          expect_json_keys source ("repository" ∷ "revision" ∷ []) [] "baseModel.source"
          sourced_base d source)
        h in
    let (u, eu, h₂) =
      >>=-eq-ok (expect_json_keys d ("artifact" ∷ "source" ∷ []) [] "baseModel")
        (λ u. do
          source_value ← required_value "source" d "baseModel"
          source ← as_json_object source_value "baseModel.source"
          expect_json_keys source ("repository" ∷ "revision" ∷ []) [] "baseModel.source"
          sourced_base d source)
        h₁ in
    let (sv, es, h₃) =
      >>=-eq-ok (required_value "source" d "baseModel")
        (λ source_value. do
          source ← as_json_object source_value "baseModel.source"
          expect_json_keys source ("repository" ∷ "revision" ∷ []) [] "baseModel.source"
          sourced_base d source)
        h₂ in
    let (source, eo, h₄) =
      >>=-eq-ok (as_json_object sv "baseModel.source")
        (λ source. do
          expect_json_keys source ("repository" ∷ "revision" ∷ []) [] "baseModel.source"
          sourced_base d source)
        h₃ in
    let (w, ew, h₅) =
      >>=-eq-ok (expect_json_keys source ("repository" ∷ "revision" ∷ []) [] "baseModel.source")
        (λ w. sourced_base d source) h₄ in
    sourced_base-IsBaseModel d source b h₅

normalize_parts-IsParts :
    (c : Composition) (d : Fields) (p : Parts) → normalize_parts c d ≡ ok p → IsParts p
unfolding normalize_parts
normalize_parts-IsParts full_model d p h =
    let (v, ev, h₁) =
      >>=-eq-ok (required_value "fullModelArtifact" d "model version")
        (λ v. do a ← normalize_artifact_ref v "fullModelArtifact" true; ok (full a)) h in
    let (a, ea, h₂) =
      >>=-eq-ok (normalize_artifact_ref v "fullModelArtifact" true) (λ a. ok (full a)) h₁ in
    let same : full a ≡ p = cc h₂ in
    subst IsParts same (normalize_artifact_ref-IsArtifact v "fullModelArtifact" true a ea)
normalize_parts-IsParts base_plus_lora d p h =
    let (bv, ebv, h₁) =
      >>=-eq-ok (required_value "baseModel" d "model version")
        (λ bv. do
          base ← normalize_base_model bv
          value ← required_value "adapterArtifact" d "model version"
          adapter ← normalize_artifact_ref value "adapterArtifact" true
          raise_if (base.artifact.digest == adapter.digest) same_artifacts
          ok (adapted base adapter))
        h in
    let (base, eb, h₂) =
      >>=-eq-ok (normalize_base_model bv)
        (λ base. do
          value ← required_value "adapterArtifact" d "model version"
          adapter ← normalize_artifact_ref value "adapterArtifact" true
          raise_if (base.artifact.digest == adapter.digest) same_artifacts
          ok (adapted base adapter))
        h₁ in
    let (value, ev, h₃) =
      >>=-eq-ok (required_value "adapterArtifact" d "model version")
        (λ value. do
          adapter ← normalize_artifact_ref value "adapterArtifact" true
          raise_if (base.artifact.digest == adapter.digest) same_artifacts
          ok (adapted base adapter))
        h₂ in
    let (adapter, ea, h₄) =
      >>=-eq-ok (normalize_artifact_ref value "adapterArtifact" true)
        (λ adapter. do
          raise_if (base.artifact.digest == adapter.digest) same_artifacts
          ok (adapted base adapter))
        h₃ in
    let (differ, h₅) =
      raise_if-ok (base.artifact.digest == adapter.digest) same_artifacts
        (ok (adapted base adapter)) h₄ in
    let same : adapted base adapter ≡ p = cc h₅ in
    subst IsParts same (
      normalize_base_model-IsBaseModel bv base eb,
      normalize_artifact_ref-IsArtifact value "adapterArtifact" true adapter ea,
      differ,
    )

read_override-IsOverride :
    (name : String) (d : Fields) (o : Override) → read_override name d ≡ ok o → IsOverride o
unfolding read_override
read_override-IsOverride name d o h =
    let (v, ev, r) =
      >>=-eq-ok (required_value name d "model version") (λ v. normalize_override v name) h in
    normalize_override-IsOverride v name o r

read_lineage-IsLineage : (d : Fields) (l : Lineage) → read_lineage d ≡ ok l → IsLineage l
unfolding read_lineage
read_lineage-IsLineage d l h =
    let (v, ev, r) = >>=-eq-ok (required_value "lineage" d "model version") normalize_lineage h in
    normalize_lineage-IsLineage v l r

abbrev payload_of : Parts → Override → Override → Lineage → Payload
payload_of parts tokenizer chat_template lineage = record {
  parts = parts;
  tokenizer = tokenizer;
  chat_template = chat_template;
  lineage = lineage;
}

pub read_payload-IsPayload :
    (c : Composition) (d : Fields) (p : Payload) → read_payload c d ≡ ok p → IsPayload p
unfolding read_payload
read_payload-IsPayload c d p h =
    let (parts, ep, h₁) =
      >>=-eq-ok (normalize_parts c d)
        (λ parts. do
          tokenizer ← read_override "tokenizer" d
          chat_template ← read_override "chatTemplate" d
          lineage ← read_lineage d
          ok (payload_of parts tokenizer chat_template lineage))
        h in
    let (tokenizer, et, h₂) =
      >>=-eq-ok (read_override "tokenizer" d)
        (λ tokenizer. do
          chat_template ← read_override "chatTemplate" d
          lineage ← read_lineage d
          ok (payload_of parts tokenizer chat_template lineage))
        h₁ in
    let (template, em, h₃) =
      >>=-eq-ok (read_override "chatTemplate" d)
        (λ chat_template. do
          lineage ← read_lineage d
          ok (payload_of parts tokenizer chat_template lineage))
        h₂ in
    let (lineage, el, h₄) =
      >>=-eq-ok (read_lineage d) (λ lineage. ok (payload_of parts tokenizer template lineage)) h₃ in
    let same : payload_of parts tokenizer template lineage ≡ p = cc h₄ in
    subst IsPayload same (record {
      parts = normalize_parts-IsParts c d parts ep;
      tokenizer = read_override-IsOverride "tokenizer" d tokenizer et;
      chat_template = read_override-IsOverride "chatTemplate" d template em;
      lineage = read_lineage-IsLineage d lineage el;
    })
