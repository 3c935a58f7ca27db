-- ===== src/ModelVersion/Rereading.antt =====
-- What the normalisation of model_version.py makes of a document that to_dict writes.
use cyrene_yield.Common.{
  is_hex_digest, codes, codes-concat, after_prefix, after_prefix-append, String, ◌≡◌, refl, subst,
  ap, ◌∙◌, Bool, true, false, not, Option, some, concat, ok, ◌>>=◌, ◌>>◌, raise_if, raise_if-ok,
  >>=-eq-ok,
}
use cyrene_yield.Values.{Value, Fields, get_field, field_names}
use cyrene_yield.ModelVersion.Texts.{is_model_version_id, id_prefix}
use cyrene_yield.ModelVersion.Artifacts.{
  floating_point, invalid_schema_version, invalid_id, as_json_object, expect_json_keys,
  required_value,
}
use cyrene_yield.ModelVersion.Accepted.{artifact_accepted}
use cyrene_yield.ModelVersion.{
  Override, Lineage, BaseModel, Composition, full_model, base_plus_lora, Parts, full, adapted,
  Payload, text_that, read_override, read_lineage, read_payload, read_head, composed,
  required_names, optional_names, is_schema_version, has_float, has_float_fields, composition_of,
  required_id, normalize_parts, normalize_payload, optional_text, override_document, optional_items,
  lineage_document, base_document, with_parts, payload_document,
}
use cyrene_yield.ModelVersion.Documents.{
  IsPayload, override_accepted, base_accepted, lineage_accepted, artifact_no_float,
  override_no_float, set_optional_no_float, text_no_float, optional_items_no_float,
}
use cyrene_yield.ModelVersion.Sound.{read_payload-IsPayload, text_that-ok}

base_no_float : (b : BaseModel) → has_float_fields (base_document b) ≡ false
unfolding has_float has_float_fields base_document
base_no_float b = rw (artifact_no_float b.artifact) refl

lineage_no_float : (l : Lineage) → has_float_fields (lineage_document l) ≡ false
unfolding lineage_document has_float_fields
lineage_no_float l =
    set_optional_no_float "trainingRun" (optional_text l.training_run) _
      (text_no_float l.training_run)
      (set_optional_no_float "datasetVersion" (optional_text l.dataset_version) _
        (text_no_float l.dataset_version)
        (set_optional_no_float "inputArtifacts" (optional_items l.input_artifacts) _
          (optional_items_no_float l.input_artifacts)
          (set_optional_no_float "derivedFromModelVersion"
            (optional_text l.derived_from_model_version) Fields.end
            (text_no_float l.derived_from_model_version) refl)))

parts_no_float :
    (p : Parts) (rest : Fields)
    → has_float_fields rest ≡ false
    → has_float_fields (with_parts p rest) ≡ false
unfolding has_float has_float_fields
parts_no_float (full a) rest h = rw (artifact_no_float a, h) refl
parts_no_float (adapted base adapter) rest h =
    rw (base_no_float base, artifact_no_float adapter, h) refl

document_no_float :
    (p : Payload) (id : String) → has_float (Value.object (payload_document p (some id))) ≡ false
unfolding has_float has_float_fields payload_document
document_no_float p id =
    parts_no_float p.parts
      (Fields.field "tokenizer" (Value.object (override_document p.tokenizer)) (
        Fields.field "chatTemplate" (Value.object (override_document p.chat_template))
          (Fields.field "lineage" (Value.object (lineage_document p.lineage)) Fields.end)))
      (rw
        (
          override_no_float p.tokenizer,
          override_no_float p.chat_template,
          lineage_no_float p.lineage,
        )
        refl)

abbrev composition : Parts → Composition
composition (full a) = full_model
composition (adapted base adapter) = base_plus_lora

module _ (parts : Parts) (tokenizer chat_template : Override) (lineage : Lineage)
    (id : String) where
  abbrev payload : Payload
  payload = record {
    parts = parts;
    tokenizer = tokenizer;
    chat_template = chat_template;
    lineage = lineage;
  }

  abbrev document : Fields
  document = payload_document payload (some id)

gets_composition :
    (parts : Parts) (t c : Override) (l : Lineage) (id : String)
    → composition_of (get_field "composition" (document parts t c l id)) ≡ ok (composition parts)
unfolding payload_document get_field composition_of
gets_composition (full a) t c l id = refl
gets_composition (adapted base adapter) t c l id = refl

names_accepted :
    (parts : Parts) (t c : Override) (l : Lineage) (id : String)
    → expect_json_keys
        (document parts t c l id)
        (required_names (composition parts) true)
        (optional_names true)
        "model version"
      ≡ ok tt
unfolding payload_document expect_json_keys field_names
names_accepted (full a) t c l id = refl
names_accepted (adapted base adapter) t c l id = refl

head_accepted :
    (parts : Parts) (t c : Override) (l : Lineage) (id : String)
    → is_model_version_id id ≡ true
    → read_head (document parts t c l id) true ≡ ok (some id)
unfolding payload_document read_head required_value required_id get_field
head_accepted parts t c l id h = rw h refl

payload_accepted :
    (parts : Parts) (t c : Override) (l : Lineage) (id : String)
    → IsPayload (payload parts t c l id)
    → read_payload (composition parts) (document parts t c l id) ≡ ok (payload parts t c l id)
unfolding payload_document read_payload read_override read_lineage normalize_parts required_value
    get_field
payload_accepted (full a) t c l id h =
    rw
      (
        artifact_accepted true a "fullModelArtifact" h.parts,
        override_accepted t "tokenizer" h.tokenizer,
        override_accepted c "chatTemplate" h.chat_template,
        lineage_accepted l h.lineage,
      )
      refl
payload_accepted (adapted base adapter) t c l id h =
    let (is_base, is_adapter, differ) = h.parts in
    rw
      (
        base_accepted base is_base,
        artifact_accepted true adapter "adapterArtifact" is_adapter,
        differ,
        override_accepted t "tokenizer" h.tokenizer,
        override_accepted c "chatTemplate" h.chat_template,
        lineage_accepted l h.lineage,
      )
      refl

pub document_accepted :
    (p : Payload) (id : String)
    → IsPayload p
    → is_model_version_id id ≡ true
    → normalize_payload (Value.object (payload_document p (some id))) true ≡ ok (p, some id)
unfolding normalize_payload as_json_object composed
document_accepted p id h formed =
    rw
      (
        document_no_float p id,
        gets_composition p.parts p.tokenizer p.chat_template p.lineage id,
        names_accepted p.parts p.tokenizer p.chat_template p.lineage id,
        head_accepted p.parts p.tokenizer p.chat_template p.lineage id formed,
        payload_accepted p.parts p.tokenizer p.chat_template p.lineage id h,
      )
      refl

composed-IsPayload :
    (d : Fields) (require_id : Bool) (c : Composition) (p : Payload) (id : Option String)
    → composed d require_id c ≡ ok (p, id)
    → IsPayload p × (read_head d require_id ≡ ok id)
unfolding composed
composed-IsPayload d require_id c p id h =
    let (u, eu, h₁) =
      >>=-eq-ok
        (expect_json_keys d (required_names c require_id) (optional_names require_id)
          "model version")
        (λ u. do i ← read_head d require_id; q ← read_payload c d; ok (q, i)) h in
    let (i, ei, h₂) =
      >>=-eq-ok (read_head d require_id) (λ i. do q ← read_payload c d; ok (q, i)) h₁ in
    let (q, eq, h₃) = >>=-eq-ok (read_payload c d) (λ q. ok (q, i)) h₂ in
    let same_p : q ≡ p = cc h₃ in
    let same_i : i ≡ id = cc h₃ in
    (subst IsPayload same_p (read_payload-IsPayload c d q eq), ei ∙ ap ok same_i)

pub normalize_payload-IsPayload :
    (v : Value) (require_id : Bool) (p : Payload) (id : Option String)
    → normalize_payload v require_id ≡ ok (p, id)
    → (d : Fields) × IsPayload p × (read_head d require_id ≡ ok id)
unfolding normalize_payload
normalize_payload-IsPayload v require_id p id h =
    let (no_float, h₁) =
      raise_if-ok (has_float v) floating_point
        (do
          d ← as_json_object v "model version"
          c ← composition_of (get_field "composition" d)
          composed d require_id c)
        h in
    let (d, ed, h₂) =
      >>=-eq-ok (as_json_object v "model version")
        (λ d. do c ← composition_of (get_field "composition" d); composed d require_id c) h₁ in
    let (c, ec, h₃) =
      >>=-eq-ok (composition_of (get_field "composition" d)) (λ c. composed d require_id c) h₂ in
    let (content, head) = composed-IsPayload d require_id c p id h₃ in (d, content, head)

pub read_head-id :
    (d : Fields) (id : String) → read_head d true ≡ ok (some id) → is_model_version_id id ≡ true
unfolding read_head required_id
read_head-id d id h =
    let (sv, es, h₁) =
      >>=-eq-ok (required_value "schemaVersion" d "model version")
        (λ sv. do raise_if (not (is_schema_version sv)) invalid_schema_version; required_id d true)
        h in
    let (known, h₂) =
      raise_if-ok (not (is_schema_version sv)) invalid_schema_version (required_id d true) h₁ in
    let (v, ev, h₃) =
      >>=-eq-ok (required_value "id" d "model version")
        (λ v. do i ← text_that is_model_version_id invalid_id v; ok (some i)) h₂ in
    let (i, ei, h₄) =
      >>=-eq-ok (text_that is_model_version_id invalid_id v) (λ i. ok (some i)) h₃ in
    let same : i ≡ id = cc h₄ in
    subst (λ z. is_model_version_id z ≡ true) same
      (text_that-ok is_model_version_id invalid_id v i ei)

-- The prefix of an id is followed by the digest.
pub id_form :
    (h : String)
    → is_hex_digest (some (codes h)) ≡ true
    → is_model_version_id (concat id_prefix h) ≡ true
unfolding is_model_version_id
id_form h formed =
    let parts : after_prefix (codes id_prefix) (codes (concat id_prefix h)) ≡ some (codes h) =
      ap (after_prefix (codes id_prefix)) (codes-concat id_prefix h)
      ∙ after_prefix-append (codes id_prefix) (codes h) in
    ap is_hex_digest parts ∙ formed
