-- ===== src/ModelVersion/Documents.antt =====
-- What the contract admits of the parts of a ModelVersion, and that the documents of such parts are accepted
-- as they are.
use cyrene_yield.Common.{
  String, ◌≡◌, refl, subst, ◌∙◌, Bool, true, false, not, ◌||◌, Option, none, some, List, [], ◌∷◌,
  ◌==◌, contains, any, concat, All, ok, eq_refl,
}
use cyrene_yield.Values.{Value, Fields, get_field, field_names}
use cyrene_yield.ModelVersion.Texts.{
  is_resource_uri, is_repository, is_revision, is_model_version_id,
}
use cyrene_yield.ModelVersion.Artifacts.{
  ArtifactRef, as_json_object, expect_json_keys, required_value, artifact_document, set_manifest,
}
use cyrene_yield.ModelVersion.Accepted.{IsArtifact, artifact_accepted}
use cyrene_yield.ModelVersion.{
  Override, inherited, overridden, Lineage, BaseModel, Parts, full, adapted, Payload, sourced_base,
  base_artifact, has_float, has_float_items, has_float_fields, normalize_override, override_of,
  optional_uri, artifact_list, optional_artifacts, optional_derived, normalize_lineage,
  normalize_base_model, set_optional, optional_text, override_document, artifact_items,
  optional_items, lineage_document, base_document,
}

abbrev pub IsOverride : Override → Type 0
IsOverride inherited = Unit
IsOverride (overridden a) = IsArtifact false a

abbrev pub OptionAll : (String → Bool) → Option String → Type 0
OptionAll test none = Unit
OptionAll test (some s) = test s ≡ true

abbrev pub AllArtifacts : Option (List ArtifactRef) → Type 0
AllArtifacts none = Unit
AllArtifacts (some artifacts) = All (IsArtifact false) artifacts

pub record IsLineage (l : Lineage) : Type 0 where
  pub run : OptionAll is_resource_uri l.training_run
  pub dataset : OptionAll is_resource_uri l.dataset_version
  pub artifacts : AllArtifacts l.input_artifacts
  pub derived : OptionAll is_model_version_id l.derived_from_model_version

pub record IsBaseModel (b : BaseModel) : Type 0 where
  pub artifact : IsArtifact true b.artifact
  pub repository : is_repository b.repository ≡ true
  pub revision : is_revision b.revision ≡ true

-- The artifacts of a version are portable models, and an adapter is not its own base.
abbrev pub IsParts : Parts → Type 0
IsParts (full a) = IsArtifact true a
IsParts (adapted base adapter) =
    IsBaseModel base × IsArtifact true adapter × ((base.artifact.digest == adapter.digest) ≡ false)

pub record IsPayload (p : Payload) : Type 0 where
  pub parts : IsParts p.parts
  pub tokenizer : IsOverride p.tokenizer
  pub chat_template : IsOverride p.chat_template
  pub lineage : IsLineage p.lineage

pub override_accepted :
    (o : Override) (name : String)
    → IsOverride o
    → normalize_override (Value.object (override_document o)) name ≡ ok o
unfolding normalize_override override_of override_document expect_json_keys required_value
    as_json_object get_field field_names
override_accepted inherited name h = refl
override_accepted (overridden a) name h =
    rw (artifact_accepted false a (concat name ".artifact") h) refl

artifacts_accepted :
    (artifacts : List ArtifactRef) (name : String)
    → All (IsArtifact false) artifacts
    → artifact_list (artifact_items artifacts) name ≡ ok artifacts
unfolding artifact_list artifact_items
artifacts_accepted [] name h = refl
artifacts_accepted (a ∷ rest) name h =
    rw (artifact_accepted false a name h.0) (rw (artifacts_accepted rest name h.1) refl)

optional_uri_accepted :
    (o : Option String) (name : String)
    → OptionAll is_resource_uri o
    → optional_uri (optional_text o) name ≡ ok o
unfolding optional_uri
optional_uri_accepted none name h = refl
optional_uri_accepted (some s) name h = rw h refl

optional_derived_accepted :
    (o : Option String)
    → OptionAll is_model_version_id o
    → optional_derived (optional_text o) ≡ ok o
unfolding optional_derived
optional_derived_accepted none h = refl
optional_derived_accepted (some s) h = rw h refl

optional_artifacts_accepted :
    (o : Option (List ArtifactRef)) (name : String)
    → AllArtifacts o
    → optional_artifacts (optional_items o) name ≡ ok o
unfolding optional_artifacts
optional_artifacts_accepted none name h = refl
optional_artifacts_accepted (some artifacts) name h = rw (artifacts_accepted artifacts name h) refl

pub base_accepted :
    (b : BaseModel) → IsBaseModel b → normalize_base_model (Value.object (base_document b)) ≡ ok b
unfolding normalize_base_model sourced_base base_artifact base_document expect_json_keys
    required_value as_json_object get_field field_names
base_accepted b h =
    rw (h.repository, h.revision)
      (rw (artifact_accepted true b.artifact "baseModel.artifact" h.artifact) refl)

-- Lookups and names of a dictionary whose first key may be missing.
get_optional_other :
    (j k : String) (o : Option Value) (rest : Fields)
    → (j == k) ≡ false
    → get_field k (set_optional j o rest) ≡ get_field k rest
unfolding get_field
get_optional_other j k none rest h = refl
get_optional_other j k (some v) rest h = rw h refl

get_optional_same :
    (k : String) (o : Option Value) (rest : Fields)
    → get_field k rest ≡ none
    → get_field k (set_optional k o rest) ≡ o
unfolding get_field
get_optional_same k none rest h = h
get_optional_same k (some v) rest h = rw (eq_refl k) refl

names_optional :
    (p : String → Bool) (j : String) (o : Option Value) (rest : Fields)
    → p j ≡ false
    → any p (field_names rest) ≡ false
    → any p (field_names (set_optional j o rest)) ≡ false
unfolding field_names
names_optional p j none rest h hs = hs
names_optional p j (some v) rest h hs = rw (h, hs) refl

module _ (l : Lineage) where
  abbrev derived_part : Fields
  derived_part =
      set_optional "derivedFromModelVersion" (optional_text l.derived_from_model_version) Fields.end

  abbrev artifacts_part : Fields
  artifacts_part = set_optional "inputArtifacts" (optional_items l.input_artifacts) derived_part

  abbrev dataset_part : Fields
  dataset_part = set_optional "datasetVersion" (optional_text l.dataset_version) artifacts_part

  gets_run : get_field "trainingRun" (lineage_document l) ≡ optional_text l.training_run
  unfolding lineage_document get_field
  gets_run = get_optional_same "trainingRun" (optional_text l.training_run) dataset_part (
      get_optional_other "datasetVersion" "trainingRun" (optional_text l.dataset_version)
        artifacts_part refl
      ∙ get_optional_other "inputArtifacts" "trainingRun" (optional_items l.input_artifacts)
          derived_part refl
      ∙ get_optional_other "derivedFromModelVersion" "trainingRun"
          (optional_text l.derived_from_model_version) Fields.end refl)

  gets_dataset : get_field "datasetVersion" (lineage_document l) ≡ optional_text l.dataset_version
  unfolding lineage_document get_field
  gets_dataset =
      get_optional_other "trainingRun" "datasetVersion" (optional_text l.training_run) dataset_part
        refl
      ∙ get_optional_same "datasetVersion" (optional_text l.dataset_version) artifacts_part (
          get_optional_other "inputArtifacts" "datasetVersion" (optional_items l.input_artifacts)
            derived_part refl
          ∙ get_optional_other "derivedFromModelVersion" "datasetVersion"
              (optional_text l.derived_from_model_version) Fields.end refl)

  gets_artifacts :
      get_field "inputArtifacts" (lineage_document l) ≡ optional_items l.input_artifacts
  unfolding lineage_document get_field
  gets_artifacts =
      get_optional_other "trainingRun" "inputArtifacts" (optional_text l.training_run) dataset_part
        refl
      ∙ get_optional_other "datasetVersion" "inputArtifacts" (optional_text l.dataset_version)
          artifacts_part refl
      ∙ get_optional_same "inputArtifacts" (optional_items l.input_artifacts) derived_part (
          get_optional_other "derivedFromModelVersion" "inputArtifacts"
            (optional_text l.derived_from_model_version) Fields.end refl)

  gets_derived :
      get_field "derivedFromModelVersion" (lineage_document l)
      ≡ optional_text l.derived_from_model_version
  unfolding lineage_document get_field
  gets_derived =
      get_optional_other "trainingRun" "derivedFromModelVersion" (optional_text l.training_run)
        dataset_part refl
      ∙ get_optional_other "datasetVersion" "derivedFromModelVersion"
          (optional_text l.dataset_version) artifacts_part refl
      ∙ get_optional_other "inputArtifacts" "derivedFromModelVersion"
          (optional_items l.input_artifacts) derived_part refl
      ∙ get_optional_same "derivedFromModelVersion" (optional_text l.derived_from_model_version)
          Fields.end refl

  abbrev lineage_names : List String
  lineage_names =
      "trainingRun" ∷ "datasetVersion" ∷ "inputArtifacts" ∷ "derivedFromModelVersion" ∷ []

  names_accepted : expect_json_keys (lineage_document l) [] lineage_names "lineage" ≡ ok tt
  unfolding expect_json_keys lineage_document field_names
  names_accepted =
      let unknown : String → Bool = λ k. not (contains k [] || contains k lineage_names) in
      let known : any unknown (field_names (lineage_document l)) ≡ false =
        names_optional unknown "trainingRun" (optional_text l.training_run) dataset_part refl (
          names_optional unknown "datasetVersion" (optional_text l.dataset_version) artifacts_part
            refl
            (names_optional unknown "inputArtifacts" (optional_items l.input_artifacts) derived_part
              refl
              (names_optional unknown "derivedFromModelVersion"
                (optional_text l.derived_from_model_version) Fields.end refl refl))) in
      rw known refl

  pub lineage_accepted : IsLineage l → normalize_lineage (Value.object (lineage_document l)) ≡ ok l
  unfolding normalize_lineage as_json_object
  lineage_accepted h =
      rw (names_accepted, gets_run, gets_dataset, gets_artifacts, gets_derived)
        (rw
          (
            optional_uri_accepted l.training_run "lineage.trainingRun" h.run,
            optional_uri_accepted l.dataset_version "lineage.datasetVersion" h.dataset,
            optional_artifacts_accepted l.input_artifacts "lineage.inputArtifacts" h.artifacts,
            optional_derived_accepted l.derived_from_model_version h.derived,
          )
          refl)

pub artifact_no_float : (a : ArtifactRef) → has_float_fields (artifact_document a) ≡ false
unfolding has_float has_float_fields artifact_document
artifact_no_float a = manifest a.manifest_digest
  where
    manifest : (m : Option String) → has_float_fields (set_manifest m Fields.end) ≡ false
    manifest none = refl
    manifest (some s) = refl

items_no_float : (artifacts : List ArtifactRef) → has_float_items (artifact_items artifacts) ≡ false
unfolding has_float has_float_items artifact_items
items_no_float [] = refl
items_no_float (a ∷ rest) = rw (artifact_no_float a, items_no_float rest) refl

pub override_no_float : (o : Override) → has_float_fields (override_document o) ≡ false
unfolding has_float has_float_fields override_document
override_no_float inherited = refl
override_no_float (overridden a) = rw (artifact_no_float a) refl

pub set_optional_no_float :
    (k : String) (o : Option Value) (rest : Fields)
    → ((v : Value) → o ≡ some v → has_float v ≡ false)
    → has_float_fields rest ≡ false
    → has_float_fields (set_optional k o rest) ≡ false
unfolding has_float_fields
set_optional_no_float k none rest h hs = hs
set_optional_no_float k (some v) rest h hs = rw (h v refl, hs) refl

pub text_no_float : (o : Option String) (v : Value) → optional_text o ≡ some v → has_float v ≡ false
unfolding has_float
text_no_float none v h = cc h
text_no_float (some s) v h =
    let same : Value.text s ≡ v = cc h in subst (λ z. has_float z ≡ false) same refl

pub optional_items_no_float :
    (o : Option (List ArtifactRef)) (v : Value) → optional_items o ≡ some v → has_float v ≡ false
unfolding has_float
optional_items_no_float none v h = cc h
optional_items_no_float (some artifacts) v h =
    let same : Value.array (artifact_items artifacts) ≡ v = cc h in
    subst (λ z. has_float z ≡ false) same (items_no_float artifacts)
