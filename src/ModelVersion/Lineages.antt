-- ===== src/ModelVersion/Lineages.antt =====
-- What the normalisers of overrides and lineages in model_version.py return.
use cyrene_yield.Common.{
  String, ◌≡◌, subst, Bool, true, false, not, Option, none, some, List, [], ◌∷◌, arith, concat, All,
  ok, ◌>>=◌, ◌>>◌, raise_if-ok, >>=-eq-ok,
}
use cyrene_yield.Values.{Value, Items, get_field}
use cyrene_yield.ModelVersion.Texts.{is_resource_uri, is_model_version_id}
use cyrene_yield.ModelVersion.Artifacts.{
  invalid_uri, invalid_derived, ArtifactRef, as_json_object, expect_json_keys, required_value,
  normalize_artifact_ref,
}
use cyrene_yield.ModelVersion.Accepted.{IsArtifact, normalize_artifact_ref-IsArtifact}
use cyrene_yield.ModelVersion.{
  Override, inherited, overridden, Lineage, mode_of, normalize_override, override_of, optional_uri,
  artifact_list, optional_artifacts, optional_derived, normalize_lineage,
}
use cyrene_yield.ModelVersion.Documents.{IsOverride, OptionAll, AllArtifacts, IsLineage}

override_of-IsOverride :
    (mode : Option Bool) (artifact : Option Value) (name : String) (o : Override)
    → override_of mode artifact name ≡ ok o
    → IsOverride o
unfolding override_of
override_of-IsOverride (some false) none name o h =
    let same : inherited ≡ o = cc h in subst IsOverride same tt
override_of-IsOverride (some false) (some v) name o h = cc h
override_of-IsOverride (some true) none name o h = cc h
override_of-IsOverride (some true) (some v) name o h =
    let (a, e, r) =
      >>=-eq-ok (normalize_artifact_ref v (concat name ".artifact") false) (λ a. ok (overridden a))
        h in
    let same : overridden a ≡ o = cc r in
    subst IsOverride same (normalize_artifact_ref-IsArtifact v (concat name ".artifact") false a e)
override_of-IsOverride none artifact name o h = cc h

pub normalize_override-IsOverride :
    (v : Value) (name : String) (o : Override) → normalize_override v name ≡ ok o → IsOverride o
unfolding normalize_override
normalize_override-IsOverride v name o h =
    let (d, ed, h₁) =
      >>=-eq-ok (as_json_object v name)
        (λ d. do
          expect_json_keys d ("mode" ∷ []) ("artifact" ∷ []) name
          mode ← required_value "mode" d name
          override_of (mode_of mode) (get_field "artifact" d) name)
        h in
    let (u, eu, h₂) =
      >>=-eq-ok (expect_json_keys d ("mode" ∷ []) ("artifact" ∷ []) name)
        (λ u. do
          mode ← required_value "mode" d name
          override_of (mode_of mode) (get_field "artifact" d) name)
        h₁ in
    let (mode, em, h₃) =
      >>=-eq-ok (required_value "mode" d name)
        (λ mode. override_of (mode_of mode) (get_field "artifact" d) name) h₂ in
    override_of-IsOverride (mode_of mode) (get_field "artifact" d) name o h₃

optional_uri-ok :
    (v : Option Value) (name : String) (o : Option String)
    → optional_uri v name ≡ ok o
    → OptionAll is_resource_uri o
unfolding optional_uri
optional_uri-ok none name o h =
    let same : none ≡ o = cc h in subst (OptionAll is_resource_uri) same tt
optional_uri-ok (some (Value.text s)) name o h =
    let (t, r) = raise_if-ok (not (is_resource_uri s)) (invalid_uri name) (ok (some s)) h in
    let same : some s ≡ o = cc r in subst (OptionAll is_resource_uri) same (ground arith)
optional_uri-ok (some _) name o h = cc h

optional_derived-ok :
    (v : Option Value) (o : Option String)
    → optional_derived v ≡ ok o
    → OptionAll is_model_version_id o
unfolding optional_derived
optional_derived-ok none o h =
    let same : none ≡ o = cc h in subst (OptionAll is_model_version_id) same tt
optional_derived-ok (some (Value.text s)) o h =
    let (t, r) = raise_if-ok (not (is_model_version_id s)) invalid_derived (ok (some s)) h in
    let same : some s ≡ o = cc r in subst (OptionAll is_model_version_id) same (ground arith)
optional_derived-ok (some _) o h = cc h

artifact_list-ok :
    (xs : Items) (name : String) (artifacts : List ArtifactRef)
    → artifact_list xs name ≡ ok artifacts
    → All (IsArtifact false) artifacts
unfolding artifact_list
artifact_list-ok Items.nil name artifacts h =
    let same : [] ≡ artifacts = cc h in subst (All (IsArtifact false)) same tt
artifact_list-ok (Items.cons x xs) name artifacts h =
    let (a, ea, h₁) =
      >>=-eq-ok (normalize_artifact_ref x name false)
        (λ a. do rest ← artifact_list xs name; ok (a ∷ rest)) h in
    let (rest, er, h₂) = >>=-eq-ok (artifact_list xs name) (λ rest. ok (a ∷ rest)) h₁ in
    let same : a ∷ rest ≡ artifacts = cc h₂ in
    subst (All (IsArtifact false)) same
      (normalize_artifact_ref-IsArtifact x name false a ea, artifact_list-ok xs name rest er)

optional_artifacts-ok :
    (v : Option Value) (name : String) (o : Option (List ArtifactRef))
    → optional_artifacts v name ≡ ok o
    → AllArtifacts o
unfolding optional_artifacts
optional_artifacts-ok none name o h = let same : none ≡ o = cc h in subst AllArtifacts same tt
optional_artifacts-ok (some (Value.array xs)) name o h =
    let (artifacts, e, r) =
      >>=-eq-ok (artifact_list xs name) (λ artifacts. ok (some artifacts)) h in
    let same : some artifacts ≡ o = cc r in
    subst AllArtifacts same (artifact_list-ok xs name artifacts e)
optional_artifacts-ok (some _) name o h = cc h

abbrev lineage_of :
    Option String → Option String → Option (List ArtifactRef) → Option String → Lineage
lineage_of run dataset artifacts derived = record {
  training_run = run;
  dataset_version = dataset;
  input_artifacts = artifacts;
  derived_from_model_version = derived;
}

abbrev lineage_names : List String
lineage_names = "trainingRun" ∷ "datasetVersion" ∷ "inputArtifacts" ∷ "derivedFromModelVersion" ∷ []

pub normalize_lineage-IsLineage :
    (v : Value) (l : Lineage) → normalize_lineage v ≡ ok l → IsLineage l
unfolding normalize_lineage
normalize_lineage-IsLineage v l h =
    let (d, ed, h₁) =
      >>=-eq-ok (as_json_object v "lineage")
        (λ d. do
          expect_json_keys d [] lineage_names "lineage"
          run ← optional_uri (get_field "trainingRun" d) "lineage.trainingRun"
          dataset ← optional_uri (get_field "datasetVersion" d) "lineage.datasetVersion"
          artifacts ← optional_artifacts (get_field "inputArtifacts" d) "lineage.inputArtifacts"
          derived ← optional_derived (get_field "derivedFromModelVersion" d)
          ok (lineage_of run dataset artifacts derived))
        h in
    let (u, eu, h₂) =
      >>=-eq-ok (expect_json_keys d [] lineage_names "lineage")
        (λ u. do
          run ← optional_uri (get_field "trainingRun" d) "lineage.trainingRun"
          dataset ← optional_uri (get_field "datasetVersion" d) "lineage.datasetVersion"
          artifacts ← optional_artifacts (get_field "inputArtifacts" d) "lineage.inputArtifacts"
          derived ← optional_derived (get_field "derivedFromModelVersion" d)
          ok (lineage_of run dataset artifacts derived))
        h₁ in
    let (run, er, h₃) =
      >>=-eq-ok (optional_uri (get_field "trainingRun" d) "lineage.trainingRun")
        (λ run. do
          dataset ← optional_uri (get_field "datasetVersion" d) "lineage.datasetVersion"
          artifacts ← optional_artifacts (get_field "inputArtifacts" d) "lineage.inputArtifacts"
          derived ← optional_derived (get_field "derivedFromModelVersion" d)
          ok (lineage_of run dataset artifacts derived))
        h₂ in
    let (dataset, es, h₄) =
      >>=-eq-ok (optional_uri (get_field "datasetVersion" d) "lineage.datasetVersion")
        (λ dataset. do
          artifacts ← optional_artifacts (get_field "inputArtifacts" d) "lineage.inputArtifacts"
          derived ← optional_derived (get_field "derivedFromModelVersion" d)
          ok (lineage_of run dataset artifacts derived))
        h₃ in
    let (artifacts, ea, h₅) =
      >>=-eq-ok (optional_artifacts (get_field "inputArtifacts" d) "lineage.inputArtifacts")
        (λ artifacts. do
          derived ← optional_derived (get_field "derivedFromModelVersion" d)
          ok (lineage_of run dataset artifacts derived))
        h₄ in
    let (derived, ev, h₆) =
      >>=-eq-ok (optional_derived (get_field "derivedFromModelVersion" d))
        (λ derived. ok (lineage_of run dataset artifacts derived)) h₅ in
    let same : lineage_of run dataset artifacts derived ≡ l = cc h₆ in
    subst IsLineage same (record {
      run = optional_uri-ok (get_field "trainingRun" d) "lineage.trainingRun" run er;
      dataset = optional_uri-ok (get_field "datasetVersion" d) "lineage.datasetVersion" dataset es;
      artifacts =
          optional_artifacts-ok (get_field "inputArtifacts" d) "lineage.inputArtifacts" artifacts
            ea;
      derived = optional_derived-ok (get_field "derivedFromModelVersion" d) derived ev;
    })
