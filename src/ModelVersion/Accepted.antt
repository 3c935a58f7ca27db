-- ===== src/ModelVersion/Accepted.antt =====
-- The references and documents that the normalisers of model_version.py accept: what holds of one that was
-- accepted, and that one of which it holds is accepted as it is.
use cyrene_yield.Common.{
  ℕ, String, ◌≡◌, refl, subst, Bool, true, false, not, ◌&&◌, ◌||◌, Option, none, some, [], ◌∷◌,
  ◌==◌, arith, leb, same_option, is_empty, is_digest, ok, ◌>>=◌, ◌>>◌, raise_if, raise_if-ok,
  >>=-eq-ok,
}
use cyrene_yield.Values.{Value, Fields, get_field, field_names}
use cyrene_yield.ModelVersion.Texts.{artifact_uri}
use cyrene_yield.ModelVersion.Artifacts.{
  ArtifactKind, generic, model, dataset, checkpoint, training_spec, metrics, report, ArtifactRef,
  kind_text, kind_of, is_model, as_json_object, expect_json_keys, required_value, both_texts,
  text_of, safe_integer, artifact_kind, manifest_of, check_portable, normalize_artifact_ref,
  artifact_document, read_uri, check_uri, read_size, read_kind, read_artifact, new_artifact,
  invalid_manifest, invalid_digest, uri_mismatch,
}

-- A manifest's digest, if there is one, has the form of a digest.
abbrev pub manifest_ok : Option String → Bool
manifest_ok none = true
manifest_ok (some s) = not (is_empty s) && is_digest s

abbrev pub portable_ok : Bool → ArtifactRef → Bool
portable_ok portable a =
    not portable || (is_model a.kind && same_option a.manifest_digest (some a.digest))

-- A reference that the contract admits; `portable` if it must be a portable model.
pub record IsArtifact (portable : Bool) (a : ArtifactRef) : Type 0 where
  pub digest : is_digest a.digest ≡ true
  pub uri : (a.uri == artifact_uri a.digest) ≡ true
  pub size : leb a.size_bytes 9007199254740991 ≡ true
  pub manifest : manifest_ok a.manifest_digest ≡ true
  pub portable_model : portable_ok portable a ≡ true

kind_of-text : (k : ArtifactKind) → kind_of (kind_text k) ≡ some k
unfolding kind_of kind_text
kind_of-text generic = refl
kind_of-text model = refl
kind_of-text dataset = refl
kind_of-text checkpoint = refl
kind_of-text training_spec = refl
kind_of-text metrics = refl
kind_of-text report = refl

artifact_kind-text :
    (k : ArtifactKind) (name : String) → artifact_kind (Value.text (kind_text k)) name ≡ ok k
unfolding artifact_kind
artifact_kind-text k name = rw (kind_of-text k, artifact_kind) refl

check_portable-accepts :
    (portable : Bool) (a : ArtifactRef) (name : String)
    → portable_ok portable a ≡ true
    → check_portable portable a name ≡ ok tt
unfolding check_portable
check_portable-accepts false a name h = refl
check_portable-accepts true a name h = ground arith

abbrev artifact : String → String → ℕ → ArtifactKind → Option String → ArtifactRef
artifact uri digest size kind manifest = record {
  uri = uri;
  digest = digest;
  size_bytes = size;
  kind = kind;
  manifest_digest = manifest;
}

fields_accepted :
    (portable : Bool) (uri digest : String) (size : ℕ) (kind : ArtifactKind)
    (manifest : Option String) (name : String)
    → IsArtifact portable (artifact uri digest size kind manifest)
    → normalize_artifact_ref
        (Value.object (artifact_document (artifact uri digest size kind manifest)))
        name
        portable
      ≡ ok (artifact uri digest size kind manifest)
unfolding normalize_artifact_ref read_artifact read_uri check_uri read_size read_kind
    artifact_document expect_json_keys required_value get_field field_names safe_integer manifest_of
    as_json_object
fields_accepted portable uri digest size kind none name h =
    rw
      (
        h.digest,
        h.uri,
        h.size,
        artifact_kind-text kind name,
        check_portable-accepts portable (artifact uri digest size kind none) name h.portable_model,
      )
      refl
fields_accepted portable uri digest size kind (some s) name h =
    let given : is_empty s ≡ false = ground (arith, h.manifest) in
    let formed : is_digest s ≡ true = ground (arith, h.manifest) in
    rw
      (
        h.digest,
        h.uri,
        h.size,
        artifact_kind-text kind name,
        given,
        formed,
        check_portable-accepts portable (artifact uri digest size kind (some s)) name
            h.portable_model,
      )
      refl

pub artifact_accepted :
    (portable : Bool) (a : ArtifactRef) (name : String)
    → IsArtifact portable a
    → normalize_artifact_ref (Value.object (artifact_document a)) name portable ≡ ok a
artifact_accepted portable a name h =
    fields_accepted portable a.uri a.digest a.size_bytes a.kind a.manifest_digest name h

safe_integer-ok :
    (v : Value) (name : String) (n : ℕ) → safe_integer v name ≡ ok n → leb n 9007199254740991 ≡ true
unfolding safe_integer
safe_integer-ok (Value.int m) name n h = ground arith
safe_integer-ok _ name n h = cc h

manifest_of-ok :
    (v : Option Value) (name : String) (m : Option String)
    → manifest_of v name ≡ ok m
    → manifest_ok m ≡ true
unfolding manifest_of
manifest_of-ok none name none h = refl
manifest_of-ok none name (some s) h = cc h
manifest_of-ok (some (Value.text s)) name m h =
    let (given, h₁) =
      raise_if-ok (is_empty s) (invalid_manifest name)
        (do raise_if (not (is_digest s)) (invalid_digest name); ok (some s)) h in
    let (formed, h₂) = raise_if-ok (not (is_digest s)) (invalid_digest name) (ok (some s)) h₁ in
    let same : some s ≡ m = cc h₂ in subst (λ z. manifest_ok z ≡ true) same (ground arith)
manifest_of-ok (some _) name m h = cc h

check_portable-ok :
    (portable : Bool) (a : ArtifactRef) (name : String)
    → check_portable portable a name ≡ ok tt
    → portable_ok portable a ≡ true
unfolding check_portable
check_portable-ok false a name h = refl
check_portable-ok true a name h = ground arith

read_uri-ok :
    (d : Fields) (name : String) (t : String × String)
    → read_uri d name ≡ ok t
    → (is_digest t.1 ≡ true) × ((t.0 == artifact_uri t.1) ≡ true)
unfolding read_uri check_uri
read_uri-ok d name t h =
    let (uri_value, eu, h₁) =
      >>=-eq-ok (required_value "uri" d name)
        (λ uri_value. do
          digest_value ← required_value "digest" d name
          texts ← both_texts (text_of uri_value) (text_of digest_value) name
          check_uri name texts)
        h in
    let (digest_value, ed, h₂) =
      >>=-eq-ok (required_value "digest" d name)
        (λ digest_value. do
          texts ← both_texts (text_of uri_value) (text_of digest_value) name
          check_uri name texts)
        h₁ in
    let (texts, et, h₃) =
      >>=-eq-ok (both_texts (text_of uri_value) (text_of digest_value) name) (check_uri name) h₂ in
    let (formed, h₄) =
      raise_if-ok (not (is_digest texts.1)) (invalid_digest name)
        (do raise_if (not (texts.0 == artifact_uri texts.1)) (uri_mismatch name); ok texts) h₃ in
    let (matches, h₅) =
      raise_if-ok (not (texts.0 == artifact_uri texts.1)) (uri_mismatch name) (ok texts) h₄ in
    let same : texts ≡ t = cc h₅ in
    subst (λ z. (is_digest z.1 ≡ true) × ((z.0 == artifact_uri z.1) ≡ true)) same
      (not_false (is_digest texts.1) formed, not_false (texts.0 == artifact_uri texts.1) matches)
  where
    not_false : (b : Bool) → not b ≡ false → b ≡ true
    not_false b e = ground arith

read_artifact-ok :
    (d : Fields) (name : String) (a : ArtifactRef)
    → read_artifact d name ≡ ok a
    → (is_digest a.digest ≡ true)
      × ((a.uri == artifact_uri a.digest) ≡ true)
      × (leb a.size_bytes 9007199254740991 ≡ true)
      × (manifest_ok a.manifest_digest ≡ true)
unfolding read_artifact read_size
read_artifact-ok d name a h =
    let (texts, et, h₁) =
      >>=-eq-ok (read_uri d name)
        (λ texts. do
          size ← read_size d name
          kind ← read_kind d name
          manifest ← manifest_of (get_field "manifest_digest" d) name
          ok (new_artifact texts size kind manifest))
        h in
    let (size, es, h₂) =
      >>=-eq-ok (read_size d name)
        (λ size. do
          kind ← read_kind d name
          manifest ← manifest_of (get_field "manifest_digest" d) name
          ok (new_artifact texts size kind manifest))
        h₁ in
    let (kind, ek, h₃) =
      >>=-eq-ok (read_kind d name)
        (λ kind. do
          manifest ← manifest_of (get_field "manifest_digest" d) name
          ok (new_artifact texts size kind manifest))
        h₂ in
    let (manifest, em, h₄) =
      >>=-eq-ok (manifest_of (get_field "manifest_digest" d) name)
        (λ manifest. ok (new_artifact texts size kind manifest)) h₃ in
    let (value, ev, sized) =
      >>=-eq-ok (required_value "size_bytes" d name) (λ value. safe_integer value name) es in
    let (formed, matches) = read_uri-ok d name texts et in
    let same : new_artifact texts size kind manifest ≡ a = cc h₄ in
    subst
      (λ z.
        (is_digest z.digest ≡ true)
        × ((z.uri == artifact_uri z.digest) ≡ true)
        × (leb z.size_bytes 9007199254740991 ≡ true)
        × (manifest_ok z.manifest_digest ≡ true))
      same
      (
        formed,
        matches,
        safe_integer-ok value name size sized,
        manifest_of-ok (get_field "manifest_digest" d) name manifest em,
      )

-- What is accepted is a reference that the contract admits.
pub normalize_artifact_ref-IsArtifact :
    (v : Value) (name : String) (portable : Bool) (a : ArtifactRef)
    → normalize_artifact_ref v name portable ≡ ok a
    → IsArtifact portable a
unfolding normalize_artifact_ref
normalize_artifact_ref-IsArtifact v name portable a h =
    let (d, ed, h₁) =
      >>=-eq-ok (as_json_object v name)
        (λ d. do
          expect_json_keys d ("uri" ∷ "digest" ∷ "size_bytes" ∷ "kind" ∷ [])
              ("manifest_digest" ∷ []) name
          r ← read_artifact d name
          check_portable portable r name
          ok r)
        h in
    let (u, eu, h₂) =
      >>=-eq-ok
        (expect_json_keys d ("uri" ∷ "digest" ∷ "size_bytes" ∷ "kind" ∷ []) ("manifest_digest" ∷ [])
          name)
        (λ u. do r ← read_artifact d name; check_portable portable r name; ok r) h₁ in
    let (r, er, h₃) =
      >>=-eq-ok (read_artifact d name) (λ r. do check_portable portable r name; ok r) h₂ in
    let (w, ew, h₄) = >>=-eq-ok (check_portable portable r name) (λ w. ok r) h₃ in
    let (formed, matches, sized, manifested) = read_artifact-ok d name r er in
    let same : r ≡ a = cc h₄ in
    subst (IsArtifact portable) same (record {
      digest = formed;
      uri = matches;
      size = sized;
      manifest = manifested;
      portable_model = check_portable-ok portable r name ew;
    })
