-- ===== src/ModelVersion/RoundTrip.antt =====
-- to_dict and from_dict of a ModelVersion.
use cyrene_yield.Common.{
  is_hex_digest, codes, ◌⊎◌, String, ◌≡◌, refl, subst, true, false, not, Option, none, some, ◌==◌,
  arith, contains, Result, ok, ◌>>=◌, ◌>>◌, raise_if, raise_if-ok, >>=-eq-ok, eq_iff, inl, inr,
}
use cyrene_yield.Values.{Value, Fields, field_names}
use cyrene_yield.ModelVersion.Texts.{is_model_version_id}
use cyrene_yield.ModelVersion.Artifacts.{VersionError, id_mismatch, id_given, as_json_object}
use cyrene_yield.ModelVersion.{
  Payload, normalize_payload, payload_document, ModelVersion, to_dict, model_version_id, create,
  identified, from_dict,
}
use cyrene_yield.ModelVersion.Documents.{IsPayload}
use cyrene_yield.ModelVersion.Rereading.{
  document_accepted, normalize_payload-IsPayload, read_head-id, id_form,
}

module _ (digest_of : Fields → String) where
  -- A version whose content the contract admits and whose id is that of its content.
  pub record IsModelVersion (m : ModelVersion) : Type 0 where
    pub content : IsPayload m.payload
    pub form : is_model_version_id m.id ≡ true
    pub identity : m.id ≡ model_version_id digest_of m.payload

  identified-IsModelVersion :
      (v : Value) (p : Payload) (id : Option String) (m : ModelVersion)
      → normalize_payload v true ≡ ok (p, id)
      → identified digest_of (p, id) ≡ ok m
      → IsModelVersion m
  unfolding identified
  identified-IsModelVersion v p none m e h = cc h
  identified-IsModelVersion v p (some id) m e h =
      let made : ModelVersion = record { payload = p; id = id } in
      let last : Result VersionError ModelVersion = ok made in
      let (matches, h₁) =
        raise_if-ok (not (id == model_version_id digest_of p)) id_mismatch last h in
      let (d, content, head) = normalize_payload-IsPayload v true p (some id) e in
      let same : made ≡ m = cc h₁ in
      let own : id ≡ model_version_id digest_of p =
        ground (arith, eq_iff id (model_version_id digest_of p)) in
      let whole : IsModelVersion made = record {
        content = content;
        form = read_head-id d id head;
        identity = own;
      } in
      subst IsModelVersion same whole

  -- Whatever document is read, a version that comes of it conforms: its artifacts have the digests that
  -- their names say, those of its parts are portable models, a base and its adapter differ, its lineage has
  -- the forms of its names, and its id is that of its content.
  pub from_dict-IsModelVersion :
      (v : Value) (m : ModelVersion) → from_dict digest_of v ≡ ok m → IsModelVersion m
  unfolding from_dict
  from_dict-IsModelVersion v m h =
      let (n, en, h₁) = >>=-eq-ok (normalize_payload v true) (identified digest_of) h in
      identified-IsModelVersion v n.0 n.1 m en h₁

  create-IsModelVersion :
      (v : Value) (m : ModelVersion)
      → ((payload : Fields) → is_hex_digest (some (codes (digest_of payload))) ≡ true)
      → create digest_of v ≡ ok m
      → IsModelVersion m
  unfolding create
  create-IsModelVersion v m formed h =
      let (d, ed, h₁) =
        >>=-eq-ok (as_json_object v "model version")
          (λ d. do
            raise_if (contains "id" (field_names d)) id_given
            n ← normalize_payload (Value.object d) false
            ok (new_version n))
          h in
      let (without, h₂) =
        raise_if-ok (contains "id" (field_names d)) id_given
          (do n ← normalize_payload (Value.object d) false; ok (new_version n)) h₁ in
      let (n, en, h₃) =
        >>=-eq-ok (normalize_payload (Value.object d) false) (λ n. ok (new_version n)) h₂ in
      let (e, content, head) = normalize_payload-IsPayload (Value.object d) false n.0 n.1 en in
      let same : new_version n ≡ m = cc h₃ in
      let whole : IsModelVersion (new_version n) = record {
        content = content;
        form = own_form n.0;
        identity = refl;
      } in
      subst IsModelVersion same whole
    where
      new_version : Payload × Option String → ModelVersion
      new_version n = record { payload = n.0; id = model_version_id digest_of n.0 }

      own_form : (p : Payload) → is_model_version_id (model_version_id digest_of p) ≡ true
      own_form p = id_form (digest_of (payload_document p none)) (formed (payload_document p none))

  -- A version that conforms is read back from its dictionary as it is.
  IsModelVersion-from_dict :
      (m : ModelVersion) → IsModelVersion m → from_dict digest_of (Value.object (to_dict m)) ≡ ok m
  unfolding from_dict identified
  IsModelVersion-from_dict m h =
      let same : (m.id == model_version_id digest_of m.payload) ≡ true =
        (eq_iff m.id (model_version_id digest_of m.payload)).1 h.identity in
      rw (document_accepted m.payload m.id h.content h.form, same) refl

  -- If the digests computed are hexadecimal digests of sha256, the dictionary of a version that was created,
  -- or that was itself read, is read back as that version, whatever document it came of and in whatever
  -- order that had its keys.
  pub to_dict-from_dict :
      (v : Value) (m : ModelVersion)
      → ((payload : Fields) → is_hex_digest (some (codes (digest_of payload))) ≡ true)
      → (create digest_of v ≡ ok m) ⊎ (from_dict digest_of v ≡ ok m)
      → from_dict digest_of (Value.object (to_dict m)) ≡ ok m
  to_dict-from_dict v m formed (inl made) =
      IsModelVersion-from_dict m (create-IsModelVersion v m formed made)
  to_dict-from_dict v m formed (inr was_read) =
      IsModelVersion-from_dict m (from_dict-IsModelVersion v m was_read)
