-- ===== src/Environment/Documents/RoundTrip.antt =====
-- An EnvironmentLock that is written, stored_value as JSON with sorted keys, and read back.
use Prim.Native.String.{compare}
use Prim.Native.Nat.{Ordering}
use cyrene_yield.Common.{
  insert_by, sort_by, not_gt, String, ◌≡◌, refl, sym, ap, ◌∙◌, subst, Bool, true, false, Option,
  none, some, List, [], ◌∷◌, ◌==◌, eq_iff, Dict, is_empty, ok, raise_if-ok, Bool-cases, inl, inr,
  if◌then◌else◌,
}
use cyrene_yield.Values.{
  Value, text, Fields, end, field, get_field, set_field, insert_sorted, normalized_fields,
  normalized,
}
use cyrene_yield.Values.Reading.{
  get_field-set_field_self, get_field-set_field_ne, get_field-normalized,
}
use cyrene_yield.Environment.Contracts.{
  EnvironmentLock, key_le, texts, set_given, mapping, new_lock,
}
use cyrene_yield.Environment.Resolver.Locks.{new_lock-ok}
use cyrene_yield.Environment.Documents.{
  unresolved, set_all, optional_fields, required_fields, to_dict, optional_of, required_of, pairs,
  versions_of, as_invalid, lock_fields, from_dict,
}

abbrev or_else : Option String → Option String → Option String
or_else none o = o
or_else (some v) o = some v

-- The last value that is given for a name.
abbrev given : String → List (String × Option String) → Option String
given name [] = none
given name ((k, o) ∷ rest) =
    let later = given name rest in if k == name then or_else later o else later

abbrev read_or : Option String → Option Value → Option Value
read_or none o = o
read_or (some v) o = some (text v)

get_field-set_given :
    (name k : String) (o : Option String) (d : Fields)
    → get_field name (set_given k o d) ≡ read_or (if k == name then o else none) (get_field name d)
get_field-set_given name k none d = by_key (k == name)
  where
    by_key : (c : Bool) → get_field name d ≡ read_or (if c then none else none) (get_field name d)
    by_key true = refl
    by_key false = refl
get_field-set_given name k (some v) d = elim (Bool-cases (k == name)) [
  | inl t ↦ rw t (
      subst (λ z. get_field z (set_field k (text v) d) ≡ some (text v)) ((eq_iff k name).0 t)
        (get_field-set_field_self k (text v) d))
  | inr n ↦ rw n (get_field-set_field_ne name k (text v) d n)
]

get_field-set_all :
    (name : String) (fields : List (String × Option String)) (d : Fields)
    → get_field name (set_all fields d) ≡ read_or (given name fields) (get_field name d)
get_field-set_all name [] d = refl
get_field-set_all name ((k, o) ∷ rest) d =
    get_field-set_all name rest (set_given k o d)
    ∙ ap (read_or (given name rest)) (get_field-set_given name k o d)
    ∙ joined (k == name) (given name rest) o
  where
    joined :
        (c : Bool) (a b : Option String)
        → read_or a (read_or (if c then b else none) (get_field name d))
          ≡ read_or (if c then or_else a b else a) (get_field name d)
    joined true none b = refl
    joined true (some v) b = refl
    joined false none b = refl
    joined false (some v) b = refl

-- What json writes and reads of a value that is read.
abbrev stored_value : Option Value → Option Value
stored_value none = none
stored_value (some v) = some (normalized v)

optional_stored :
    (name : String) (o : Option String) → optional_of name (stored_value (read_or o none)) ≡ ok o
unfolding normalized
optional_stored name none = refl
optional_stored name (some v) = refl

module _ (str : Value → String) (str_text : (s : String) → str (text s) ≡ s) where
  pairs-insert_sorted :
      (k v : String) (fs : Fields)
      → pairs str (insert_sorted k (text v) fs) ≡ insert_by key_le (k, v) (pairs str fs)
  unfolding insert_sorted insert_by
  pairs-insert_sorted k v end = ap (λ z. (k, z) ∷ []) (str_text v)
  pairs-insert_sorted k v (field j w fs) = go (compare k j) (pairs-insert_sorted k v fs)
    where
      go :
          (o : Ordering)
          → pairs str (insert_sorted k (text v) fs) ≡ insert_by key_le (k, v) (pairs str fs)
          → pairs str (elim o [
            | Ordering.gt ↦ field j w (insert_sorted k (text v) fs)
            | _ ↦ field k (text v) (field j w fs)
          ])
            ≡ (if not_gt o
                then (k, v) ∷ (j, str w) ∷ pairs str fs
                else (j, str w) ∷ insert_by key_le (k, v) (pairs str fs))
      go Ordering.lt h = ap (λ z. (k, z) ∷ (j, str w) ∷ pairs str fs) (str_text v)
      go Ordering.eq h = ap (λ z. (k, z) ∷ (j, str w) ∷ pairs str fs) (str_text v)
      go Ordering.gt h = ap (λ z. (j, str w) ∷ z) h

  -- A mapping of texts is read back sorted by its keys.
  pairs-texts : (d : Dict String) → pairs str (normalized_fields (texts d)) ≡ mapping d
  unfolding mapping sort_by normalized_fields
  pairs-texts [] = refl
  pairs-texts ((k, v) ∷ d) =
      pairs-insert_sorted k v (normalized_fields (texts d))
      ∙ ap (insert_by key_le (k, v)) (pairs-texts d)

  module _ (digest_of : Fields → String) (l : EnvironmentLock) where
    abbrev document : Fields
    document = set_all (optional_fields l) (required_fields l)

    reads :
        (name : String)
        → get_field name (normalized_fields document)
          ≡ stored_value
              (read_or (given name (optional_fields l)) (get_field name (required_fields l)))
    reads name =
        get_field-normalized name document
        ∙ by_cases (get_field-set_all name (optional_fields l) (required_fields l))
      where
        by_cases :
            {a b : Option Value}
            → a ≡ b
            → (elim a [ none ↦ none | some v ↦ some (normalized v) ]) ≡ stored_value b
        by_cases {a = none} e = ap stored_value e
        by_cases {a = some v} e = ap stored_value e

    reads_required :
        (name v : String)
        → get_field name (normalized_fields document) ≡ some (text v)
        → required_of str name (get_field name (normalized_fields document)) ≡ ok v
    reads_required name v e = ap (required_of str name) e ∙ ap ok (str_text v)

    reads_optional :
        (name : String) (o : Option String)
        → get_field name (normalized_fields document) ≡ stored_value (read_or o none)
        → optional_of name (get_field name (normalized_fields document)) ≡ ok o
    reads_optional name o e = ap (optional_of name) e ∙ optional_stored name o

    reads_versions :
        versions_of str (get_field "framework_versions" (normalized_fields document))
        ≡ ok (mapping l.framework_versions)
    unfolding get_field normalized
    reads_versions =
        ap (versions_of str) (reads "framework_versions") ∙ ap ok (pairs-texts l.framework_versions)

    -- The lock that the document of to_dict makes.
    read_back :
        from_dict str digest_of (normalized_fields document)
        ≡ as_invalid
            (new_lock digest_of (record l { framework_versions = mapping l.framework_versions }))
    unfolding from_dict lock_fields get_field normalized
    read_back =
        rw
          (
            reads_required "schema_version" l.schema_version (reads "schema_version"),
            reads_required "runtime_profile" l.runtime_profile (reads "runtime_profile"),
            reads_required "python_version" l.python_version (reads "python_version"),
            reads_required "environment_digest" l.environment_digest (reads "environment_digest"),
            reads_optional "engine" l.engine (reads "engine"),
            reads_optional "engine_version" l.engine_version (reads "engine_version"),
            reads_optional "runtime_version" l.runtime_version (reads "runtime_version"),
            reads_optional "accelerator_runtime" l.accelerator_runtime
                (reads "accelerator_runtime"),
            reads_optional "minimum_driver" l.minimum_driver (reads "minimum_driver"),
            reads_optional "base_image_digest" l.base_image_digest (reads "base_image_digest"),
            reads_optional "dependency_lock_digest" l.dependency_lock_digest
                (reads "dependency_lock_digest"),
            reads_optional "custom_environment_digest" l.custom_environment_digest
                (reads "custom_environment_digest"),
            reads_optional "resolution_provenance" l.resolution_provenance
                (reads "resolution_provenance"),
            reads_optional "created_at" l.created_at (reads "created_at"),
            reads_versions,
            from_dict,
            lock_fields,
          )
          refl

    -- If Python's str gives a text itself, a lock that its constructor made, and of which to_dict returns a
    -- document, is read back as it was from that document with its keys sorted.
    pub to_dict-from_dict_lock :
        (d : Fields)
        → new_lock digest_of l ≡ ok l
        → to_dict l ≡ ok d
        → from_dict str digest_of (normalized_fields d) ≡ ok l
    unfolding to_dict
    to_dict-from_dict_lock d made h =
        let (resolved, h₁) =
          raise_if-ok (is_empty l.environment_digest) unresolved (ok document) h in
        let written : document ≡ d = cc h₁ in
        let (c, sorted, e) = new_lock-ok digest_of l l made in
        subst (λ z. from_dict str digest_of (normalized_fields z) ≡ ok l) written
          (read_back
            ∙ ap (λ (z : EnvironmentLock). as_invalid (new_lock digest_of z)) (sym sorted)
            ∙ ap as_invalid made)
