-- ===== src/ModelVersion/Texts.antt =====
-- The texts that model_version.py accepts, by its regular expressions and prefixes, on the numbers of the
-- characters.
use Prim.Native.String.{[] as end_of, ◌∷◌ as and_then}
use cyrene_yield.Common.{
  ℕ, zero, suc, String, Bool, true, false, not, ◌&&◌, ◌||◌, List, [], ◌∷◌, length, all, any, is_nil,
  leb, nat_eq, ◌≡◌, refl, concat, codes, is_space, is_hex, is_hex_digest, after_prefix,
  if◌then◌else◌,
}

abbrev pub is_alpha : ℕ → Bool
is_alpha c = (leb 65 c && leb c 90) || (leb 97 c && leb c 122)

abbrev pub is_alnum : ℕ → Bool
is_alnum c = is_alpha c || (leb 48 c && leb c 57)

-- [A-Za-z0-9+.-]
abbrev pub is_scheme : ℕ → Bool
is_scheme c = is_alnum c || nat_eq c 43 || nat_eq c 46 || nat_eq c 45

-- The rest of a scheme, the colon and at least one character, none of them a space.
unfoldable pub after_scheme : List ℕ → Bool
after_scheme [] = false
after_scheme (c ∷ cs) =
    let rest = after_scheme cs in
    if nat_eq c 58 then not (is_nil cs) && all (λ x. not (is_space x)) cs else is_scheme c && rest

-- _RESOURCE_URI_PATTERN
unfoldable pub is_uri : List ℕ → Bool
unfolding after_scheme
is_uri [] = false
is_uri (c ∷ cs) = is_alpha c && after_scheme cs

abbrev pub is_control : ℕ → Bool
is_control c = not (leb 32 c) || (leb 127 c && leb c 159)

-- The conditions of _validate_resource_uri.
unfoldable pub is_resource_uri : String → Bool
unfolding codes is_uri
is_resource_uri value = is_uri (codes value) && not (any is_control (codes value))

-- [A-Za-z0-9_.-]
abbrev pub is_name : ℕ → Bool
is_name c = is_alnum c || nat_eq c 95 || nat_eq c 46 || nat_eq c 45

unfoldable pub after_owner : List ℕ → Bool
after_owner [] = false
after_owner (c ∷ cs) =
    let rest = after_owner cs in
    if nat_eq c 47 then not (is_nil cs) && all is_name cs else is_name c && rest

-- _REPOSITORY_PATTERN
unfoldable pub is_owner_repository : List ℕ → Bool
unfolding after_owner
is_owner_repository [] = false
is_owner_repository (c ∷ cs) = is_name c && after_owner cs

unfoldable pub is_repository : String → Bool
unfolding codes is_owner_repository
is_repository value = is_owner_repository (codes value)

-- _REVISION_PATTERN
unfoldable pub is_revision : String → Bool
unfolding codes
is_revision value = nat_eq (length (codes value)) 40 && all is_hex (codes value)

abbrev pub id_prefix : String
id_prefix = "model-version://sha256/"

-- _MODEL_VERSION_ID_PATTERN
unfoldable pub is_model_version_id : String → Bool
unfolding codes after_prefix
is_model_version_id value = is_hex_digest (after_prefix (codes id_prefix) (codes value))

unfoldable pub drop_chars : ℕ → String → String
drop_chars zero s = s
drop_chars (suc n) end_of = end_of
drop_chars (suc n) (and_then c s) = drop_chars n s

-- _artifact_uri_for_digest, of a digest in its form: what follows `sha256:`
unfoldable pub artifact_uri : String → String
unfolding concat drop_chars
artifact_uri digest = concat "artifact://sha256/" (drop_chars 7 digest)

tests :
    (is_resource_uri "training-run://a/1" ≡ true)
    × (is_resource_uri "a: b" ≡ false)
    × (is_repository "org/model-1.0" ≡ true)
    × (is_repository "org/a/b" ≡ false)
    × (is_repository "/a" ≡ false)
    × (artifact_uri "sha256:ab" ≡ "artifact://sha256/ab")
unfolding is_resource_uri is_repository artifact_uri
tests = (refl, refl, refl, refl, refl, refl)
