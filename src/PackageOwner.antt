-- ===== src/PackageOwner.antt =====
-- PackageBindingOwner of package_runtime_owner.py, which activates the binding of a package and records
-- it in the journal of the product store: the credential, and the tests of what a caller names.
pub mod Client
pub mod Receipts
pub mod Activation
pub mod Reconciliation
pub mod Keeping
pub mod Steps
pub mod Completing
pub mod Activated
pub mod Reconciled
pub mod Requests
use cyrene_yield.Common.{
  ℕ, String, Bool, true, false, not, ◌+◌, ◌&&◌, ◌||◌, Option, none, some, List, [], ◌∷◌, ◌==◌,
  codes, is_space, strip, after_prefix, is_hex, is_nil, is_empty, all, any, length, leb, ltb,
  nat_eq, Result, ok, err, ◌>>◌, raise_if, if◌then◌else◌,
}
use cyrene_yield.Values.{Value}

-- What a call raises: PackageBindingOwnerFailure, or another exception with what its attribute
-- pending_binding_operation holds.
pub data Failure : Type 0 where
  refused : ℕ → String → Failure
  other : Option Value → Failure

-- PACKAGE_ID, CAPABILITY_ID, PRODUCT_SOURCE_ID and _RECEIPT_PROTOCOL
abbrev pub package_id : String
package_id = "cyrene.training.llama-factory"

abbrev pub capability_id : String
capability_id = "training.llama-factory.v1"

abbrev pub product_source_id : String
product_source_id = "cyrene-yield"

abbrev pub receipt_protocol : String
receipt_protocol = "cyrene.runtime-maintenance.binding-operations.v1"

abbrev is_lower_or_digit : ℕ → Bool
is_lower_or_digit c = (leb 97 c && leb c 122) || (leb 48 c && leb c 57)

abbrev is_identity_char : ℕ → Bool
is_identity_char c = is_lower_or_digit c || nat_eq c 46 || nat_eq c 95 || nat_eq c 45

abbrev matches_identity : List ℕ → Bool
matches_identity [] = false
matches_identity (c ∷ cs) =
    is_lower_or_digit c && leb 1 (length cs) && leb (length cs) 127 && all is_identity_char cs

-- _IDENTITY_PATTERN
unfoldable pub is_identity : String → Bool
unfolding codes
is_identity s = matches_identity (codes s)

abbrev is_any_hex : ℕ → Bool
is_any_hex c = is_hex c || (leb 65 c && leb c 70)

-- value if isinstance(value, str) and value else None
abbrev present : Option String → Option String
present none = none
present (some s) = if is_empty s then none else some s

pub record PackageBindingOwner : Type 0 where
  pub binding_id : Option String
  pub token_sha256 : Option String

-- __init__
unfoldable pub package_binding_owner : Option String → Option String → PackageBindingOwner
package_binding_owner binding_id token_sha256 = record {
  binding_id = present binding_id;
  token_sha256 = present token_sha256;
}

-- The bytes of a character in UTF-8.
abbrev encoded_length : List ℕ → ℕ
encoded_length [] = 0
encoded_length (c ∷ cs) =
    (if ltb c 128 then 1 else if ltb c 2048 then 2 else if ltb c 65536 then 3 else 4)
    + encoded_length cs

-- A character that text.encode("utf-8") refuses.
abbrev is_surrogate : ℕ → Bool
is_surrogate c = leb 55296 c && leb c 57343

-- Whether text.encode("utf-8") returns, with at most `n` bytes.
abbrev pub encodes_within : ℕ → List ℕ → Bool
encodes_within n cs = not (any is_surrogate cs) && leb (encoded_length cs) n

unfoldable same_codes : List ℕ → List ℕ → Bool
same_codes [] [] = true
same_codes (c ∷ cs) (d ∷ ds) = nat_eq c d && same_codes cs ds
same_codes _ _ = false

-- value and value == value.strip()
unfoldable pub is_stripped : List ℕ → Bool
unfolding same_codes
is_stripped cs = not (is_nil cs) && same_codes cs (strip cs)

abbrev lower_hex : List ℕ → List ℕ
lower_hex [] = []
lower_hex (c ∷ cs) = (if leb 65 c && leb c 90 then c + 32 else c) ∷ lower_hex cs

abbrev unauthorized : Failure
unauthorized = refused 401 "YIELD_PACKAGE_BINDING_OWNER_UNAUTHORIZED"

abbrev disabled : Failure
disabled = refused 503 "YIELD_PACKAGE_BINDING_OWNER_DISABLED"

-- `sha256` gives the hexadecimal digest of the UTF-8 of a text.
module _ (sha256 : List ℕ → List ℕ) where
  unfoldable authorize_token : List ℕ → Option (List ℕ) → Result Failure (Unit {0})
  unfolding is_stripped same_codes
  authorize_token digest none = err unauthorized
  authorize_token digest (some token) = do
    raise_if (not (is_stripped token)) unauthorized
    raise_if (any is_surrogate token) unauthorized
    raise_if (not (same_codes (sha256 token) (lower_hex digest))) unauthorized

  abbrev bearer_token : Option String → Option (List ℕ)
  bearer_token none = none
  bearer_token (some authorization) = after_prefix (codes "Bearer ") (codes authorization)

  unfoldable pub authorize : PackageBindingOwner → Option String → Result Failure (Unit {0})
  unfolding authorize_token codes
  authorize owner authorization = elim owner.token_sha256 [
    | none ↦ err disabled
    | some digest ↦ do
      raise_if (not (nat_eq (length (codes digest)) 64 && all is_any_hex (codes digest))) disabled
      authorize_token (codes digest) (bearer_token authorization)
  ]

unfoldable pub require_installed : Option String → String → Result Failure String
unfolding is_identity
require_installed none requested = err disabled
require_installed (some binding_id) requested = do
  raise_if (not (is_identity binding_id)) disabled
  raise_if (not (requested == binding_id)) (refused 404 "YIELD_PACKAGE_BINDING_NOT_FOUND")
  ok binding_id

unfoldable pub require_binding : PackageBindingOwner → String → Result Failure String
unfolding require_installed is_identity
require_binding owner requested = do
  raise_if (not (is_identity requested)) (refused 422 "YIELD_PACKAGE_BINDING_ID_INVALID")
  require_installed owner.binding_id requested

abbrev is_request_control : ℕ → Bool
is_request_control c = ltb c 32 || nat_eq c 127

-- _require_request_id
unfoldable pub require_request_id : String → Result Failure (Unit {0})
unfolding codes is_stripped
require_request_id request_id =
    raise_if
      (not (
        is_stripped (codes request_id)
        && encodes_within 256 (codes request_id)
        && not (any is_request_control (codes request_id))))
      (refused 422 "YIELD_PACKAGE_BINDING_REQUEST_ID_INVALID")
