-- ===== src/PackageOwner/Receipts.antt =====
-- _receipt_value, _restore_receipt, _validate_installation and _status_outcome of
-- package_runtime_owner.py: what the owner takes from the Package Runtime. An object of the SDK is a
-- value whose fields are its attributes.
use cyrene_yield.Common.{
  ℕ, String, Bool, true, false, not, ◌&&◌, ◌||◌, Option, none, some, List, [], ◌∷◌, ◌==◌, codes,
  strip, is_nil, is_empty, all, any, contains, length, leb, ltb, Result, ok, err, ◌>>◌, raise_if,
  if◌then◌else◌,
}
use cyrene_yield.Values.{
  Value, null, bool, int, text, array, object, Items, nil, cons, Fields, end, field, get_field,
  field_names, normalized_fields,
}
use cyrene_yield.ProductStore.Bindings.{RuntimeStatus, Scope}
use cyrene_yield.PackageOwner.{
  Failure, refused, package_id, capability_id, product_source_id, receipt_protocol, encodes_within,
  is_stripped,
}

-- document.get(key)
unfoldable pub member : Fields → String → Value
unfolding get_field
member fs k = elim (get_field k fs) [ none ↦ null | some v ↦ v ]

-- getattr(value, name, None)
unfoldable attribute : Value → String → Value
unfolding member
attribute (object fs) name = member fs name
attribute _ name = null

abbrev is_text : Value → String → Bool
is_text (text s) t = s == t
is_text _ t = false

-- type(value) is int and value > 0
abbrev is_positive : Value → Bool
is_positive (int n) = ltb 0 n
is_positive _ = false

abbrev is_operation_token : Value → Bool
is_operation_token (text s) =
    not (is_empty s) && leb (length (codes s)) 4096 && not (any (λ c. ltb c 32) (codes s))
is_operation_token _ = false

abbrev is_bool : Value → Bool
is_bool (bool b) = true
is_bool _ = false

abbrev is_false : Value → Bool
is_false (bool b) = not b
is_false _ = false

abbrev scope_expected : Value → Scope → Bool
scope_expected v s =
    is_text (attribute v "binding_id") s.binding_id
    && is_text (attribute v "package_id") package_id
    && is_text (attribute v "installation_id") s.installation_id
    && is_text (attribute v "operation") "activate"

-- `expected` in _receipt_value: already_completed is a Boolean and not true.
unfoldable receipt_expected : Value → String → Scope → Bool
unfolding attribute codes
receipt_expected v request_id s =
    is_text (attribute v "request_id") request_id
    && is_text (attribute v "source_id") product_source_id
    && is_text (attribute v "protocol_version") receipt_protocol
    && is_positive (attribute v "catalog_generation")
    && is_positive (attribute v "gate_generation")
    && is_operation_token (attribute v "operation_token")
    && is_bool (attribute v "already_in_flight")
    && is_false (attribute v "already_completed")
    && scope_expected (attribute v "scope") s

abbrev scope_value : Value → Value
scope_value v = object (
    field "binding_id" (attribute v "binding_id") (
      field "package_id" (attribute v "package_id") (
        field "installation_id" (attribute v "installation_id")
          (field "operation" (attribute v "operation") end))))

-- json.loads(json.dumps(value, sort_keys=True))
unfoldable pub serialized : Value → Fields
unfolding attribute
serialized v = normalized_fields (
    field "request_id" (attribute v "request_id") (
      field "source_id" (attribute v "source_id") (
        field "protocol_version" (attribute v "protocol_version") (
          field "scope" (scope_value (attribute v "scope")) (
            field "catalog_generation" (attribute v "catalog_generation") (
              field "gate_generation" (attribute v "gate_generation") (
                field "operation_token" (attribute v "operation_token") (
                  field "already_in_flight" (attribute v "already_in_flight")
                    (field "already_completed" (attribute v "already_completed") end)))))))))

-- _receipt_value
unfoldable pub receipt_value : Value → String → Scope → Result Failure Fields
unfolding receipt_expected serialized
receipt_value v request_id s = do
  raise_if (not (receipt_expected v request_id s))
      (refused 409 "YIELD_PACKAGE_BINDING_RECEIPT_INVALID")
  ok (serialized v)

abbrev scope_names : List String
scope_names = "binding_id" ∷ "package_id" ∷ "installation_id" ∷ "operation" ∷ []

abbrev receipt_names : List String
receipt_names =
    "request_id" ∷ "source_id" ∷ "protocol_version" ∷ "catalog_generation" ∷ "operation_token"
    ∷ "gate_generation" ∷ "already_in_flight" ∷ "already_completed" ∷ []

abbrev has_names : List String → Fields → Bool
has_names names fs = all (λ name. contains name (field_names fs)) names

-- Whether value["scope"] and each key that is read of the two are there.
abbrev has_receipt_keys : Fields → Value → Bool
has_receipt_keys fs (object s) = has_names scope_names s && has_names receipt_names fs
has_receipt_keys fs _ = false

-- _restore_receipt; `build` makes the objects of the SDK, or raises TypeError, ValueError or
-- ImportError.
unfoldable pub restore_receipt : (Fields → Option Value) → Fields → Result Failure Value
unfolding member
restore_receipt build fs = do
  raise_if (not (has_receipt_keys fs (member fs "scope")))
      (refused 409 "YIELD_PACKAGE_BINDING_RECEIPT_INVALID")
  elim (build fs) [
    | none ↦ err (refused 409 "YIELD_PACKAGE_BINDING_RECEIPT_INVALID")
    | some v ↦ ok v
  ]

abbrev has_item : String → Items → Bool
has_item s nil = false
has_item s (cons v vs) = is_text v s || has_item s vs

abbrev advertises : Value → Bool
advertises (array vs) = has_item capability_id vs
advertises _ = false

abbrev is_installed : Value → String → Bool
is_installed (object fs) installation_id =
    is_text (member fs "installation_id") installation_id
    && is_text (member fs "package_id") package_id
    && is_text (member fs "state") "INSTALLED"
    && advertises (member fs "capabilities")
is_installed _ installation_id = false

-- _validate_installation
unfoldable pub validate_installation : Value → String → Result Failure (Unit {0})
unfolding member
validate_installation v installation_id =
    raise_if (not (is_installed v installation_id))
      (refused 409 "YIELD_PACKAGE_INSTALLATION_NOT_READY")

abbrev is_protocol_control : ℕ → Bool
is_protocol_control c = ltb c 32 || (leb 127 c && leb c 159)

-- _bounded_protocol_text
unfoldable bounded_protocol_text : ℕ → String → Bool
unfolding codes
bounded_protocol_text max_length s =
    not (is_nil (strip (codes s)))
    && leb (length (codes s)) max_length
    && not (any is_protocol_control (codes s))

-- _valid_connection_ref
unfoldable valid_connection_ref : String → Bool
unfolding codes is_stripped
valid_connection_ref s =
    is_stripped (codes s)
    && encodes_within 2048 (codes s)
    && not (any is_protocol_control (codes s))

-- value is None or a text that passes a test
abbrev none_or : (String → Bool) → Value → Bool
none_or p null = true
none_or p (text s) = p s
none_or p _ = false

abbrev is_state : Value → Bool
is_state (text s) = contains s ("RUNNING" ∷ "STOPPED" ∷ "FAILED" ∷ [])
is_state _ = false

abbrev is_null : Value → Bool
is_null null = true
is_null _ = false

abbrev text_or_none : Value → Option String
text_or_none (text s) = some s
text_or_none _ = none

abbrev number_of : Value → Option ℕ
number_of (int n) = some n
number_of _ = none

abbrev is_present : Option String → Bool
is_present none = false
is_present (some s) = not (is_empty s)

pub record StatusOutcome : Type 0 where
  pub snapshot : Option RuntimeStatus
  pub healthy : Bool
  pub blocker : String

abbrev status_names : List String
status_names =
    "binding_id" ∷ "installation_id" ∷ "generation" ∷ "state" ∷ "failure_code" ∷ "failure_message"
    ∷ "connection_ref" ∷ []

abbrev no_outcome : String → StatusOutcome
no_outcome blocker = record { snapshot = none; healthy = false; blocker = blocker }

unfoldable status_valid : Fields → Bool
unfolding member bounded_protocol_text valid_connection_ref
status_valid fs =
    is_positive (member fs "generation")
    && is_state (member fs "state")
    && none_or (bounded_protocol_text 4096) (member fs "failure_code")
    && none_or (bounded_protocol_text 4096) (member fs "failure_message")
    && none_or valid_connection_ref (member fs "connection_ref")

abbrev is_healthy : Fields → Bool
is_healthy fs =
    is_text (member fs "state") "RUNNING"
    && is_null (member fs "failure_code")
    && is_null (member fs "failure_message")
    && is_present (text_or_none (member fs "connection_ref"))

abbrev outcome_of : Fields → StatusOutcome
outcome_of fs = record {
  snapshot = some (record {
    state = text_or_none (member fs "state");
    generation = number_of (member fs "generation");
    failure_code = text_or_none (member fs "failure_code");
    connection_ref = text_or_none (member fs "connection_ref");
  });
  healthy = is_healthy fs;
  blocker =
      if is_healthy fs
      then "PACKAGE_RUNTIME_COMPLETE_PENDING"
      else "PACKAGE_RUNTIME_BINDING_NOT_HEALTHY";
}

-- _status_outcome
unfoldable pub status_outcome : Value → String → String → StatusOutcome
unfolding member status_valid
status_outcome (object fs) binding_id installation_id =
    if not (has_names status_names fs)
    then no_outcome "PACKAGE_RUNTIME_STATUS_INVALID"
    else if not (
        is_text (member fs "binding_id") binding_id
        && is_text (member fs "installation_id") installation_id)
    then no_outcome "PACKAGE_RUNTIME_SCOPE_MISMATCH"
    else if not (status_valid fs)
    then no_outcome "PACKAGE_RUNTIME_STATUS_INVALID"
    else outcome_of fs
status_outcome _ binding_id installation_id = no_outcome "PACKAGE_RUNTIME_STATUS_INVALID"
