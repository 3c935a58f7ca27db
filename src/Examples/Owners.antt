-- ===== src/Examples/Owners.antt =====
-- The owner of a binding with a client that activates it, with one that leaves a receipt, and with one
-- that is not there.
use cyrene_yield.Common.{
  String, ◌≡◌, refl, Option, none, some, List, ok, err, lookup, true, false, lstrip, rstrip,
  after_prefix, values, insert, sort_by, same, String-discrete, codes, ℕ,
}
use native.Mathlib.Decide.{ℕ_discrete}
use cyrene_yield.Values.{
  Value, null, bool, int, text, array, object, nil, cons, end, field, normalized_fields,
  insert_sorted, field_names, Fields-discrete,
}
use cyrene_yield.ProductStore.Bindings.{Phase, Scope, Operation, Bindings}
use cyrene_yield.ProductStore.Bindings.Invariant.{ActiveAt, BindingsInv}
use cyrene_yield.ProductStore.Bindings.Status.{BindingStatus}
use cyrene_yield.PackageOwner.{
  Failure, refused, other, package_id, capability_id, product_source_id, receipt_protocol,
  PackageBindingOwner, authorize, package_binding_owner,
}
use cyrene_yield.PackageOwner.Client.{
  Activity, returns, raises, calls, persist_intent, persist, Client, Opened, unavailable, opened,
  Outside,
}
use cyrene_yield.PackageOwner.Receipts.{serialized}
use cyrene_yield.PackageOwner.Activation.{activate}
use cyrene_yield.PackageOwner.Reconciliation.{reconcile}
use cyrene_yield.PackageOwner.Activated.{activate-ActiveAt}
use cyrene_yield.PackageOwner.Reconciled.{reconcile-ActiveAt}
use cyrene_yield.PackageOwner.Requests.{activate_again, owner_calls-BindingsInv}
use cyrene_yield.Examples.Journals.{nothing, nothing-BindingsInv}

abbrev owner : PackageBindingOwner
owner = record { binding_id = some "training"; token_sha256 = none }

abbrev scope : Scope
scope = record { binding_id = "training"; package_id = package_id; installation_id = "installed" }

abbrev receipt : Value
receipt = object (
    field "request_id" (text "request") (
      field "source_id" (text product_source_id) (
        field "protocol_version" (text receipt_protocol) (
          field "scope"
            (object (
              field "binding_id" (text "training") (
                field "package_id" (text package_id) (
                  field "installation_id" (text "installed")
                    (field "operation" (text "activate") end)))))
            (field "catalog_generation" (int 1) (
              field "gate_generation" (int 2) (
                field "operation_token" (text "token") (
                  field "already_in_flight" (bool false)
                    (field "already_completed" (bool false) end)))))))))

abbrev runtime_status : Value
runtime_status = object (
    field "binding_id" (text "training") (
      field "installation_id" (text "installed") (
        field "generation" (int 1) (
          field "state" (text "RUNNING") (
            field "failure_code" null
              (field "failure_message" null (field "connection_ref" (text "socket") end)))))))

abbrev installation : Value
installation = object (
    field "installation_id" (text "installed") (
      field "package_id" (text package_id) (
        field "state" (text "INSTALLED")
          (field "capabilities" (array (cons (text capability_id) nil)) end))))

-- What a callback raised is raised again.
abbrev passed_on : {Q : Type 0} → Option Failure → Activity Q
passed_on none = returns
passed_on (some e) = raises e

abbrev client : Client
client = record {
  source_id = some product_source_id;
  get_installation = λ id. ok installation;
  activate_and_persist = λ b i p.
      calls (persist_intent "request" scope)
        (λ a. calls (persist runtime_status receipt "2") passed_on);
  reconcile_binding_operation_and_persist = λ r.
      calls
        (record {
          status = runtime_status;
          installation = installation;
          receipt = receipt;
          now = "5";
        })
        passed_on;
}

-- The connection breaks, and the exception carries the receipt.
abbrev broken_off : Client
broken_off = record client { activate_and_persist = λ b i p. raises (other (some receipt)) }

abbrev with_client : Opened → Outside
with_client c = record {
  from_environment = c;
  build_receipt = λ fs. some (object fs);
  began = "1";
  completed = "3";
  failed = "4";
  projected = true;
}

abbrev shown : String → BindingStatus
shown now = record {
  binding_id = "training";
  package_id = package_id;
  phase = "ACTIVE";
  request_id = some "request";
  installation_id = some "installed";
  runtime_state = some "RUNNING";
  runtime_generation = some 1;
  blocker = none;
  updated_at = some now;
}

activates :
    (activate owner (with_client (opened client)) nothing "training" (some "installed") "request").0
    ≡ ok (shown "3")
unfolding activate lstrip rstrip lookup values field_names insert sort_by
activates = refl

activate-ActiveAt_example :
    ActiveAt
      (activate owner
        (with_client (opened client))
        nothing
        "training"
        (some "installed")
        "request").1
      "training"
      "installed"
activate-ActiveAt_example =
    activate-ActiveAt owner (with_client (opened client)) nothing "training" "installed" "request"
      (shown "3") nothing-BindingsInv activates

-- The journal that the connection which broke leaves.
abbrev left : Bindings
left =
    (activate owner (with_client (opened broken_off)) nothing "training" (some "installed")
      "request").1

breaks_off :
    (activate owner
      (with_client (opened broken_off))
      nothing
      "training"
      (some "installed")
      "request").0
    ≡ err (refused 409 "YIELD_PACKAGE_BINDING_RECONCILE_REQUIRED")
unfolding activate lstrip rstrip lookup values insert
breaks_off = refl

left-BindingsInv : BindingsInv left
left-BindingsInv =
    (owner_calls-BindingsInv owner (with_client (opened broken_off)) nothing "training"
      (some "installed") "request" nothing-BindingsInv).0

reconciles :
    (reconcile owner (with_client (opened client)) left "training" "request").0 ≡ ok (shown "3")
unfolding reconcile activate lstrip rstrip lookup values insert normalized_fields insert_sorted
    field_names same Fields-discrete String-discrete ℕ_discrete sort_by
reconciles = refl

reconcile-ActiveAt_example :
    (row : Operation) × (lookup "request" left.operations ≡ some row)
    × (row.scope.binding_id ≡ "training")
    × ActiveAt
        (reconcile owner (with_client (opened client)) left "training" "request").1
        "training"
        row.scope.installation_id
reconcile-ActiveAt_example =
    reconcile-ActiveAt owner (with_client (opened client)) left "training" "request" (shown "3")
      left-BindingsInv reconciles

-- What the connection which broke left of the operation.
abbrev left_operation : Operation
left_operation = record {
  request_id = "request";
  scope = scope;
  operation = "activate";
  phase = Phase.pending_reconcile;
  created_at = "1";
  updated_at = "4";
  status = none;
  receipt = some (normalized_fields (serialized receipt));
  blocker = some "PACKAGE_RUNTIME_RECONCILE_REQUIRED";
}

left_row : lookup "request" left.operations ≡ some left_operation
unfolding activate lstrip rstrip lookup values insert
left_row = refl

activate_again_example :
    (activate owner (with_client (opened client)) left "training" (some "installed") "request"
      ≡ activate owner (with_client unavailable) left "training" (some "installed") "request")
    × ((activate owner (with_client (opened client)) left "training" (some "installed") "request").1
        ≡ left)
activate_again_example =
    activate_again owner (with_client (opened client)) (with_client unavailable) left "training"
      (some "installed") "request" left_operation left_row

abbrev digest : String
digest = "ABCDEF0123456789abcdef0123456789abcdef0123456789abcdef0123456789"

abbrev hashed : List ℕ → List ℕ
hashed token = codes "abcdef0123456789abcdef0123456789abcdef0123456789abcdef0123456789"

authorizes :
    authorize hashed (package_binding_owner none (some digest)) (some "Bearer token") ≡ ok tt
unfolding authorize package_binding_owner lstrip rstrip after_prefix
authorizes = refl

no_credential :
    authorize hashed (package_binding_owner none (some "")) (some "Bearer token")
    ≡ err (refused 503 "YIELD_PACKAGE_BINDING_OWNER_DISABLED")
unfolding authorize package_binding_owner after_prefix
no_credential = refl

not_bearer :
    authorize hashed (package_binding_owner none (some digest)) (some "Basic token")
    ≡ err (refused 401 "YIELD_PACKAGE_BINDING_OWNER_UNAUTHORIZED")
unfolding authorize package_binding_owner after_prefix
not_bearer = refl
