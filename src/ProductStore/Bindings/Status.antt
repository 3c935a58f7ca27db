-- ===== src/ProductStore/Bindings/Status.antt =====
-- package_binding_status of product_store.py: what is shown of a binding.
use cyrene_yield.Common.{
  ℕ, String, Bool, Option, none, some, List, [], ◌∷◌, ◌==◌, filter, sort_by, text_le, lookup,
  values, if◌then◌else◌,
}
use cyrene_yield.ProductStore.Bindings.{
  Phase, RuntimeStatus, Operation, Owner, Bindings, is_completed,
}

pub record BindingStatus : Type 0 where
  pub binding_id : String
  pub package_id : String
  pub phase : String
  pub request_id : Option String
  pub installation_id : Option String
  pub runtime_state : Option String
  pub runtime_generation : Option ℕ
  pub blocker : Option String
  pub updated_at : Option String

abbrev phase_text : Phase → String
phase_text Phase.intent = "INTENT"
phase_text Phase.outcome_pending_complete = "OUTCOME_PENDING_COMPLETE"
phase_text Phase.pending_reconcile = "PENDING_RECONCILE"
phase_text Phase.unknown = "UNKNOWN"
phase_text Phase.completed = "COMPLETED"
phase_text Phase.active = "ACTIVE"

abbrev shown_phase : Phase → String
shown_phase p = if is_completed p then "ACTIVE" else phase_text p

-- ORDER BY updated_at DESC, created_at DESC
abbrev latest_first : Operation → Operation → Bool
latest_first a b =
    if a.updated_at == b.updated_at
    then text_le b.created_at a.created_at
    else text_le b.updated_at a.updated_at

abbrev fetch_one : List Operation → Option Operation
fetch_one [] = none
fetch_one (x ∷ xs) = some x

unfoldable latest_operation : Bindings → String → Option Operation
latest_operation b binding_id = fetch_one (
    sort_by latest_first
      (filter (λ (row : Operation). row.scope.binding_id == binding_id) (values b.operations)))

abbrev state_of : Option RuntimeStatus → Option String
state_of none = none
state_of (some s) = s.state

abbrev generation_of : Option RuntimeStatus → Option ℕ
generation_of none = none
generation_of (some s) = s.generation

abbrev without_owner : String → Option Operation → BindingStatus
without_owner binding_id none = record {
  binding_id = binding_id;
  package_id = "cyrene.training.llama-factory";
  phase = "UNBOUND";
  request_id = none;
  installation_id = none;
  runtime_state = none;
  runtime_generation = none;
  blocker = some "PACKAGE_BINDING_NOT_INITIALIZED";
  updated_at = none;
}
without_owner binding_id (some row) = record {
  binding_id = binding_id;
  package_id = "cyrene.training.llama-factory";
  phase = shown_phase row.phase;
  request_id = some row.request_id;
  installation_id = some row.scope.installation_id;
  runtime_state = none;
  runtime_generation = none;
  blocker = row.blocker;
  updated_at = none;
}

abbrev of_owner : String → Owner → BindingStatus
of_owner binding_id owner = record {
  binding_id = binding_id;
  package_id = owner.package_id;
  phase = phase_text owner.phase;
  request_id = some owner.request_id;
  installation_id = some owner.installation_id;
  runtime_state = state_of owner.status;
  runtime_generation = generation_of owner.status;
  blocker = owner.blocker;
  updated_at = some owner.updated_at;
}

abbrev with_owner : String → Owner → Option Operation → BindingStatus
with_owner binding_id owner none = of_owner binding_id owner
with_owner binding_id owner (some row) = record (of_owner binding_id owner) {
  request_id = some row.request_id;
  installation_id = some row.scope.installation_id;
  phase = shown_phase row.phase;
  blocker = if is_completed row.phase then owner.blocker else row.blocker;
}

-- package_binding_status
unfoldable pub package_binding_status : Bindings → String → BindingStatus
unfolding latest_operation
package_binding_status b binding_id = elim (lookup binding_id b.owners) [
  | none ↦ without_owner binding_id (latest_operation b binding_id)
  | some owner ↦ with_owner binding_id owner (latest_operation b binding_id)
]
