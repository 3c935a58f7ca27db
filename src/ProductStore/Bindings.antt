-- ===== src/ProductStore/Bindings.antt =====
-- The tables package_binding_operations and package_binding_owner_state of product_store.py: the
-- journal of activations, one row for each request, and the state of each binding.
pub mod Invariant
pub mod Kept
pub mod Reach
pub mod Status
use cyrene_yield.Common.{
  ℕ, String, Bool, true, false, not, ◌&&◌, ◌||◌, Option, none, some, List, [], ◌∷◌, ◌==◌, any,
  is_empty, same, same_option, Dict, lookup, insert, values, Result, ok, err, ◌>>=◌, ◌>>◌, raise_if,
  if◌then◌else◌,
}
use cyrene_yield.Values.{Fields, Fields-discrete, normalized_fields}

-- The phases of an operation, and `active`, which only the state of a binding has.
pub data Phase : Type 0 where
  intent outcome_pending_complete pending_reconcile unknown completed active : Phase

unfoldable pub Phase-discrete : Discrete Phase
Phase-discrete = hlevel

-- What is read of the status that the Package Runtime reports.
pub record RuntimeStatus : Type 0 where
  pub state : Option String
  pub generation : Option ℕ
  pub failure_code : Option String
  pub connection_ref : Option String

pub record Scope : Type 0 where
  pub binding_id : String
  pub package_id : String
  pub installation_id : String

pub record Operation : Type 0 where
  pub request_id : String
  pub scope : Scope
  pub operation : String
  pub phase : Phase
  pub created_at : String
  pub updated_at : String
  pub status : Option RuntimeStatus
  pub receipt : Option Fields
  pub blocker : Option String

pub record Owner : Type 0 where
  pub package_id : String
  pub installation_id : String
  pub request_id : String
  pub phase : Phase
  pub status : Option RuntimeStatus
  pub blocker : Option String
  pub updated_at : String

pub record Bindings : Type 0 where
  pub operations : Dict Operation
  pub owners : Dict Owner

pub data BindingError : Type 0 where
  -- ValueError
  idempotency_conflict : BindingError
  active_conflict : BindingError
  operation_pending : BindingError
  intent_conflict : BindingError
  phase_invalid : BindingError
  receipt_conflict : BindingError
  outcome_missing : BindingError
  outcome_invalid : BindingError
  -- KeyError
  unknown_request : BindingError

-- What begin_package_binding_operation returns: `reserved` stands for None.
pub data Begun : Type 0 where
  reserved : Begun
  existing : Operation → Begun
  already_active : String → Begun

-- _binding_scope_matches
unfoldable pub binding_scope_matches : Operation → Scope → Bool
binding_scope_matches row s =
    row.scope.binding_id == s.binding_id
    && row.scope.package_id == s.package_id
    && row.scope.installation_id == s.installation_id
    && row.operation == "activate"

abbrev pub is_completed : Phase → Bool
is_completed Phase.completed = true
is_completed _ = false

-- WHERE binding_id=? AND phase <> 'COMPLETED'
abbrev pub pending_in : String → Operation → Bool
pending_in binding_id row = row.scope.binding_id == binding_id && not (is_completed row.phase)

-- _write_package_binding_state
unfoldable pub write_state :
    Bindings → Scope → String → Phase → Option RuntimeStatus → Option String → String → Bindings
write_state b scope request_id phase status blocker now = record b {
  owners =
      insert scope.binding_id
        (record {
          package_id = scope.package_id;
          installation_id = scope.installation_id;
          request_id = request_id;
          phase = phase;
          status = status;
          blocker = blocker;
          updated_at = now;
        })
        b.owners;
}

-- INSERT INTO or UPDATE package_binding_operations, of the row with the request's key
abbrev pub write_operation : Bindings → String → Operation → Bindings
write_operation b request_id row = record b { operations = insert request_id row b.operations }

-- The row that a new intent inserts.
abbrev pub new_operation : String → Scope → String → Operation
new_operation request_id scope now = record {
  request_id = request_id;
  scope = scope;
  operation = "activate";
  phase = Phase.intent;
  created_at = now;
  updated_at = now;
  status = none;
  receipt = none;
  blocker = some "PACKAGE_BINDING_ACTIVATION_PENDING";
}

abbrev pub reserve : Bindings → String → Scope → String → Bindings
reserve b request_id scope now =
    write_state (write_operation b request_id (new_operation request_id scope now)) scope request_id
      Phase.intent none (some "PACKAGE_BINDING_ACTIVATION_PENDING") now

-- The branch of a request that is new, of a binding that is not active.
unfoldable pub begin_inactive :
    Bindings → String → Scope → String → Result BindingError (Begun × Bindings)
unfolding write_state
begin_inactive b request_id scope now = do
  raise_if (any (pending_in scope.binding_id) (values b.operations)) operation_pending
  ok (reserved, reserve b request_id scope now)

abbrev pub active_owner : Option Owner → Option String
active_owner none = none
active_owner (some o) = elim o.phase [ Phase.active ↦ some o.installation_id | _ ↦ none ]

unfoldable pub begin_new :
    Bindings → String → Scope → String → Option String → Result BindingError (Begun × Bindings)
unfolding begin_inactive
begin_new b request_id scope now none = begin_inactive b request_id scope now
begin_new b request_id scope now (some installation_id) = do
  raise_if (not (installation_id == scope.installation_id)) active_conflict
  ok (already_active installation_id, b)

-- begin_package_binding_operation
unfoldable pub begin_package_binding_operation :
    Bindings → String → Scope → String → Result BindingError (Begun × Bindings)
unfolding begin_new binding_scope_matches
begin_package_binding_operation b request_id scope now = elim (lookup request_id b.operations) [
  | some row ↦ do
    raise_if (not (binding_scope_matches row scope)) idempotency_conflict
    ok (existing row, b)
  | none ↦ begin_new b request_id scope now (active_owner (lookup scope.binding_id b.owners))
]

abbrev pub is_intent : Phase → Bool
is_intent Phase.intent = true
is_intent _ = false

-- The test of verify_package_binding_intent on the row that it read.
abbrev pub intent_holds : Option Operation → Scope → Bool
intent_holds none scope = false
intent_holds (some row) scope = binding_scope_matches row scope && is_intent row.phase

-- verify_package_binding_intent
unfoldable pub verify_package_binding_intent :
    Bindings → String → Scope → Result BindingError (Unit {0})
unfolding binding_scope_matches
verify_package_binding_intent b request_id scope =
    raise_if (not (intent_holds (lookup request_id b.operations) scope)) intent_conflict

abbrev pub is_outcome_phase : Phase → Bool
is_outcome_phase Phase.outcome_pending_complete = true
is_outcome_phase Phase.pending_reconcile = true
is_outcome_phase _ = false

-- `json.loads(row[5]) != receipt`, of a receipt that is stored
abbrev pub other_receipt : Option Fields → Fields → Bool
other_receipt none receipt = false
other_receipt (some stored) receipt =
    not (same Fields-discrete (normalized_fields stored) (normalized_fields receipt))

-- The rows that record_package_binding_outcome accepts.
abbrev pub takes_outcome : Operation → Scope → Fields → Bool
takes_outcome row scope receipt =
    binding_scope_matches row scope
    && (is_intent row.phase || is_outcome_phase row.phase)
    && not (other_receipt row.receipt receipt)

abbrev pub with_outcome :
    Operation → Phase → Option RuntimeStatus → Fields → Option String → String → Operation
with_outcome row phase status receipt blocker now = record row {
  phase = phase;
  updated_at = now;
  status = status;
  receipt = some (normalized_fields receipt);
  blocker = blocker;
}

unfoldable pub record_outcome_of :
    Bindings
    → String
    → Option Operation
    → Scope
    → Option RuntimeStatus
    → Fields
    → Phase
    → Option String
    → String
    → Result BindingError Bindings
unfolding binding_scope_matches write_state
record_outcome_of b request_id none scope status receipt phase blocker now = err receipt_conflict
record_outcome_of b request_id (some row) scope status receipt phase blocker now = do
  raise_if (not (takes_outcome row scope receipt)) receipt_conflict
  ok (
      write_state (write_operation b request_id (with_outcome row phase status receipt blocker now))
        scope request_id phase status blocker now)

-- record_package_binding_outcome
unfoldable pub record_package_binding_outcome :
    Bindings
    → String
    → Scope
    → Option RuntimeStatus
    → Fields
    → Phase
    → Option String
    → String
    → Result BindingError Bindings
unfolding record_outcome_of
record_package_binding_outcome b request_id scope status receipt phase blocker now = do
  raise_if (not (is_outcome_phase phase)) phase_invalid
  record_outcome_of b request_id (lookup request_id b.operations) scope status receipt phase blocker
      now

abbrev pub may_be_unknown : Operation → Bool
may_be_unknown row = elim row.receipt [
  | some r ↦ false
  | none ↦ elim row.phase [ Phase.intent ↦ true | Phase.unknown ↦ true | _ ↦ false ]
]

-- The first transaction of mark_package_binding_unknown, and the second where it commits.
abbrev pub as_unknown : Bindings → String → Operation → String → Bool → String → Bindings
as_unknown b request_id row blocker projected now =
    let marked =
      write_operation b request_id
        (record row { phase = Phase.unknown; updated_at = now; blocker = some blocker }) in
    if projected
    then write_state marked row.scope request_id Phase.unknown none (some blocker) now
    else marked

-- mark_package_binding_unknown; `projected` tells whether the second transaction commits.
unfoldable pub mark_package_binding_unknown :
    Bindings → String → String → Bool → String → Result BindingError Bindings
unfolding write_state
mark_package_binding_unknown b request_id blocker projected now =
    elim (lookup request_id b.operations) [
      | none ↦ err unknown_request
      | some row ↦
          ok (if may_be_unknown row then as_unknown b request_id row blocker projected now else b)
    ]

-- state == "RUNNING" and a connection reference
abbrev pub is_running : Option RuntimeStatus → Bool
is_running none = false
is_running (some s) =
    same_option s.state (some "RUNNING")
    && elim s.connection_ref [ none ↦ false | some c ↦ not (is_empty c) ]

abbrev pub completes : Phase → Bool
completes Phase.outcome_pending_complete = true
completes Phase.completed = true
completes _ = false

unfoldable pub complete_of : Bindings → String → Operation → String → Result BindingError Bindings
unfolding write_state
complete_of b request_id row now = do
  raise_if (not (completes row.phase)) outcome_missing
  raise_if (not (is_running row.status)) outcome_invalid
  ok (
      write_state
        (write_operation b request_id (record row {
          phase = Phase.completed;
          updated_at = now;
          receipt = none;
          blocker = none;
        }))
        row.scope request_id Phase.active row.status none now)

-- mark_package_binding_completed
unfoldable pub mark_package_binding_completed :
    Bindings → String → String → Result BindingError Bindings
unfolding complete_of
mark_package_binding_completed b request_id now = elim (lookup request_id b.operations) [
  | none ↦ err outcome_missing
  | some row ↦ complete_of b request_id row now
]

-- package_binding_operation_for_reconcile
unfoldable pub operation_for_reconcile : Bindings → String → String → Option Operation
operation_for_reconcile b request_id binding_id = elim (lookup request_id b.operations) [
  | none ↦ none
  | some row ↦ if row.scope.binding_id == binding_id then some row else none
]
