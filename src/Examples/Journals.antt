-- ===== src/Examples/Journals.antt =====
-- The journals of the product store: an activation from its intent to its completion, and two batches
-- of events.
use cyrene_yield.Common.{
  ◌+◌, ◌<◌, ◌≤◌, ◌≡◌, refl, none, some, [], ◌∷◌, ◌++◌, ok, All, length, lookup, insert, values,
  arith,
}
use cyrene_yield.Values.{Fields, normalized_fields}
use cyrene_yield.ProductStore.Bindings.{
  Phase, RuntimeStatus, Scope, Operation, Owner, Bindings, Begun, begin_package_binding_operation,
  record_package_binding_outcome, mark_package_binding_completed,
}
use cyrene_yield.ProductStore.Bindings.Invariant.{BindingsInv}
use cyrene_yield.ProductStore.Bindings.Reach.{
  Reach, here, next, began, recorded, completed_marked, Reach-BindingsInv,
}
use cyrene_yield.ProductStore.Journal.{
  Row, append_events, event_count, max_sequence, event_record, list_events, purge_runs,
}
use cyrene_yield.ProductStore.Journal.Appending.{
  Dense, empty, append_events-Dense, append_events_twice,
}
use cyrene_yield.ProductStore.Journal.Paging.{Ascending, list_events_page}

abbrev pub nothing : Bindings
nothing = record { operations = []; owners = [] }

abbrev scope : Scope
scope = record { binding_id = "binding"; package_id = "package"; installation_id = "installation" }

abbrev pending : Operation
pending = record {
  request_id = "request";
  scope = scope;
  operation = "activate";
  phase = Phase.intent;
  created_at = "1";
  updated_at = "1";
  status = none;
  receipt = none;
  blocker = some "PACKAGE_BINDING_ACTIVATION_PENDING";
}

abbrev owner : Owner
owner = record {
  package_id = "package";
  installation_id = "installation";
  request_id = "request";
  phase = Phase.intent;
  status = none;
  blocker = some "PACKAGE_BINDING_ACTIVATION_PENDING";
  updated_at = "1";
}

abbrev running : RuntimeStatus
running = record {
  state = some "RUNNING";
  generation = some 1;
  failure_code = none;
  connection_ref = some "socket";
}

abbrev intended : Bindings
intended = record { operations = ("request", pending) ∷ []; owners = ("binding", owner) ∷ [] }

abbrev observed : Bindings
observed = record {
  operations =
      (
        "request",
        record pending {
          phase = Phase.outcome_pending_complete;
          updated_at = "2";
          status = some running;
          receipt = some Fields.end;
          blocker = none;
        },
      )
      ∷ [];
  owners =
      (
        "binding",
        record owner {
          phase = Phase.outcome_pending_complete;
          status = some running;
          blocker = none;
          updated_at = "2";
        },
      )
      ∷ [];
}

abbrev pub active : Bindings
active = record {
  operations =
      (
        "request",
        record pending {
          phase = Phase.completed;
          updated_at = "3";
          status = some running;
          blocker = none;
        },
      )
      ∷ [];
  owners =
      (
        "binding",
        record owner {
          phase = Phase.active;
          status = some running;
          blocker = none;
          updated_at = "3";
        },
      )
      ∷ [];
}

begins : begin_package_binding_operation nothing "request" scope "1" ≡ ok (Begun.reserved, intended)
unfolding begin_package_binding_operation lookup insert values
begins = refl

records :
    record_package_binding_outcome intended "request" scope
      (some running)
      Fields.end
      Phase.outcome_pending_complete
      none
      "2"
    ≡ ok observed
unfolding record_package_binding_outcome lookup insert normalized_fields
records = refl

completes : mark_package_binding_completed observed "request" "3" ≡ ok active
unfolding mark_package_binding_completed lookup insert
completes = refl

activates : Reach nothing active
activates =
    next
      (next (next here (began "request" scope "1" Begun.reserved begins)) (
        recorded "request" scope (some running) Fields.end Phase.outcome_pending_complete none "2"
          records))
      (completed_marked "request" "3" completes)

pub nothing-BindingsInv : BindingsInv nothing
unfolding lookup
nothing-BindingsInv = record {
  one_pending = λ r q x y l. cc;
  erased = λ r x l. cc;
  settled = λ id o l. cc;
  backed = λ id o l. cc;
}

Reach-BindingsInv_example : BindingsInv active
Reach-BindingsInv_example = Reach-BindingsInv nothing active activates nothing-BindingsInv

abbrev started : Row
started = record {
  run_id = "run";
  attempt_id = "run:1";
  index = 0;
  sequence = 1;
  document = Fields.end;
}

one_row : Dense (started ∷ [])
unfolding event_count max_sequence
one_row = Dense.appended started empty refl refl

append_events-Dense_example :
    Dense (append_events event_record (started ∷ []) "run" "run:1" (Fields.end ∷ [])).1
    × (event_count
          (append_events event_record (started ∷ []) "run" "run:1" (Fields.end ∷ [])).1
          "run"
          "run:1"
        ≡ event_count (started ∷ []) "run" "run:1" + 1)
append_events-Dense_example =
    append_events-Dense event_record (started ∷ []) "run" "run:1" (Fields.end ∷ []) one_row

append_events_twice_example :
    append_events event_record (started ∷ []) "run" "run:1" (Fields.end ∷ Fields.end ∷ []) ≡ (
      (append_events event_record (started ∷ []) "run" "run:1" (Fields.end ∷ [])).0
          ++ (append_events event_record
              (append_events event_record (started ∷ []) "run" "run:1" (Fields.end ∷ [])).1
              "run"
              "run:1"
              (Fields.end ∷ [])).0,
      (append_events event_record
          (append_events event_record (started ∷ []) "run" "run:1" (Fields.end ∷ [])).1
          "run"
          "run:1"
          (Fields.end ∷ [])).1,
    )
append_events_twice_example =
    append_events_twice event_record (started ∷ []) "run" "run:1" (Fields.end ∷ [])
      (Fields.end ∷ []) one_row

list_events_page_example :
    (length (list_events 20000 (started ∷ []) "run" 0 5000) ≤ 20000)
    × All
        (λ r. (r.run_id ≡ "run") × (0 < r.sequence))
        (list_events 20000 (started ∷ []) "run" 0 5000)
    × Ascending (list_events 20000 (started ∷ []) "run" 0 5000)
list_events_page_example = list_events_page 20000 (started ∷ []) "run" 0 5000 (omega arith)

abbrev other_run : Row
other_run = record started { run_id = "other" }

purges : purge_runs ("run" ∷ []) (started ∷ other_run ∷ []) ≡ (1, other_run ∷ [])
unfolding purge_runs
purges = refl
