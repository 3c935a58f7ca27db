-- ===== src/Examples/Recoveries.antt =====
-- A submission, a restart after it, and calls that follow it.
use cyrene_yield.Common.{
  String, ◌≡◌, refl, Option, none, some, [], ◌==◌, ok, lookup, has_key, sort_by, concat,
  if◌then◌else◌,
}
use cyrene_yield.Values.{
  Value, text, object, Fields, end, field, get_field, set_field, normalized_fields, insert_sorted,
}
use cyrene_yield.Lifecycle.Plan.{ExecutionPlan}
use cyrene_yield.Lifecycle.Run.{ProductRun}
use cyrene_yield.Lifecycle.Store.{Store, empty_store}
use cyrene_yield.Environment.Contracts.{new_lock, mapping, check_digest}
use cyrene_yield.Environment.Documents.{to_dict, from_dict}
use cyrene_yield.Environment.Documents.RoundTrip.{to_dict-from_dict_lock}
use cyrene_yield.Training.Compiler.{not_a_number, positive_int}
use cyrene_yield.Training.Recovery.{
  Texts, Caches, payload_ref, resolved_intent, recover_lock, recover_spec, remembered,
  submit_training,
}
use cyrene_yield.Training.Recovery.Matching.{PlanOf, LockMatches, recovered-Matches}
use cyrene_yield.Training.Recovery.Restart.{lock_document, run_of, store_of, restart_recovers}
use cyrene_yield.Examples.Data.{clock}
use cyrene_yield.Examples.Environments.{digest_all, first_lock}

-- A spec is its own document here.
abbrev spec : Fields
spec = field "model" (text "qwen") end

abbrev str : Value → String
str (text s) = s
str _ = "?"

abbrev written : Fields
written = lock_document first_lock

abbrev dumps : Fields → String
dumps d = elim (get_field "model" d) [ none ↦ "lock" | some v ↦ "spec" ]

abbrev loads : String → Option Value
loads raw =
    if raw == "spec"
    then some (object (normalized_fields spec))
    else if raw == "lock"
    then some (object (normalized_fields written))
    else none

abbrev texts : Texts Fields
texts = record {
  dumps = dumps;
  loads = loads;
  str = str;
  digest_of = λ d. "0";
  lock_digest_of = digest_all;
  plan_digest = λ steps metadata provenance. "1";
  read_spec = λ d. some d;
  spec_document = λ d. d;
  shape = λ d. record {
    input_artifacts = ok [];
    payload_ref = "";
    gpu_count = 1;
    max_product_attempts = not_a_number;
    environment_digest = "";
  };
}

abbrev caches : Caches texts
caches = record { specs = []; locks = [] }

made : new_lock digest_all first_lock ≡ ok first_lock
unfolding new_lock mapping check_digest sort_by
made = refl

dumped : to_dict first_lock ≡ ok written
unfolding to_dict
dumped = refl

to_dict-from_dict_lock_example :
    from_dict str digest_all (normalized_fields written) ≡ ok first_lock
to_dict-from_dict_lock_example =
    to_dict-from_dict_lock str (λ s. refl) digest_all first_lock written made dumped

abbrev run : ProductRun
run = run_of texts spec first_lock [] 1 empty_store none "1" clock

abbrev store : Store
store = store_of texts spec first_lock [] 1 empty_store none "1" clock

-- The submission, and what the store alone gives back.
restarts :
    (submit_training texts caches empty_store spec first_lock none "1" clock
      ≡ ok (run, store, remembered texts caches spec first_lock run))
    × (recover_lock texts store "run-1" ≡ ok first_lock)
    × (recover_spec texts store "run-1" ≡ ok spec)
unfolding lookup has_key get_field set_field normalized_fields insert_sorted concat positive_int
restarts =
    restart_recovers texts spec first_lock [] 1 empty_store none "1" clock caches refl refl refl
      refl refl refl refl (λ s. refl) made refl

restart_recovers_example :
    (submit_training texts caches empty_store spec first_lock none "1" clock
      ≡ ok (run, store, remembered texts caches spec first_lock run))
    × (recover_lock texts store "run-1" ≡ ok first_lock)
    × (recover_spec texts store "run-1" ≡ ok spec)
unfolding lookup has_key get_field set_field normalized_fields insert_sorted concat positive_int
restart_recovers_example =
    restart_recovers texts spec first_lock [] 1 empty_store none "1" clock caches refl refl refl
      refl refl refl refl (λ s. refl) made refl

recovered-Matches_example :
    (plan : ExecutionPlan) × PlanOf texts store "run-1" plan
    × LockMatches texts first_lock plan
    × (payload_ref texts spec ≡ resolved_intent texts (get_field "resolved_intent" plan.metadata))
recovered-Matches_example =
    recovered-Matches texts store "run-1" first_lock spec restarts.1 restarts.2
