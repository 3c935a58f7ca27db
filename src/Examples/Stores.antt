-- ===== src/Examples/Stores.antt =====
-- The control-plane store at concrete calls.
use cyrene_yield.Common.{
  ◌≡◌, refl, not, ◌||◌, ◌⊎◌, some, ◌==◌, lookup, insert, has_key, keys, concat, ok, err,
  if◌then◌else◌,
}
use cyrene_yield.Values.{end, normalized_fields}
use cyrene_yield.Lifecycle.Status.{idempotency_conflict, stale_generation}
use cyrene_yield.Lifecycle.Run.{ProductRun, reload_run}
use cyrene_yield.Lifecycle.Store.{
  empty_store, create_or_get, load_run, compare_and_set, assert_history_immutable,
}
use cyrene_yield.Lifecycle.Store.Replacing.{RunKept, persisted, compare_and_set_effect}
use cyrene_yield.Lifecycle.Store.Submission.{create_or_get_again}
use cyrene_yield.Lifecycle.Store.Invariant.{StoreInv, StoreInv-empty}
use cyrene_yield.Lifecycle.Store.Reach.{
  Step, submitted, replaced, Reach, here, next, Reach-StoreInv, Reach-StoreKept, replaced_once,
}
use cyrene_yield.Examples.Data.{plan, clock, run, store, running_run, running_store}

submits : create_or_get empty_store plan "yield" "key" end "1" clock ≡ ok (run, store)
unfolding create_or_get lookup insert concat has_key normalized_fields
submits = refl

create_or_get_again_example :
    (stored : ProductRun) × ((stored ≡ run) ⊎ (stored ≡ reload_run run))
    × (create_or_get store plan "other" "key" end "2" clock ≡ (
        if not ("plan-1" == "plan-1") || not ("yield" == "other")
        then err idempotency_conflict
        else ok (stored, store)))
create_or_get_again_example =
    create_or_get_again empty_store plan "yield" "key" end "1" clock store run submits plan "other"
      end "2" clock

replaces :
    compare_and_set store (record running_run { generation = 0 }) 0 "t"
    ≡ ok (running_run, running_store)
unfolding compare_and_set load_run lookup insert assert_history_immutable keys normalized_fields
replaces = refl

compare_and_set_effect_example :
    (current : ProductRun) × (lookup "run-1" store.runs ≡ some current)
    × (current.generation ≡ 0)
    × (running_run ≡ persisted current (record running_run { generation = 0 }) "t")
    × (running_store ≡ record store { runs = insert "run-1" (reload_run running_run) store.runs })
    × RunKept current (reload_run running_run)
compare_and_set_effect_example =
    compare_and_set_effect store running_store (record running_run { generation = 0 }) running_run 0
      "t" replaces

first_move : Step empty_store store
unfolding lookup
first_move = submitted plan "yield" "key" end "1" clock run refl submits

two_calls : Reach empty_store running_store
two_calls =
    next (next here first_move)
      (replaced (record running_run { generation = 0 }) 0 "t" running_run replaces)

Reach-StoreInv_example : StoreInv running_store
Reach-StoreInv_example = Reach-StoreInv empty_store running_store two_calls StoreInv-empty

Reach-StoreKept_example :
    (r' : ProductRun) × (lookup "run-1" running_store.runs ≡ some r') × RunKept run r'
unfolding lookup
Reach-StoreKept_example =
    Reach-StoreKept store running_store
      (next here (replaced (record running_run { generation = 0 }) 0 "t" running_run replaces))
      "run-1" run refl

replaced_once_example : compare_and_set running_store run 0 "u" ≡ err stale_generation
replaced_once_example =
    replaced_once store running_store running_store (record running_run { generation = 0 }) run
      running_run 0 "t" "u" replaces here refl
