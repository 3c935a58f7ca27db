-- ===== src/Training/Recovery/Restart.antt =====
-- A restart after a submission: the store holds what the caches held.
use cyrene_yield.Common.{
  ℕ, List, String, ◌≡◌, refl, true, false, Option, none, some, ◌==◌, eq_refl, is_empty, arith,
  Bool-cases, inl, inr, ok, lookup, has_key, lookup-insert_self,
}
use cyrene_yield.Values.{
  Value, text, object, Fields, get_field, normalized, normalized_fields, insert_sorted,
}
use cyrene_yield.Values.Reading.{get_field-normalized}
use cyrene_yield.Lifecycle.Plan.{ExecutionPlan}
use cyrene_yield.Lifecycle.Run.{ProductRun, create_run, reload_run}
use cyrene_yield.Lifecycle.Store.{
  Store, Clock, create_or_get, create_new, set_default, reload_plan, construct_plan, load_run,
  load_plan,
}
use cyrene_yield.Lifecycle.Store.Submission.{first_run, store_with_first}
use cyrene_yield.Lifecycle.ControlPlane.{submit}
use cyrene_yield.Environment.Contracts.{EnvironmentLock, new_lock}
use cyrene_yield.Environment.Documents.{to_dict, set_all, optional_fields, required_fields}
use cyrene_yield.Environment.Documents.RoundTrip.{to_dict-from_dict_lock}
use cyrene_yield.Training.Compiler.{
  compiled, intent_with, positive_int, positive_int-pos, constructed_plan, compile-ok, prefixed,
  identified_plan, step_of_intent,
}
use cyrene_yield.Training.Recovery.{
  Texts, Caches, training_spec_metadata, environment_lock_metadata, metadata_mapping,
  is_environment_of, recover_lock, payload_ref, resolved_intent, recover_spec, intent_of,
  submission_key, submission_metadata, remembered, submit_training,
}

-- What to_dict writes of a lock that has a digest.
abbrev pub lock_document : EnvironmentLock → Fields
lock_document lock = set_all (optional_fields lock) (required_fields lock)

-- A document in the metadata of a run, which json wrote.
mapping_back :
    {Spec : Type 0} (t : Texts Spec) (meta d : Fields) (k : String)
    → t.loads (t.dumps d) ≡ some (object (normalized_fields d))
    → get_field k meta ≡ some (text (t.dumps d))
    → metadata_mapping t (normalized_fields meta) k ≡ ok (normalized_fields d)
unfolding metadata_mapping normalized
mapping_back t meta d k l e = rw (get_field-normalized k meta, e, l, metadata_mapping) refl

module _ {Spec : Type 0} (t : Texts Spec) (spec : Spec) (lock : EnvironmentLock)
    (inputs : List Value) (attempts : ℕ) where
  abbrev pub plan_of : ExecutionPlan
  plan_of = compiled t.plan_digest (intent_with (intent_of t spec lock) inputs attempts)

  reloaded : reload_plan plan_of ≡ plan_of
  unfolding reload_plan identified_plan step_of_intent normalized_fields insert_sorted
  reloaded = refl

  constructed :
      positive_int (t.shape spec).max_product_attempts 1 ≡ ok attempts
      → construct_plan plan_of ≡ ok plan_of
  constructed positive =
      constructed_plan t.plan_digest (intent_with (intent_of t spec lock) inputs attempts)
        (positive_int-pos (t.shape spec).max_product_attempts attempts positive)

  same_environment : is_environment_of t lock plan_of ≡ true
  unfolding identified_plan step_of_intent
  same_environment = rw (eq_refl lock.environment_digest) refl

  key_given : (key : Option String) → is_empty (submission_key t key spec lock) ≡ false
  key_given none = prefixed "training:" _ (omega arith)
  key_given (some key) = elim (Bool-cases (is_empty key)) [
    | inl e ↦ rw e (prefixed "training:" _ (omega arith))
    | inr n ↦ rw n n
  ]

  module _ (s : Store) (key : Option String) (fresh : String) (clock : Clock) where
    abbrev pub run_of : ProductRun
    run_of =
        first_run s plan_of "cyrene.yield.training" (submission_key t key spec lock)
          (submission_metadata t spec (lock_document lock)) fresh clock

    abbrev pub store_of : Store
    store_of =
        store_with_first s plan_of "cyrene.yield.training" (submission_key t key spec lock)
          (submission_metadata t spec (lock_document lock)) fresh clock

    module _ (c : Caches t) (resolved : is_empty lock.environment_digest ≡ false)
        (unused : lookup (submission_key t key spec lock) s.idempotency ≡ none)
        (artifacts : (t.shape spec).input_artifacts ≡ ok inputs)
        (positive : positive_int (t.shape spec).max_product_attempts 1 ≡ ok attempts) where
      written : to_dict lock ≡ ok (lock_document lock)
      unfolding to_dict
      written = rw (resolved, to_dict) refl

      -- A submission under a new key returns.
      creates :
          create_or_get s plan_of "cyrene.yield.training"
            (submission_key t key spec lock)
            (submission_metadata t spec (lock_document lock))
            fresh
            clock
          ≡ ok (run_of, store_of)
      unfolding create_or_get create_new create_run
      creates = rw (unused, create_or_get) (rw (key_given key, create_new, create_run) refl)

      submits :
          submit_training t c s spec lock key fresh clock
          ≡ ok (run_of, store_of, remembered t c spec lock run_of)
      unfolding submit_training submit
      submits =
          rw
            (
              compile-ok t.plan_digest (intent_of t spec lock) inputs attempts artifacts positive,
              written,
              creates,
              submit_training,
            )
            refl

      loads_run : load_run store_of run_of.run_id ≡ ok (reload_run run_of)
      unfolding load_run
      loads_run = rw (lookup-insert_self run_of.run_id (reload_run run_of) s.runs, load_run) refl

      module _ (fresh_plan : has_key plan_of.plan_id s.plans ≡ false) where
        loads_plan : load_plan store_of plan_of.plan_id ≡ ok plan_of
        unfolding load_plan set_default
        loads_plan =
            rw
              (
                fresh_plan,
                lookup-insert_self plan_of.plan_id (reload_plan plan_of) s.plans,
                load_plan,
              )
              (rw reloaded (constructed positive))

        module _
            (loads_lock : t.loads (t.dumps (lock_document lock))
              ≡ some (object (normalized_fields (lock_document lock))))
            (loads_spec : t.loads (t.dumps (t.spec_document spec))
              ≡ some (object (normalized_fields (t.spec_document spec))))
            (str_text : (v : String) → t.str (text v) ≡ v) where
          lock_recovered :
              new_lock t.lock_digest_of lock ≡ ok lock
              → recover_lock t store_of run_of.run_id ≡ ok lock
          unfolding recover_lock reload_run get_field
          lock_recovered made =
              rw
                (
                  loads_run,
                  mapping_back t (submission_metadata t spec (lock_document lock))
                      (lock_document lock) environment_lock_metadata loads_lock refl,
                  to_dict-from_dict_lock t.str str_text t.lock_digest_of lock (lock_document lock)
                      made written,
                  loads_plan,
                  same_environment,
                  recover_lock,
                )
                refl

          same_intent :
              (payload_ref t spec
                == resolved_intent t (get_field "resolved_intent" plan_of.metadata))
              ≡ true
          unfolding get_field identified_plan
          same_intent =
              rw (prefixed "sha256:" (t.digest_of (t.spec_document spec)) (omega arith))
                (rw (str_text (payload_ref t spec)) (eq_refl (payload_ref t spec)))

          spec_recovered :
              t.read_spec (normalized_fields (t.spec_document spec)) ≡ some spec
              → recover_spec t store_of run_of.run_id ≡ ok spec
          unfolding recover_spec reload_run get_field
          spec_recovered reads =
              rw
                (
                  loads_run,
                  mapping_back t (submission_metadata t spec (lock_document lock))
                      (t.spec_document spec) training_spec_metadata loads_spec refl,
                  reads,
                  loads_plan,
                  same_intent,
                  recover_spec,
                )
                refl

          -- If the spec can be read by the compiler, json reads what it wrote of spec and lock,
          -- Python's str gives a text itself, the class of the spec reads this one, and the lock,
          -- which has a document, is one that its constructor made: a submission under a new key, of
          -- a plan that is not stored, returns, and the store alone then gives back the lock and the
          -- spec, as after a restart.
          pub restart_recovers :
              new_lock t.lock_digest_of lock ≡ ok lock
              → t.read_spec (normalized_fields (t.spec_document spec)) ≡ some spec
              → (submit_training t c s spec lock key fresh clock
                  ≡ ok (run_of, store_of, remembered t c spec lock run_of))
                × (recover_lock t store_of run_of.run_id ≡ ok lock)
                × (recover_spec t store_of run_of.run_id ≡ ok spec)
          restart_recovers made reads = (submits, lock_recovered made, spec_recovered reads)
