-- ===== src/Training/Compiler.antt =====
-- TrainingPlanCompiler of control_plane.py, with ExecutionPlan.create of lifecycle/contracts.py.
use cyrene_yield.Common.{
  ℕ, zero, suc, ◌+◌, ◌<◌, String, ◌≡◌, refl, some, List, [], ◌∷◌, insert, has_key, delete, concat,
  Result, ok, err, ◌>>=◌, arith, ltb, is_empty, eq_iff, ap, sym, ◌∙◌, Bool-cases, inl, inr, true,
  false,
}
use cyrene_yield.Common.Decimal.{show}
use text.Mathlib.TextLemmas.{length-append}
use Prim.Native.String.{count}
use cyrene_yield.Values.{Value, Fields}
use cyrene_yield.Lifecycle.Status.{Error, StepStatus}
use cyrene_yield.Lifecycle.Step.{StepDependency, PlanStep, new_policy, new_step}
use cyrene_yield.Lifecycle.Plan.{ExecutionPlan, ordered_steps, missing_dependencies_of, new_plan}
use cyrene_yield.Lifecycle.Store.{construct_plan}

abbrev pub preflight_step_id : String
preflight_step_id = "training-preflight"

abbrev pub tiny_dry_run_step_id : String
tiny_dry_run_step_id = "training-tiny-dry-run"

abbrev pub real_training_step_id : String
real_training_step_id = "training-execution"

-- What int(value) does: a number, where one below zero is as zero, a TypeError or ValueError, or another
-- exception, such as the OverflowError of an infinite float.
pub data Converted : Type 0 where
  converted : ℕ → Converted
  not_a_number : Converted
  raises : String → Converted

-- _positive_int
unfoldable pub positive_int : Converted → ℕ → Result String ℕ
positive_int not_a_number default = ok default
positive_int (converted zero) default = ok default
positive_int (converted (suc n)) default = ok (suc n)
positive_int (raises e) default = err e

-- What compile reads of a TrainingSpec and an EnvironmentLock.
pub record Source : Type 0 where
  -- _input_artifacts(spec), or the exception that it raises
  pub input_artifacts : Result String (List Value)
  -- f"sha256:{_digest(spec.to_dict())}"
  pub payload_ref : String
  pub gpu_count : ℕ
  -- int(spec.extra.get("max_product_attempts"))
  pub max_product_attempts : Converted
  pub environment_digest : String

-- The local variables of compile.
pub record Intent : Type 0 where
  pub inputs : List Value
  pub payload_ref : String
  pub gpu_count : ℕ
  pub real_attempts : ℕ
  pub environment_digest : String

abbrev pub intent_with : Source → List Value → ℕ → Intent
intent_with source inputs real_attempts = record {
  inputs = inputs;
  payload_ref = source.payload_ref;
  gpu_count = source.gpu_count;
  real_attempts = real_attempts;
  environment_digest = source.environment_digest;
}

unfoldable pub step_of_intent :
    Intent → String → String → List String → List StepDependency → ℕ → PlanStep
step_of_intent i step_id capability outputs dependencies attempts = record {
  step_id = step_id;
  capability = capability;
  inputs = i.inputs;
  outputs = outputs;
  environment_identity = some i.environment_digest;
  resource_reference = some (concat "resource-request:gpus=" (show i.gpu_count));
  dependencies = dependencies;
  retry_policy = record { max_attempts = attempts; retry_failed = true; retry_lost = true };
  execution_payload_ref = some i.payload_ref;
  metadata = Fields.end;
  provenance = Fields.end;
  status = StepStatus.pending;
}

abbrev pub succeeded_step : String → StepDependency
succeeded_step id = record { step_id = id; required_status = StepStatus.succeeded }

abbrev pub preflight_step : Intent → PlanStep
preflight_step i =
    step_of_intent i preflight_step_id "capability.preflight.evaluate" ("preflight-report" ∷ []) []
      1

abbrev pub tiny_step : Intent → PlanStep
tiny_step i =
    step_of_intent i tiny_dry_run_step_id "capability.execution.dry-run"
      ("dry-run-report" ∷ "dry-run-checkpoint" ∷ []) (succeeded_step preflight_step_id ∷ []) 1

-- YIELD_TRAINING_RUNTIME_CAPABILITY
abbrev training_capability : String
training_capability = "cyrene.yield.training-runtime.v1"

abbrev pub real_step : Intent → PlanStep
real_step i =
    step_of_intent i real_training_step_id training_capability ("product-result" ∷ [])
      (succeeded_step tiny_dry_run_step_id ∷ []) i.real_attempts

abbrev pub compiled_steps : Intent → List PlanStep
compiled_steps i = preflight_step i ∷ tiny_step i ∷ real_step i ∷ []

-- ExecutionPlan.create up to its checks; `digest` is the sha256 of the canonical JSON of its identity.
unfoldable pub identified_plan :
    (List PlanStep → Fields → Fields → String) → List PlanStep → Fields → Fields → ExecutionPlan
identified_plan digest steps metadata provenance = record {
  plan_id = concat "plan-" (digest steps metadata provenance);
  steps = steps;
  contract_version = "cyrene.control-plane.v1";
  metadata = metadata;
  provenance = provenance;
}

-- The plan that compile makes, before its checks.
abbrev pub compiled : (List PlanStep → Fields → Fields → String) → Intent → ExecutionPlan
compiled digest i =
    identified_plan digest (compiled_steps i)
      (Fields.field "resolved_intent" (Value.text i.payload_ref) Fields.end)
      (Fields.field "compiler" (Value.text "cyrene-yield.training") Fields.end)

-- An exception of the reading of the spec, or of the plan's constructors.
pub data CompileError : Type 0 where
  unread : String → CompileError
  refused : Error → CompileError

abbrev reading : {A : Type 0} → Result String A → Result CompileError A
reading (err e) = err (unread e)
reading (ok a) = ok a

abbrev pub constructing : {A : Type 0} → Result Error A → Result CompileError A
constructing (err e) = err (refused e)
constructing (ok a) = ok a

-- TrainingPlanCompiler.compile
unfoldable pub compile :
    (List PlanStep → Fields → Fields → String) → Source → Result CompileError ExecutionPlan
unfolding identified_plan positive_int
compile digest source = do
  inputs ← reading source.input_artifacts
  real_attempts ← reading (positive_int source.max_product_attempts 1)
  constructing (construct_plan (compiled digest (intent_with source inputs real_attempts)))

-- A text that begins with one that has characters is not empty.
pub prefixed : (p s : String) → 0 < count p → is_empty (concat p s) ≡ false
unfolding concat
prefixed p s some_char = elim (Bool-cases (is_empty (concat p s))) [
  | inl t ↦
      let empty = ap count ((eq_iff (concat p s) "").0 t) in
      let none_left : count p + count s ≡ 0 = sym (length-append p s) ∙ empty in
      absurd (omega (arith, none_left, some_char))
  | inr f ↦ f
]

pub positive_int-pos : (c : Converted) (n : ℕ) → positive_int c 1 ≡ ok n → ltb n 1 ≡ false
unfolding positive_int
positive_int-pos not_a_number n h = ground arith
positive_int-pos (converted zero) n h = ground arith
positive_int-pos (converted (suc m)) n h = ground arith
positive_int-pos (raises e) n h = cc h

-- The steps of a compiled plan are ordered as they are declared.
compiled_order : (i : Intent) → ordered_steps (compiled_steps i) ≡ ok (compiled_steps i)
unfolding ordered_steps step_of_intent insert has_key delete
compiled_order i = refl

pub constructed_plan :
    (digest : List PlanStep → Fields → Fields → String) (i : Intent)
    → ltb i.real_attempts 1 ≡ false
    → construct_plan (compiled digest i) ≡ ok (compiled digest i)
unfolding construct_plan missing_dependencies_of new_policy new_step new_plan step_of_intent
    identified_plan
constructed_plan digest i positive =
    rw (positive, prefixed "plan-" (digest (compiled_steps i) _ _) (omega arith))
      (rw (compiled_order i) refl)

pub compile-ok :
    (digest : List PlanStep → Fields → Fields → String) (source : Source) (inputs : List Value)
    (attempts : ℕ)
    → source.input_artifacts ≡ ok inputs
    → positive_int source.max_product_attempts 1 ≡ ok attempts
    → compile digest source ≡ ok (compiled digest (intent_with source inputs attempts))
unfolding compile
compile-ok digest source inputs attempts e f =
    rw
      (
        e,
        f,
        constructed_plan digest (intent_with source inputs attempts)
            (positive_int-pos source.max_product_attempts attempts f),
        compile,
      )
      refl

-- What compile answers, by what it reads.
abbrev pub Compiled :
    (List PlanStep → Fields → Fields → String)
    → Source
    → Result String (List Value)
    → Result String ℕ
    → Type 0
Compiled digest source (err e) attempts = compile digest source ≡ err (unread e)
Compiled digest source (ok inputs) (err e) = compile digest source ≡ err (unread e)
Compiled digest source (ok inputs) (ok attempts) =
    (compile digest source ≡ ok (compiled digest (intent_with source inputs attempts)))
    × (ordered_steps (compiled digest (intent_with source inputs attempts)).steps
        ≡ ok (
            preflight_step (intent_with source inputs attempts)
            ∷ tiny_step (intent_with source inputs attempts)
            ∷ real_step (intent_with source inputs attempts)
            ∷ []))
