-- ===== src/Lifecycle/Attempt.antt =====
-- Attempt of lifecycle/contracts.py.
use cyrene_yield.Common.{
  ℕ, String, String-discrete, Bool, false, not, ◌&&◌, Option, none, some, List, same, Result, ok,
  err, if◌then◌else◌,
}
use native.Mathlib.Decide.{ℕ_discrete}
use cyrene_yield.Values.{Fields, normalized_fields, Fields-discrete}
use cyrene_yield.Lifecycle.Status.{
  AttemptStatus, AttemptStatus-discrete, attempt_terminal, Error, terminal_attempt,
}

pub record Attempt : Type 0 where
  pub attempt_id : String
  pub run_id : String
  pub number : ℕ
  pub step_id : String
  pub status : AttemptStatus
  pub execution_references : List String
  pub cleanup_confirmed : Bool
  pub error : Option String
  pub metadata : Fields
  pub created_at : String
  pub observed_at : String

unfoldable pub Attempt-discrete : Discrete Attempt
Attempt-discrete = hlevel (ℕ_discrete, String-discrete, Fields-discrete, AttemptStatus-discrete)

-- The defaults of the dataclass; the clock is read for each of the two times.
unfoldable pub new_attempt : String → String → ℕ → String → String → String → Attempt
new_attempt attempt_id run_id number step_id created_at observed_at = record {
  attempt_id = attempt_id;
  run_id = run_id;
  number = number;
  step_id = step_id;
  status = AttemptStatus.pending;
  execution_references = List.[];
  cleanup_confirmed = false;
  error = none;
  metadata = Fields.end;
  created_at = created_at;
  observed_at = observed_at;
}

-- `from_dict(json.loads(json.dumps(to_dict(a))))`: the keys of the metadata come back sorted.
unfoldable pub reload_attempt : Attempt → Attempt
reload_attempt a = record a { metadata = normalized_fields a.metadata }

-- `a == b` of the dataclass; dictionaries are equal in whatever order their keys stand.
unfoldable pub attempt_eq : Attempt → Attempt → Bool
unfolding reload_attempt
attempt_eq a b = same Attempt-discrete (reload_attempt a) (reload_attempt b)

-- The keyword arguments of an observation; `none` keeps the attempt's own value.
pub record Observation : Type 0 where
  pub execution_references : Option (List String)
  pub cleanup_confirmed : Option Bool
  pub error : Option String
  pub metadata : Option Fields

abbrev pub given_or {ℓ} : {A : Type ℓ} → Option A → A → A
given_or none a = a
given_or (some b) a = b

-- Attempt.with_observation
unfoldable pub with_observation :
    Attempt → AttemptStatus → Observation → String → Result Error Attempt
with_observation a status o now =
    if attempt_terminal a.status && not (same AttemptStatus-discrete status a.status)
    then err terminal_attempt
    else ok (record {
      attempt_id = a.attempt_id;
      run_id = a.run_id;
      number = a.number;
      step_id = a.step_id;
      status = status;
      execution_references = given_or o.execution_references a.execution_references;
      cleanup_confirmed = given_or o.cleanup_confirmed a.cleanup_confirmed;
      error = elim o.error [ none ↦ a.error | some e ↦ some e ];
      metadata = given_or o.metadata a.metadata;
      created_at = a.created_at;
      observed_at = now;
    })
