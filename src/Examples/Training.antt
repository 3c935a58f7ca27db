-- ===== src/Examples/Training.antt =====
-- A training intent that asks for three attempts, and an execution that is cancelled.
use cyrene_yield.Common.{none, [], ◌∷◌, ok}
use cyrene_yield.Runtime.Session.{TrainingStatus}
use cyrene_yield.Training.Executions.{State, Execution}
use cyrene_yield.Examples.Data.{running_store}
use cyrene_yield.Training.Compiler.{Source, converted}

abbrev source : Source
source = record {
  input_artifacts = ok [];
  payload_ref = "sha256:0";
  gpu_count = 2;
  max_product_attempts = converted 3;
  environment_digest = "sha256:1";
}

-- The attempt of the running store, whose session the control plane remembers.
abbrev state : State
state = record {
  store = running_store;
  execution_sessions = ("run-1:1", "session") ∷ [];
  resume_checkpoints = [];
}

abbrev gone : Execution
gone = record {
  session_id = "session";
  status = TrainingStatus.cancelled;
  error = "";
  artifacts = none;
  events = none;
}
