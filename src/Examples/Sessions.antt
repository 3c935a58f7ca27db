-- ===== src/Examples/Sessions.antt =====
-- A training session that is submitted, polled, cancelled and retried, with an engine whose specs,
-- launches and handles are texts.
use cyrene_yield.Common.{String, ◌≡◌, refl, true, false, none, some, [], ◌∷◌, ok, err, concat, same}
use cyrene_yield.Common.Decimal.{show}
use cyrene_yield.Runtime.Session.{
  TrainingStatus, TrainingStatus-discrete, Kinds, ExitCode, TrainingResult, CancelOutcome, Adapter,
  Executor, Provider, TrainingAttempt, TrainingSession, Clock, change_last,
}
use cyrene_yield.Runtime.Starting.{
  new_session, submit_session, submit_valid, launch_session, start_attempt,
}
use cyrene_yield.Runtime.Polling.{poll_session, observe, finish, publish, with_published, parsed}
use cyrene_yield.Runtime.Cancelling.{cancel_session}
use cyrene_yield.Runtime.Agreement.{SessionInv}
use cyrene_yield.Runtime.Life.{submitted, Life-SessionInv}
use cyrene_yield.Runtime.Outcomes.{
  Completed, poll_session-completed, Stopped, cancel_session-Stopped,
}

abbrev texts : Kinds
texts = record {
  spec = String;
  lock = String;
  launch = String;
  handle = String;
  event = String;
  diagnostic = String;
  reference = String;
}

abbrev adapter : Adapter texts
adapter = record {
  job_id = λ spec. spec;
  with_job_id = λ spec id. id;
  output_dir = λ spec. "out";
  has_base_source = λ spec. false;
  validate = λ spec. none;
  compile = λ spec lock. ok "launch";
  with_identity = λ launch spec id. launch;
  parse_event = λ line. some line;
  collect_result = λ spec launch code status. ok (record {
    status = status;
    output_dir = "out";
    exit_code = code;
    artifacts = [];
    message = "";
  });
}

abbrev stopped : CancelOutcome
stopped = record { stopped = true; remaining_pids = []; message = ""; cleanup_confirmed = true }

-- An executor whose processes exit with code 0, and one that can start none.
abbrev executor : Executor texts
executor = record {
  start = λ launch. ok "handle";
  read_new_output = λ handle. "line" ∷ [];
  read_new_diagnostics = λ handle. [];
  diagnostics_degraded = λ handle. false;
  lost = λ handle. false;
  poll = λ handle. ok (some (ExitCode.exited 0));
  cancel = λ handle. ok stopped;
}

abbrev unreachable : Executor texts
unreachable = record executor { start = λ launch. err (record { message = "down"; lost = true }) }

abbrev provider : Provider texts
provider = record {
  publish_training_outputs = λ launch. ok (("adapter", "sha") ∷ []);
  publish_adapter = λ spec. ok "model";
}

abbrev clock : Clock
clock n = "t"

abbrev first_attempt : TrainingAttempt texts
first_attempt = record {
  attempt_id = "job:1";
  run_id = "job";
  ordinal = 1;
  spec = "job";
  status = TrainingStatus.running;
  launch = some "launch";
  binding = some "handle";
  result = none;
  events = [];
  error = "";
  updated_at = "t";
}

-- The session of the submission "job", whose process was started.
abbrev running : TrainingSession texts
running = record {
  session_id = "job";
  spec = "job";
  status = TrainingStatus.running;
  launch = some "launch";
  handle = some "handle";
  result = none;
  events = [];
  diagnostics = [];
  diagnostics_degraded = false;
  error = "";
  updated_at = "t";
  run = record {
    run_id = "job";
    spec = "job";
    status = TrainingStatus.running;
    attempts = first_attempt ∷ [];
    error = "";
    updated_at = "t";
  };
}

submits : submit_session adapter (some executor) "job" "fresh" (ok "lock") clock ≡ ok running
unfolding submit_session submit_valid launch_session start_attempt show concat new_session
submits = refl

Life-SessionInv_example : SessionInv running
Life-SessionInv_example =
    Life-SessionInv adapter running
      (submitted (some executor) "job" "fresh" (ok "lock") clock submits)

-- The result of the process that exited with code 0.
abbrev success : TrainingResult texts
success = record {
  status = TrainingStatus.completed;
  output_dir = "out";
  exit_code = some (ExitCode.exited 0);
  artifacts = ("adapter", "sha") ∷ [];
  message = "";
}

abbrev completed_session : TrainingSession texts
completed_session = record running {
  status = TrainingStatus.completed;
  result = some success;
  events = "line" ∷ [];
  run = record running.run {
    status = TrainingStatus.completed;
    attempts =
        record first_attempt {
          status = TrainingStatus.completed;
          events = "line" ∷ [];
          result = some success;
        }
        ∷ [];
  };
}

polls : poll_session adapter (some executor) provider running clock ≡ (completed_session, none)
unfolding poll_session observe finish publish with_published parsed change_last same
    TrainingStatus-discrete
polls = refl

poll_session-completed_example : Completed adapter (some executor) provider running
poll_session-completed_example =
    poll_session-completed adapter (some executor) provider running completed_session clock refl
      polls refl

-- An engine whose results cannot be read.
abbrev broken : Adapter texts
broken = record adapter { collect_result = λ spec launch code status. err "unreadable" }

cancel_session-Stopped_example :
    Stopped adapter (cancel_session adapter (some executor) running clock) (ok stopped)
cancel_session-Stopped_example =
    cancel_session-Stopped adapter executor running "handle" clock refl refl
