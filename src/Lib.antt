-- ===== src/Lib.antt =====
-- Cyrene Yield: the product lifecycle, the training runtime, the product store, the environment resolver
-- and the checkpoint manager of
-- training/core/src/cy_exec/training, paths below being relative to it.
--
-- A product run follows an immutable plan of steps. The store (lifecycle/store.py) holds plans, runs
-- and idempotency keys, and replaces a run only at the generation that the caller read. The
-- reconciler (lifecycle/reconciler.py) chooses the next action of a run from its plan, its desired
-- state and its latest attempt; ProductControlPlane carries the action out: it loads the run, changes
-- it by the transitions of lifecycle/contracts.py and writes it with compare_and_set. Below it, the
-- training runtime (runtime.py) owns the sessions in which an engine's processes run.
--
-- Common: Tests (Boolean tests and if), Lists, Sorting (sorted and ORDER BY), TextOrder, Chars, Maps
--   (Python's dict), Results (exceptions as values), Decimal (str of a number).
-- Values: the JSON values of metadata and provenance, and _normalized; Values.Normal and Reading about it.
-- Lifecycle.Status: the enumerations and the exceptions of lifecycle/contracts.py and store.py.
-- Lifecycle.Step, Plan, Attempt, Run: PlanStep with RetryPolicy and StepDependency, ExecutionPlan,
--   Attempt, ProductRun. A constructor's __post_init__ is new_policy, new_step, new_plan; the methods
--   keep their names (ordered_steps, with_observation, with_observed_attempt, ...). Proofs about the
--   order of a plan are in Plan.Deletion, Termination, Soundness, Completeness and Validity.
-- Lifecycle.Store: JsonFileControlPlaneStore with create_or_get, load_run, load_plan,
--   compare_and_set and _assert_history_immutable. A document written and read back is reload_plan and
--   reload_run: to_dict sorts the keys of metadata. Proofs are in Store.History, Replacing,
--   Submission, Invariant and Reach; Reach holds the relation of any sequence of calls.
-- Lifecycle.Reconciler: ProductReconciler.next_action and its parts; Reconciler.Decisions about it.
-- Lifecycle.ControlPlane: ProductControlPlane with submit, next_action, start_next_attempt,
--   resume_attempt, observe_attempt, request_cancel and apply_terminal_action; proofs in
--   ControlPlane.Starting and Observing.
-- Runtime.Session: TrainingSession (runtime.py), TrainingRun and TrainingAttempt
--   (contracts/attempt.py), TrainingStatus, TrainingResult, CancelOutcome. Runtime.Starting, Polling,
--   Cancelling: the calls of TrainingRuntime on one session; Runtime.Sessions: the table of sessions.
--   Proofs are in Runtime.Agreement, Kept, Life and Outcomes.
-- Training.Compiler: TrainingPlanCompiler (control_plane.py) and ExecutionPlan.create.
-- Training.Executions: _observe_execution_if_present, _observe_training_session, _cancel_execution,
--   _quarantine_unknown_execution and _record_unconfirmed_cancellation of TrainingControlPlane; what
--   the engine answers is an argument. Training.Confirmation about it. Training.Reconciling:
--   reconcile_once, resume and _execute_step, where the spec and the lock of the run are cached,
--   the engine accepts what is submitted, and it raises nothing but KeyError when it is polled or cancelled.
--   Training.Recovery: submit, _require_spec and _require_lock, with what json, sha256 and TrainingSpec
--   do as a record Texts; its Matching and Restart about them.
-- ProductStore.Bindings, Journal, Resources, Receipts, Closing: the tables of ProductStore
--   (product_store.py), each with the methods that read and write it, under the names of the methods.
--   Bindings: package_binding_operations and package_binding_owner_state; Bindings.Invariant, Kept and Reach
--   about any sequence of calls. Journal: training_events and training_diagnostics, which differ in
--   the keys added to a document and in the page's bound; Journal.Appending, Paging and
--   Purging. Resources: resources, receipts and scopes; Resources.Drafts. Receipts: action_receipts and run_terminals.
--   Closing: the callbacks of close, with what each calls and how it ends as an argument. A transaction that raises is rolled back: its error comes without
--   a state, and the tables stay as they were.
-- Environment.Versions, Contracts, Resolver: environment/resolver.py and contracts.py. Versions writes
--   out the two regular expressions on the numbers of the characters, with _version and _satisfies;
--   Contracts has the records, the digests and the locks, with sha256 of the canonical JSON as the
--   argument digest_of; Resolver has _match as a list of checks and resolve as a loop with a Tally.
--   Documents has to_dict and from_dict of a lock. Proofs are in Versions.Joining, Resolver.Tallying,
--   Choice and Locks, and Documents.RoundTrip.
-- ModelVersion: the contract of model versions, outside the package, in
--   sdk/python/cyrene_yield_contracts/src/cyrene_yield_contracts/model_version.py, with Texts (its regular
--   expressions) and Artifacts; a normalised document is a record, and to_dict writes its dictionary.
--   Proofs are in Accepted, Documents, Lineages, Sound, Rereading and RoundTrip.
-- PackageOwner: PackageBindingOwner (package_runtime_owner.py), which writes the journal of
--   ProductStore.Bindings. Client: the SDK's client as a parameter, a tree of the calls that it
--   makes back, each continued with what the call raised; Receipts: what is taken from the SDK;
--   Activation, Reconciliation: activate and reconcile, with the journal after a return or an
--   exception, one request at a time. Proofs are in Keeping, Steps, Completing, Activated,
--   Reconciled and Requests.
-- Checkpoint: CheckpointManager (checkpoint/checkpoint_manager.py) over the entries of its directory, with
--   _list_checkpoints, find_latest_checkpoint and cleanup_old_checkpoints; Checkpoint.Cleanup about them.
-- Examples: concrete inputs, tests and the theorems at them.
--
-- Exceptions are the constructors of an error type, one for each place that raises. The clock and
-- uuid4 are arguments, one reading for each call. A float and a path are texts. A file is its
-- content: reading, writing and locking it are outside. The object that `current_attempt` returns is
-- the last of the run's list, so an assignment to it is change_last on that list.
--
-- Bounds: numbers are natural numbers, as Python's int does not wrap and no count here is negative; a page's
-- limit below one counts as one, so one below zero is written 0, and so is
-- save_total_limit. Digits are ASCII where \d takes more.
-- order_loop takes the number of steps as its fuel: a round deletes a step at least, so the fuel is
-- never used up. digits takes the number as its fuel, since a round divides by ten.
--
-- Not modelled: the executors, the engine adapter and the artifact provider, and for the runtime also the
-- environment resolver, answer as arguments (Executor, Adapter, Provider), and so do the exceptions of
-- Executor.poll and cancel, of collect_result and of the publication; of start, only ExecutionControlError,
-- and none of what reads output and diagnostics or parses a line. The rest of the training control
-- plane, sha256, the files of checkpoints, preflight, the product service, the HTTP and command line surfaces,
-- logging and the scripts have no model yet or are input and output. Of the product store, the
-- permissions of its files, the set-up of the tables, create_result,
-- diagnostics_degraded and the reading of run names from result documents are left out.
pub mod Checkpoint
pub mod Common
pub mod Environment
pub mod Examples
pub mod Lifecycle
pub mod ModelVersion
pub mod PackageOwner
pub mod ProductStore
pub mod Runtime
pub mod Training
pub mod Values
