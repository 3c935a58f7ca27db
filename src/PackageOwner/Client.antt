-- ===== src/PackageOwner/Client.antt =====
-- The client of the Package Runtime, which is not in the repository: what it does is a parameter. It
-- may call back what it was given, in any order and any number of times, and goes on with what the
-- call raised; then it returns or raises.
use cyrene_yield.Common.{String, Bool, Option, none, some, Result}
use cyrene_yield.Values.{Value, Fields}
use cyrene_yield.ProductStore.Bindings.{Scope, Bindings}
use cyrene_yield.PackageOwner.{Failure}

pub data Activity (Q : Type 0) : Type 0 where
  returns : Activity Q
  raises : Failure → Activity Q
  calls : Q → (Option Failure → Activity Q) → Activity Q

-- What it calls while it activates, a persisted outcome with the time at which it is stored.
pub data ActivationCall : Type 0 where
  persist_intent : String → Scope → ActivationCall
  persist : Value → Value → String → ActivationCall

-- What it calls while it reconciles: a status, an installation and a receipt, and the time.
pub record ReconcileCall : Type 0 where
  pub status : Value
  pub installation : Value
  pub receipt : Value
  pub now : String

pub record Client : Type 0 where
  pub source_id : Option String
  pub get_installation : String → Result Failure Value
  pub activate_and_persist : String → String → String → Activity ActivationCall
  pub reconcile_binding_operation_and_persist : Value → Activity ReconcileCall

-- PackageRuntimeClient.from_environment: `unavailable` for ImportError, OSError and ValueError.
pub data Opened : Type 0 where
  unavailable : Opened
  broken : Failure → Opened
  opened : Client → Opened

-- What the service finds outside: the client, whether the typed receipt can be built again, the times
-- of the store's writes, and whether the state of a binding can be written after an unknown outcome.
pub record Outside : Type 0 where
  pub from_environment : Opened
  pub build_receipt : Fields → Option Value
  pub began : String
  pub completed : String
  pub failed : String
  pub projected : Bool

-- The calls, with what each does to the journal.
unfoldable pub perform :
    {Q : Type 0}
    → (Q → Bindings → Option Failure × Bindings)
    → Activity Q
    → Bindings
    → Option Failure × Bindings
perform handle returns b = (none, b)
perform handle (raises e) b = (some e, b)
perform handle (calls q rest) b = let answer = handle q b in perform handle (rest answer.0) answer.1

-- What every call keeps is kept.
pub perform_keeps :
    {Q : Type 0} (P : Bindings → Type 0) (handle : Q → Bindings → Option Failure × Bindings)
    → ((q : Q) (b : Bindings) → P b → P (handle q b).1)
    → (a : Activity Q) (b : Bindings) → P b
    → P (perform handle a b).1
unfolding perform
perform_keeps P handle keeps returns b p = p
perform_keeps P handle keeps (raises e) b p = p
perform_keeps P handle keeps (calls q rest) b p =
    perform_keeps P handle keeps (rest (handle q b).0) (handle q b).1 (keeps q b p)
