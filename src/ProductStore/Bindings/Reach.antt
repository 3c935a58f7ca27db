-- ===== src/ProductStore/Bindings/Reach.antt =====
-- Any sequence of calls on the binding journal.
use cyrene_yield.Common.{String, ◌≡◌, Bool, Option, ok}
use cyrene_yield.Values.{Fields}
use cyrene_yield.ProductStore.Bindings.{
  Phase, RuntimeStatus, Scope, Bindings, Begun, begin_package_binding_operation,
  record_package_binding_outcome, mark_package_binding_unknown, mark_package_binding_completed,
}
use cyrene_yield.ProductStore.Bindings.Invariant.{BindingsInv}
use cyrene_yield.ProductStore.Bindings.Kept.{
  begin-BindingsInv, record-BindingsInv, unknown-BindingsInv, completed-BindingsInv,
}

-- A call that returned, with the state before it and after it.
pub data Step : Bindings → Bindings → Type 0 where
  began :
      (request_id : String) (scope : Scope) (now : String) (answer : Begun) {b b' : Bindings}
      → begin_package_binding_operation b request_id scope now ≡ ok (answer, b')
      → Step b b'
  recorded :
      (request_id : String) (scope : Scope) (status : Option RuntimeStatus) (receipt : Fields)
      (phase : Phase) (blocker : Option String) (now : String) {b b' : Bindings}
      → record_package_binding_outcome b request_id scope status receipt phase blocker now ≡ ok b'
      → Step b b'
  unknown_marked :
      (request_id blocker : String) (projected : Bool) (now : String) {b b' : Bindings}
      → mark_package_binding_unknown b request_id blocker projected now ≡ ok b'
      → Step b b'
  completed_marked :
      (request_id now : String) {b b' : Bindings}
      → mark_package_binding_completed b request_id now ≡ ok b'
      → Step b b'

pub data Reach : Bindings → Bindings → Type 0 where
  here : {b : Bindings} → Reach b b
  next : {b c d : Bindings} → Reach b c → Step c d → Reach b d

Step-BindingsInv : (b b' : Bindings) → Step b b' → BindingsInv b → BindingsInv b'
Step-BindingsInv b b' (began r scope now answer h) inv =
    begin-BindingsInv b inv r scope now answer b' h
Step-BindingsInv b b' (recorded r scope status receipt phase blocker now h) inv =
    record-BindingsInv b inv r scope status receipt phase blocker now b' h
Step-BindingsInv b b' (unknown_marked r blocker projected now h) inv =
    unknown-BindingsInv b inv r blocker projected now b' h
Step-BindingsInv b b' (completed_marked r now h) inv = completed-BindingsInv b inv r now b' h

-- Whatever calls are made on the journal, in whatever order: of each binding at most one operation is
-- pending, a completed operation holds no broker receipt, was seen running and has made its binding
-- active, and a binding is active only with a completed operation and no pending one.
pub Reach-BindingsInv : (b b' : Bindings) → Reach b b' → BindingsInv b → BindingsInv b'
Reach-BindingsInv b b' here inv = inv
Reach-BindingsInv b b' (next {c = c} r s) inv =
    Step-BindingsInv c b' s (Reach-BindingsInv b c r inv)
