-- ===== src/Lifecycle.antt =====
-- training/core/src/cy_exec/training/lifecycle: plans, runs, attempts, their store and reconciler.
pub mod Status
pub mod Step
pub mod Plan
pub mod Attempt
pub mod Run
pub mod Store
pub mod Reconciler
pub mod ControlPlane
