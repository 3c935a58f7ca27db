-- ===== src/Training.antt =====
-- The training product over the generic lifecycle: control_plane.py.
pub mod Compiler
pub mod Executions
pub mod Confirmation
pub mod Reconciling
pub mod Recovery
