-- ===== src/Runtime.antt =====
-- TrainingRuntime, runtime.py of training/core/src/cy_exec/training.
pub mod Session
pub mod Starting
pub mod Polling
pub mod Cancelling
pub mod Agreement
pub mod Sessions
pub mod Kept
pub mod Life
pub mod Outcomes
