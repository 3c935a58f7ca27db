-- ===== src/Examples.antt =====
-- Concrete inputs and the theorems at them.
mod Data
mod Environments
mod Plans
mod Stores
mod Control
mod Sessions
mod Training
mod Journals
mod Products
mod Checkpoints
mod Versions
mod Owners
mod Recoveries
