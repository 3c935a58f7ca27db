-- ===== src/Environment.antt =====
-- The environment package: the choice of the environment in which a run is trained.
pub mod Versions
pub mod Contracts
pub mod Resolver
pub mod Documents
