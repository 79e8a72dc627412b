-- ===== src/Store/Invariant.antt =====
-- What holds of the database between two calls of the store's methods. Each part speaks of the
-- tables that it is about.
pub mod Sessions
pub mod Runs
pub mod Tasks
pub mod Knowledge
pub mod Checkpoints
