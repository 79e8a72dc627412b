-- ===== src/Store/Methods.antt =====
-- The methods of the store against its abstract behaviour, a module for each group.
pub mod Sessions
pub mod Knowledge
pub mod Checkpoints
pub mod Tasks
pub mod Runs
