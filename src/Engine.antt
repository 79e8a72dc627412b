-- ===== src/Engine.antt =====
-- qingtian_engine: the parts of the control plane that decide from the rows of a task alone.
pub mod Texts
pub mod Router
pub mod Waiting
pub mod Policy
pub mod Lease
pub mod Lifecycle
pub mod Admission
