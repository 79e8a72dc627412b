-- ===== src/Store.antt =====
-- qingtian_core/store.py: the methods of QingtianStore and what they guarantee.
pub mod Table
pub mod Rows
pub mod Statements
pub mod Tasks
pub mod Recovery
pub mod Sessions
pub mod Runs
pub mod Records
pub mod Knowledge
pub mod Step
pub mod Methods
pub mod Invariant
pub mod Consistent
pub mod History
pub mod Guarantees
pub mod Races
pub mod Search
pub mod Failures
pub mod Acceptance
pub mod Listing
pub mod Export
