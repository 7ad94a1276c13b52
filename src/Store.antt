-- ===== src/Store.antt =====
-- internal/storage and internal/storage/sqlite: the durable store of jobs.
pub mod Rows
pub mod Tx
pub mod Tables
pub mod JobOps
pub mod Budgets
pub mod Completion
pub mod Projects
pub mod Schedules
pub mod Dispatch
pub mod Proposals
pub mod Notices
pub mod Leases
pub mod Approvals
pub mod Findings
pub mod Ledger
pub mod History
pub mod Refine
