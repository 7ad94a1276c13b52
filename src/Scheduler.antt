-- ===== src/Scheduler.antt =====
-- internal/scheduler/types.go: what the scheduler is told, what it checks, and what it selects.
pub mod Types
pub mod Checks
pub mod Order
pub mod Simulate
pub mod Priority
