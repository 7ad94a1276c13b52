-- ===== src/Workflow.antt =====
-- internal/workflow: the engine that drives a job through its phases.
pub mod Route
pub mod Engine
pub mod Resume
