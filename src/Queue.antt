-- ===== src/Queue.antt =====
-- internal/queue: the worker that takes jobs under leases.
pub mod Worker
