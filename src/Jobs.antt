-- ===== src/Jobs.antt =====
-- internal/jobs: job states, the transition table, and what its graph guarantees.
pub mod State
pub mod Table
pub mod Graph
