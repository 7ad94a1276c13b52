-- ===== src/Scheduler/Simulate/Skipped.antt =====
-- internal/scheduler/types.go: the jobs that Simulate passes over are listed once each, under ids
-- that pass the check.
use code_maintainer.Base.{
  ℕ, suc, ◌≡◌, ◌+◌, Bool, true, ◌&&◌, arith, List, [], ◌∷◌, All, all, all-append, length-append,
  length,
}
use code_maintainer.Base.Patterns.{safe_id}
use code_maintainer.Scheduler.Types.{QueueItem, SimulationRequest, Decision}
use code_maintainer.Scheduler.Simulate.Laws.{skip, skip_item}

-- How many jobs a decision lists.
abbrev pub listed : Decision → ℕ
listed d = length d.rejected_job_ids + length d.deferred_job_ids

abbrev pub safe_lists : Decision → Bool
safe_lists d = all safe_id d.rejected_job_ids && all safe_id d.deferred_job_ids

skip_item-listed :
    (r : SimulationRequest) (i : QueueItem) (d : Decision)
    → listed (skip_item r i d) ≡ suc (listed d)
skip_item-listed r i d =
    let left = length-append d.rejected_job_ids (i.job_id ∷ []) in
    let right = length-append d.deferred_job_ids (i.job_id ∷ []) in ground arith

pub skip-listed :
    (r : SimulationRequest) (items : List QueueItem) (d : Decision)
    → listed (skip r items d) ≡ length items + listed d
skip-listed r [] d = omega arith
skip-listed r (i ∷ items) d =
    omega (arith, skip_item-listed r i d, skip-listed r items (skip_item r i d))

skip_item-safe :
    (r : SimulationRequest) (i : QueueItem) (d : Decision)
    → safe_id i.job_id ≡ true
    → safe_lists d ≡ true
    → safe_lists (skip_item r i d) ≡ true
skip_item-safe r i d s h =
    let left = all-append safe_id d.rejected_job_ids (i.job_id ∷ []) in
    let right = all-append safe_id d.deferred_job_ids (i.job_id ∷ []) in ground arith

pub skip-safe :
    (r : SimulationRequest) (items : List QueueItem) (d : Decision)
    → All (λ i. safe_id i.job_id ≡ true) items
    → safe_lists d ≡ true
    → safe_lists (skip r items d) ≡ true
skip-safe r [] d ss h = h
skip-safe r (i ∷ items) d (s, ss) h =
    skip-safe r items (skip_item r i d) ss (skip_item-safe r i d s h)
