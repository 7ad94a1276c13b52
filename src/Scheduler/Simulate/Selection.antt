-- ===== src/Scheduler/Simulate/Selection.antt =====
-- internal/scheduler/types.go: the job that Simulate selects fits the host and comes first.
use code_maintainer.Base.{
  ◌≡◌, ◌≢◌, refl, sym, ◌∙◌, String, true, false, not, ◌&&◌, arith, Option, some, List, [], ◌∷◌,
  ◌++◌, any, ◌==◌, ◌is◌, All, All-map, perm_All, perm_sym, mem-perm, mem-middle, Bool-cases, inl,
  inr, if◌then◌else◌, length,
}
use code_maintainer.Base.Int.{ℤ, pos, ltb_ℤ, ◌≤ℤ◌, ◌+ℤ◌, ◌-ℤ◌, +ℤ-parts, -ℤ-parts}
use code_maintainer.Base.Clock.{Time, is_zero}
use code_maintainer.Scheduler.Types.{
  ResourceProfile, QueueItem, SimulationRequest, scheduled, Decision, mode_quality_latency,
}
use code_maintainer.Scheduler.Checks.{SchedulerError}
use code_maintainer.Scheduler.Order.{urgent_first, sort_queue}
use code_maintainer.Scheduler.Order.Laws.{
  Sorted, sort_queue-perm, sort_queue-Sorted, urgent_first-IsOrder,
}
use code_maintainer.Scheduler.Simulate.{
  profile_of, add_memory, add_cpu, active_project, held_back, too_large, select_item, scan_queue,
  decide, first_decision, simulate, decided, with_mode,
}
use code_maintainer.Scheduler.Simulate.Laws.{
  eligible, skip, chosen, exhausted, waits, scans, decide-Decide, scan_queue-Scan, skip-status,
}
use mathlib.Core.List.{Memᴰ, Permᴰ}

-- The profile's memory and cores fit beside what is reserved and active.
abbrev pub Fits : SimulationRequest → ResourceProfile → Type 0
Fits r p =
    let look : String → Option ResourceProfile = λ k. profile_of k r.profiles in
    (add_memory look r.active r.topology.reserved_memory_bytes +ℤ p.memory_bytes
      ≤ℤ r.topology.total_memory_bytes)
    × (add_cpu look r.active (pos 0) +ℤ p.cpu_cores ≤ℤ r.topology.logical_cores)

-- The item that a decision selects.
pub record Selected (r : SimulationRequest) (now : Time) (d : Decision) : Type 0 where
  pub item : QueueItem
  pub profile : ResourceProfile
  pub queued : Memᴰ item r.queued
  pub job : d.selected_job_id ≡ item.job_id
  pub project : d.selected_project_id ≡ item.project_id
  pub profile_id : d.selected_profile_id ≡ item.profile_id
  pub found : profile_of item.profile_id r.profiles ≡ some profile
  pub fits : Fits r profile
  pub fair : ltb_ℤ (pos 0) r.fairness_window ≡ true → active_project r item.project_id ≡ false
  pub first :
      r.mode ≡ mode_quality_latency
      → All (λ j. eligible r j ≡ true → urgent_first now j item ≡ false) r.queued

fits_between : (a b t : ℤ) → ltb_ℤ (t -ℤ a) b ≡ false → a +ℤ b ≤ℤ t
fits_between a b t h = let s = +ℤ-parts a b in let u = -ℤ-parts t a in ground arith

eligible-free :
    (r : SimulationRequest) (i : QueueItem) (p : ResourceProfile)
    → profile_of i.profile_id r.profiles ≡ some p
    → eligible r i ≡ true
    → (held_back r i ≡ false) × (too_large r p ≡ false)
eligible-free r i p found good =
    let g : (not (held_back r i) && not (too_large r p)) ≡ true = rw (eligible, found) at good in
    (ground arith, ground arith)

active-nonempty :
    (k : String) (items : List QueueItem)
    → any (λ (i : QueueItem). i.project_id is k) items ≡ true
    → (length items == 0) ≡ false
active-nonempty k [] h = absurd cc
active-nonempty k (i ∷ items) h = ground arith

free-fair :
    (r : SimulationRequest) (i : QueueItem)
    → held_back r i ≡ false
    → ltb_ℤ (pos 0) r.fairness_window ≡ true
    → active_project r i.project_id ≡ false
free-fair r i h window = elim (Bool-cases (active_project r i.project_id)) [
  | inl on ↦ absurd (cc (rw (held_back, on, active-nonempty i.project_id r.active on, window) at h))
  | inr off ↦ off
]

eligible-Fits :
    (r : SimulationRequest) (i : QueueItem) (p : ResourceProfile) → too_large r p ≡ false → Fits r p
eligible-Fits r i p small =
    let look : String → Option ResourceProfile = λ k. profile_of k r.profiles in
    (
      fits_between (add_memory look r.active r.topology.reserved_memory_bytes) p.memory_bytes
          r.topology.total_memory_bytes (ground arith),
      fits_between (add_cpu look r.active (pos 0)) p.cpu_cores r.topology.logical_cores
          (ground arith),
    )

-- Every eligible item stands at or behind the first eligible one.
eligible-behind :
    (r : SimulationRequest) (now : Time) (before : List QueueItem) (i : QueueItem)
    (after : List QueueItem)
    → Sorted (urgent_first now) (before ++ (i ∷ after))
    → All (λ j. eligible r j ≡ false) before
    → All (λ j. eligible r j ≡ true → urgent_first now j i ≡ false) (before ++ (i ∷ after))
eligible-behind r now [] i after (below, s) skipped =
    (λ good. not_before_itself, All-map (λ j h good. h) after below)
  where
    not_before_itself : urgent_first now i i ≡ false
    not_before_itself = elim (Bool-cases (urgent_first now i i)) [
      | inl b ↦ (urgent_first-IsOrder now).asymmetric i i b
      | inr b ↦ b
    ]
eligible-behind r now (j ∷ before) i after (below, s) (bad, skipped) =
    (λ good. absurd (cc), eligible-behind r now before i after s skipped)

chosen-Selected :
    (r : SimulationRequest) (now : Time) (d : Decision) (before : List QueueItem) (i : QueueItem)
    (after : List QueueItem) (p : ResourceProfile)
    → sort_queue r.queued r.mode now ≡ before ++ (i ∷ after)
    → All (λ j. eligible r j ≡ false) before
    → profile_of i.profile_id r.profiles ≡ some p
    → eligible r i ≡ true
    → Selected r now (select_item r i p d)
chosen-Selected r now d before i after p split skipped found good =
    let (free, small) = eligible-free r i p found good in
    let perm = sort_queue-perm r.queued r.mode now in
    let ordered : r.mode ≡ mode_quality_latency
        → Sorted (urgent_first now) (sort_queue r.queued r.mode now) =
      λ m. rw m ((sort_queue-Sorted r.queued now).1) in
    let back : Permᴰ (before ++ (i ∷ after)) r.queued = rw split at (perm_sym perm) in
    record {
      item = i;
      profile = p;
      queued = mem-perm back (mem-middle before i after);
      job = refl;
      project = refl;
      profile_id = refl;
      found = found;
      fits = eligible-Fits r i p small;
      fair = free-fair r i free;
      first = λ m.
          perm_All (λ j. eligible r j ≡ true → urgent_first now j i ≡ false) back
            (eligible-behind r now before i after (rw split at (ordered m)) skipped);
    }

exhausted-waits :
    (r : SimulationRequest) (items : List QueueItem) (now : Time)
    → (scan_queue r [] (skip r items (first_decision r.mode now))).status ≢ scheduled
unfolding scan_queue
exhausted-waits r items now g =
    let (mode, status, batch) = skip-status r items (first_decision r.mode now) in cc

pub decide-Selected :
    (r : SimulationRequest) (now : Time)
    → (decide r now).status ≡ scheduled
    → Selected r now (decide r now)
decide-Selected r now h = elim (decide-Decide r now) [
  | waits reason safe written e ↦ absurd (cc (rw e at h))
  | scans e ↦
      elim (scan_queue-Scan r (sort_queue r.queued r.mode now) (first_decision r.mode now)) [
        | chosen before i after p split skipped found good got ↦ rw (e ∙ got) (
            chosen-Selected r now (skip r before (first_decision r.mode now)) before i after p split
              skipped found good)
        | exhausted skipped got ↦
            absurd (exhausted-waits r (sort_queue r.queued r.mode now) now (rw (e ∙ got) at h))
      ]
]

-- When Simulate schedules a job, the job is a queued item whose profile is known; the profile's
-- memory and cores fit the host beside the reserved memory and what the active jobs use; with a
-- fairness window no active job is of its project; and in the mode `quality_latency` no queued
-- item that could also be selected is more urgent.
pub simulate_selects :
    (clock : Time) (request : SimulationRequest) (now : Time) (d : Decision)
    (e : Option SchedulerError)
    → simulate clock request now ≡ decided d e
    → d.status ≡ scheduled
    → Selected (with_mode request) (if is_zero now then clock else now) d
unfolding simulate
simulate_selects clock request now d e h s =
    let r = with_mode request in
    let t = if is_zero now then clock else now in
    let same_d : decide r t ≡ d = ground arith in
    rw (sym same_d) (decide-Selected r t (rw (sym same_d) at s))
