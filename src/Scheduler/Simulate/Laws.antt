-- ===== src/Scheduler/Simulate/Laws.antt =====
-- internal/scheduler/types.go: which job Simulate selects.
use code_maintainer.Base.{
  ◌≡◌, refl, ap, ◌∙◌, String, Bool, true, false, not, ◌&&◌, arith, Option, none, some, List, [],
  ◌∷◌, ◌++◌, All, Bool-cases, Option-cases, inl, inr, if◌then◌else◌,
}
use code_maintainer.Base.Clock.{Time}
use code_maintainer.Scheduler.Types.{ResourceProfile, QueueItem, SimulationRequest, Decision}
use code_maintainer.Scheduler.Order.{sort_queue}
use code_maintainer.Scheduler.Simulate.{
  profile_of, held_back, too_large, reject_item, defer_item, select_item, scan_queue, decide,
  first_decision, defer_all, resource_summary,
}
use code_maintainer.Base.Text.{is_blank, concat}

-- The queue item could be selected: its profile is known, its project is not held back, and it fits.
abbrev pub eligible : SimulationRequest → QueueItem → Bool
eligible r i = elim (profile_of i.profile_id r.profiles) [
  | none ↦ false
  | some p ↦ not (held_back r i) && not (too_large r p)
]

abbrev pub skip_item : SimulationRequest → QueueItem → Decision → Decision
skip_item r i d = elim (profile_of i.profile_id r.profiles) [
  | none ↦ reject_item i d
  | some p ↦
      if held_back r i then record (defer_item i d) { fairness_applied = true } else defer_item i d
]

abbrev pub skip : SimulationRequest → List QueueItem → Decision → Decision
skip r [] d = d
skip r (i ∷ items) d = skip r items (skip_item r i d)

-- The loop selects the first eligible item after skipping the ones before it, or skips them all.
pub data Scan (r : SimulationRequest) (items : List QueueItem) (d res : Decision) : Type 0 where
  chosen :
      (before : List QueueItem) (i : QueueItem) (after : List QueueItem) (p : ResourceProfile)
      → items ≡ before ++ (i ∷ after)
      → All (λ j. eligible r j ≡ false) before
      → profile_of i.profile_id r.profiles ≡ some p
      → eligible r i ≡ true
      → res ≡ select_item r i p (skip r before d)
      → Scan r items d res
  exhausted :
      All (λ j. eligible r j ≡ false) items
      → res ≡ scan_queue r [] (skip r items d)
      → Scan r items d res

skip_one :
    (r : SimulationRequest) (i : QueueItem) (items : List QueueItem) (d : Decision)
    → eligible r i ≡ false
    → scan_queue r (i ∷ items) d ≡ scan_queue r items (skip_item r i d)
unfolding scan_queue
skip_one r i items d h = elim (Option-cases (profile_of i.profile_id r.profiles)) [
  | inl missing ↦ rw (scan_queue, skip_item, missing) refl
  | inr (p, found) ↦ elim (Bool-cases (held_back r i)) [
    | inl b ↦ rw (scan_queue, skip_item, found, b) refl
    | inr b ↦ elim (Bool-cases (too_large r p)) [
      | inl large ↦ rw (scan_queue, skip_item, found, b, large) refl
      | inr small ↦ absurd (cc (rw (eligible, found, b, small) at h))
    ]
  ]
]

take_one :
    (r : SimulationRequest) (i : QueueItem) (items : List QueueItem) (d : Decision)
    → eligible r i ≡ true
    → (p : ResourceProfile) × (profile_of i.profile_id r.profiles ≡ some p)
      × (scan_queue r (i ∷ items) d ≡ select_item r i p d)
unfolding scan_queue
take_one r i items d h = elim (Option-cases (profile_of i.profile_id r.profiles)) [
  | inl missing ↦ absurd (cc (rw (eligible, missing) at h))
  | inr (p, found) ↦ (p, found, ground arith)
]

pub scan_queue-Scan :
    (r : SimulationRequest) (items : List QueueItem) (d : Decision)
    → Scan r items d (scan_queue r items d)
scan_queue-Scan r [] d = Scan.exhausted tt refl
scan_queue-Scan r (i ∷ items) d = elim (Bool-cases (eligible r i)) [
  | inl yes_it ↦
      let (p, found, got) = take_one r i items d yes_it in
      Scan.chosen [] i items p refl tt found yes_it got
  | inr not_it ↦ elim (scan_queue-Scan r items (skip_item r i d)) [
    | Scan.chosen before j after p split all found good e ↦
        Scan.chosen (i ∷ before) j after p (ap (λ l. i ∷ l) split) (not_it, all) found good
          (skip_one r i items d not_it ∙ e)
    | Scan.exhausted all e ↦ Scan.exhausted (not_it, all) (skip_one r i items d not_it ∙ e)
  ]
]

pub summary_written :
    (r : SimulationRequest) (s : Option ResourceProfile) → is_blank (resource_summary r s) ≡ false
unfolding resource_summary concat is_blank
summary_written r s = refl

-- Skipping changes neither the mode, the status nor the batch group.
pub skip-status :
    (r : SimulationRequest) (items : List QueueItem) (d : Decision)
    → ((skip r items d).mode ≡ d.mode)
      × ((skip r items d).status ≡ d.status)
      × ((skip r items d).model_batch_group ≡ d.model_batch_group)
skip-status r [] d = (refl, refl, refl)
skip-status r (i ∷ items) d =
    let (mode, status, batch) = skip-status r items (skip_item r i d) in
    (ground arith, ground arith, ground arith)

-- Everything waits, or the loop decides.
pub data Decide (r : SimulationRequest) (now : Time) (d : Decision) : Type 0 where
  waits :
      (reason : String) (safe : Bool)
      → is_blank reason ≡ false
      → d ≡ defer_all r reason (record (first_decision r.mode now) { co_residence_safe = safe })
      → Decide r now d
  scans :
      d ≡ scan_queue r (sort_queue r.queued r.mode now) (first_decision r.mode now) → Decide r now d

pub decide-Decide : (r : SimulationRequest) (now : Time) → Decide r now (decide r now)
unfolding decide is_blank
decide-Decide r now = go r.maintenance_window _
  where
    go :
        (open_now full : Bool)
        → Decide r now (
            if not open_now
            then defer_all r "outside configured maintenance window" (first_decision r.mode now)
            else if full
            then defer_all r "active workloads plus controller reservation exhaust host capacity"
                (record (first_decision r.mode now) { co_residence_safe = false })
            else scan_queue r (sort_queue r.queued r.mode now) (first_decision r.mode now))
    go false full = Decide.waits "outside configured maintenance window" true refl refl
    go true true =
        Decide.waits "active workloads plus controller reservation exhaust host capacity" false refl
          refl
    go true false = Decide.scans refl
