-- ===== src/Scheduler/Simulate/Decided.antt =====
-- internal/scheduler/types.go: a checked request always gets a decision that passes its own check,
-- and a job that is not selected is listed as rejected or deferred.
use code_maintainer.Base.{
  ◌≡◌, ◌≢◌, refl, ◌+◌, ◌≤◌, String, Bool, true, false, arith, none, some, List, [], ◌∷◌, ◌++◌, All,
  All-map, All-append_left, All-append_right, perm_All, perm_length, all, length-append, Bool-cases,
  Option-cases, inl, inr, ◌⊎◌, if◌then◌else◌, length,
}
use code_maintainer.Base.Text.{is_blank, is_empty}
use code_maintainer.Base.Patterns.{safe_id}
use code_maintainer.Base.Clock.{Time, is_zero}
use code_maintainer.Scheduler.Types.{
  Status, deferred, rejected, other_status, ResourceProfile, QueueItem, SimulationRequest,
  scheduled, Decision, one_of,
}
use code_maintainer.Scheduler.Checks.{
  validate_request, validate_decision, default_mode, known_mode, known_status, lacks_selection,
  optional_id, item_valid, profile_valid, profile_ids,
}
use code_maintainer.Scheduler.Checks.Laws.{IsChecked, validate_request-IsChecked}
use code_maintainer.Scheduler.Order.{sort_queue}
use code_maintainer.Scheduler.Order.Laws.{sort_queue-perm}
use code_maintainer.Scheduler.Simulate.{
  profile_of, defer_all, item_ids, select_item, scan_queue, decide, first_decision, simulate,
  decided, with_mode, batches, active_model,
}
use code_maintainer.Scheduler.Simulate.Laws.{
  skip, Scan, chosen, exhausted, waits, scans, decide-Decide, scan_queue-Scan, skip-status,
  summary_written,
}
use code_maintainer.Scheduler.Simulate.Skipped.{listed, safe_lists, skip-listed, skip-safe}
use mathlib.Core.List.{Permᴰ}
use code_maintainer.Base.Lists.{append_nil}

-- What makes a decision pass its check.
decision-passes :
    (d : Decision)
    → known_mode d.mode ≡ true
    → known_status d.status ≡ true
    → lacks_selection d ≡ false
    → is_blank d.reason ≡ false
    → is_blank d.resource_summary ≡ false
    → listed d ≤ 256
    → safe_lists d ≡ true
    → optional_id d.model_batch_group ≡ true
    → validate_decision d ≡ none
unfolding validate_decision
decision-passes d mode status selection reason summary short safe batch = ground arith

module _ (r : SimulationRequest) (checked : IsChecked r) (known : known_mode r.mode ≡ true) where
  item_facts :
      All
        (λ i.
          (safe_id i.job_id ≡ true) × (safe_id i.project_id ≡ true) × (safe_id i.profile_id ≡ true))
        r.queued
  unfolding item_valid
  item_facts =
      All-map (λ i (v, k). (ground arith, ground arith, ground arith)) r.queued
        (All-append_right
          (λ i. (item_valid i ≡ true) × (one_of (profile_ids r.profiles) i.profile_id ≡ true))
          r.active r.queued checked.items)

  queue_short : length r.queued ≤ 256
  queue_short = let small = checked.sizes in ground arith

  item_ids-safe :
      (items : List QueueItem)
      → All (λ i. safe_id i.job_id ≡ true) items
      → (all safe_id (item_ids items) ≡ true) × (length (item_ids items) ≡ length items)
  item_ids-safe [] ss = (refl, refl)
  item_ids-safe (i ∷ items) (s, ss) =
      let (safe, same_length) = item_ids-safe items ss in (ground arith, omega (arith, same_length))

  profile_of-valid :
      (k : String) (ps : List ResourceProfile) (p : ResourceProfile)
      → All (λ q. profile_valid q ≡ true) ps
      → profile_of k ps ≡ some p
      → optional_id p.model_id ≡ true
  unfolding profile_valid
  profile_of-valid k [] p vs found = absurd (cc)
  profile_of-valid k (q ∷ ps) p (v, vs) found = elim (Option-cases (profile_of k ps)) [
    | inr (q', later) ↦ profile_of-valid k ps p vs (ground arith)
    | inl last ↦ ground arith
  ]

  waits-passes :
      (now : Time) (reason : String) (safe : Bool)
      → is_blank reason ≡ false
      → let d =
          defer_all r reason (record (first_decision r.mode now) { co_residence_safe = safe }) in
        (validate_decision d ≡ none) × (listed d ≡ length r.queued)
  waits-passes now reason safe written =
      let d =
        defer_all r reason (record (first_decision r.mode now) { co_residence_safe = safe }) in
      let (ids, same_length) = item_ids-safe r.queued (All-map (λ i f. f.0) r.queued item_facts) in
      let count : listed d ≡ length r.queued = omega (arith, same_length) in
      (
        decision-passes d known refl refl written (summary_written r none)
            (omega (arith, count, queue_short)) ids refl,
        count,
      )

  skip-passes :
      (now : Time) (items rest : List QueueItem)
      → Permᴰ r.queued (items ++ rest)
      → let d = skip r items (first_decision r.mode now) in
        (listed d ≡ length items)
        × (length items + length rest ≡ length r.queued)
        × (safe_lists d ≡ true)
        × All
            (λ i.
              (safe_id i.job_id ≡ true)
              × (safe_id i.project_id ≡ true)
              × (safe_id i.profile_id ≡ true))
            rest
  skip-passes now items rest perm =
      let first = first_decision r.mode now in
      let facts = perm_All _ perm item_facts in
      let before = All-append_left _ items rest facts in
      (
        omega (arith, skip-listed r items first),
        omega (arith, perm_length perm, length-append items rest),
        skip-safe r items first (All-map (λ i f. f.0) items before) refl,
        All-append_right _ items rest facts,
      )

  selection_reason :
      (i : QueueItem) (p : ResourceProfile) (d : Decision)
      → (is_blank (select_item r i p d).reason ≡ false)
        × (optional_id p.model_id ≡ true
            → optional_id d.model_batch_group ≡ true
            → optional_id (select_item r i p d).model_batch_group ≡ true)
  unfolding is_blank
  selection_reason i p d = elim (Bool-cases (batches r p)) [
    | inr b ↦ rw b (refl, λ m g. g)
    | inl b ↦ rw b (loaded (active_model r p.model_id), λ m g. m)
  ]
    where
      loaded :
          (b : Bool)
          → is_blank (
              if b
              then "selected compatible queued job using already-loaded model profile"
              else "selected highest-priority queued job and will establish model batch group")
            ≡ false
      loaded true = refl
      loaded false = refl

  Scan-passes :
      (now : Time) (items : List QueueItem) (res : Decision)
      → Permᴰ r.queued items
      → Scan r items (first_decision r.mode now) res
      → (validate_decision res ≡ none) × (res.status ≢ scheduled → listed res ≡ length r.queued)
  unfolding scan_queue is_blank
  Scan-passes now items res perm (chosen before i after p split skipped found good e) =
      let d = skip r before (first_decision r.mode now) in
      let (mode, status, batch) = skip-status r before (first_decision r.mode now) in
      let (count, total, safe, ((job, project, profile), rest)) =
        skip-passes now before (i ∷ after) (rw split at perm) in
      let (reason, group) = selection_reason i p d in
      let small = queue_short in
      let model = profile_of-valid i.profile_id r.profiles p checked.profiles found in
      (
        rw e (
            decision-passes (select_item r i p d) (rw mode known) refl (ground arith) reason
              (summary_written r (some p)) (omega arith) safe (group model (rw batch refl))),
        λ waiting. absurd (waiting (rw e refl)),
      )
  Scan-passes now items res perm (exhausted skipped e) =
      let d = skip r items (first_decision r.mode now) in
      let (mode, status, batch) = skip-status r items (first_decision r.mode now) in
      let (count, total, safe, rest) = skip-passes now items [] (rw (append_nil items) perm) in
      let small = queue_short in
      (
        rw e (
            decision-passes (scan_queue r [] d) (rw mode known) (rw status refl) (rw status refl)
              refl (summary_written r none) (omega arith) safe (rw batch refl)),
        λ waiting. rw e (omega arith),
      )

  pub decide-passes :
      (now : Time)
      → (validate_decision (decide r now) ≡ none)
        × ((decide r now).status ≢ scheduled → listed (decide r now) ≡ length r.queued)
  decide-passes now = elim (decide-Decide r now) [
    | waits reason safe written e ↦
        let (passes, count) = waits-passes now reason safe written in
        (rw e passes, λ waiting. rw e count)
    | scans e ↦ rw e (
        Scan-passes now (sort_queue r.queued r.mode now) _ (sort_queue-perm r.queued r.mode now)
          (scan_queue-Scan r (sort_queue r.queued r.mode now) (first_decision r.mode now)))
  ]

default_mode_twice : (m : String) → default_mode (default_mode m) ≡ default_mode m
default_mode_twice m = elim (Bool-cases (is_empty m)) [
  | inl b ↦ rw (default_mode, b) refl
  | inr b ↦ rw (default_mode, b, b) refl
]

-- A request that passes its check, with the default mode filled in, always gets a decision, and
-- the decision passes its own check; unless a job is scheduled, the decision lists as many jobs as
-- rejected or deferred as were queued.
pub simulate_decides :
    (clock : Time) (request : SimulationRequest) (now : Time)
    → validate_request (with_mode request) ≡ none
    → (d : Decision) × (simulate clock request now ≡ decided d none)
      × ((d.status ≡ scheduled) ⊎ (listed d ≡ length request.queued))
unfolding simulate
simulate_decides clock request now h =
    let r = with_mode request in
    let t = if is_zero now then clock else now in
    let checked = validate_request-IsChecked r h in
    let (passes, counts) =
      decide-passes r checked (rw (default_mode_twice request.mode) at checked.mode) t in
    (decide r t, rw (simulate, h, passes) refl, or_listed (decide r t).status counts)
  where
    or_listed : {P : Type 0} (s : Status) → (s ≢ scheduled → P) → (s ≡ scheduled) ⊎ P
    or_listed scheduled f = inl refl
    or_listed deferred f = inr (f (λ e. cc))
    or_listed rejected f = inr (f (λ e. cc))
    or_listed other_status f = inr (f (λ e. cc))
