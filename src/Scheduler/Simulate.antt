-- ===== src/Scheduler/Simulate.antt =====
-- internal/scheduler/types.go: Simulate, which selects at most one queued job, and resourceSummary.
pub mod Laws
pub mod Selection
pub mod Skipped
pub mod Decided
use code_maintainer.Base.{
  ℕ, String, Bool, true, false, not, ◌&&◌, ◌||◌, Option, none, some, List, [], ◌∷◌, ◌++◌, ◌is◌,
  if◌then◌else◌, any, length, ◌==◌,
}
use code_maintainer.Base.Int.{ℤ, pos, pos_part, ltb_ℤ, leb_ℤ, ◌+ℤ◌, ◌-ℤ◌}
use code_maintainer.Base.Text.{is_empty, decimal, concat}
use code_maintainer.Base.Clock.{Time, is_zero}
use code_maintainer.Scheduler.Types.{
  Topology, ResourceProfile, QueueItem, SimulationRequest, Status, scheduled, deferred, Decision,
  first_profile, mode_throughput_batching,
}
use code_maintainer.Scheduler.Checks.{
  SchedulerError, validate_request, validate_decision, default_mode,
}
use code_maintainer.Scheduler.Order.{sort_queue}

-- The map from names to profiles: of two profiles with a name, the later one.
abbrev pub profile_of : String → List ResourceProfile → Option ResourceProfile
profile_of k [] = none
profile_of k (p ∷ ps) = elim (profile_of k ps) [
  | some q ↦ some q
  | none ↦ if p.id is k then some p else none
]

-- The zero profile where a name is missing.
abbrev pub memory_of : Option ResourceProfile → ℤ
memory_of none = pos 0
memory_of (some p) = p.memory_bytes

abbrev pub cpu_of : Option ResourceProfile → ℤ
cpu_of none = pos 0
cpu_of (some p) = p.cpu_cores

abbrev pub model_of : Option ResourceProfile → String
model_of none = ""
model_of (some p) = p.model_id

-- What a list of items uses, added to a starting amount.
abbrev pub add_memory : (String → Option ResourceProfile) → List QueueItem → ℤ → ℤ
add_memory look [] total = total
add_memory look (i ∷ items) total = add_memory look items (total +ℤ memory_of (look i.profile_id))

abbrev pub add_cpu : (String → Option ResourceProfile) → List QueueItem → ℤ → ℤ
add_cpu look [] total = total
add_cpu look (i ∷ items) total = add_cpu look items (total +ℤ cpu_of (look i.profile_id))

abbrev pub item_ids : List QueueItem → List String
item_ids [] = []
item_ids (i ∷ items) = i.job_id ∷ item_ids items

abbrev selected_text : Option ResourceProfile → String
selected_text none = "no selected workload"
selected_text (some p) = concat (
    "selected "
    ∷ p.id
    ∷ " uses "
    ∷ decimal (pos_part p.cpu_cores)
    ∷ " CPU and "
    ∷ decimal (pos_part p.memory_bytes)
    ∷ " bytes memory"
    ∷ [])

-- resourceSummary, on values that the checks make nonnegative
unfoldable pub resource_summary : SimulationRequest → Option ResourceProfile → String
resource_summary r selected =
    let look : String → Option ResourceProfile = λ k. first_profile k r.profiles in
    concat (
      "host "
      ∷ r.topology.host_id
      ∷ " has "
      ∷ decimal (pos_part r.topology.logical_cores)
      ∷ " logical CPU and "
      ∷ decimal (pos_part r.topology.total_memory_bytes)
      ∷ " bytes memory; active plus reserved uses "
      ∷ decimal (pos_part (add_cpu look r.active (pos 0)))
      ∷ " CPU and "
      ∷ decimal (pos_part (add_memory look r.active r.topology.reserved_memory_bytes))
      ∷ " bytes memory; "
      ∷ selected_text selected
      ∷ [])

abbrev pub available_memory : SimulationRequest → ℤ
available_memory r =
    r.topology.total_memory_bytes
    -ℤ add_memory (λ k. profile_of k r.profiles) r.active r.topology.reserved_memory_bytes

abbrev pub available_cpu : SimulationRequest → ℤ
available_cpu r =
    r.topology.logical_cores -ℤ add_cpu (λ k. profile_of k r.profiles) r.active (pos 0)

abbrev pub active_project : SimulationRequest → String → Bool
active_project r k = any (λ (i : QueueItem). i.project_id is k) r.active

abbrev pub active_model : SimulationRequest → String → Bool
active_model r k =
    any
      (λ (i : QueueItem).
        let m = model_of (profile_of i.profile_id r.profiles) in not (is_empty m) && m is k)
      r.active

abbrev pub reject_item : QueueItem → Decision → Decision
reject_item i d = record d { rejected_job_ids = d.rejected_job_ids ++ (i.job_id ∷ []) }

abbrev pub defer_item : QueueItem → Decision → Decision
defer_item i d = record d { deferred_job_ids = d.deferred_job_ids ++ (i.job_id ∷ []) }

abbrev pub batches : SimulationRequest → ResourceProfile → Bool
batches r p = r.mode is mode_throughput_batching && not (is_empty p.model_id)

abbrev pub select_item : SimulationRequest → QueueItem → ResourceProfile → Decision → Decision
select_item r i p d = record d {
  status = scheduled;
  selected_job_id = i.job_id;
  selected_project_id = i.project_id;
  selected_profile_id = i.profile_id;
  model_batch_group = if batches r p then p.model_id else d.model_batch_group;
  reason =
      if not (batches r p)
      then "selected safest highest-priority queued job within CPU and memory limits"
      else if active_model r p.model_id
      then "selected compatible queued job using already-loaded model profile"
      else "selected highest-priority queued job and will establish model batch group";
  resource_summary = resource_summary r (some p);
}

-- `_, active := activeProjects[...]; active && len(activeProjects) > 0 && FairnessWindow > 0`
abbrev pub held_back : SimulationRequest → QueueItem → Bool
held_back r i =
    active_project r i.project_id && not (length r.active == 0) && ltb_ℤ (pos 0) r.fairness_window

abbrev pub too_large : SimulationRequest → ResourceProfile → Bool
too_large r p = ltb_ℤ (available_memory r) p.memory_bytes || ltb_ℤ (available_cpu r) p.cpu_cores

-- The loop over the sorted queue.
unfoldable pub scan_queue : SimulationRequest → List QueueItem → Decision → Decision
scan_queue r [] d = record d {
  reason = "no queued job fit resource, fairness, and profile constraints";
  resource_summary = resource_summary r none;
}
scan_queue r (i ∷ items) d =
    let skip_unknown = scan_queue r items (reject_item i d) in
    let skip_fair = scan_queue r items (record (defer_item i d) { fairness_applied = true }) in
    let skip_large = scan_queue r items (defer_item i d) in
    elim (profile_of i.profile_id r.profiles) [
      | none ↦ skip_unknown
      | some p ↦
          if held_back r i
          then skip_fair
          else if too_large r p
          then skip_large
          else select_item r i p d
    ]

abbrev pub first_decision : String → Time → Decision
first_decision mode now = record {
  id = "";
  mode = mode;
  selected_job_id = "";
  selected_project_id = "";
  selected_profile_id = "";
  status = deferred;
  reason = "";
  rejected_job_ids = [];
  deferred_job_ids = [];
  co_residence_safe = true;
  fairness_applied = false;
  model_batch_group = "";
  resource_summary = "";
  created_at = now;
}

-- Everything that is queued waits.
abbrev pub defer_all : SimulationRequest → String → Decision → Decision
defer_all r reason d = record d {
  deferred_job_ids = item_ids r.queued;
  reason = reason;
  resource_summary = resource_summary r none;
}

unfoldable pub decide : SimulationRequest → Time → Decision
decide r now =
    let first = first_decision r.mode now in
    if not r.maintenance_window
    then defer_all r "outside configured maintenance window" first
    else if leb_ℤ (available_memory r) (pos 0) || leb_ℤ (available_cpu r) (pos 0)
    then defer_all r "active workloads plus controller reservation exhaust host capacity"
        (record first { co_residence_safe = false })
    else scan_queue r (sort_queue r.queued r.mode now) first

-- A refused request, or the decision with the error of its own check.
pub data Simulated : Type 0 where
  refused : SchedulerError → Simulated
  decided : Decision → Option SchedulerError → Simulated

abbrev pub with_mode : SimulationRequest → SimulationRequest
with_mode r = record r { mode = default_mode r.mode }

-- Simulate; `clock` is time.Now, which is read when no time is given.
unfoldable pub simulate : Time → SimulationRequest → Time → Simulated
simulate clock request now =
    let r = with_mode request in
    let d = decide r (if is_zero now then clock else now) in
    elim (validate_request r) [ some e ↦ refused e | none ↦ decided d (validate_decision d) ]
