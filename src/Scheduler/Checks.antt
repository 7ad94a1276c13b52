-- ===== src/Scheduler/Checks.antt =====
-- internal/scheduler/types.go: the Validate methods. An error is the message's subject.
pub mod Laws
use code_maintainer.Base.{
  ℕ, ◌*◌, ◌^◌, String, Bool, true, false, not, ◌&&◌, ◌||◌, Option, none, some, List, [], ◌∷◌, ◌++◌,
  ◌is◌, if◌then◌else◌, all, any, length, ltb, ◌==◌, map,
}
use code_maintainer.Base.Int.{ℤ, pos, ltb_ℤ, leb_ℤ}
use code_maintainer.Base.Text.{is_blank, is_empty, byte_len}
use code_maintainer.Base.Patterns.{safe_id}
use code_maintainer.Scheduler.Types.{
  Topology, ResourceProfile, QueueItem, SimulationRequest, Status, scheduled, other_status,
  Decision, one_of, mode_quality_latency, mode_throughput_batching,
}

pub data SchedulerError : Type 0 where
  bad_mode bad_status bad_topology bad_input bad_profile repeated_profile bad_item : SchedulerError
  unknown_profile repeated_job bad_selection bad_evidence bad_job_evidence bad_batch_group :
      SchedulerError

abbrev pub optional_id : String → Bool
optional_id s = if is_empty s then true else safe_id s

abbrev pub known_mode : String → Bool
known_mode m = one_of (mode_quality_latency ∷ mode_throughput_batching ∷ []) m

unfoldable pub topology_valid : Topology → Bool
topology_valid t =
    safe_id t.host_id
    && leb_ℤ (pos 1) t.physical_cores
    && leb_ℤ t.physical_cores (pos 1024)
    && leb_ℤ t.physical_cores t.logical_cores
    && leb_ℤ t.logical_cores (pos 2048)
    && leb_ℤ (pos (2 ^ 30)) t.total_memory_bytes
    && leb_ℤ t.total_memory_bytes (pos (16 * 2 ^ 40))
    && leb_ℤ (pos 0) t.reserved_memory_bytes
    && ltb_ℤ t.reserved_memory_bytes t.total_memory_bytes
    && one_of ("normal" ∷ "elevated" ∷ "high" ∷ []) t.io_pressure
    && one_of ("unknown" ∷ "normal" ∷ "hot" ∷ []) t.thermal_state

unfoldable pub profile_valid : ResourceProfile → Bool
profile_valid p =
    safe_id p.id
    && safe_id p.kind
    && leb_ℤ (pos 1) p.cpu_cores
    && leb_ℤ p.cpu_cores (pos 1024)
    && leb_ℤ (pos (2 ^ 20)) p.memory_bytes
    && leb_ℤ p.memory_bytes (pos (16 * 2 ^ 40))
    && optional_id p.model_id
    && optional_id p.runner_id
    && one_of ("none" ∷ "offline" ∷ "inference_only" ∷ "dependency_egress" ∷ []) p.network

unfoldable pub item_valid : QueueItem → Bool
item_valid i =
    safe_id i.job_id
    && safe_id i.project_id
    && not (is_blank i.state)
    && leb_ℤ (pos 0) i.priority
    && leb_ℤ i.priority (pos 1000)
    && safe_id i.profile_id
    && optional_id i.model_id
    && optional_id i.runner_id
    && not (ltb 4000 (byte_len i.reason))

-- The loop over the profiles, with the names seen so far.
unfoldable pub check_profiles : List String → List ResourceProfile → Option SchedulerError
check_profiles seen [] = none
check_profiles seen (p ∷ ps) =
    let rest = check_profiles (p.id ∷ seen) ps in
    if not (profile_valid p)
    then some bad_profile
    else if one_of seen p.id
    then some repeated_profile
    else rest

-- The loop over the active and then the queued items, with the jobs seen so far.
unfoldable pub check_items : List String → List String → List QueueItem → Option SchedulerError
check_items known seen [] = none
check_items known seen (i ∷ items) =
    let rest = check_items known (i.job_id ∷ seen) items in
    if not (item_valid i)
    then some bad_item
    else if not (one_of known i.profile_id)
    then some unknown_profile
    else if one_of seen i.job_id
    then some repeated_job
    else rest

abbrev pub or_else : Option SchedulerError → Option SchedulerError → Option SchedulerError
or_else none e = e
or_else (some e) _ = some e

abbrev pub profile_ids : List ResourceProfile → List String
profile_ids [] = []
profile_ids (p ∷ ps) = p.id ∷ profile_ids ps

abbrev pub default_mode : String → String
default_mode m = if is_empty m then mode_quality_latency else m

abbrev pub bad_sizes : SimulationRequest → Bool
bad_sizes r =
    length r.profiles == 0
    || ltb 64 (length r.profiles)
    || ltb 128 (length r.active)
    || ltb 256 (length r.queued)
    || ltb_ℤ r.fairness_window (pos 0)
    || ltb_ℤ (pos 1000) r.fairness_window

unfoldable pub validate_request : SimulationRequest → Option SchedulerError
validate_request r =
    if not (known_mode (default_mode r.mode))
    then some bad_mode
    else if not (topology_valid r.topology)
    then some bad_topology
    else if bad_sizes r
    then some bad_input
    else or_else (check_profiles [] r.profiles)
        (check_items (profile_ids r.profiles) [] (r.active ++ r.queued))

abbrev pub lacks_selection : Decision → Bool
lacks_selection d = elim d.status [
  | scheduled ↦
      not (
        safe_id d.selected_job_id && safe_id d.selected_project_id && safe_id d.selected_profile_id)
  | _ ↦ false
]

abbrev pub known_status : Status → Bool
known_status other_status = false
known_status _ = true

unfoldable pub validate_decision : Decision → Option SchedulerError
validate_decision d =
    if not (known_mode d.mode)
    then some bad_mode
    else if not (known_status d.status)
    then some bad_status
    else if lacks_selection d
    then some bad_selection
    else if is_blank d.reason
        || is_blank d.resource_summary
        || ltb 256 (length d.rejected_job_ids)
        || ltb 256 (length d.deferred_job_ids)
    then some bad_evidence
    else if not (all safe_id d.rejected_job_ids && all safe_id d.deferred_job_ids)
    then some bad_job_evidence
    else if not (optional_id d.model_batch_group)
    then some bad_batch_group
    else none
