-- ===== src/Scheduler/Types.antt =====
-- internal/scheduler/types.go: the records, the host and the resource profiles of a default
-- installation, and the profile of each job state.
use code_maintainer.Base.{
  ℕ, ◌*◌, ◌^◌, String, Bool, true, false, Option, none, some, List, [], ◌∷◌, ◌is◌, if◌then◌else◌,
  find,
}
use code_maintainer.Base.Int.{ℤ, pos}
use code_maintainer.Base.Clock.{Time}

pub record Topology : Type 0 where
  pub host_id : String
  pub physical_cores : ℤ
  pub logical_cores : ℤ
  pub total_memory_bytes : ℤ
  pub reserved_memory_bytes : ℤ
  pub io_pressure : String
  pub thermal_state : String

pub record ResourceProfile : Type 0 where
  pub id : String
  pub kind : String
  pub cpu_cores : ℤ
  pub memory_bytes : ℤ
  pub model_id : String
  pub runner_id : String
  pub network : String

pub record QueueItem : Type 0 where
  pub job_id : String
  pub project_id : String
  pub state : String
  pub priority : ℤ
  pub profile_id : String
  pub created_at : Time
  pub deadline_at : Time
  pub model_id : String
  pub runner_id : String
  pub reason : String

pub record SimulationRequest : Type 0 where
  pub mode : String
  pub topology : Topology
  pub profiles : List ResourceProfile
  pub active : List QueueItem
  pub queued : List QueueItem
  pub maintenance_window : Bool
  pub fairness_window : ℤ

-- The constants, and any other text. DecisionRejected is a constant that nothing assigns.
pub data Status : Type 0 where
  scheduled deferred rejected other_status : Status

pub record Decision : Type 0 where
  pub id : String
  pub mode : String
  pub selected_job_id : String
  pub selected_project_id : String
  pub selected_profile_id : String
  pub status : Status
  pub reason : String
  pub rejected_job_ids : List String
  pub deferred_job_ids : List String
  pub co_residence_safe : Bool
  pub fairness_applied : Bool
  pub model_batch_group : String
  pub resource_summary : String
  pub created_at : Time

abbrev pub mode_quality_latency : String
mode_quality_latency = "quality_latency"

abbrev pub mode_throughput_batching : String
mode_throughput_batching = "throughput_batching"

abbrev pub gib : ℕ → ℤ
gib n = pos (n * 2 ^ 30)

unfoldable pub default_topology : Topology
default_topology = record {
  host_id = "local-dual-xeon-ci-profile";
  physical_cores = pos 44;
  logical_cores = pos 88;
  total_memory_bytes = gib 128;
  reserved_memory_bytes = gib 16;
  io_pressure = "normal";
  thermal_state = "unknown";
}

abbrev pub profile : String → String → ℕ → ℕ → String → String → String → ResourceProfile
profile id kind cpu memory model runner network = record {
  id = id;
  kind = kind;
  cpu_cores = pos cpu;
  memory_bytes = gib memory;
  model_id = model;
  runner_id = runner;
  network = network;
}

unfoldable pub default_profiles : List ResourceProfile
default_profiles =
    profile "controller_reserved" "controller" 2 4 "" "" "none"
    ∷ profile "controller_workflow" "controller" 2 2 "" "controller" "none"
    ∷ profile "dependency_preparation" "dependency_preparation" 4 8 "" "dependency_preparation"
        "dependency_egress"
    ∷ profile "verification_offline" "verification" 8 16 "" "verification" "offline"
    ∷ profile "implementation_inference" "implementation" 16 48 "implementation" "implementation"
        "inference_only"
    ∷ profile "qc_inference" "qc" 16 48 "qc" "qc" "inference_only"
    ∷ profile "documentation_inference" "documentation" 12 32 "documentation" "documentation"
        "inference_only"
    ∷ profile "test_designer_inference" "test_designer" 12 32 "test_designer" "test_designer"
        "inference_only"
    ∷ []

-- One of several texts.
abbrev pub one_of : List String → String → Bool
one_of [] s = false
one_of (t ∷ ts) s = if s is t then true else one_of ts s

unfoldable pub profile_id_for_state : String → String
profile_id_for_state s =
    if s is "preparing_dependencies"
    then "dependency_preparation"
    else if one_of
        ("reproducing" ∷ "verifying_targeted" ∷ "verifying_full" ∷ "final_verification"
          ∷ "golden_rehearsal_review" ∷ [])
        s
    then "verification_offline"
    else if one_of ("loading_implementation_model" ∷ "implementing" ∷ "repairing" ∷ []) s
    then "implementation_inference"
    else if one_of ("loading_test_designer_model" ∷ "test_design_review" ∷ []) s
    then "test_designer_inference"
    else if one_of ("loading_documentation_model" ∷ "documentation_review" ∷ []) s
    then "documentation_inference"
    else if one_of ("loading_qc_model" ∷ "qc_review" ∷ []) s
    then "qc_inference"
    else "controller_workflow"

-- The first profile with the name.
abbrev pub first_profile : String → List ResourceProfile → Option ResourceProfile
first_profile k ps = find (λ (p : ResourceProfile). p.id is k) ps

abbrev pub field_or_empty : (ResourceProfile → String) → Option ResourceProfile → String
field_or_empty f none = ""
field_or_empty f (some p) = f p

unfoldable pub model_id_for_profile : String → String
unfolding default_profiles
model_id_for_profile k =
    field_or_empty (λ (p : ResourceProfile). p.model_id) (first_profile k default_profiles)

unfoldable pub runner_id_for_profile : String → String
unfolding default_profiles
runner_id_for_profile k =
    field_or_empty (λ (p : ResourceProfile). p.runner_id) (first_profile k default_profiles)
