-- ===== src/Store/Rows.antt =====
-- The rows of the store's tables: internal/jobs/types.go, internal/audit/types.go and the types of
-- internal/storage/store.go. JSON columns are kept as their text, time stamps as instants.
use code_maintainer.Base.{ℕ, String, Bool, Option}
use code_maintainer.Base.Clock.{Time}
use code_maintainer.Base.Int.{ℤ}
use code_maintainer.Jobs.State.{State}

pub record Job : Type 0 where
  pub id : String
  pub project_id : String
  pub repository : String
  pub task : String
  pub issue_number : Option ℤ
  pub state : State
  pub base_sha : String
  pub result_sha : String
  pub acceptance_criteria : String
  pub acceptance_criteria_hash : String
  pub review_cycle : ℕ
  pub max_wall_seconds : ℕ
  pub deadline_at : Time
  pub max_tokens : ℕ
  pub reserved_tokens : ℕ
  pub version : ℕ
  pub created_at : Time
  pub updated_at : Time

-- A row of job_transitions; the sequence number is the row's place in the table.
pub record Transition : Type 0 where
  pub job_id : String
  pub from : Option State
  pub to : State
  pub actor_id : String
  pub reason : String
  pub details : String
  pub created_at : Time

pub record TransitionRequest : Type 0 where
  pub to : State
  pub actor_id : String
  pub reason : String
  pub expected_version : ℤ
  pub details : String

pub record CreateJobParams : Type 0 where
  pub id : String
  pub project_id : String
  pub repository : String
  pub task : String
  pub issue_number : Option ℤ
  pub actor_id : String
  pub details : String
  pub max_wall_seconds : ℤ
  pub max_tokens : ℤ

-- A nil pointer is `none`.
pub record JobMetadataPatch : Type 0 where
  pub base_sha : Option String
  pub result_sha : Option String
  pub acceptance_criteria : Option String
  pub acceptance_criteria_hash : Option String
  pub review_cycle : Option ℤ

-- An empty `PhaseState` is `none`.
pub record PhaseCompletion : Type 0 where
  pub job_id : String
  pub phase_state : Option State
  pub expected_version : ℤ
  pub to : State
  pub actor_id : String
  pub reason : String
  pub details : String
  pub outcome : String
  pub metadata : JobMetadataPatch

pub record PhaseRecord : Type 0 where
  pub job_id : String
  pub phase_state : State
  pub phase_version : ℕ
  pub outcome : String
  pub created_at : Time

-- A row of job_token_reservations.
pub record Reservation : Type 0 where
  pub job_id : String
  pub phase_version : ℕ
  pub phase_state : State
  pub reserved_tokens : ℕ
  pub created_at : Time

pub record AuditEvent : Type 0 where
  pub id : String
  pub actor_id : String
  pub actor_role : String
  pub action : String
  pub target_type : String
  pub target_id : String
  pub correlation_id : String
  pub remote_address : String
  pub details : String
  pub created_at : Time

pub record AppendRequest : Type 0 where
  pub actor_id : String
  pub actor_role : String
  pub action : String
  pub target_type : String
  pub target_id : String
  pub correlation_id : String
  pub remote_address : String
  pub details : String

pub record JobLease : Type 0 where
  pub job_id : String
  pub owner_id : String
  pub acquired_at : Time
  pub heartbeat_at : Time
  pub expires_at : Time

pub record Approval : Type 0 where
  pub id : String
  pub job_id : String
  pub kind : String
  pub subject_sha : String
  pub actor_id : String
  pub actor_role : String
  pub rationale : String
  pub reauthenticated : Bool
  pub created_at : Time

pub record PublicationApprovalRequest : Type 0 where
  pub actor_id : String
  pub actor_role : String
  pub rationale : String
  pub reauthenticated : Bool
  pub expected_version : ℤ

pub record RemoteEgressApprovalRequest : Type 0 where
  pub actor_id : String
  pub actor_role : String
  pub rationale : String
  pub reauthenticated : Bool
  pub expected_version : ℤ
  pub subject_sha : String
  pub resume_state : State

-- The statuses of internal/findings/types.go, and any other text.
pub data FindingStatus : Type 0 where
  open_finding fixed verified disputed accepted rejected human_waived closed : FindingStatus
  other_finding : String → FindingStatus

-- A row of qc_findings.
pub record Finding : Type 0 where
  pub job_id : String
  pub id : String
  pub severity : String
  pub category : String
  pub claim : String
  pub location : String
  pub required_resolution : String
  pub verification_method : String
  pub status : FindingStatus
  pub first_seen_cycle : ℕ
  pub last_seen_cycle : ℕ
  pub version : ℕ
  pub created_at : Time
  pub updated_at : Time

-- The columns of provider_egress_manifests and provider_profiles that an approval reads.
pub record EgressManifest : Type 0 where
  pub job_id : String
  pub provider_id : String
  pub manifest_sha256 : String
  pub policy_decision : String

pub record ProviderProfile : Type 0 where
  pub id : String
  pub remote : Bool

-- TransitionRequest of internal/findings/types.go.
pub record FindingRequest : Type 0 where
  pub to : FindingStatus
  pub actor_id : String
  pub actor_role : String
  pub rationale : String
  pub reauthenticated : Bool
  pub expected_version : ℤ

-- A row of qc_finding_transitions.
pub record FindingTransition : Type 0 where
  pub job_id : String
  pub finding_id : String
  pub from_status : FindingStatus
  pub to_status : FindingStatus
  pub actor_id : String
  pub actor_role : String
  pub rationale : String
  pub reauthenticated : Bool
  pub created_at : Time

-- Finding of internal/agents/contracts.go, as a review reports it.
pub record AgentFinding : Type 0 where
  pub id : String
  pub severity : String
  pub category : String
  pub claim : String
  pub path : String
  pub line : ℤ
  pub evidence : String
  pub required_resolution : String
  pub verification_method : String

-- A row of qc_finding_observations.
pub record FindingObservation : Type 0 where
  pub job_id : String
  pub finding_id : String
  pub review_cycle : ℕ
  pub report : String
  pub created_at : Time
