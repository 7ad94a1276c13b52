-- ===== src/Automation.antt =====
-- internal/automation/types.go: schedules, proposals of skills, requests and notices.
use code_maintainer.Base.{ℕ, ◌*◌, String, Bool, not, ◌&&◌, ◌||◌, [], ◌∷◌, ltb, Option}
use code_maintainer.Base.Int.{ℤ, pos, ltb_ℤ}
use code_maintainer.Base.Clock.{Time}
use code_maintainer.Base.Text.{is_blank, is_empty, byte_len}
use code_maintainer.Base.Patterns.{safe_id}
use code_maintainer.Scheduler.Types.{one_of}

-- ErrInvalid, ErrNotFound, ErrConflict, ErrNoDueSchedule
pub data AutomationError : Type 0 where
  invalid not_found conflict no_due_schedule : AutomationError

pub record Schedule : Type 0 where
  pub id : String
  pub project_id : String
  pub name : String
  pub task_type : String
  pub task : String
  pub interval_seconds : ℕ
  pub window_start_minute : ℕ
  pub window_end_minute : ℕ
  pub max_wall_seconds : ℕ
  pub max_tokens : ℕ
  pub enabled : Bool
  pub next_run_at : Time
  pub version : ℕ
  pub created_at : Time
  pub updated_at : Time

pub record ScheduleRequest : Type 0 where
  pub id : String
  pub project_id : String
  pub name : String
  pub task_type : String
  pub task : String
  pub interval_seconds : ℤ
  pub window_start_minute : ℤ
  pub window_end_minute : ℤ
  pub max_wall_seconds : ℤ
  pub max_tokens : ℤ
  pub enabled : Bool
  pub next_run_at : Time
  pub expected_version : ℤ

-- `low <= v && v <= high`
abbrev within : ℕ → ℤ → ℕ → Bool
within low v high = not (ltb_ℤ v (pos low)) && not (ltb_ℤ (pos high) v)

-- Whether Validate of a schedule request passes.
unfoldable pub schedule_valid : ScheduleRequest → Bool
schedule_valid r =
    (is_empty r.id || safe_id r.id)
    && safe_id r.project_id
    && not (is_blank r.name)
    && not (ltb 128 (byte_len r.name))
    && not (is_blank r.task)
    && not (ltb (64 * 1024) (byte_len r.task))
    && one_of ("maintenance" ∷ "sync" ∷ "audit" ∷ []) r.task_type
    && within 60 r.interval_seconds 2_678_400
    && within 0 r.window_start_minute 1439
    && within 0 r.window_end_minute 1439
    && within 60 r.max_wall_seconds 604_800
    && within 1 r.max_tokens 10_000_000

pub record ScheduleRun : Type 0 where
  pub id : String
  pub schedule_id : String
  pub job_id : String
  pub status : String
  pub reason : String
  pub due_at : Time
  pub created_at : Time

pub record SkillProposal : Type 0 where
  pub id : String
  pub name : String
  pub description : String
  pub content : String
  pub content_hash : String
  pub status : String
  pub version : ℕ
  pub proposed_by : String
  pub reviewed_by : String
  pub review_reason : String
  pub activated : Bool
  pub created_at : Time
  pub updated_at : Time

pub record SkillProposalRequest : Type 0 where
  pub name : String
  pub description : String
  pub content : String
  pub proposed_by : String

-- Whether Validate of a proposal passes.
unfoldable pub proposal_valid : SkillProposalRequest → Bool
proposal_valid r =
    safe_id r.name
    && not (is_blank r.description)
    && not (ltb 4096 (byte_len r.description))
    && not (is_blank r.content)
    && not (ltb (64 * 1024) (byte_len r.content))
    && not (is_blank r.proposed_by)

pub record SkillReviewRequest : Type 0 where
  pub decision : String
  pub rationale : String
  pub actor_id : String
  pub expected_version : ℤ

-- A row of the events of proposals.
pub record SkillEvent : Type 0 where
  pub proposal_id : String
  pub action : String
  pub actor_id : String
  pub rationale : String
  pub created_at : Time

pub record ApprovalRequest : Type 0 where
  pub id : String
  pub job_id : String
  pub kind : String
  pub requested_by : String
  pub rationale : String
  pub created_at : Time

pub record Notification : Type 0 where
  pub sequence : ℕ
  pub id : String
  pub kind : String
  pub project_id : String
  pub job_id : String
  pub schedule_id : String
  pub title : String
  pub message : String
  pub delivery : String
  pub state : String
  pub created_at : Time
  pub read_at : Option Time

-- A row of the events of notices.
pub record NotificationEvent : Type 0 where
  pub notification_id : String
  pub action : String
  pub actor_id : String
  pub created_at : Time
