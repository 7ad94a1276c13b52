-- ===== src/Store/Tx.antt =====
-- Transactions of internal/storage/sqlite. The database driver is not part of the repository: a
-- call of it may fail, and `Env.fault` says which calls do. A failed body is rolled back by the
-- deferred `tx.Rollback()`.
use Prim.Native.Nat.{ℕ}
use code_maintainer.Base.{
  String, ◌≡◌, Bool, true, false, Option, none, some, List, if◌then◌else◌, refl, Bool-cases, ◌⊎◌,
  inl, inr,
}
use code_maintainer.Base.Clock.{Time}
use code_maintainer.Scheduler.Types.{Decision}
use code_maintainer.Scheduler.Checks.{SchedulerError}
use code_maintainer.Projects.{Project, UpsertRequest}
use code_maintainer.Automation.{
  AutomationError, Schedule, ScheduleRun, SkillProposal, SkillEvent, ApprovalRequest, Notification,
  NotificationEvent,
}
use code_maintainer.Store.Rows.{
  Job, Transition, PhaseRecord, Reservation, AuditEvent, JobLease, Approval, Finding, FindingStatus,
  FindingRequest, FindingTransition, EgressManifest, ProviderProfile, AgentFinding,
  FindingObservation,
}
use code_maintainer.Jobs.State.{State}

-- The driver's calls that can fail, by what they do.
pub data Call : Type 0 where
  random begin commit read_job read_back insert_job update_job insert_transition : Call
  insert_audit insert_phase read_reservation insert_reservation snapshot : Call
  read_findings read_manifests insert_approval : Call
  read_finding update_finding insert_finding_transition insert_finding insert_observation : Call
  list_active list_candidates insert_decision write_lease read_lease : Call
  read_project write_project : Call
  read_schedule write_schedule insert_run : Call
  insert_proposal update_proposal insert_proposal_event read_proposal : Call
  insert_request read_notification update_notification insert_notification_event : Call

-- The sentinel errors of internal/storage/store.go, a failure of the driver, an error of the
-- scheduler that is passed on, and the sentinel errors of internal/automation.
pub data StoreError : Type 0 where
  not_found conflict invalid idempotency_key no_lease_available lease_lost : StoreError
  budget_exceeded : StoreError
  driver : Call → StoreError
  scheduler : SchedulerError → StoreError
  automation : AutomationError → StoreError

pub data Result {ℓ} (A : Type ℓ) : Type ℓ where
  ok : A → Result A
  err : StoreError → Result A

-- The tables that the modelled operations read and write. The logs are kept newest first.
pub record Db : Type 0 where
  pub jobs : List Job
  pub job_transitions : List Transition
  pub audit_events : List AuditEvent
  pub phase_records : List PhaseRecord
  pub reservations : List Reservation
  pub leases : List JobLease
  pub approvals : List Approval
  pub scheduler_decisions : List Decision
  pub qc_findings : List Finding
  pub finding_transitions : List FindingTransition
  pub finding_observations : List FindingObservation
  pub egress_manifests : List EgressManifest
  pub provider_profiles : List ProviderProfile
  pub projects : List Project
  pub schedules : List Schedule
  pub schedule_runs : List ScheduleRun
  pub skill_proposals : List SkillProposal
  pub skill_events : List SkillEvent
  pub automation_requests : List ApprovalRequest
  pub notifications : List Notification
  pub notification_events : List NotificationEvent

-- What one call of the store meets: the clock `s.now`, the identifiers that `NewID` draws for a
-- prefix, the driver calls that fail, and the functions of encoding/json and crypto/sha256.
pub record Env : Type 0 where
  pub now : Time
  pub new_id : String → String
  pub fault : Call → Bool
  pub json_valid : String → Bool
  -- The number of elements, where the text is a JSON array.
  pub json_array : String → Option ℕ
  pub sha256_hex : String → String
  -- The object that an approval and the state to resume are written as.
  pub approval_details : Approval → Option State → String
  pub finding_details : FindingStatus → FindingRequest → String
  -- The location of a reported finding, the finding, and the list of what a review reported.
  pub location_json : AgentFinding → String
  pub observation_json : AgentFinding → String
  pub observed_details : ℕ → List AgentFinding → String
  pub schedule_details : Schedule → String
  pub project_details : UpsertRequest → String

abbrev pub Tx : Type 0 → Type 0
Tx A = Db → Result (A × Db)

module _ {A : Type 0} where
  abbrev pub pure : A → Tx A
  pure a db = ok (a, db)

  abbrev pub fail : StoreError → Tx A
  fail e db = err e

infixl 5 ◌>>=◌ ◌>>◌
abbrev pub ◌>>=◌ : {A B : Type 0} → Tx A → (A → Tx B) → Tx B
◌>>=◌ m f db = elim (m db) [ ok r ↦ f r.0 r.1 | err e ↦ err e ]

abbrev pub ◌>>◌ : {B : Type 0} → Tx (Unit {0}) → Tx B → Tx B
m >> k = m >>= λ _. k

-- An early return with an error.
abbrev pub reject_if : Bool → StoreError → Tx (Unit {0})
reject_if true e db = err e
reject_if false e db = ok (tt, db)

-- A driver call that changes nothing that is modelled.
abbrev pub call : Env → Call → Tx (Unit {0})
call env c = reject_if (env.fault c) (driver c)

abbrev pub gets : {A : Type 0} → (Db → A) → Tx A
gets f db = ok (f db, db)

abbrev pub modify : (Db → Db) → Tx (Unit {0})
modify f db = ok (tt, f db)

abbrev pub or_fail : {A : Type 0} → Option A → StoreError → Tx A
or_fail none e = fail e
or_fail (some a) e = pure a

-- What a finished body leaves.
unfoldable pub settle : {A : Type 0} → Env → Db → Result (A × Db) → Result A × Db
settle env db (err e) = (err e, db)
settle env db (ok r) = if env.fault commit then (err (driver commit), db) else (ok r.0, r.1)

-- BeginTx, the body, Commit; every error return rolls back.
unfoldable pub in_tx : {A : Type 0} → Env → Tx A → Db → Result A × Db
unfolding settle
in_tx env body db = if env.fault begin then (err (driver begin), db) else settle env db (body db)

pub settle-cases :
    {A : Type 0} (env : Env) (db : Db) (r : Result (A × Db))
    → ((e : StoreError) × (settle env db r ≡ (err e, db)))
      ⊎ ((a : A) × (db' : Db) × (r ≡ ok (a, db')) × (settle env db r ≡ (ok a, db')))
unfolding settle
settle-cases env db (err e) = inl (e, refl)
settle-cases env db (ok (a, db')) = elim (Bool-cases (env.fault commit)) [
  | inl b ↦ inl (driver commit, rw b)
  | inr b ↦ inr (a, db', refl, rw b)
]

-- A transaction ends in an error and leaves the tables as they were, or its body succeeded and
-- what the body did is what stays.
pub in_tx-cases :
    {A : Type 0} (env : Env) (body : Tx A) (db : Db)
    → ((e : StoreError) × (in_tx env body db ≡ (err e, db)))
      ⊎ ((a : A) × (db' : Db) × (body db ≡ ok (a, db')) × (in_tx env body db ≡ (ok a, db')))
unfolding in_tx
in_tx-cases env body db = elim (Bool-cases (env.fault begin)) [
  | inl b ↦ inl (driver begin, rw b)
  | inr b ↦ rw b (settle-cases env db (body db))
]
