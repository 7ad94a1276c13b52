-- ===== src/Store/History.antt =====
-- internal/storage/sqlite: any sequence of calls that create, move, charge, complete, approve, lease
-- and schedule jobs, each in surroundings of its own, keeps the tables of jobs consistent.
use code_maintainer.Base.{refl, String, List, [], ◌∷◌}
use code_maintainer.Base.Int.{pos_part, ℤ}
use code_maintainer.Jobs.State.{publishing_branch, State}
use code_maintainer.Store.Rows.{
  TransitionRequest, CreateJobParams, PhaseCompletion, PublicationApprovalRequest,
  RemoteEgressApprovalRequest, FindingRequest, AgentFinding,
}
use code_maintainer.Store.Tx.{Env, Db}
use code_maintainer.Store.JobOps.{create_job, transition_job}
use code_maintainer.Store.Budgets.{reserve_job_tokens}
use code_maintainer.Store.Completion.{complete_phase}
use code_maintainer.Store.JobOps.Changes.{
  created_id, create_job-Change, transition_job-Change, reserve_job_tokens-Change,
  complete_phase-Change,
}
use code_maintainer.Store.Approvals.{approve_publication, approve_remote_egress}
use code_maintainer.Store.Approvals.Laws.{approve_publication-Change}
use code_maintainer.Store.Approvals.Egress.{approve_remote_egress-Change}
use code_maintainer.Store.Leases.{acquire_job_lease, renew_job_lease, release_job_lease}
use code_maintainer.Store.Leases.Keeps.{
  acquire_job_lease-Change, renew_job_lease-Change, release_job_lease-Change,
}
use code_maintainer.Store.Findings.{transition_finding}
use code_maintainer.Store.Findings.Observe.{observe_findings}
use code_maintainer.Store.Findings.Observe.Each.{observe_findings-Quiet}
use code_maintainer.Store.Findings.Laws.{transition_finding-Change}
use code_maintainer.Automation.{ScheduleRequest, SkillProposalRequest, SkillReviewRequest}
use code_maintainer.Projects.{UpsertRequest}
use code_maintainer.Store.Projects.{upsert_project, disable_project}
use code_maintainer.Store.Projects.Laws.{upsert_project-Quiet, disable_project-Quiet}
use code_maintainer.Store.Schedules.{save_schedule}
use code_maintainer.Store.Dispatch.{dispatch_due_schedule}
use code_maintainer.Store.Schedules.Save.{save_schedule-Quiet}
use code_maintainer.Store.Dispatch.Laws.{dispatch_due_schedule-Change}
use code_maintainer.Store.Proposals.{create_skill_proposal, review_skill_proposal}
use code_maintainer.Store.Proposals.Laws.{create_skill_proposal-Quiet, review_skill_proposal-Quiet}
use code_maintainer.Store.Notices.{create_approval_request, acknowledge_notification}
use code_maintainer.Store.Notices.Laws.{
  create_approval_request-Quiet, acknowledge_notification-Quiet,
}
use code_maintainer.Store.Ledger.Quiet.{Quiet-Change}
use code_maintainer.Store.Ledger.{Deed, still, submits, moves, pays, Consistent, Change}
use code_maintainer.Store.Ledger.Steps.{Change-Consistent}

pub data Op : Type 0 where
  create : CreateJobParams → Op
  transition : String → TransitionRequest → Op
  reserve : String → ℤ → State → ℤ → Op
  complete : PhaseCompletion → Op
  publish : String → PublicationApprovalRequest → Op
  egress : String → RemoteEgressApprovalRequest → Op
  acquire : String → ℤ → Op
  renew : String → String → ℤ → Op
  release : String → String → Op
  finding : String → String → FindingRequest → Op
  observe : String → ℤ → List AgentFinding → Op
  project : UpsertRequest → String → Op
  disable : String → String → Op
  schedule : ScheduleRequest → String → Op
  dispatch : String → Op
  propose : SkillProposalRequest → Op
  review : String → SkillReviewRequest → Op
  request : String → String → String → String → Op
  acknowledge : String → String → Op

unfoldable pub perform : Env → Op → Db → Db
perform env (Op.create p) db = (create_job env p db).1
perform env (Op.transition k r) db = (transition_job env k r db).1
perform env (Op.reserve k v s n) db = (reserve_job_tokens env k v s n db).1
perform env (Op.complete r) db = (complete_phase env r db).1
perform env (Op.publish k r) db = (approve_publication env k r db).1
perform env (Op.egress k r) db = (approve_remote_egress env k r db).1
perform env (Op.acquire owner ttl) db = (acquire_job_lease env owner ttl db).1
perform env (Op.renew k owner ttl) db = (renew_job_lease env k owner ttl db).1
perform env (Op.release k owner) db = (release_job_lease env k owner db).1
perform env (Op.finding k f r) db = (transition_finding env k f r db).1
perform env (Op.observe k cycle vs) db = (observe_findings env k cycle vs db).1
perform env (Op.project r actor) db = (upsert_project env r actor db).1
perform env (Op.disable k actor) db = (disable_project env k actor db).1
perform env (Op.schedule r actor) db = (save_schedule env r actor db).1
perform env (Op.dispatch actor) db = (dispatch_due_schedule env actor db).1
perform env (Op.propose r) db = (create_skill_proposal env r db).1
perform env (Op.review k r) db = (review_skill_proposal env k r db).1
perform env (Op.request k kind by why) db = (create_approval_request env k kind by why db).1
perform env (Op.acknowledge k actor) db = (acknowledge_notification env k actor db).1

unfoldable pub perform_all : List (Env × Op) → Db → Db
unfolding perform
perform_all [] db = db
perform_all ((env, op) ∷ ops) db = perform_all ops (perform env op db)

-- The tables of a new database.
abbrev pub empty : Db
empty = record {
  jobs = [];
  job_transitions = [];
  audit_events = [];
  phase_records = [];
  reservations = [];
  leases = [];
  approvals = [];
  scheduler_decisions = [];
  qc_findings = [];
  finding_transitions = [];
  finding_observations = [];
  egress_manifests = [];
  provider_profiles = [];
  projects = [];
  schedules = [];
  schedule_runs = [];
  skill_proposals = [];
  skill_events = [];
  automation_requests = [];
  notifications = [];
  notification_events = [];
}

-- What a call may do to the tables of jobs.
unfoldable pub deed_of : Env → Op → Deed
deed_of env (Op.create p) = submits (created_id env p)
deed_of env (Op.transition k r) = moves k r.to
deed_of env (Op.reserve k v s n) = pays k (pos_part n)
deed_of env (Op.complete r) = moves r.job_id r.to
deed_of env (Op.publish k r) = moves k publishing_branch
deed_of env (Op.egress k r) = moves k r.resume_state
deed_of env (Op.dispatch actor) = submits (env.new_id "job")
deed_of env _ = still

pub perform-Change :
    (env : Env) (op : Op) (db : Db) → Change (deed_of env op) db (perform env op db)
unfolding perform deed_of
perform-Change env (Op.create p) db = create_job-Change env p db
perform-Change env (Op.transition k r) db = transition_job-Change env k r db
perform-Change env (Op.reserve k v s n) db = reserve_job_tokens-Change env k v s n db
perform-Change env (Op.complete r) db = complete_phase-Change env r db
perform-Change env (Op.publish k r) db = approve_publication-Change env k r db
perform-Change env (Op.egress k r) db = approve_remote_egress-Change env k r db
perform-Change env (Op.acquire owner ttl) db = acquire_job_lease-Change env owner ttl db
perform-Change env (Op.renew k owner ttl) db = renew_job_lease-Change env k owner ttl db
perform-Change env (Op.release k owner) db = release_job_lease-Change env k owner db
perform-Change env (Op.finding k f r) db = transition_finding-Change env k f r db
perform-Change env (Op.observe k cycle vs) db =
    Quiet-Change db _ (observe_findings-Quiet env k cycle vs db)
perform-Change env (Op.project r actor) db = Quiet-Change db _ (upsert_project-Quiet env r actor db)
perform-Change env (Op.disable k actor) db =
    Quiet-Change db _ (disable_project-Quiet env k actor db)
perform-Change env (Op.schedule r actor) db = Quiet-Change db _ (save_schedule-Quiet env r actor db)
perform-Change env (Op.dispatch actor) db = dispatch_due_schedule-Change env actor db
perform-Change env (Op.propose r) db = Quiet-Change db _ (create_skill_proposal-Quiet env r db)
perform-Change env (Op.review k r) db = Quiet-Change db _ (review_skill_proposal-Quiet env k r db)
perform-Change env (Op.request k kind by why) db =
    Quiet-Change db _ (create_approval_request-Quiet env k kind by why db)
perform-Change env (Op.acknowledge k actor) db =
    Quiet-Change db _ (acknowledge_notification-Quiet env k actor db)

pub perform-Consistent :
    (env : Env) (op : Op) (db : Db) → Consistent db → Consistent (perform env op db)
perform-Consistent env op db c =
    Change-Consistent db (perform env op db) c (perform-Change env op db)

perform_all-Consistent_from :
    (ops : List (Env × Op)) (db : Db) → Consistent db → Consistent (perform_all ops db)
unfolding perform_all
perform_all-Consistent_from [] db c = c
perform_all-Consistent_from ((env, op) ∷ ops) db c =
    perform_all-Consistent_from ops (perform env op db) (perform-Consistent env op db c)

-- After any sequence of calls on a new database, whatever their arguments, clocks, identifiers
-- and failing driver calls: each job is in the state that its last log entry names, its version
-- is the number of its log entries, every entry follows the one before by an allowed transition,
-- its reserved tokens are the sum of its reservations, and they stay within its budget; and no key
-- has two rows.
pub perform_all-Consistent : (ops : List (Env × Op)) → Consistent (perform_all ops empty)
perform_all-Consistent ops = perform_all-Consistent_from ops empty (record {
  states = λ k. refl;
  versions = λ k. refl;
  charges = λ k. refl;
  budget = λ k. Prim.Native.Nat.zero-le;
  lawful = tt;
  single = λ k. Prim.Native.Nat.zero-le;
})
