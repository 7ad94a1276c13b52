-- ===== src/Store/Approvals.antt =====
-- internal/storage/sqlite/approvals.go: a reviewer releases a result for publication, or lets a job
-- send a manifest to a remote provider. A value that is returned beside an error is not kept.
pub mod Laws
pub mod Egress
use code_maintainer.Base.{
  ℕ, suc, ◌+◌, String, Bool, true, false, not, ◌&&◌, ◌||◌, Option, none, some, List, [], ◌∷◌, any,
  keep, length, ltb, ◌==◌, ◌is◌, if◌then◌else◌,
}
use code_maintainer.Base.Int.{ℤ, pos, ltb_ℤ, eqb_ℤ}
use code_maintainer.Base.Text.{is_blank, is_empty, byte_len, trim_space}
use code_maintainer.Base.Patterns.{is_sha256}
use code_maintainer.Jobs.State.{
  State, same, can_transition, awaiting_operator, publishing_branch,
  awaiting_remote_egress_approval,
}
use code_maintainer.Scheduler.Types.{one_of}
use code_maintainer.Store.Rows.{
  Job, Transition, AppendRequest, Approval, PublicationApprovalRequest, RemoteEgressApprovalRequest,
  FindingStatus, accepted, human_waived, closed, Finding, EgressManifest, ProviderProfile,
}
use code_maintainer.Store.Tx.{
  Env, Db, Call, StoreError, Result, ok, err, Tx, ◌>>=◌, ◌>>◌, pure, fail, reject_if, call, gets,
  modify, or_fail, in_tx,
}
use code_maintainer.Store.Tables.{read_job, append_audit, insert_transition}
use code_maintainer.Store.JobOps.{get_job, update_checked, move_to, audit_of}

abbrev pub approval_kind_draft_publication : String
approval_kind_draft_publication = "draft_publication"

abbrev pub approval_kind_remote_egress : String
approval_kind_remote_egress = "remote_egress"

-- The guard that both approvals share.
abbrev pub bad_approver : String → String → String → String → Bool → ℤ → Bool
bad_approver k actor role rationale reauthenticated version =
    is_empty k
    || is_blank actor
    || not (one_of ("reviewer" ∷ "administrator" ∷ []) role)
    || is_blank rationale
    || ltb 4000 (byte_len rationale)
    || not reauthenticated
    || ltb_ℤ version (pos 1)

abbrev pub settled : FindingStatus → Bool
settled closed = true
settled human_waived = true
settled accepted = true
settled _ = false

-- A finding of the job that stops a publication.
abbrev pub blocks : String → Finding → Bool
blocks k f =
    f.job_id is k && one_of ("blocker" ∷ "must_fix" ∷ []) f.severity && not (settled f.status)

-- A manifest of the job, allowed by the policy, of a provider that is remote.
abbrev pub allowed_manifest : String → String → List ProviderProfile → EgressManifest → Bool
allowed_manifest k sha profiles m =
    m.job_id is k
    && m.manifest_sha256 is sha
    && m.policy_decision is "allowed"
    && any (λ (p : ProviderProfile). p.id is m.provider_id && p.remote) profiles

-- UNIQUE(job_id, kind, subject_sha), and the primary key.
abbrev pub approval_taken : Approval → Approval → Bool
approval_taken a b =
    b.id is a.id || (b.job_id is a.job_id && b.kind is a.kind && b.subject_sha is a.subject_sha)

abbrev pub approval_of : Env → String → String → String → String → String → String → Approval
approval_of env k kind subject actor role rationale = record {
  id = env.new_id "approval";
  job_id = k;
  kind = kind;
  subject_sha = subject;
  actor_id = actor;
  actor_role = role;
  rationale = trim_space rationale;
  reauthenticated = true;
  created_at = env.now;
}

abbrev pub approval_entry : Env → Job → Approval → State → String → String → Transition
approval_entry env job a to reason details = record {
  job_id = a.job_id;
  from = some job.state;
  to = to;
  actor_id = a.actor_id;
  reason = reason;
  details = details;
  created_at = env.now;
}

-- What both approvals do with the job and the approval: the row, the move, the log and the audit.
unfoldable pub record_approval :
    Env → Job → Approval → State → String → String → String → Tx Approval
record_approval env job a to reason action details = do
  call env Call.insert_approval
  taken ← gets (λ db. any (approval_taken a) db.approvals)
  reject_if taken StoreError.conflict
  modify λ db. record db { approvals = a ∷ db.approvals }
  update_checked env a.job_id job.version (move_to env to)
  insert_transition env (approval_entry env job a to reason details)
  append_audit env (audit_of a.actor_id a.actor_role action "job" a.job_id details)
  pure a

unfoldable pub publication_body : Env → String → PublicationApprovalRequest → Tx Approval
publication_body env k request = do
  job ← read_job env Call.read_job k
  reject_if
      (not (same job.state awaiting_operator)
        || not (eqb_ℤ (pos job.version) request.expected_version)
        || is_empty job.result_sha)
      StoreError.conflict
  call env Call.read_findings
  unresolved ← gets (λ db. length (keep (blocks k) db.qc_findings))
  reject_if (not (unresolved == 0)) StoreError.invalid
  call env Call.random
  let a =
        approval_of env k approval_kind_draft_publication job.result_sha request.actor_id
          request.actor_role request.rationale in
      record_approval env job a publishing_branch "draft publication approved" "publication.approve"
        (env.approval_details a none)

-- `updated, err := s.GetJob(ctx, jobID); return updated, approval, err`
unfoldable pub with_job : Env → String → Result Approval × Db → Result (Job × Approval) × Db
with_job env k (err e, db) = (err e, db)
with_job env k (ok a, db) = elim (get_job env k db) [ ok j ↦ (ok (j, a), db) | err e ↦ (err e, db) ]

unfoldable pub approve_publication :
    Env → String → PublicationApprovalRequest → Db → Result (Job × Approval) × Db
approve_publication env k request db =
    if bad_approver k request.actor_id request.actor_role request.rationale request.reauthenticated
      request.expected_version
    then (err StoreError.invalid, db)
    else with_job env k (in_tx env (publication_body env k request) db)

unfoldable pub egress_body : Env → String → RemoteEgressApprovalRequest → Tx Approval
egress_body env k request = do
  job ← read_job env Call.read_job k
  reject_if
      (not (same job.state awaiting_remote_egress_approval)
        || not (eqb_ℤ (pos job.version) request.expected_version))
      StoreError.conflict
  call env Call.read_manifests
  manifests ← gets (λ db.
      length
        (keep (allowed_manifest k request.subject_sha db.provider_profiles) db.egress_manifests))
  reject_if (manifests == 0) StoreError.invalid
  call env Call.random
  let a =
        approval_of env k approval_kind_remote_egress request.subject_sha request.actor_id
          request.actor_role request.rationale in
      record_approval env job a request.resume_state "remote egress manifest approved"
        "remote_egress.approve" (env.approval_details a (some request.resume_state))

unfoldable pub approve_remote_egress :
    Env → String → RemoteEgressApprovalRequest → Db → Result (Job × Approval) × Db
approve_remote_egress env k request db =
    if bad_approver k request.actor_id request.actor_role request.rationale request.reauthenticated
        request.expected_version
      || not (is_sha256 request.subject_sha)
      || not (can_transition awaiting_remote_egress_approval request.resume_state)
    then (err StoreError.invalid, db)
    else with_job env k (in_tx env (egress_body env k request) db)
