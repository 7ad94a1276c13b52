-- ===== src/Store/Approvals/Egress.antt =====
-- internal/storage/sqlite/approvals.go: what a remote egress approval requires and leaves.
use code_maintainer.Base.{
  ◌≡◌, ◌≢◌, refl, ap, ◌∙◌, String, Bool, true, false, not, ◌||◌, arith, some, any, keep, length,
  Bool-cases, Option-cases, inl, inr,
}
use code_maintainer.Base.Int.{pos, eqb_ℤ}
use code_maintainer.Base.Patterns.{is_sha256}
use code_maintainer.Jobs.State.{can_transition, awaiting_remote_egress_approval}
use code_maintainer.Jobs.Table.{same→≡}
use code_maintainer.Store.Rows.{Job, Approval, RemoteEgressApprovalRequest}
use code_maintainer.Store.Tx.{Env, Db, Result, ok, in_tx, in_tx-cases}
use code_maintainer.Store.Tables.{find_job, read_job}
use code_maintainer.Store.Approvals.Laws.{
  approved_db, record_approval-ran, approved-Moved, with_job-db, with_job-ok,
}
use code_maintainer.Store.Ledger.{moves, Change}
use code_maintainer.Store.Approvals.{
  bad_approver, allowed_manifest, approval_taken, approval_of, record_approval, with_job,
  egress_body, approve_remote_egress, approval_kind_remote_egress,
}

egress_body-ran :
    (env : Env) (k : String) (r : RemoteEgressApprovalRequest) (db : Db) (a : Approval) (db' : Db)
    → egress_body env k r db ≡ ok (a, db')
    → (j : Job) × (find_job k db.jobs ≡ some j)
      × (j.state ≡ awaiting_remote_egress_approval)
      × (eqb_ℤ (pos j.version) r.expected_version ≡ true)
      × (length (keep (allowed_manifest k r.subject_sha db.provider_profiles) db.egress_manifests)
          ≢ 0)
      × (any (approval_taken a) db.approvals ≡ false)
      × (a
          ≡ approval_of env k approval_kind_remote_egress r.subject_sha r.actor_id r.actor_role
              r.rationale)
      × (db'
          ≡ approved_db env j a r.resume_state "remote egress manifest approved"
              "remote_egress.approve"
              (env.approval_details a (some r.resume_state))
              db)
unfolding egress_body read_job
egress_body-ran env k r db a db' h = elim (Option-cases (find_job k db.jobs)) [
  | inl missing ↦ absurd (ground arith)
  | inr (j, found) ↦
      let b =
        approval_of env k approval_kind_remote_egress r.subject_sha r.actor_id r.actor_role
          r.rationale in
      let ran : record_approval env j b r.resume_state "remote egress manifest approved"
            "remote_egress.approve" (env.approval_details b (some r.resume_state)) db
          ≡ ok (a, db') =
        ground arith in
      let (same_a, fresh, after) =
        record_approval-ran env j b r.resume_state "remote egress manifest approved"
          "remote_egress.approve" (env.approval_details b (some r.resume_state)) db a db' ran in
      (
        j,
        found,
        same→≡ j.state awaiting_remote_egress_approval (ground arith),
        ground arith,
        ground arith,
        rw same_a fresh,
        same_a,
        rw same_a after,
      )
]

-- The guard of the approval.
abbrev pub bad_egress : String → RemoteEgressApprovalRequest → Bool
bad_egress k r =
    bad_approver k r.actor_id r.actor_role r.rationale r.reauthenticated r.expected_version
    || not (is_sha256 r.subject_sha)
    || not (can_transition awaiting_remote_egress_approval r.resume_state)

-- What an approved egress has found and written.
pub record Released (env : Env) (k : String) (r : RemoteEgressApprovalRequest) (db : Db) (j' : Job)
    (a : Approval) (db' : Db) : Type 0 where
  pub guard : bad_egress k r ≡ false
  pub job : Job
  pub found : find_job k db.jobs ≡ some job
  pub waited : job.state ≡ awaiting_remote_egress_approval
  pub version : eqb_ℤ (pos job.version) r.expected_version ≡ true
  pub manifest :
      length (keep (allowed_manifest k r.subject_sha db.provider_profiles) db.egress_manifests) ≢ 0
  pub once : any (approval_taken a) db.approvals ≡ false
  pub approval :
      a
      ≡ approval_of env k approval_kind_remote_egress r.subject_sha r.actor_id r.actor_role
          r.rationale
  pub after :
      db'
      ≡ approved_db env job a r.resume_state "remote egress manifest approved"
          "remote_egress.approve"
          (env.approval_details a (some r.resume_state))
          db
  pub stored : find_job k db'.jobs ≡ some j'

-- A remote egress that is approved was asked for by a reviewer or administrator who has
-- authenticated again, for a job that waited for it under the expected version; the policy allowed
-- a manifest of that job with the named digest to a remote provider, the digest had no such
-- approval, the table allows the state to resume, and the job is stored and logged there.
pub approve_remote_egress_ok :
    (env : Env) (k : String) (r : RemoteEgressApprovalRequest) (db : Db) (j : Job) (a : Approval)
    → (approve_remote_egress env k r db).0 ≡ ok (j, a)
    → Released env k r db j a (approve_remote_egress env k r db).1
unfolding approve_remote_egress
approve_remote_egress_ok env k r db j a h = elim (Bool-cases (bad_egress k r)) [
  | inl bad ↦ absurd (cc (rw bad at h))
  | inr good ↦ rw good (committed good (rw good at h))
]
  where
    committed :
        bad_egress k r ≡ false
        → (with_job env k (in_tx env (egress_body env k r) db)).0 ≡ ok (j, a)
        → Released env k r db j a (with_job env k (in_tx env (egress_body env k r) db)).1
    committed good g = elim (in_tx-cases env (egress_body env k r) db) [
      | inl (e, stays) ↦ absurd (cc (rw stays at (with_job-ok env k _ j a g).0))
      | inr (b, db', ran, stays) ↦
          let (res, stored) = with_job-ok env k (in_tx env (egress_body env k r) db) j a g in
          let one : b ≡ a = ground arith in
          let (i, found, waited, version, manifest, once, approval, after) =
            egress_body-ran env k r db a db' (rw one at ran) in
          let left : (with_job env k (in_tx env (egress_body env k r) db)).1 ≡ db' =
            with_job-db env k (in_tx env (egress_body env k r) db)
            ∙ ap (λ (x : Result Approval × Db). x.1) stays in
          rw left (record {
            guard = good;
            job = i;
            found = found;
            waited = waited;
            version = version;
            manifest = manifest;
            once = once;
            approval = approval;
            after = after;
            stored = rw stays at stored;
          })
    ]

pub approve_remote_egress-Change :
    (env : Env) (k : String) (r : RemoteEgressApprovalRequest) (db : Db)
    → Change (moves k r.resume_state) db (approve_remote_egress env k r db).1
unfolding approve_remote_egress
approve_remote_egress-Change env k r db = elim (Bool-cases (bad_egress k r)) [
  | inl bad ↦ rw bad (Change.unchanged refl refl refl)
  | inr good ↦ rw good (body (ground arith))
]
  where
    body :
        can_transition awaiting_remote_egress_approval r.resume_state ≡ true
        → Change (moves k r.resume_state) db (with_job env k (in_tx env (egress_body env k r) db)).1
    body allowed = elim (in_tx-cases env (egress_body env k r) db) [
      | inl (e, stays) ↦
          rw (with_job-db env k (in_tx env (egress_body env k r) db), stays)
            (Change.unchanged refl refl refl)
      | inr (a, db', ran, stays) ↦
          let (j, found, waited, _, _, _, approval, after) = egress_body-ran env k r db a db' ran in
          rw (with_job-db env k (in_tx env (egress_body env k r) db), stays)
            (Change.moved (
              approved-Moved env j a r.resume_state "remote egress manifest approved"
                "remote_egress.approve" (env.approval_details a (some r.resume_state)) db db'
                (rw approval refl) (rw approval found) (rw waited allowed) after))
    ]
