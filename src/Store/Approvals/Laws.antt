-- ===== src/Store/Approvals/Laws.antt =====
-- internal/storage/sqlite/approvals.go: what an approval requires and what it leaves.
use code_maintainer.Base.{
  ◌≡◌, refl, ap, ◌∙◌, String, true, false, arith, none, some, ◌∷◌, any, keep, length, Bool-cases,
  Option-cases, inl, inr,
}
use code_maintainer.Base.Int.{pos, eqb_ℤ}
use code_maintainer.Base.Text.{is_empty}
use code_maintainer.Jobs.State.{
  State, same, can_transition, awaiting_operator, publishing_branch, transitions, has,
}
use code_maintainer.Jobs.Table.{same→≡}
use code_maintainer.Store.Rows.{Job, Approval, PublicationApprovalRequest}
use code_maintainer.Store.Tx.{Env, Db, Result, ok, err, in_tx, in_tx-cases}
use code_maintainer.Store.Tables.{
  find_job, update_job, read_job, append_audit, audit_event, insert_transition,
}
use code_maintainer.Store.JobOps.{get_job, move_to, audit_of}
use code_maintainer.Store.JobOps.Changes.{guarded-Change}
use code_maintainer.Store.Ledger.{moves, Moved, Change}
use code_maintainer.Store.Approvals.{
  bad_approver, blocks, approval_taken, approval_of, approval_entry, record_approval,
  publication_body, with_job, approve_publication, approval_kind_draft_publication,
}

-- The tables after an approval moved a job.
abbrev pub approved_db : Env → Job → Approval → State → String → String → String → Db → Db
approved_db env j a to reason action details db = record db {
  approvals = a ∷ db.approvals;
  jobs = update_job a.job_id j.version (move_to env to) db.jobs;
  job_transitions = approval_entry env j a to reason details ∷ db.job_transitions;
  audit_events =
      audit_event env (audit_of a.actor_id a.actor_role action "job" a.job_id details)
      ∷ db.audit_events;
}

pub record_approval-ran :
    (env : Env) (j : Job) (a : Approval) (to : State) (reason action details : String) (db : Db)
    (b : Approval) (db' : Db)
    → record_approval env j a to reason action details db ≡ ok (b, db')
    → (b ≡ a)
      × (any (approval_taken a) db.approvals ≡ false)
      × (db' ≡ approved_db env j a to reason action details db)
unfolding record_approval append_audit insert_transition
record_approval-ran env j a to reason action details db b db' h =
    (ground arith, ground arith, ground arith)

pub approved-Moved :
    (env : Env) (j : Job) (a : Approval) (to : State) (reason action details : String) (db db' : Db)
    {k : String}
    → a.job_id ≡ k
    → find_job a.job_id db.jobs ≡ some j
    → can_transition j.state to ≡ true
    → db' ≡ approved_db env j a to reason action details db
    → Moved k to db db'
approved-Moved env j a to reason action details db db' same found allowed after = record {
  key = a.job_id;
  current = j;
  change = move_to env to;
  entry = approval_entry env j a to reason details;
  named = (same, refl);
  found = found;
  keeps = λ i. refl;
  spares = (refl, refl);
  bumps = refl;
  ends = refl;
  allowed = allowed;
  logs = (refl, refl);
  jobs = rw after refl;
  transitions = rw after refl;
  reservations = rw after refl;
}

publication_body-ran :
    (env : Env) (k : String) (r : PublicationApprovalRequest) (db : Db) (a : Approval) (db' : Db)
    → publication_body env k r db ≡ ok (a, db')
    → (j : Job) × (find_job k db.jobs ≡ some j)
      × (j.state ≡ awaiting_operator)
      × (eqb_ℤ (pos j.version) r.expected_version ≡ true)
      × (is_empty j.result_sha ≡ false)
      × (length (keep (blocks k) db.qc_findings) ≡ 0)
      × (any (approval_taken a) db.approvals ≡ false)
      × (a
          ≡ approval_of env k approval_kind_draft_publication j.result_sha r.actor_id r.actor_role
              r.rationale)
      × (db'
          ≡ approved_db env j a publishing_branch "draft publication approved" "publication.approve"
              (env.approval_details a none)
              db)
unfolding publication_body read_job
publication_body-ran env k r db a db' h = elim (Option-cases (find_job k db.jobs)) [
  | inl missing ↦ absurd (ground arith)
  | inr (j, found) ↦
      let b =
        approval_of env k approval_kind_draft_publication j.result_sha r.actor_id r.actor_role
          r.rationale in
      let ran : record_approval env j b publishing_branch "draft publication approved"
            "publication.approve" (env.approval_details b none) db
          ≡ ok (a, db') =
        ground arith in
      let (same_a, fresh, after) =
        record_approval-ran env j b publishing_branch "draft publication approved"
          "publication.approve" (env.approval_details b none) db a db' ran in
      (
        j,
        found,
        same→≡ j.state awaiting_operator (ground arith),
        ground arith,
        ground arith,
        ground arith,
        rw same_a fresh,
        same_a,
        rw same_a after,
      )
]

pub with_job-db :
    (env : Env) (k : String) (res : Result Approval × Db) → (with_job env k res).1 ≡ res.1
unfolding with_job get_job
with_job-db env k (err e, db) = refl
with_job-db env k (ok a, db) = ground arith

pub with_job-ok :
    (env : Env) (k : String) (res : Result Approval × Db) (j : Job) (a : Approval)
    → (with_job env k res).0 ≡ ok (j, a)
    → (res.0 ≡ ok a) × (find_job k res.1.jobs ≡ some j)
unfolding with_job get_job
with_job-ok env k (err e, db) j a h = absurd cc
with_job-ok env k (ok b, db) j a h = (ground arith, ground arith)

-- What an approved publication has found and written.
pub record Published (env : Env) (k : String) (r : PublicationApprovalRequest) (db : Db) (j' : Job)
    (a : Approval) (db' : Db) : Type 0 where
  pub approver :
      bad_approver k r.actor_id r.actor_role r.rationale r.reauthenticated r.expected_version
      ≡ false
  pub job : Job
  pub found : find_job k db.jobs ≡ some job
  pub waited : job.state ≡ awaiting_operator
  pub version : eqb_ℤ (pos job.version) r.expected_version ≡ true
  pub has_result : is_empty job.result_sha ≡ false
  pub settled : length (keep (blocks k) db.qc_findings) ≡ 0
  pub once : any (approval_taken a) db.approvals ≡ false
  pub approval :
      a
      ≡ approval_of env k approval_kind_draft_publication job.result_sha r.actor_id r.actor_role
          r.rationale
  pub after :
      db'
      ≡ approved_db env job a publishing_branch "draft publication approved" "publication.approve"
          (env.approval_details a none)
          db
  pub stored : find_job k db'.jobs ≡ some j'

-- A publication that is approved was asked for by a reviewer or administrator who has
-- authenticated again and gives a reason; the job waited for its operator under the expected
-- version with a result, none of its blocking findings was unsettled, and the result had no such
-- approval; the approval names that result, and the job is stored and logged as publishing.
pub approve_publication_ok :
    (env : Env) (k : String) (r : PublicationApprovalRequest) (db : Db) (j : Job) (a : Approval)
    → (approve_publication env k r db).0 ≡ ok (j, a)
    → Published env k r db j a (approve_publication env k r db).1
unfolding approve_publication
approve_publication_ok env k r db j a h =
    elim (Bool-cases
      (bad_approver k r.actor_id r.actor_role r.rationale r.reauthenticated r.expected_version)) [
        | inl bad ↦ absurd (cc (rw bad at h))
        | inr good ↦ rw good (committed good (rw good at h))
      ]
  where
    committed :
        bad_approver k r.actor_id r.actor_role r.rationale r.reauthenticated r.expected_version
          ≡ false
        → (with_job env k (in_tx env (publication_body env k r) db)).0 ≡ ok (j, a)
        → Published env k r db j a (with_job env k (in_tx env (publication_body env k r) db)).1
    committed good g = elim (in_tx-cases env (publication_body env k r) db) [
      | inl (e, stays) ↦ absurd (cc (rw stays at (with_job-ok env k _ j a g).0))
      | inr (b, db', ran, stays) ↦
          let (res, stored) = with_job-ok env k (in_tx env (publication_body env k r) db) j a g in
          let one : b ≡ a = ground arith in
          let (i, found, waited, version, result, settled, once, approval, after) =
            publication_body-ran env k r db a db' (rw one at ran) in
          let left : (with_job env k (in_tx env (publication_body env k r) db)).1 ≡ db' =
            with_job-db env k (in_tx env (publication_body env k r) db)
            ∙ ap (λ (x : Result Approval × Db). x.1) stays in
          rw left (record {
            approver = good;
            job = i;
            found = found;
            waited = waited;
            version = version;
            has_result = result;
            settled = settled;
            once = once;
            approval = approval;
            after = after;
            stored = rw stays at stored;
          })
    ]

publishing_allowed : can_transition awaiting_operator publishing_branch ≡ true
unfolding can_transition transitions has same
publishing_allowed = refl

pub approve_publication-Change :
    (env : Env) (k : String) (r : PublicationApprovalRequest) (db : Db)
    → Change (moves k publishing_branch) db (approve_publication env k r db).1
unfolding approve_publication
approve_publication-Change env k r db = search (guarded-Change, body)
  where
    body :
        Change
          (moves k publishing_branch)
          db
          (with_job env k (in_tx env (publication_body env k r) db)).1
    body = elim (in_tx-cases env (publication_body env k r) db) [
      | inl (e, stays) ↦
          rw (with_job-db env k (in_tx env (publication_body env k r) db), stays)
            (Change.unchanged refl refl refl)
      | inr (a, db', ran, stays) ↦
          let (j, found, waited, _, _, _, _, approval, after) =
            publication_body-ran env k r db a db' ran in
          rw (with_job-db env k (in_tx env (publication_body env k r) db), stays)
            (Change.moved (
              approved-Moved env j a publishing_branch "draft publication approved"
                "publication.approve" (env.approval_details a none) db db' (rw approval refl)
                (rw approval found) (rw waited publishing_allowed) after))
    ]
