-- ===== src/Tests/Approvals.antt =====
-- internal/storage/sqlite/approvals.go: approvals of a job that waits, and the theorems there.
use code_maintainer.Base.{◌≡◌, refl, String, true, [], ◌∷◌}
use code_maintainer.Base.Int.{pos}
use code_maintainer.Base.Text.{is_blank, trim_space}
use code_maintainer.Base.Patterns.{is_sha256}
use code_maintainer.Jobs.State.{
  awaiting_operator, awaiting_remote_egress_approval, publishing_branch, implementing,
  can_transition, transitions, has, same,
}
use code_maintainer.Store.Rows.{
  Job, Approval, PublicationApprovalRequest, RemoteEgressApprovalRequest, Finding, open_finding,
  closed, FindingRequest, human_waived,
}
use code_maintainer.Store.Tx.{Db, StoreError, ok, err, in_tx}
use code_maintainer.Store.Tables.{read_job, append_audit, insert_transition}
use code_maintainer.Store.History.{empty}
use code_maintainer.Store.JobOps.{get_job, move_to}
use code_maintainer.Store.Approvals.{
  approval_of, record_approval, publication_body, with_job, approve_publication, egress_body,
  approve_remote_egress, approval_kind_draft_publication, approval_kind_remote_egress,
}
use code_maintainer.Store.Approvals.Laws.{Published, approve_publication_ok}
use code_maintainer.Store.Approvals.Egress.{Released, approve_remote_egress_ok}
use code_maintainer.Store.Findings.{
  can_move, move_finding, read_finding, finding_body, transition_finding,
}
use code_maintainer.Store.Findings.Laws.{FindingMoved, transition_finding_ok}
use code_maintainer.Tests.Fixture.{env_with, job}

abbrev sha : String
sha = "aaaaaaaaaaaaaaaaaaaaaaaaaaaaaaaaaaaaaaaa"

abbrev digest : String
digest = "aaaaaaaaaaaaaaaaaaaaaaaaaaaaaaaaaaaaaaaaaaaaaaaaaaaaaaaaaaaaaaaa"

abbrev waiting : Job
waiting = record job { state = awaiting_operator; result_sha = sha; version = 20 }

abbrev settled_finding : Finding
settled_finding = record {
  job_id = "job-1";
  id = "f-1";
  severity = "blocker";
  category = "correctness";
  claim = "claim";
  location = "{}";
  required_resolution = "fix";
  verification_method = "test";
  status = closed;
  first_seen_cycle = 0;
  last_seen_cycle = 1;
  version = 4;
  created_at = 1_000;
  updated_at = 1_000;
}

abbrev waiting_db : Db
waiting_db = record empty { jobs = waiting ∷ []; qc_findings = settled_finding ∷ [] }

abbrev publication : PublicationApprovalRequest
publication = record {
  actor_id = "rita";
  actor_role = "reviewer";
  rationale = " reviewed the change ";
  reauthenticated = true;
  expected_version = pos 20;
}

abbrev published_approval : Approval
published_approval =
    approval_of (env_with "p") "job-1" approval_kind_draft_publication sha "rita" "reviewer"
      "reviewed the change"

published :
    (approve_publication (env_with "p") "job-1" publication waiting_db).0
    ≡ ok (move_to (env_with "p") publishing_branch waiting, published_approval)
unfolding approve_publication publication_body with_job record_approval read_job append_audit
    insert_transition get_job in_tx is_blank trim_space same
published = refl

-- An open blocker stops the publication.
blocked :
    (approve_publication
      (env_with "p")
      "job-1"
      publication
      (record waiting_db { qc_findings = record settled_finding { status = open_finding } ∷ [] })).0
    ≡ err StoreError.invalid
unfolding approve_publication publication_body with_job record_approval read_job append_audit
    insert_transition get_job in_tx is_blank trim_space same
blocked = refl

approve_publication_ok_example :
    Published
      (env_with "p")
      "job-1"
      publication
      waiting_db
      (move_to (env_with "p") publishing_branch waiting)
      published_approval
      (approve_publication (env_with "p") "job-1" publication waiting_db).1
approve_publication_ok_example =
    approve_publication_ok (env_with "p") "job-1" publication waiting_db
      (move_to (env_with "p") publishing_branch waiting) published_approval published

abbrev paused : Job
paused = record job { state = awaiting_remote_egress_approval; version = 12 }

abbrev paused_db : Db
paused_db = record empty {
  jobs = paused ∷ [];
  egress_manifests =
      record {
        job_id = "job-1";
        provider_id = "cloud";
        manifest_sha256 = digest;
        policy_decision = "allowed";
      }
      ∷ [];
  provider_profiles = record { id = "cloud"; remote = true } ∷ [];
}

abbrev release_request : RemoteEgressApprovalRequest
release_request = record {
  actor_id = "rita";
  actor_role = "administrator";
  rationale = "the manifest holds no secret";
  reauthenticated = true;
  expected_version = pos 12;
  subject_sha = digest;
  resume_state = implementing;
}

abbrev released_approval : Approval
released_approval =
    approval_of (env_with "p") "job-1" approval_kind_remote_egress digest "rita" "administrator"
      "the manifest holds no secret"

released :
    (approve_remote_egress (env_with "p") "job-1" release_request paused_db).0
    ≡ ok (move_to (env_with "p") implementing paused, released_approval)
unfolding approve_remote_egress egress_body with_job record_approval read_job append_audit
    insert_transition get_job in_tx is_blank trim_space is_sha256 same can_transition transitions
    has
released = refl

approve_remote_egress_ok_example :
    Released
      (env_with "p")
      "job-1"
      release_request
      paused_db
      (move_to (env_with "p") implementing paused)
      released_approval
      (approve_remote_egress (env_with "p") "job-1" release_request paused_db).1
approve_remote_egress_ok_example =
    approve_remote_egress_ok (env_with "p") "job-1" release_request paused_db
      (move_to (env_with "p") implementing paused) released_approval released

-- An open blocker is waived by a reviewer who has authenticated again.
abbrev waiver : FindingRequest
waiver = record {
  to = human_waived;
  actor_id = "rita";
  actor_role = "reviewer";
  rationale = "known limitation";
  reauthenticated = true;
  expected_version = pos 4;
}

abbrev open_db : Db
open_db = record waiting_db { qc_findings = record settled_finding { status = open_finding } ∷ [] }

abbrev waived_finding : Finding
waived_finding =
    move_finding (env_with "w") human_waived (record settled_finding { status = open_finding })

waived : (transition_finding (env_with "w") "job-1" "f-1" waiver open_db).0 ≡ ok waived_finding
unfolding transition_finding finding_body read_finding can_move append_audit in_tx is_blank
waived = refl

transition_finding_ok_example :
    FindingMoved
      (env_with "w")
      "job-1"
      "f-1"
      waiver
      open_db
      waived_finding
      (transition_finding (env_with "w") "job-1" "f-1" waiver open_db).1
transition_finding_ok_example =
    transition_finding_ok (env_with "w") "job-1" "f-1" waiver open_db waived_finding waived
