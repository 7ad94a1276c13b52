-- ===== src/Tests/Schedules.antt =====
-- internal/storage/sqlite: a schedule is saved, dispatched and blocked, and a proposal reviewed.
use code_maintainer.Base.{◌≡◌, ◌≢◌, refl, arith, true, some, [], ◌∷◌, keep}
use code_maintainer.Base.Int.{pos}
use code_maintainer.Base.Stamp.{stamp_before, fraction_text}
use code_maintainer.Base.Text.{is_blank, trim_space}
use code_maintainer.Base.Patterns.{safe_id, is_repository}
use code_maintainer.Automation.{
  AutomationError, ScheduleRequest, SkillProposal, SkillProposalRequest, SkillReviewRequest,
  schedule_valid, proposal_valid,
}
use code_maintainer.Projects.{UpsertRequest, upsert_valid}
use code_maintainer.Store.Tx.{Db, StoreError, ok, err, in_tx}
use code_maintainer.Store.Tables.{append_audit, insert_transition, required, normalize_json}
use code_maintainer.Store.History.{Op, perform, perform_all, empty}
use code_maintainer.Store.Refine.{SpecRun, deeds, view, perform_all_refines}
use code_maintainer.Store.Projects.{upsert_project, upsert_body, project_back, get_project}
use code_maintainer.Store.Schedules.{save_schedule, save_known, save_body, write_row, saved}
use code_maintainer.Store.Dispatch.{
  dispatch_due_schedule, dispatch_body, dispatch_row, enqueue, in_window, next_run, advance,
  first_run, is_due, enqueued_run,
}
use code_maintainer.Store.Dispatch.Clock.{IsNextRun, next_run_lands}
use code_maintainer.Store.Schedules.Save.{save_schedule_once}
use code_maintainer.Store.Dispatch.Laws.{MovedOn, dispatch_due_schedule_ok}
use code_maintainer.Store.Dispatch.Blocked.{dispatch_due_schedule_blocked}
use code_maintainer.Store.Proposals.{
  create_skill_proposal, review_skill_proposal, propose_body, review_body, insert_event, has_secret,
  proposal_back, get_proposal, new_proposal,
}
use code_maintainer.Tests.Fixture.{env_with, submitted}

perform_all_refines_example :
    SpecRun (deeds submitted) (view empty) (view (perform_all submitted empty))
perform_all_refines_example = perform_all_refines submitted empty

next_run_lands_example : IsNextRun 1_000 60 10 (next_run 1_000 60 10)
next_run_lands_example = next_run_lands 1_000 60 10 (omega arith)

next_run_runs : next_run 1_000 60 10 ≡ 1_030
unfolding next_run advance
next_run_runs = refl

abbrev registration : UpsertRequest
registration = record {
  id = "project";
  provider = "github";
  repository = "owner/repository";
  default_branch = "main";
  local_remote_name = "";
}

abbrev nightly : ScheduleRequest
nightly = record {
  id = "nightly";
  project_id = "project";
  name = "nightly";
  task_type = "maintenance";
  task = "update";
  interval_seconds = pos 60;
  window_start_minute = pos 0;
  window_end_minute = pos 0;
  max_wall_seconds = pos 3600;
  max_tokens = pos 1000;
  enabled = true;
  next_run_at = 500;
  expected_version = pos 0;
}

unfoldable with_project : Db
unfolding perform_all perform
with_project = perform_all ((env_with "a", Op.project registration "admin") ∷ []) empty

saves :
    (save_schedule (env_with "b") nightly "admin" with_project).0
    ≡ ok (saved (env_with "b") nightly 1 1_000)
unfolding with_project perform perform_all upsert_project upsert_body upsert_valid project_back
    get_project save_schedule save_known save_body write_row schedule_valid in_tx append_audit
    safe_id is_repository is_blank trim_space required normalize_json
saves = refl

save_schedule_once_example :
    (save_schedule
      (env_with "c")
      nightly
      "operator"
      (save_schedule (env_with "b") nightly "admin" with_project).1).0
    ≢ ok (saved (env_with "c") nightly 1 1_000)
save_schedule_once_example =
    save_schedule_once (env_with "b") (env_with "c") nightly nightly "admin" "operator" with_project
      (saved (env_with "b") nightly 1 1_000) (saved (env_with "c") nightly 1 1_000) refl refl refl
      saves

-- The tables with the schedule, in one row.
abbrev with_nightly : Db
with_nightly = record with_project { schedules = saved (env_with "b") nightly 1 1_000 ∷ [] }

dispatches :
    (dispatch_due_schedule (env_with "d") "controller" with_nightly).0
    ≡ ok (enqueued_run (env_with "d") (saved (env_with "b") nightly 1 1_000))
unfolding with_project perform perform_all upsert_project upsert_body upsert_valid project_back
    dispatch_due_schedule dispatch_body dispatch_row enqueue in_window stamp_before fraction_text
    in_tx append_audit insert_transition safe_id is_repository is_blank trim_space required
    normalize_json
dispatches = refl

dispatch_due_schedule_ok_example :
    MovedOn
      (env_with "d")
      "controller"
      with_nightly
      (enqueued_run (env_with "d") (saved (env_with "b") nightly 1 1_000))
      (dispatch_due_schedule (env_with "d") "controller" with_nightly).1
dispatch_due_schedule_ok_example =
    dispatch_due_schedule_ok (env_with "d") "controller" with_nightly
      (enqueued_run (env_with "d") (saved (env_with "b") nightly 1 1_000)) (omega arith, tt)
      dispatches

-- The schedule, and no project.
abbrev orphaned : Db
orphaned = record empty { schedules = saved (env_with "b") nightly 1 1_000 ∷ [] }

orphan_due :
    first_run (keep (is_due 1_000) orphaned.schedules) ≡ some (saved (env_with "b") nightly 1 1_000)
unfolding stamp_before fraction_text
orphan_due = refl

orphan_open : in_window 1_000 0 0 ≡ true
unfolding in_window
orphan_open = refl

dispatch_due_schedule_blocked_example :
    (e : StoreError) × (dispatch_due_schedule (env_with "d") "controller" orphaned
      ≡ (err e, orphaned))
dispatch_due_schedule_blocked_example =
    dispatch_due_schedule_blocked (env_with "d") "controller" (saved (env_with "b") nightly 1 1_000)
      orphaned orphan_due orphan_open refl

abbrev skill : SkillProposalRequest
skill = record { name = "lint"; description = "lint"; content = "text"; proposed_by = "hermes" }

abbrev approval : SkillReviewRequest
approval = record {
  decision = "approve";
  rationale = "useful";
  actor_id = "admin";
  expected_version = pos 1;
}

abbrev proposed : Db
proposed = record empty { skill_proposals = new_proposal (env_with "s") skill ∷ [] }

abbrev lint : SkillProposal
lint = record (new_proposal (env_with "s") skill) {
  status = "approved_inert";
  reviewed_by = "admin";
  review_reason = "useful";
  version = 2;
}

reviews : (review_skill_proposal (env_with "t") "s" approval proposed).0 ≡ ok lint
unfolding review_skill_proposal review_body insert_event proposal_back get_proposal in_tx
    append_audit is_blank trim_space required normalize_json
reviews = refl

proposes :
    (create_skill_proposal (env_with "s") skill empty).0 ≡ ok (new_proposal (env_with "s") skill)
unfolding create_skill_proposal propose_body proposal_valid has_secret insert_event in_tx
    append_audit safe_id is_blank trim_space required normalize_json
proposes = refl

-- A text with a key in it is refused.
refuses :
    (create_skill_proposal (env_with "s") (record skill { content = "PassWord=x" }) empty).0
    ≡ err (StoreError.automation AutomationError.invalid)
unfolding create_skill_proposal proposal_valid has_secret safe_id is_blank
refuses = refl
