-- ===== src/Tests/EngineSteps.antt =====
-- internal/workflow/engine.go: steps of the engine with the fake executor, and the theorems there.
use code_maintainer.Base.{◌≡◌, refl, true, false, none, some, ap}
use code_maintainer.Base.Text.{is_blank}
use code_maintainer.Base.Int.{pos}
use code_maintainer.Jobs.State.{
  State, queued, syncing, implementing, failed, resumable, can_transition, validate_transition,
}
use code_maintainer.Store.Rows.{Job, PhaseCompletion}
use code_maintainer.Store.Tx.{ok, in_tx}
use code_maintainer.Store.Tables.{
  find_job, append_audit, insert_transition, read_job, normalize_json,
}
use code_maintainer.Store.JobOps.{create_job, read_back, get_job, move_to}
use code_maintainer.Store.Completion.{
  complete_phase, complete_to, complete_body, apply_metadata, patch_base, patch_result,
  patch_criteria, patch_cycle,
}
use code_maintainer.Store.JobOps.Phases.{completed_db, complete_phase_ok}
use code_maintainer.Store.JobOps.Laws.{fresh_audit}
use code_maintainer.Workflow.Route.{Outcome, to, successor, next_state, phase_token_reservation}
use code_maintainer.Workflow.Route.Laws.{next_state_allowed, automatic_progress, resting, drive}
use code_maintainer.Workflow.Engine.{
  Cause, Stepped, World, no_patch, completion, fake_executor, step, step_read, step_job, run_phase,
  after_execute, finish_phase, follow_route, record_phase, returned, fail_job,
}
use code_maintainer.Workflow.Engine.Outcomes.{
  Advanced, step_advances, calm_failure, fail_job_records,
}
use code_maintainer.Scheduler.Order.{stable_sort, insert_all, insert_back}
use code_maintainer.Workflow.Resume.{
  list_jobs, resume_items, resume_listed, resume, Through, resume_steps_all,
}
use code_maintainer.Tests.Fixture.{env_with, stored, stored-Consistent, stored-job, job}

abbrev world : World
world = record {
  read_env = env_with "r";
  reserve_env = env_with "s";
  complete_env = env_with "c";
  fail_env = env_with "f";
  now = 2_000;
  error_details = λ _. "{}";
  marshal = λ _. some "{}";
}

-- A step of the fake executor takes the submitted job to `syncing`.
fake_step :
    (step world fake_executor "job-1" stored).0
    ≡ record { job = some (record job { state = syncing; version = 2 }); error = none }
unfolding step step_read step_job run_phase after_execute finish_phase follow_route record_phase
    returned next_state successor phase_token_reservation resumable get_job stored create_job
    complete_phase complete_body apply_metadata patch_base patch_result patch_criteria patch_cycle
    read_back in_tx append_audit insert_transition read_job can_transition validate_transition
    is_blank normalize_json
fake_step = refl

plain : Outcome
plain = record { needs_repair = false; next_state = none; details = ""; metadata = no_patch }

routes : next_state queued plain ≡ to syncing
unfolding next_state successor plain
routes = refl

next_state_allowed_example : can_transition queued syncing ≡ true
next_state_allowed_example = next_state_allowed queued syncing plain routes

automatic_progress_example :
    ((t : State) × (successor implementing ≡ some t)) × (resting (drive 8 implementing) ≡ true)
unfolding resumable
automatic_progress_example = automatic_progress implementing refl

fake_step_error : (step world fake_executor "job-1" stored).0.error ≡ none
fake_step_error = ap (λ (s : Stepped). s.error) fake_step

step_advances_example :
    Advanced world fake_executor "job-1" stored (step world fake_executor "job-1" stored)
step_advances_example = step_advances world fake_executor "job-1" stored fake_step_error

queued_resumable : resumable queued ≡ true
unfolding resumable
queued_resumable = refl

stored_fresh_failure : fresh_audit (env_with "f") stored ≡ true
unfolding stored create_job in_tx append_audit insert_transition is_blank
stored_fresh_failure = refl

fail_job_records_example :
    let (res, after) =
      fail_job (calm_failure world) job (Cause.phase "timeout") "phase failed" stored in
    (res ≡ record {
      job = some (move_to (env_with "f") failed job);
      error = some (Cause.phase "timeout");
    })
    × (find_job "job-1" after.jobs ≡ some (move_to (env_with "f") failed job))
fail_job_records_example =
    fail_job_records world job (Cause.phase "timeout") "phase failed" stored stored-Consistent
      stored-job queued_resumable stored_fresh_failure

abbrev phase_done : PhaseCompletion
unfolding plain
phase_done = completion job plain syncing "{}"

phase_completed :
    (complete_phase (env_with "c") phase_done stored).0
    ≡ ok (record job { state = syncing; version = 2 })
unfolding plain stored get_job create_job complete_phase complete_body apply_metadata patch_base
    patch_result patch_criteria patch_cycle read_back in_tx append_audit insert_transition read_job
    can_transition validate_transition is_blank normalize_json
phase_completed = refl

complete_phase_ok_example :
    let env = env_with "c" in
    (j : Job) × (u : Job) × (find_job "job-1" stored.jobs ≡ some j)
    × (pos 1 ≡ pos j.version)
    × (some queued ≡ some j.state)
    × (can_transition j.state syncing ≡ true)
    × (apply_metadata env j no_patch ≡ some u)
    × (record job { state = syncing; version = 2 } ≡ complete_to env syncing u j)
    × ((complete_phase env phase_done stored).1 ≡ completed_db env phase_done j u stored)
unfolding plain
complete_phase_ok_example = complete_phase_ok (env_with "c") phase_done stored _ phase_completed

resumed_without_error :
    (resume (env_with "l") (λ n. world) fake_executor (pos 10) stored).0.error ≡ none
unfolding step step_read step_job run_phase after_execute finish_phase follow_route record_phase
    returned next_state successor phase_token_reservation resumable get_job stored create_job
    complete_phase complete_body apply_metadata patch_base patch_result patch_criteria patch_cycle
    read_back in_tx append_audit insert_transition read_job can_transition validate_transition
    is_blank normalize_json resume resume_listed resume_items list_jobs stable_sort insert_all
    insert_back
resumed_without_error = refl

resume_steps_all_example :
    Through
      (λ n. world)
      fake_executor
      (list_jobs (env_with "l") (pos 10) (pos 0) stored)
      stored
      (resume (env_with "l") (λ n. world) fake_executor (pos 10) stored)
resume_steps_all_example =
    resume_steps_all (env_with "l") (λ n. world) fake_executor (pos 10) stored resumed_without_error
