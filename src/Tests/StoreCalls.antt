-- ===== src/Tests/StoreCalls.antt =====
-- internal/storage/sqlite: the theorems on the store at a submitted job.
use code_maintainer.Base.{◌≡◌, ◌≢◌, refl, String, true, false, none, some, List, ◌∷◌, ◌⊎◌, ap, map}
use code_maintainer.Base.Int.{pos}
use code_maintainer.Base.Text.{is_blank}
use code_maintainer.Base.Patterns.{is_commit}
use code_maintainer.Tests.JobStates.{short_run}
use code_maintainer.Jobs.State.{
  State, queued, syncing, completed, can_transition, validate_transition, valid, text,
  awaiting_task_approval, implementing, awaiting_operator,
}
use code_maintainer.Store.Rows.{Job, JobMetadataPatch}
use code_maintainer.Store.Tx.{Env, Db, Result, ok, err, Call, in_tx, settle, driver}
use code_maintainer.Store.Tables.{find_job, append_audit, insert_transition, read_job}
use code_maintainer.Store.Ledger.{Consistent}
use code_maintainer.Store.Ledger.Gates.{completed_was_approved, entered}
use code_maintainer.Store.History.{Op, perform_all, perform_all-Consistent, empty}
use code_maintainer.Store.JobOps.{
  create_job, transition_job, move_to, read_back, get_job, transition_body,
}
use code_maintainer.Store.Budgets.{reserve_job_tokens, reserve_rest, reserve_reads, reserve_new}
use code_maintainer.Store.Completion.{
  apply_metadata, patch_base, patch_result, patch_criteria, patch_cycle,
}
use code_maintainer.Store.JobOps.Laws.{
  calm, fresh_audit, version_fits, moved_db, transition_job_moves, transition_job_ok,
  transition_job_once, transition_job_error,
}
use code_maintainer.Store.JobOps.Budget.{reserve_once}
use code_maintainer.Tests.Fixture.{
  env_with, params, submitted, stored, stored-Consistent, job, stored-job, to_syncing,
}

perform_all-Consistent_example : Consistent (perform_all submitted empty)
perform_all-Consistent_example = perform_all-Consistent submitted

stored_fresh : fresh_audit (env_with "b") stored ≡ true
unfolding stored create_job in_tx append_audit insert_transition is_blank
stored_fresh = refl

syncing_allowed : can_transition queued syncing ≡ true
unfolding can_transition
syncing_allowed = refl

transition_job_moves_example : transition_job (calm (env_with "b")) "job-1" to_syncing stored ≡ (
  ok (move_to (env_with "b") syncing job),
  moved_db (calm (env_with "b")) "job-1" to_syncing job stored,
)
transition_job_moves_example =
    transition_job_moves (env_with "b") "job-1" to_syncing stored job stored-Consistent stored-job
      refl syncing_allowed stored_fresh

moved :
    (transition_job (env_with "b") "job-1" to_syncing stored).0
    ≡ ok (move_to (env_with "b") syncing job)
moved = ap (λ (x : Result Job × Db). x.0) transition_job_moves_example

transition_job_ok_example :
    (j : Job) × (find_job "job-1" stored.jobs ≡ some j)
    × (version_fits (pos 1) j ≡ true)
    × (can_transition j.state syncing ≡ true)
    × (move_to (env_with "b") syncing job ≡ move_to (env_with "b") syncing j)
    × ((transition_job (env_with "b") "job-1" to_syncing stored).1
        ≡ moved_db (env_with "b") "job-1" to_syncing j stored)
transition_job_ok_example =
    transition_job_ok (env_with "b") "job-1" to_syncing stored (move_to (env_with "b") syncing job)
      moved

transition_job_once_example :
    (transition_job
      (env_with "c")
      "job-1"
      to_syncing
      (transition_job (env_with "b") "job-1" to_syncing stored).1).0
    ≢ ok job
transition_job_once_example =
    transition_job_once (env_with "b") (env_with "c") "job-1" to_syncing to_syncing stored
      (move_to (env_with "b") syncing job) job refl refl moved

-- The driver fails at the reload after the commit.
abbrev lost_reload : Env
lost_reload = record (env_with "b") { fault = λ c. elim c [ Call.read_back ↦ true | _ ↦ false ] }

reload_fails :
    (transition_job lost_reload "job-1" to_syncing stored).0 ≡ err (driver Call.read_back)
unfolding transition_job transition_body read_back get_job stored create_job in_tx append_audit
    insert_transition read_job can_transition validate_transition is_blank
reload_fails = refl

transition_job_error_example :
    ((transition_job lost_reload "job-1" to_syncing stored).1 ≡ stored)
    ⊎ ((driver Call.read_back ≡ driver Call.read_back)
        × ((j : Job) × (find_job "job-1" stored.jobs ≡ some j)
            × ((transition_job lost_reload "job-1" to_syncing stored).1
                ≡ moved_db lost_reload "job-1" to_syncing j stored)))
transition_job_error_example =
    transition_job_error lost_reload "job-1" to_syncing stored (driver Call.read_back) reload_fails

reserved :
    (reserve_job_tokens (env_with "b") "job-1" (pos 1) queued (pos 16_384) stored).0
    ≡ ok (record job { reserved_tokens = 16_384 })
unfolding reserve_job_tokens reserve_rest reserve_reads reserve_new read_back get_job valid stored
    create_job in_tx settle append_audit insert_transition read_job is_blank
reserved = refl

reserve_once_example :
    (reserve_job_tokens
      (env_with "c")
      "job-1"
      (pos 1)
      queued
      (pos 5)
      (reserve_job_tokens (env_with "b") "job-1" (pos 1) queued (pos 16_384) stored).1).1
    ≡ (reserve_job_tokens (env_with "b") "job-1" (pos 1) queued (pos 16_384) stored).1
reserve_once_example =
    reserve_once (env_with "b") (env_with "c") "job-1" (pos 1) queued queued (pos 16_384) (pos 5)
      stored (record job { reserved_tokens = 16_384 }) reserved

-- A patch with a base commit and one review cycle.
abbrev sha : String
sha = "0123456789abcdef0123456789abcdef01234567"

abbrev patch : JobMetadataPatch
patch = record {
  base_sha = some sha;
  result_sha = none;
  acceptance_criteria = some "[1]";
  acceptance_criteria_hash = some "[1]";
  review_cycle = some (pos 1);
}

abbrev patched : Job
patched = record job {
  base_sha = sha;
  acceptance_criteria = "[1]";
  acceptance_criteria_hash = "[1]";
  review_cycle = 1;
}

patch_accepted : apply_metadata (env_with "b") job patch ≡ some patched
unfolding apply_metadata patch_base patch_result patch_criteria patch_cycle is_commit
patch_accepted = refl

-- The job is taken along a run, each call with an identifier of its own.
abbrev move : State → Env × Op
move s = (
  env_with (text s),
  Op.transition "job-1"
      (record { to = s; actor_id = ""; reason = ""; expected_version = pos 0; details = "" }),
)

abbrev whole_run : List (Env × Op)
whole_run = (env_with "a", Op.create params) ∷ map move short_run

finished : Db
unfolding perform_all
finished = perform_all whole_run empty

finished-Consistent : Consistent finished
unfolding finished
finished-Consistent = perform_all-Consistent whole_run

finished-job :
    find_job "job-1" finished.jobs ≡ some (record job { state = completed; version = 13 })
unfolding finished create_job transition_job transition_body read_back get_job in_tx append_audit
    insert_transition read_job can_transition validate_transition text is_blank
finished-job = refl

completed_was_approved_example :
    (entered "job-1" awaiting_task_approval finished.job_transitions ≡ true)
    × (entered "job-1" implementing finished.job_transitions ≡ true)
    × (entered "job-1" awaiting_operator finished.job_transitions ≡ true)
completed_was_approved_example =
    completed_was_approved finished "job-1" (record job { state = completed; version = 13 })
      finished-Consistent finished-job refl
