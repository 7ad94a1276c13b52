-- ===== src/Workflow/Engine.antt =====
-- internal/workflow/engine.go: one step of the engine, its failure path, and the resumption of a
-- list of jobs. The phase executor is an argument: it sees the job, may change the store, and
-- reports an outcome or an error. Other actors' calls during the phase are part of what it does.
pub mod Laws
pub mod Outcomes
use code_maintainer.Base.{
  ℕ, String, Bool, true, false, not, ◌&&◌, Option, none, some, List, [], ◌∷◌, ◌++◌, if◌then◌else◌,
  ◌==◌,
}
use code_maintainer.Base.Int.{ℤ, pos}
use code_maintainer.Base.Clock.{Time, is_zero, before}
use code_maintainer.Jobs.State.{State, failed, resumable, can_transition}
use code_maintainer.Store.Rows.{Job, TransitionRequest, PhaseCompletion, JobMetadataPatch}
use code_maintainer.Store.Tx.{Env, Db, Call, StoreError, Result, ok, err}
use code_maintainer.Store.JobOps.{get_job, transition_job}
use code_maintainer.Store.Budgets.{reserve_job_tokens}
use code_maintainer.Store.Completion.{complete_phase}
use code_maintainer.Workflow.Route.{
  Outcome, RouteError, Routed, to, refused, next_state, phase_token_reservation,
}

-- What stopped a step.
pub data Cause : Type 0 where
  store : StoreError → Cause
  not_resumable budget_expired canceled marshal_failed : Cause
  phase : String → Cause
  route : RouteError → Cause

-- What the executor reports: an outcome, a cancelled context, or another error.
pub data Executed : Type 0 where
  outcome : Outcome → Executed
  cancelled_context : Executed
  failure : String → Executed

-- `job, err`: an empty job is `none`, a nil error is `none`.
pub record Stepped : Type 0 where
  pub job : Option Job
  pub error : Option Cause

-- What one step meets: the surroundings of each of its calls of the store, the clock that it
-- reads, and the texts that encoding/json writes.
pub record World : Type 0 where
  pub read_env : Env
  pub reserve_env : Env
  pub complete_env : Env
  pub fail_env : Env
  pub now : Time
  pub error_details : Cause → String
  pub marshal : Outcome → Option String

abbrev pub Executor : Type 0
Executor = Job → Db → Executed × Db

-- `if transitionErr == nil`: the failed job and the cause, otherwise an empty job and the cause.
-- The case that extractFailedCase records goes to the memory store, which is not modelled.
unfoldable pub failed_with : Cause → Result Job × Db → Stepped × Db
failed_with cause (ok j, db) = (record { job = some j; error = some cause }, db)
failed_with cause (err _, db) = (record { job = none; error = some cause }, db)

unfoldable pub fail_job : World → Job → Cause → String → Db → Stepped × Db
fail_job w job cause reason db =
    if not (can_transition job.state failed)
    then (record { job = none; error = some cause }, db)
    else failed_with cause (
        transition_job w.fail_env job.id
          (record {
            to = failed;
            actor_id = "workflow-engine";
            reason = reason;
            expected_version = pos job.version;
            details = w.error_details cause;
          })
          db)

-- `return e.store.CompletePhase(...)`
unfoldable pub returned : Result Job × Db → Stepped × Db
returned (ok j, db) = (record { job = some j; error = none }, db)
returned (err e, db) = (record { job = none; error = some (Cause.store e) }, db)

abbrev pub completion : Job → Outcome → State → String → PhaseCompletion
completion job o t recorded = record {
  job_id = job.id;
  phase_state = some job.state;
  expected_version = pos job.version;
  to = t;
  actor_id = "workflow-engine";
  reason = "phase completed";
  details = o.details;
  outcome = recorded;
  metadata = o.metadata;
}

-- The outcome as JSON, which may fail, then the completion of the phase.
unfoldable pub record_phase : World → Job → Outcome → State → Option String → Db → Stepped × Db
record_phase w job o t none db = (record { job = some job; error = some Cause.marshal_failed }, db)
record_phase w job o t (some recorded) db =
    returned (complete_phase w.complete_env (completion job o t recorded) db)

unfoldable pub follow_route : World → Job → Outcome → Routed → Db → Stepped × Db
follow_route w job o (refused e) db = (record { job = some job; error = some (Cause.route e) }, db)
follow_route w job o (to t) db = record_phase w job o t (w.marshal o) db

unfoldable pub finish_phase : World → Job → Outcome → Db → Stepped × Db
finish_phase w job o db = follow_route w job o (next_state job.state o) db

unfoldable pub after_execute : World → Job → Executed × Db → Stepped × Db
after_execute w job (outcome o, db) = finish_phase w job o db
after_execute w job (cancelled_context, db) = fail_job w job Cause.canceled "phase failed" db
after_execute w job (failure e, db) = fail_job w job (Cause.phase e) "phase failed" db

unfoldable pub run_phase : World → Executor → Job → Db → Stepped × Db
run_phase w execute job db = after_execute w job (execute job db)

unfoldable pub after_reserve : World → Executor → Job → Result Job × Db → Stepped × Db
after_reserve w execute job (ok reserved, db) = run_phase w execute reserved db
after_reserve w execute job (err e, db) =
    fail_job w job (Cause.store e) "job token budget exhausted" db

abbrev pub past_deadline : World → Job → Bool
past_deadline w job = not (is_zero job.deadline_at) && not (before w.now job.deadline_at)

unfoldable pub step_job : World → Executor → Job → Db → Stepped × Db
step_job w execute job db =
    let tokens = phase_token_reservation job.state in
    if not (resumable job.state)
    then (record { job = some job; error = some Cause.not_resumable }, db)
    else if past_deadline w job
    then fail_job w job Cause.budget_expired "job wall-time budget expired" db
    else if not (tokens == 0)
    then after_reserve w execute job
        (reserve_job_tokens w.reserve_env job.id (pos job.version) job.state (pos tokens) db)
    else run_phase w execute job db

-- Engine.Step
unfoldable pub step_read : World → Executor → Result Job → Db → Stepped × Db
step_read w execute (err e) db = (record { job = none; error = some (Cause.store e) }, db)
step_read w execute (ok job) db = step_job w execute job db

-- Engine.Step
unfoldable pub step : World → Executor → String → Db → Stepped × Db
step w execute k db = step_read w execute (get_job w.read_env k db) db

abbrev pub no_patch : JobMetadataPatch
no_patch = record {
  base_sha = none;
  result_sha = none;
  acceptance_criteria = none;
  acceptance_criteria_hash = none;
  review_cycle = none;
}

-- FakeExecutor
abbrev pub fake_executor : Executor
fake_executor job db = (
  outcome (record {
    needs_repair = false;
    next_state = none;
    details = "{\"adapter\":\"fake\"}";
    metadata = no_patch;
  }),
  db,
)
