-- ===== src/Store/JobOps.antt =====
-- internal/storage/sqlite/store.go, budgets.go and workflow.go: creating a job, moving it, charging
-- its token budget and completing its phases.
pub mod Bodies
pub mod Changes
pub mod Laws
pub mod Budget
pub mod Phases
pub mod Metadata
use Prim.Native.Nat.{◌*◌}
use code_maintainer.Base.{
  ℕ, suc, ◌+◌, String, Bool, true, false, not, ◌&&◌, ◌||◌, Option, none, some, List, [], ◌∷◌, any,
  length, ltb, leb, ◌==◌, ◌is◌, if◌then◌else◌,
}
use code_maintainer.Base.Int.{ℤ, pos, pos_part, ltb_ℤ, leb_ℤ, eqb_ℤ}
use code_maintainer.Base.Clock.{second}
use code_maintainer.Base.Text.{is_blank, is_empty, byte_len}
use code_maintainer.Base.Patterns.{is_commit}
use code_maintainer.Jobs.State.{State, queued, same, valid, validate_transition}
use code_maintainer.Store.Rows.{
  Job, Transition, TransitionRequest, CreateJobParams, JobMetadataPatch, PhaseCompletion,
  PhaseRecord, Reservation, AppendRequest,
}
use code_maintainer.Store.Tx.{
  Env, Db, Call, StoreError, Result, ok, err, Tx, ◌>>=◌, ◌>>◌, pure, fail, reject_if, call, gets,
  modify, or_fail, in_tx, settle,
}
use code_maintainer.Store.Tables.{
  normalize_json, required, find_job, update_job, affected, read_job, append_audit,
  insert_transition,
}

-- An audit request with no correlation id and no remote address.
abbrev pub audit_of : String → String → String → String → String → String → AppendRequest
audit_of actor role action kind target details = record {
  actor_id = actor;
  actor_role = role;
  action = action;
  target_type = kind;
  target_id = target;
  correlation_id = "";
  remote_address = "";
  details = details;
}

-- GetJob, outside a transaction.
unfoldable pub get_job : Env → String → Db → Result Job
get_job env k db =
    if env.fault Call.read_back
    then err (StoreError.driver Call.read_back)
    else elim (find_job k db.jobs) [ none ↦ err StoreError.not_found | some j ↦ ok j ]

-- `return s.GetJob(ctx, id)` after the commit.
unfoldable pub read_back : Env → String → Result (Unit {0}) × Db → Result Job × Db
read_back env k (err e, db) = (err e, db)
read_back env k (ok _, db) = (get_job env k db, db)

abbrev pub or_default : ℤ → ℕ → ℤ
or_default v d = if eqb_ℤ v (pos 0) then pos d else v

abbrev pub new_job : Env → String → CreateJobParams → Job
new_job env id params =
    let wall = or_default params.max_wall_seconds 14_400 in
    let tokens = or_default params.max_tokens 262_144 in
    record {
      id = id;
      project_id = params.project_id;
      repository = params.repository;
      task = params.task;
      issue_number = params.issue_number;
      state = queued;
      base_sha = "";
      result_sha = "";
      acceptance_criteria = "[]";
      acceptance_criteria_hash = "";
      review_cycle = 0;
      max_wall_seconds = pos_part wall;
      deadline_at = env.now + pos_part wall * second;
      max_tokens = pos_part tokens;
      reserved_tokens = 0;
      version = 1;
      created_at = env.now;
      updated_at = env.now;
    }

pub insert_new_job : Env → CreateJobParams → Job → Tx Job
insert_new_job env params job = do
  call env Call.insert_job
  taken ← gets (λ db. any (λ (j : Job). j.id is job.id) db.jobs)
  reject_if taken StoreError.conflict
  modify λ db. record db { jobs = job ∷ db.jobs }
  insert_transition env (record {
    job_id = job.id;
    from = none;
    to = job.state;
    actor_id = required params.actor_id "system";
    reason = "job submitted";
    details = normalize_json env params.details;
    created_at = env.now;
  })
  append_audit env (
      audit_of (required params.actor_id "system") "operator" "job.create" "job" job.id
        (normalize_json env params.details))
  call env Call.snapshot
  pure job

unfoldable pub create_job : Env → CreateJobParams → Db → Result Job × Db
unfolding insert_new_job
create_job env params db =
    let wall = or_default params.max_wall_seconds 14_400 in
    let tokens = or_default params.max_tokens 262_144 in
    let id = if is_empty params.id then env.new_id "job" else params.id in
    if is_empty params.project_id || is_empty params.repository || is_blank params.task
    then (err StoreError.invalid, db)
    else if is_empty params.id && env.fault Call.random
    then (err (StoreError.driver Call.random), db)
    else if ltb_ℤ wall (pos 60)
        || ltb_ℤ (pos 604_800) wall
        || ltb_ℤ tokens (pos 1)
        || ltb_ℤ (pos 10_000_000) tokens
    then (err StoreError.invalid, db)
    else in_tx env (insert_new_job env params (new_job env id params)) db

-- `UPDATE jobs ... WHERE id = ? AND version = ?` followed by the check of the affected rows.
abbrev pub update_checked : Env → String → ℕ → (Job → Job) → Tx (Unit {0})
update_checked env k v f = do
  call env Call.update_job
  rows ← gets (λ db. affected k v db.jobs)
  modify λ db. record db { jobs = update_job k v f db.jobs }
  reject_if (not (rows == 1)) StoreError.conflict

abbrev pub move_to : Env → State → Job → Job
move_to env to j = record j { state = to; version = j.version + 1; updated_at = env.now }

abbrev pub transition_entry : Env → String → TransitionRequest → State → Transition
transition_entry env k request from = record {
  job_id = k;
  from = some from;
  to = request.to;
  actor_id = required request.actor_id "system";
  reason = request.reason;
  details = normalize_json env request.details;
  created_at = env.now;
}

abbrev pub transition_audit : Env → String → TransitionRequest → AppendRequest
transition_audit env k request =
    audit_of (required request.actor_id "system") "system" "job.transition" "job" k
      (normalize_json env request.details)

unfoldable pub transition_body : Env → String → TransitionRequest → Tx (Unit {0})
transition_body env k request = do
  current ← read_job env Call.read_job k
  reject_if
      (ltb_ℤ (pos 0) request.expected_version
        && not (eqb_ℤ request.expected_version (pos current.version)))
      StoreError.conflict
  reject_if (elim (validate_transition current.state request.to) [ none ↦ false | some _ ↦ true ])
      StoreError.invalid
  update_checked env k current.version (move_to env request.to)
  insert_transition env (transition_entry env k request current.state)
  append_audit env (transition_audit env k request)

unfoldable pub transition_job : Env → String → TransitionRequest → Db → Result Job × Db
transition_job env k request db = read_back env k (in_tx env (transition_body env k request) db)
