-- ===== src/Store/Completion.antt =====
-- internal/storage/sqlite/workflow.go: applyMetadata and CompletePhase.
use code_maintainer.Base.{
  ℕ, ◌+◌, String, Bool, true, false, not, ◌&&◌, ◌||◌, Option, none, some, ◌∷◌, any, ltb, ◌==◌, ◌is◌,
  if◌then◌else◌,
}
use code_maintainer.Base.Int.{ℤ, pos, pos_part, ltb_ℤ, leb_ℤ, eqb_ℤ}
use code_maintainer.Base.Text.{is_empty, byte_len}
use code_maintainer.Base.Patterns.{is_commit}
use code_maintainer.Jobs.State.{State, same, validate_transition}
use code_maintainer.Store.Rows.{
  Job, Transition, JobMetadataPatch, PhaseCompletion, PhaseRecord, AppendRequest,
}
use code_maintainer.Store.Tx.{
  Env, Db, Call, StoreError, Result, err, Tx, ◌>>=◌, ◌>>◌, reject_if, call, gets, modify, or_fail,
  in_tx,
}
use code_maintainer.Store.Tables.{
  normalize_json, required, read_job, append_audit, insert_transition,
}
use code_maintainer.Store.JobOps.{audit_of, read_back, update_checked}

unfoldable pub patch_base : Option String → Job → Option Job
patch_base none j = some j
patch_base (some sha) j =
    if not (is_commit sha) || (not (is_empty j.base_sha) && not (j.base_sha is sha))
    then none
    else some (record j { base_sha = sha })

unfoldable pub patch_result : Option String → Job → Option Job
patch_result none j = some j
patch_result (some sha) j =
    if not (is_empty sha) && not (is_commit sha) then none else some (record j { result_sha = sha })

abbrev pub bad_criteria : Option ℕ → Bool
bad_criteria none = true
bad_criteria (some n) = n == 0 || ltb 64 n

unfoldable pub patch_criteria : Env → Option String → Option String → Job → Option Job
patch_criteria env none none j = some j
patch_criteria env (some criteria) (some hash) j =
    if byte_len criteria == 0
      || ltb 65_536 (byte_len criteria)
      || not (env.json_valid criteria)
      || bad_criteria (env.json_array criteria)
      || not (hash is env.sha256_hex criteria)
      || (not (is_empty j.acceptance_criteria_hash) && not (j.acceptance_criteria_hash is hash))
    then none
    else some (record j { acceptance_criteria = criteria; acceptance_criteria_hash = hash })
patch_criteria env _ _ j = none

unfoldable pub patch_cycle : Option ℤ → Job → Option Job
patch_cycle none j = some j
patch_cycle (some cycle) j =
    if ltb_ℤ cycle (pos j.review_cycle)
      || ltb_ℤ (pos (j.review_cycle + 1)) cycle
      || ltb_ℤ (pos 10) cycle
    then none
    else some (record j { review_cycle = pos_part cycle })

abbrev pub and_then : {A B : Type 0} → Option A → (A → Option B) → Option B
and_then none f = none
and_then (some a) f = f a

unfoldable pub apply_metadata : Env → Job → JobMetadataPatch → Option Job
apply_metadata env current patch = and_then (patch_base patch.base_sha current) λ a.
    and_then (patch_result patch.result_sha a) λ b.
      and_then (patch_criteria env patch.acceptance_criteria patch.acceptance_criteria_hash b)
        λ c. patch_cycle patch.review_cycle c

abbrev pub complete_to : Env → State → Job → Job → Job
complete_to env to updated j = record j {
  state = to;
  base_sha = updated.base_sha;
  result_sha = updated.result_sha;
  acceptance_criteria = updated.acceptance_criteria;
  acceptance_criteria_hash = updated.acceptance_criteria_hash;
  review_cycle = updated.review_cycle;
  version = j.version + 1;
  updated_at = env.now;
}

abbrev pub is_phase : Option State → State → Bool
is_phase none s = false
is_phase (some p) s = same s p

abbrev pub phase_row : Env → PhaseCompletion → Job → PhaseRecord
phase_row env request j = record {
  job_id = request.job_id;
  phase_state = j.state;
  phase_version = j.version;
  outcome = request.outcome;
  created_at = env.now;
}

abbrev pub phase_entry : Env → PhaseCompletion → State → Transition
phase_entry env request from = record {
  job_id = request.job_id;
  from = some from;
  to = request.to;
  actor_id = required request.actor_id "workflow-engine";
  reason = request.reason;
  details = normalize_json env request.details;
  created_at = env.now;
}

abbrev pub phase_audit : Env → PhaseCompletion → AppendRequest
phase_audit env request =
    audit_of (required request.actor_id "workflow-engine") "system" "workflow.phase.complete" "job"
      request.job_id (normalize_json env request.details)

-- The primary key of workflow_phase_records.
abbrev pub phase_recorded : String → ℕ → Db → Bool
phase_recorded k v db =
    any (λ (r : PhaseRecord). r.job_id is k && r.phase_version == v) db.phase_records

unfoldable pub complete_body : Env → PhaseCompletion → Tx (Unit {0})
complete_body env request = do
  current ← read_job env Call.read_job request.job_id
  reject_if
      (not (eqb_ℤ request.expected_version (pos current.version))
        || not (is_phase request.phase_state current.state))
      StoreError.conflict
  reject_if (elim (validate_transition current.state request.to) [ none ↦ false | some _ ↦ true ])
      StoreError.invalid
  updated ← or_fail (apply_metadata env current request.metadata) StoreError.invalid
  update_checked env request.job_id current.version (complete_to env request.to updated)
  call env Call.insert_phase
  taken ← gets (phase_recorded request.job_id current.version)
  reject_if taken (StoreError.driver Call.insert_phase)
  modify λ db. record db { phase_records = phase_row env request current ∷ db.phase_records }
  insert_transition env (phase_entry env request current.state)
  append_audit env (phase_audit env request)

abbrev pub no_phase : Option State → Bool
no_phase none = true
no_phase (some _) = false

abbrev pub bad_completion : Env → PhaseCompletion → Bool
bad_completion env request =
    is_empty request.job_id
    || leb_ℤ request.expected_version (pos 0)
    || no_phase request.phase_state
    || not (env.json_valid (normalize_json env request.details))
    || not (env.json_valid request.outcome)
    || ltb 2_097_152 (byte_len request.outcome)

unfoldable pub complete_phase : Env → PhaseCompletion → Db → Result Job × Db
complete_phase env request db =
    if bad_completion env request
    then (err StoreError.invalid, db)
    else read_back env request.job_id (in_tx env (complete_body env request) db)
