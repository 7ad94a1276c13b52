-- ===== src/Store/Budgets.antt =====
-- internal/storage/sqlite/budgets.go: ReserveJobTokens, which charges the budget of a job for a phase.
use code_maintainer.Base.{
  ℕ, ◌+◌, String, Bool, not, ◌&&◌, ◌||◌, Option, none, some, List, [], ◌∷◌, ltb, ◌==◌, ◌is◌,
  if◌then◌else◌,
}
use code_maintainer.Base.Int.{ℤ, pos, pos_part, ltb_ℤ, eqb_ℤ}
use code_maintainer.Base.Text.{is_empty}
use code_maintainer.Jobs.State.{State, same, valid}
use code_maintainer.Store.Rows.{Job, Reservation}
use code_maintainer.Store.Tx.{
  Env, Db, Call, StoreError, Result, ok, err, Tx, ◌>>=◌, ◌>>◌, pure, reject_if, call, gets, modify,
  settle,
}
use code_maintainer.Store.Tables.{update_job, read_job, append_audit}
use code_maintainer.Store.JobOps.{audit_of, read_back}

-- The reservation of a phase, if one was made.
abbrev pub find_reservation : String → ℕ → List Reservation → Option Reservation
find_reservation k v [] = none
find_reservation k v (r ∷ rs) =
    if r.job_id is k && r.phase_version == v then some r else find_reservation k v rs

abbrev pub charge : Env → ℕ → Job → Job
charge env amount j = record j {
  reserved_tokens = j.reserved_tokens + amount;
  updated_at = env.now;
}

-- The first reservation of a phase.
unfoldable pub reserve_new : Env → String → Job → State → ℕ → Tx (Unit {0})
reserve_new env k job state amount = do
  reject_if (ltb job.max_tokens (job.reserved_tokens + amount)) StoreError.budget_exceeded
  call env Call.insert_reservation
  modify λ db. record db {
    reservations =
        record {
          job_id = k;
          phase_version = job.version;
          phase_state = state;
          reserved_tokens = amount;
          created_at = env.now;
        }
        ∷ db.reservations;
  }
  call env Call.update_job
  modify λ db. record db { jobs = update_job k job.version (charge env amount) db.jobs }
  append_audit env (audit_of "workflow-engine" "system" "job.tokens_reserve" "job" k "")

-- The reads before the reservation: the job, and the reservation that its phase has.
unfoldable pub reserve_reads : Env → String → ℤ → State → Tx (Job × Option Reservation)
reserve_reads env k version state = do
  job ← read_job env Call.read_job k
  reject_if (not (eqb_ℤ version (pos job.version)) || not (same job.state state))
      StoreError.conflict
  call env Call.read_reservation
  existing ← gets (λ db. find_reservation k job.version db.reservations)
  pure (job, existing)

-- A phase that has its reservation returns at once, and nothing is committed.
unfoldable pub reserve_rest :
    Env → String → State → ℕ → Db → Result ((Job × Option Reservation) × Db) → Result Job × Db
reserve_rest env k state amount db (err e) = (err e, db)
reserve_rest env k state amount db (ok ((job, some _), _)) = (ok job, db)
reserve_rest env k state amount db (ok ((job, none), _)) =
    read_back env k (settle env db (reserve_new env k job state amount db))

abbrev pub bad_reservation : String → ℤ → State → ℤ → Bool
bad_reservation k version state amount =
    is_empty k
    || ltb_ℤ version (pos 1)
    || not (valid state)
    || ltb_ℤ amount (pos 1)
    || ltb_ℤ (pos 1_000_000) amount

unfoldable pub reserve_job_tokens : Env → String → ℤ → State → ℤ → Db → Result Job × Db
reserve_job_tokens env k version state amount db =
    if bad_reservation k version state amount
    then (err StoreError.invalid, db)
    else if env.fault Call.begin
    then (err (StoreError.driver Call.begin), db)
    else reserve_rest env k state (pos_part amount) db (reserve_reads env k version state db)

-- applyMetadata, a field of the patch at a time.
