-- ===== src/Store/Schedules.antt =====
-- internal/storage/sqlite/automation.go: schedules are saved under a version, and a due one is
-- dispatched as a job.
use code_maintainer.Base.{
  ℕ, zero, suc, ◌+◌, ◌-◌, ◌*◌, ◌/◌, ◌%◌, String, Bool, true, false, not, ◌&&◌, ◌||◌, Option, none,
  some, List, [], ◌∷◌, any, keep, find, length, take, ltb, leb, ◌==◌, ◌is◌, if◌then◌else◌,
}
use code_maintainer.Base.Int.{ℤ, pos, pos_part, ltb_ℤ, leb_ℤ, eqb_ℤ}
use code_maintainer.Base.Clock.{Time, is_zero, second}
use code_maintainer.Base.Stamp.{stamp_before, text_before}
use code_maintainer.Base.Text.{codes, is_blank, is_empty, trim_space}
use code_maintainer.Automation.{
  AutomationError, Schedule, ScheduleRequest, ScheduleRun, schedule_valid,
}
use code_maintainer.Jobs.State.{queued}
use code_maintainer.Projects.{Project}
use code_maintainer.Scheduler.Order.{stable_sort}
use code_maintainer.Store.Projects.{get_project, is_enabled}
use code_maintainer.Store.Rows.{Job, Transition}
use code_maintainer.Store.Tx.{
  Env, Db, Call, StoreError, Result, ok, err, Tx, ◌>>=◌, ◌>>◌, pure, fail, reject_if, call, gets,
  modify, or_fail, in_tx,
}
use code_maintainer.Store.Tables.{append_audit, insert_transition, count_where, update_where}
use code_maintainer.Store.JobOps.{audit_of}
pub mod Save

abbrev pub find_schedule : String → List Schedule → Option Schedule
find_schedule k [] = none
find_schedule k (s ∷ ss) = if s.id is k then some s else find_schedule k ss

-- The row of a request that names its id and its first run.
abbrev pub saved : Env → ScheduleRequest → ℕ → Time → Schedule
saved env r version created = record {
  id = r.id;
  project_id = r.project_id;
  name = trim_space r.name;
  task_type = r.task_type;
  task = trim_space r.task;
  interval_seconds = pos_part r.interval_seconds;
  window_start_minute = pos_part r.window_start_minute;
  window_end_minute = pos_part r.window_end_minute;
  max_wall_seconds = pos_part r.max_wall_seconds;
  max_tokens = pos_part r.max_tokens;
  enabled = r.enabled;
  next_run_at = r.next_run_at;
  version = version;
  created_at = created;
  updated_at = env.now;
}

-- `WHERE id = ? AND version = ?`
abbrev pub is_schedule_version : String → ℤ → Schedule → Bool
is_schedule_version k v s = s.id is k && eqb_ℤ v (pos s.version)

abbrev pub save_row : Env → ScheduleRequest → Schedule → Schedule
save_row env r s = saved env r (s.version + 1) s.created_at

-- The insertion of a new row, or the update of the row that was read.
unfoldable pub write_row : Env → ScheduleRequest → Option Schedule → Tx Schedule
write_row env r none = do
  reject_if (not (eqb_ℤ r.expected_version (pos 0)))
      (StoreError.automation AutomationError.conflict)
  call env Call.write_schedule
  modify λ db. record db { schedules = saved env r 1 env.now ∷ db.schedules }
  pure (saved env r 1 env.now)
write_row env r (some s) = do
  reject_if (not (eqb_ℤ r.expected_version (pos s.version)))
      (StoreError.automation AutomationError.conflict)
  call env Call.write_schedule
  rows ← gets (λ db. count_where (is_schedule_version r.id r.expected_version) db.schedules)
  modify λ db. record db {
    schedules =
        update_where (is_schedule_version r.id r.expected_version) (save_row env r) db.schedules;
  }
  reject_if (not (rows == 1)) (StoreError.automation AutomationError.conflict)
  pure (save_row env r s)

unfoldable pub save_body : Env → ScheduleRequest → String → Tx Schedule
unfolding write_row
save_body env r actor = do
  call env Call.read_schedule
  found ← gets (λ db. find_schedule r.id db.schedules)
  s ← write_row env r found
  append_audit env (audit_of actor "administrator" "schedule.save" "schedule" r.id "")
  pure s

-- The request with the id that is drawn for it and its first run.
abbrev pub filled : Env → ScheduleRequest → ScheduleRequest
filled env r = record r {
  id = if is_empty r.id then env.new_id "schedule" else r.id;
  next_run_at =
      if is_zero r.next_run_at
      then env.now + pos_part r.interval_seconds * second
      else r.next_run_at;
}

unfoldable pub save_known :
    Env → ScheduleRequest → String → Db → Result Project → Result Schedule × Db
save_known env r actor db (err e) = (err e, db)
save_known env r actor db (ok _) =
    if is_empty r.id && env.fault Call.random
    then (err (StoreError.driver Call.random), db)
    else in_tx env (save_body env (filled env r) actor) db

-- SaveSchedule
unfoldable pub save_schedule : Env → ScheduleRequest → String → Db → Result Schedule × Db
unfolding save_known
save_schedule env r actor db =
    if not (schedule_valid r) || is_blank actor
    then (err (StoreError.automation AutomationError.invalid), db)
    else save_known env r actor db (get_project env r.project_id db)

-- GetSchedule
unfoldable pub get_schedule : Env → String → Db → Result Schedule
get_schedule env k db =
    if env.fault Call.read_schedule
    then err (StoreError.driver Call.read_schedule)
    else elim (find_schedule k db.schedules) [
      | none ↦ err (StoreError.automation AutomationError.not_found)
      | some s ↦ ok s
    ]

-- The limit of the list queries of this file: out of range is 100.
unfoldable pub limit_or_hundred : ℤ → ℕ
limit_or_hundred limit =
    if leb_ℤ limit (pos 0) || ltb_ℤ (pos 500) limit then 100 else pos_part limit

-- `ORDER BY name, id`
abbrev by_name : Schedule → Schedule → Bool
by_name a b =
    text_before (codes a.name) (codes b.name)
    || (a.name is b.name && text_before (codes a.id) (codes b.id))

-- ListSchedules
unfoldable pub list_schedules : Env → ℤ → Db → Result (List Schedule)
list_schedules env limit db =
    if env.fault Call.read_schedule
    then err (StoreError.driver Call.read_schedule)
    else ok (take (limit_or_hundred limit) (stable_sort by_name db.schedules))
