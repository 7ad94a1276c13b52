-- ===== src/Store/Dispatch.antt =====
-- internal/storage/sqlite/automation.go: DispatchDueSchedule, which makes a job of a due schedule and
-- moves the schedule to its next run.
pub mod Clock
pub mod Laws
pub mod Blocked
use code_maintainer.Base.{
  ℕ, zero, suc, ◌+◌, ◌-◌, ◌*◌, ◌/◌, ◌%◌, String, Bool, true, false, not, ◌&&◌, ◌||◌, Option, none,
  some, List, [], ◌∷◌, any, keep, find, length, take, ltb, leb, ◌==◌, ◌is◌, if◌then◌else◌,
}
use code_maintainer.Base.Int.{ℤ, pos, pos_part, ltb_ℤ, leb_ℤ, eqb_ℤ}
use code_maintainer.Base.Clock.{Time, is_zero, second}
use code_maintainer.Base.Stamp.{stamp_before, text_before}
use code_maintainer.Base.Text.{codes, is_blank, is_empty, trim_space}
use code_maintainer.Automation.{
  AutomationError, Schedule, ScheduleRequest, ScheduleRun, schedule_valid,
}
use code_maintainer.Jobs.State.{queued}
use code_maintainer.Projects.{Project}
use code_maintainer.Scheduler.Order.{stable_sort}
use code_maintainer.Store.Projects.{get_project, is_enabled}
use code_maintainer.Store.Rows.{Job, Transition}
use code_maintainer.Store.Tx.{
  Env, Db, Call, StoreError, Result, ok, err, Tx, ◌>>=◌, ◌>>◌, pure, fail, reject_if, call, gets,
  modify, or_fail, in_tx,
}
use code_maintainer.Store.Tables.{append_audit, insert_transition, count_where, update_where}
use code_maintainer.Store.JobOps.{audit_of}
use code_maintainer.Store.Schedules.{is_schedule_version, limit_or_hundred}

-- `enabled = 1 AND next_run_at <= ?`
abbrev pub is_due : Time → Schedule → Bool
is_due now s = s.enabled && not (stamp_before now s.next_run_at)

-- `ORDER BY next_run_at, id`
abbrev sooner : Schedule → Schedule → Bool
sooner a b =
    stamp_before a.next_run_at b.next_run_at
    || (not (stamp_before b.next_run_at a.next_run_at) && text_before (codes a.id) (codes b.id))

abbrev sooner_of : Schedule → Option Schedule → Schedule
sooner_of s none = s
sooner_of s (some t) = if sooner t s then t else s

-- The first of the due rows.
abbrev pub first_run : List Schedule → Option Schedule
first_run [] = none
first_run (s ∷ ss) = some (sooner_of s (first_run ss))

-- `for !next.After(now) { next = next.Add(interval) }`
unfoldable pub advance : ℕ → Time → ℕ → Time → Time
advance zero now interval next = next
advance (suc fuel) now interval next = elim (ltb now next) [
  | true ↦ next
  | false ↦ advance fuel now interval (next + interval)
]

-- The next run. Each round adds at least one to `next`, so that these rounds are enough.
unfoldable pub next_run : Time → ℕ → Time → Time
unfolding advance
next_run now interval due = advance (suc now - due) now interval due

-- withinScheduleWindow
unfoldable pub in_window : Time → ℕ → ℕ → Bool
in_window now start stop =
    let minute = (now / second / 60) % 1440 in
    if start == stop
    then true
    else if ltb start stop
    then leb start minute && ltb minute stop
    else leb start minute || ltb minute stop

abbrev pub skipped_run : Env → Schedule → ScheduleRun
skipped_run env s = record {
  id = env.new_id "schedulerun";
  schedule_id = s.id;
  job_id = "";
  status = "skipped";
  reason = "outside configured UTC maintenance window";
  due_at = s.next_run_at;
  created_at = env.now;
}

abbrev pub enqueued_run : Env → Schedule → ScheduleRun
enqueued_run env s = record {
  id = env.new_id "schedulerun";
  schedule_id = s.id;
  job_id = env.new_id "job";
  status = "enqueued";
  reason = "scheduled task entered the serial controller queue";
  due_at = s.next_run_at;
  created_at = env.now;
}

-- The id column is unique.
insert_run : Env → ScheduleRun → Tx (Unit {0})
insert_run env run = do
  call env Call.insert_run
  taken ← gets (λ db. any (λ (r : ScheduleRun). r.id is run.id) db.schedule_runs)
  reject_if taken (StoreError.driver Call.insert_run)
  modify λ db. record db { schedule_runs = run ∷ db.schedule_runs }

abbrev pub scheduled_job : Env → Schedule → Project → Job
scheduled_job env s p = record {
  id = env.new_id "job";
  project_id = p.id;
  repository = p.repository;
  task = s.task;
  issue_number = none;
  state = queued;
  base_sha = "";
  result_sha = "";
  acceptance_criteria = "[]";
  acceptance_criteria_hash = "";
  review_cycle = 0;
  max_wall_seconds = s.max_wall_seconds;
  deadline_at = env.now + s.max_wall_seconds * second;
  max_tokens = s.max_tokens;
  reserved_tokens = 0;
  version = 1;
  created_at = env.now;
  updated_at = env.now;
}

abbrev pub scheduled_entry : Env → Schedule → String → Transition
scheduled_entry env s actor = record {
  job_id = env.new_id "job";
  from = none;
  to = queued;
  actor_id = actor;
  reason = "scheduled job submitted";
  details = env.schedule_details s;
  created_at = env.now;
}

unfoldable pub enqueue : Env → Schedule → String → Tx ScheduleRun
unfolding insert_run
enqueue env s actor = do
  call env Call.read_project
  known ← gets (λ db. find (is_enabled s.project_id) db.projects)
  p ← or_fail known StoreError.not_found
  call env Call.random
  call env Call.insert_job
  taken ← gets (λ db. any (λ (j : Job). j.id is env.new_id "job") db.jobs)
  reject_if taken (StoreError.driver Call.insert_job)
  modify λ db. record db { jobs = scheduled_job env s p ∷ db.jobs }
  insert_transition env (scheduled_entry env s actor)
  call env Call.snapshot
  insert_run env (enqueued_run env s)
  pure (enqueued_run env s)

unfoldable pub skip : Env → Schedule → Tx ScheduleRun
unfolding insert_run
skip env s = do insert_run env (skipped_run env s); pure (skipped_run env s)

abbrev pub run_again : Env → Schedule → Schedule → Schedule
run_again env s row = record row {
  next_run_at = next_run env.now (s.interval_seconds * second) s.next_run_at;
  version = row.version + 1;
  updated_at = env.now;
}

-- The run of a schedule, and the move of the schedule to its next run.
unfoldable pub dispatch_row : Env → String → Schedule → Tx ScheduleRun
dispatch_row env actor s = do
  call env Call.random
  run ←
      if in_window env.now s.window_start_minute s.window_end_minute
      then enqueue env s actor
      else skip env s
  call env Call.write_schedule
  rows ← gets (λ db. count_where (is_schedule_version s.id (pos s.version)) db.schedules)
  modify λ db. record db {
    schedules =
        update_where (is_schedule_version s.id (pos s.version)) (run_again env s) db.schedules;
  }
  reject_if (not (rows == 1)) (StoreError.automation AutomationError.conflict)
  append_audit env (audit_of actor "system" "schedule.dispatch" "schedule_run" run.id "")
  pure run

unfoldable pub dispatch_body : Env → String → Tx ScheduleRun
dispatch_body env actor = do
  call env Call.read_schedule
  due ← gets (λ db. first_run (keep (is_due env.now) db.schedules))
  s ← or_fail due (StoreError.automation AutomationError.no_due_schedule)
  dispatch_row env actor s

-- DispatchDueSchedule
unfoldable pub dispatch_due_schedule : Env → String → Db → Result ScheduleRun × Db
dispatch_due_schedule env actor db =
    if is_blank actor
    then (err (StoreError.automation AutomationError.invalid), db)
    else in_tx env (dispatch_body env actor) db

-- ListScheduleRuns: the log is newest first.
unfoldable pub list_schedule_runs : Env → ℤ → Db → Result (List ScheduleRun)
list_schedule_runs env limit db =
    if env.fault Call.read_schedule
    then err (StoreError.driver Call.read_schedule)
    else ok (take (limit_or_hundred limit) db.schedule_runs)
