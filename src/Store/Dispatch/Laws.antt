-- ===== src/Store/Dispatch/Laws.antt =====
-- internal/storage/sqlite/automation.go: what the dispatch of a due schedule requires and leaves.
use code_maintainer.Base.{
  ◌*◌, ◌≤◌, ◌≡◌, refl, subst, String, true, false, arith, none, some, List, [], ◌∷◌, All, keep,
  keep-All, All-keep, find, Bool-cases, Option-cases, inl, inr, ◌⊎◌,
}
use code_maintainer.Base.Clock.{second}
use code_maintainer.Base.Int.{pos}
use code_maintainer.Base.Text.{is_blank}
use code_maintainer.Automation.{Schedule, ScheduleRun}
use code_maintainer.Projects.{Project}
use code_maintainer.Store.Ledger.{submits, Change, unchanged, created}
use code_maintainer.Store.Ledger.Keys.{find_job-any}
use code_maintainer.Store.JobOps.Changes.{guarded-Change}
use code_maintainer.Store.Projects.{is_enabled}
use code_maintainer.Store.Tx.{Env, Db, ok, in_tx, in_tx-cases}
use code_maintainer.Store.Tables.{append_audit, insert_transition, update_where, find_job}
use code_maintainer.Store.Schedules.{is_schedule_version}
use code_maintainer.Store.Dispatch.{
  is_due, first_run, in_window, run_again, skipped_run, enqueued_run, scheduled_job,
  scheduled_entry, enqueue, skip, dispatch_row, dispatch_body, dispatch_due_schedule,
}
use code_maintainer.Store.Dispatch.Clock.{IsNextRun, next_run_lands}

-- A run that made a job, and one that was skipped.
pub record Enqueued (env : Env) (s : Schedule) (actor : String) (db : Db) (run : ScheduleRun)
    (db' : Db) : Type 0 where
  pub project : Project
  pub known : find (is_enabled s.project_id) db.projects ≡ some project
  pub new : find_job (env.new_id "job") db.jobs ≡ none
  pub returned : run ≡ enqueued_run env s
  pub jobs : db'.jobs ≡ scheduled_job env s project ∷ db.jobs
  pub transitions : db'.job_transitions ≡ scheduled_entry env s actor ∷ db.job_transitions

pub record Skipped (env : Env) (s : Schedule) (db : Db) (run : ScheduleRun) (db' : Db)
    : Type 0 where
  pub returned : run ≡ skipped_run env s
  pub jobs : db'.jobs ≡ db.jobs
  pub transitions : db'.job_transitions ≡ db.job_transitions

-- What the dispatch of the row `s` leaves.
pub record RowRan (env : Env) (actor : String) (s : Schedule) (db : Db) (run : ScheduleRun)
    (db' : Db) : Type 0 where
  pub outcome :
      ((in_window env.now s.window_start_minute s.window_end_minute ≡ true)
        × Enqueued env s actor db run db')
      ⊎ ((in_window env.now s.window_start_minute s.window_end_minute ≡ false)
          × Skipped env s db run db')
  pub runs : db'.schedule_runs ≡ run ∷ db.schedule_runs
  pub schedules :
      db'.schedules
      ≡ update_where (is_schedule_version s.id (pos s.version)) (run_again env s) db.schedules
  pub reservations : db'.reservations ≡ db.reservations

dispatch_row-open :
    (env : Env) (actor : String) (s : Schedule) (db : Db) (run : ScheduleRun) (db' : Db)
    → in_window env.now s.window_start_minute s.window_end_minute ≡ true
    → dispatch_row env actor s db ≡ ok (run, db')
    → RowRan env actor s db run db'
unfolding dispatch_row enqueue append_audit insert_transition
dispatch_row-open env actor s db run db' inside h =
    elim (Option-cases (find (is_enabled s.project_id) db.projects)) [
      | inl missing ↦ absurd (ground arith)
      | inr (p, known) ↦ record {
        outcome = inl (
          inside,
          record {
            project = p;
            known = known;
            new = find_job-any (env.new_id "job") db.jobs (ground arith);
            returned = ground arith;
            jobs = ground arith;
            transitions = ground arith;
          },
        );
        runs = ground arith;
        schedules = ground arith;
        reservations = ground arith;
      }
    ]

dispatch_row-closed :
    (env : Env) (actor : String) (s : Schedule) (db : Db) (run : ScheduleRun) (db' : Db)
    → in_window env.now s.window_start_minute s.window_end_minute ≡ false
    → dispatch_row env actor s db ≡ ok (run, db')
    → RowRan env actor s db run db'
unfolding dispatch_row skip append_audit
dispatch_row-closed env actor s db run db' outside h = record {
  outcome = inr (
    outside,
    record { returned = ground arith; jobs = ground arith; transitions = ground arith },
  );
  runs = ground arith;
  schedules = ground arith;
  reservations = ground arith;
}

dispatch_row-Ran :
    (env : Env) (actor : String) (s : Schedule) (db : Db) (run : ScheduleRun) (db' : Db)
    → dispatch_row env actor s db ≡ ok (run, db')
    → RowRan env actor s db run db'
dispatch_row-Ran env actor s db run db' h =
    elim (Bool-cases (in_window env.now s.window_start_minute s.window_end_minute)) [
      | inl inside ↦ dispatch_row-open env actor s db run db' inside h
      | inr outside ↦ dispatch_row-closed env actor s db run db' outside h
    ]

-- What a dispatch found due, and did.
pub record Dispatched (env : Env) (actor : String) (db : Db) (run : ScheduleRun) (db' : Db)
    : Type 0 where
  pub schedule : Schedule
  pub due : first_run (keep (is_due env.now) db.schedules) ≡ some schedule
  pub ran : RowRan env actor schedule db run db'

dispatch_body-Dispatched :
    (env : Env) (actor : String) (db : Db) (run : ScheduleRun) (db' : Db)
    → dispatch_body env actor db ≡ ok (run, db')
    → Dispatched env actor db run db'
unfolding dispatch_body
dispatch_body-Dispatched env actor db run db' h =
    elim (Option-cases (first_run (keep (is_due env.now) db.schedules))) [
      | inl idle ↦ absurd (ground arith)
      | inr (s, due) ↦ record {
        schedule = s;
        due = due;
        ran = dispatch_row-Ran env actor s db run db' (ground arith);
      }
    ]

first_run-All :
    (P : Schedule → Type 0) (ss : List Schedule) (s : Schedule)
    → All P ss
    → first_run ss ≡ some s
    → P s
first_run-All P [] s ps h = absurd (cc)
first_run-All P (x ∷ xs) s (p, ps) h = elim (Option-cases (first_run xs)) [
  | inl none_left ↦ let one : x ≡ s = ground arith in subst P one p
  | inr (y, rest) ↦
      let q = first_run-All P xs y ps rest in
      let which : (y ≡ s) ⊎ (x ≡ s) = ground arith in
      elim which [ inl e ↦ subst P e q | inr e ↦ subst P e p ]
]

-- What the dispatch of a schedule means for the schedule.
pub record MovedOn (env : Env) (actor : String) (db : Db) (run : ScheduleRun) (db' : Db)
    : Type 0 where
  pub done : Dispatched env actor db run db'
  pub due_now : is_due env.now done.schedule ≡ true
  pub next :
      IsNextRun env.now
        (done.schedule.interval_seconds * second)
        done.schedule.next_run_at
        (run_again env done.schedule done.schedule).next_run_at

-- A table whose schedules have an interval.
abbrev pub Ticks : Db → Type 0
Ticks db = All (λ (s : Schedule). 1 ≤ s.interval_seconds) db.schedules

Dispatched-MovedOn :
    (env : Env) (actor : String) (db : Db) (run : ScheduleRun) (db' : Db)
    → Ticks db
    → Dispatched env actor db run db'
    → MovedOn env actor db run db'
Dispatched-MovedOn env actor db run db' ticks d =
    let due = keep (is_due env.now) db.schedules in
    let interval : 1 ≤ d.schedule.interval_seconds =
      first_run-All (λ (s : Schedule). 1 ≤ s.interval_seconds) due d.schedule
        (All-keep (λ (s : Schedule). 1 ≤ s.interval_seconds) (is_due env.now) db.schedules ticks)
        d.due in
    record {
      done = d;
      due_now =
          first_run-All (λ s. is_due env.now s ≡ true) due d.schedule
            (keep-All (is_due env.now) db.schedules) d.due;
      next =
          next_run_lands env.now (d.schedule.interval_seconds * second) d.schedule.next_run_at
            (omega arith);
    }

-- A dispatch that returns a run found the first of the enabled schedules that were due. Inside its
-- window, the run's job is stored and logged as queued under a new id, with the repository of its
-- enabled project and the budgets of the schedule; outside, the run is recorded as skipped and no
-- job is made. Either way the run is logged, and the schedule's next run is the first one of its
-- grid after the clock, under the next version.
pub dispatch_due_schedule_ok :
    (env : Env) (actor : String) (db : Db) (run : ScheduleRun)
    → Ticks db
    → (dispatch_due_schedule env actor db).0 ≡ ok run
    → MovedOn env actor db run (dispatch_due_schedule env actor db).1
unfolding dispatch_due_schedule
dispatch_due_schedule_ok env actor db run ticks h = elim (Bool-cases (is_blank actor)) [
  | inl unnamed ↦ absurd (ground arith)
  | inr named ↦ elim (in_tx-cases env (dispatch_body env actor) db) [
    | inl (e, stays) ↦ absurd (ground arith)
    | inr (x, db', ran, stays) ↦
        let same : x ≡ run = ground arith in
        rw (named, stays)
          (Dispatched-MovedOn env actor db run db' ticks
            (dispatch_body-Dispatched env actor db run db' (rw same at ran)))
  ]
]

Dispatched-Change :
    (env : Env) (actor : String) (db : Db) (run : ScheduleRun) (db' : Db)
    → Dispatched env actor db run db'
    → Change (submits (env.new_id "job")) db db'
Dispatched-Change env actor db run db' d = elim d.ran.outcome [
  | inl (_, e) ↦ created (record {
    job = scheduled_job env d.schedule e.project;
    entry = scheduled_entry env d.schedule actor;
    named = refl;
    new = e.new;
    fresh = (refl, refl, refl);
    logs = (refl, refl, refl);
    jobs = e.jobs;
    transitions = e.transitions;
    reservations = d.ran.reservations;
  })
  | inr (_, e) ↦ unchanged e.jobs e.transitions d.ran.reservations
]

pub dispatch_due_schedule-Change :
    (env : Env) (actor : String) (db : Db)
    → Change (submits (env.new_id "job")) db (dispatch_due_schedule env actor db).1
unfolding dispatch_due_schedule
dispatch_due_schedule-Change env actor db =
    let ran =
      elim (in_tx-cases env (dispatch_body env actor) db)
        as (λ x.
          Change (submits (env.new_id "job")) db (in_tx env (dispatch_body env actor) db).1) [
            | inl (e, stays) ↦ rw stays (unchanged refl refl refl)
            | inr (run, db', ran, stays) ↦ rw stays (
                Dispatched-Change env actor db run db'
                  (dispatch_body-Dispatched env actor db run db' ran))
          ] in
    search (guarded-Change, ran)
