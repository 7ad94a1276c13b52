-- ===== src/Store/Dispatch/Blocked.antt =====
-- internal/storage/sqlite/automation.go: a due schedule that stops every dispatch.
use code_maintainer.Base.{
  ◌≡◌, refl, String, Bool, true, false, arith, none, some, if◌then◌else◌, keep, find, Bool-cases,
  inl, inr,
}
use code_maintainer.Base.Text.{is_blank}
use code_maintainer.Automation.{AutomationError, Schedule, ScheduleRun}
use code_maintainer.Store.Projects.{is_enabled}
use code_maintainer.Store.Tx.{Call, StoreError, Env, Db, Tx, ◌>>=◌, err, in_tx-cases}
use code_maintainer.Store.Dispatch.{
  is_due, first_run, in_window, enqueue, skip, dispatch_row, dispatch_body, dispatch_due_schedule,
}

blocked_enqueue :
    (env : Env) (actor : String) (s : Schedule) (db : Db)
    → find (is_enabled s.project_id) db.projects ≡ none
    → (e : StoreError) × (enqueue env s actor db ≡ err e)
unfolding enqueue
blocked_enqueue env actor s db missing = elim (Bool-cases (env.fault Call.read_project)) [
  | inl b ↦ (StoreError.driver Call.read_project, ground arith)
  | inr b ↦ (StoreError.not_found, ground arith)
]

-- A sequence whose chosen start fails.
chosen_err :
    (b : Bool) (m n : Tx ScheduleRun) (f : ScheduleRun → Tx ScheduleRun) (db : Db) (e : StoreError)
    → b ≡ true
    → m db ≡ err e
    → ((if b then m else n) >>= f) db ≡ err e
chosen_err true m n f db e h failed = rw (◌>>=◌, failed) refl
chosen_err false m n f db e h failed = absurd (cc)

blocked_row :
    (env : Env) (actor : String) (s : Schedule) (db : Db)
    → in_window env.now s.window_start_minute s.window_end_minute ≡ true
    → find (is_enabled s.project_id) db.projects ≡ none
    → (e : StoreError) × (dispatch_row env actor s db ≡ err e)
unfolding dispatch_row
blocked_row env actor s db inside missing =
    let (e, failed) = blocked_enqueue env actor s db missing in
    elim (Bool-cases (env.fault Call.random)) [
      | inl b ↦ (StoreError.driver Call.random, ground arith)
      | inr b ↦ (
        e,
        rw (dispatch_row, b)
            (chosen_err (in_window env.now s.window_start_minute s.window_end_minute)
              (enqueue env s actor) (skip env s) _ db e inside failed),
      )
    ]

blocked_body :
    (env : Env) (actor : String) (s : Schedule) (db : Db)
    → first_run (keep (is_due env.now) db.schedules) ≡ some s
    → in_window env.now s.window_start_minute s.window_end_minute ≡ true
    → find (is_enabled s.project_id) db.projects ≡ none
    → (e : StoreError) × (dispatch_body env actor db ≡ err e)
unfolding dispatch_body
blocked_body env actor s db due inside missing =
    let (e, failed) = blocked_row env actor s db inside missing in
    elim (Bool-cases (env.fault Call.read_schedule)) [
      | inl b ↦ (StoreError.driver Call.read_schedule, ground arith)
      | inr b ↦ (e, ground arith)
    ]

-- While the first due schedule is inside its window and has no enabled project, every dispatch
-- fails and changes nothing: neither is the schedule moved to its next run, nor is another due
-- schedule dispatched.
pub dispatch_due_schedule_blocked :
    (env : Env) (actor : String) (s : Schedule) (db : Db)
    → first_run (keep (is_due env.now) db.schedules) ≡ some s
    → in_window env.now s.window_start_minute s.window_end_minute ≡ true
    → find (is_enabled s.project_id) db.projects ≡ none
    → (e : StoreError) × (dispatch_due_schedule env actor db ≡ (err e, db))
unfolding dispatch_due_schedule
dispatch_due_schedule_blocked env actor s db due inside missing =
    let (e, failed) = blocked_body env actor s db due inside missing in
    elim (Bool-cases (is_blank actor)) [
      | inl unnamed ↦ (StoreError.automation AutomationError.invalid, ground arith)
      | inr named ↦ elim (in_tx-cases env (dispatch_body env actor) db) [
        | inl (e', stays) ↦ (e', rw named stays)
        | inr (run, db', ran, stays) ↦ absurd (ground arith)
      ]
    ]
