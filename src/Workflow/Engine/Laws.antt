-- ===== src/Workflow/Engine/Laws.antt =====
-- internal/workflow/engine.go: what a step of the engine leaves in the store.
use code_maintainer.Base.{◌≡◌, refl, String, Option, none, some, Bool-cases, inl, inr, ◌==◌}
use code_maintainer.Jobs.State.{State, failed, resumable, can_transition}
use code_maintainer.Store.Rows.{Job}
use code_maintainer.Store.Tx.{Db, Result, ok, err}
use code_maintainer.Store.Ledger.{Consistent}
use code_maintainer.Store.Ledger.Steps.{Change-Consistent}
use code_maintainer.Store.JobOps.Changes.{
  transition_job-Change, reserve_job_tokens-Change, complete_phase-Change,
}
use code_maintainer.Workflow.Route.{Outcome, Routed, to, refused, phase_token_reservation}
use code_maintainer.Workflow.Engine.{
  Cause, Executed, outcome, cancelled_context, failure, World, Executor, failed_with, fail_job,
  returned, finish_phase, after_execute, run_phase, after_reserve, step_job, step, step_read,
  past_deadline, record_phase, follow_route,
}

-- The executor, with all that other actors do while it runs, keeps the tables consistent.
abbrev pub IsQuiet : Executor → Type 0
IsQuiet execute = (j : Job) (db : Db) → Consistent db → Consistent (execute j db).1

failed_with-db : (cause : Cause) (r : Result Job × Db) → (failed_with cause r).1 ≡ r.1
unfolding failed_with
failed_with-db cause (ok j, db) = refl
failed_with-db cause (err e, db) = refl

pub returned-db : (r : Result Job × Db) → (returned r).1 ≡ r.1
unfolding returned
returned-db (ok j, db) = refl
returned-db (err e, db) = refl

module _ (w : World) where
  fail_job-Consistent :
      (j : Job) (cause : Cause) (reason : String) (db : Db)
      → Consistent db
      → Consistent (fail_job w j cause reason db).1
  unfolding fail_job
  fail_job-Consistent j cause reason db c = elim (Bool-cases (can_transition j.state failed)) [
    | inr stuck ↦ rw stuck c
    | inl free ↦
        rw (free, failed_with-db)
          (Change-Consistent db _ c (transition_job-Change w.fail_env j.id _ db))
  ]

  record_phase-Consistent :
      (j : Job) (o : Outcome) (t : State) (m : Option String) (db : Db)
      → Consistent db
      → Consistent (record_phase w j o t m db).1
  unfolding record_phase
  record_phase-Consistent j o t none db c = c
  record_phase-Consistent j o t (some m) db c =
      rw returned-db (Change-Consistent db _ c (complete_phase-Change w.complete_env _ db))

  follow_route-Consistent :
      (j : Job) (o : Outcome) (r : Routed) (db : Db)
      → Consistent db
      → Consistent (follow_route w j o r db).1
  unfolding follow_route
  follow_route-Consistent j o (refused e) db c = c
  follow_route-Consistent j o (to t) db c = record_phase-Consistent j o t (w.marshal o) db c

  after_execute-Consistent :
      (j : Job) (x : Executed) (db : Db) → Consistent db → Consistent (after_execute w j (x, db)).1
  unfolding after_execute finish_phase
  after_execute-Consistent j (outcome o) db c = follow_route-Consistent j o _ db c
  after_execute-Consistent j cancelled_context db c = fail_job-Consistent j _ _ db c
  after_execute-Consistent j (failure e) db c = fail_job-Consistent j _ _ db c

  module _ (execute : Executor) (quiet : IsQuiet execute) where
    run_phase-Consistent :
        (j : Job) (db : Db) → Consistent db → Consistent (run_phase w execute j db).1
    unfolding run_phase
    run_phase-Consistent j db c =
        let (x, d) = execute j db in after_execute-Consistent j x d (quiet j db c)

    after_reserve-Consistent :
        (j : Job) (r : Result Job) (db : Db)
        → Consistent db
        → Consistent (after_reserve w execute j (r, db)).1
    unfolding after_reserve
    after_reserve-Consistent j (ok i) db c = run_phase-Consistent i db c
    after_reserve-Consistent j (err e) db c = fail_job-Consistent j _ _ db c

    step_job-Consistent :
        (j : Job) (db : Db) → Consistent db → Consistent (step_job w execute j db).1
    unfolding step_job
    step_job-Consistent j db c = elim (Bool-cases (resumable j.state)) [
      | inr stuck ↦ rw stuck c
      | inl free ↦ elim (Bool-cases (past_deadline w j)) [
        | inl late ↦ rw (free, late) (fail_job-Consistent j _ _ db c)
        | inr early ↦ elim (Bool-cases (phase_token_reservation j.state == 0)) [
          | inl plain ↦ rw (free, early, plain) (run_phase-Consistent j db c)
          | inr paid ↦
              rw (free, early, paid)
                (after_reserve-Consistent j _ _ (
                  Change-Consistent db _ c (reserve_job_tokens-Change w.reserve_env j.id _ _ _ db)))
        ]
      ]
    ]

    step_read-Consistent :
        (r : Result Job) (db : Db) → Consistent db → Consistent (step_read w execute r db).1
    unfolding step_read
    step_read-Consistent (ok j) db c = step_job-Consistent j db c
    step_read-Consistent (err e) db c = c

    -- A step of the engine keeps the tables of jobs consistent, whichever way it ends, as long as
    -- the phase executor does.
    pub step-Consistent :
        (k : String) (db : Db) → Consistent db → Consistent (step w execute k db).1
    unfolding step
    step-Consistent k db c = step_read-Consistent _ db c
