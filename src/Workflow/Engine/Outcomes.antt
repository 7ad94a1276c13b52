-- ===== src/Workflow/Engine/Outcomes.antt =====
-- internal/workflow/engine.go: what the result of a step tells its caller.
use code_maintainer.Base.{
  ap, ◌∙◌, ◌⊎◌, ◌≤◌, Option-cases, ◌+◌, ◌≡◌, ◌≢◌, refl, String, true, false, Option, none, some,
  arith, Bool-cases, inl, inr, ◌==◌,
}
use code_maintainer.Base.Int.{pos}
use code_maintainer.Jobs.State.{State, failed, resumable, can_transition}
use code_maintainer.Jobs.Graph.{can_fail}
use code_maintainer.Store.Rows.{Job, TransitionRequest}
use code_maintainer.Store.Tx.{Db, Result, ok, err}
use code_maintainer.Store.Tables.{find_job}
use code_maintainer.Store.Ledger.{Consistent}
use code_maintainer.Store.JobOps.{get_job, move_to}
use code_maintainer.Store.Completion.{complete_phase}
use code_maintainer.Store.Budgets.{reserve_job_tokens}
use code_maintainer.Store.JobOps.Budget.{reserve-same}
use code_maintainer.Store.Ledger.Keys.{find_job-id}
use code_maintainer.Store.JobOps.Laws.{calm, fresh_audit, transition_job_moves, find_moved}
use code_maintainer.Store.JobOps.Phases.{complete_phase_ok, find_completed}
use code_maintainer.Workflow.Route.{
  Outcome, Routed, to, refused, next_state, phase_token_reservation,
}
use code_maintainer.Workflow.Engine.Laws.{returned-db}
use code_maintainer.Workflow.Engine.{
  Cause, Executed, outcome, cancelled_context, failure, Stepped, World, Executor, failed_with,
  fail_job, returned, finish_phase, after_execute, run_phase, after_reserve, step_job, step,
  step_read, past_deadline, record_phase, follow_route, completion,
}

-- The job that the executor sees, and the tables that it sees it in: those that were read where the
-- phase costs no tokens, otherwise what the reservation of its tokens returned and left.
abbrev pub Handed : World → Job → Db → Job → Db → Type 0
Handed w found db job before =
    let tokens = phase_token_reservation found.state in
    ((tokens ≡ 0) × (job ≡ found) × (before ≡ db))
    ⊎ ((1 ≤ tokens)
        × (reserve_job_tokens w.reserve_env found.id (pos found.version) found.state (pos tokens) db
            ≡ (ok job, before)))

-- The executor ran on the job and reported an outcome; the route of that leads to `next`, and the
-- job was returned and is stored in `next`, one version on.
pub record Ran (execute : Executor) (job : Job) (before : Db) (res : Stepped × Db) : Type 0 where
  pub during : Db
  pub reported : Outcome
  pub next : State
  pub after : Job
  pub ran : execute job before ≡ (outcome reported, during)
  pub routed : next_state job.state reported ≡ to next
  pub returns : res.0.job ≡ some after
  pub state : after.state ≡ next
  pub version : after.version ≡ job.version + 1
  pub stored : find_job job.id res.1.jobs ≡ some after

-- The job with the key was read, in a resumable state and before its deadline; its phase was paid
-- for, and it was handed to the executor, which advanced it.
pub record Advanced (w : World) (execute : Executor) (k : String) (db : Db) (res : Stepped × Db)
    : Type 0 where
  pub found : Job
  pub job : Job
  pub before : Db
  pub key : found.id ≡ k
  pub read : get_job w.read_env k db ≡ ok found
  pub resumable_state : resumable found.state ≡ true
  pub early : past_deadline w found ≡ false
  pub handed : Handed w found db job before
  pub same : (job.id ≡ k) × (job.state ≡ found.state) × (job.version ≡ found.version)
  pub ran : Ran execute job before res

returned-ok :
    (r : Result Job × Db)
    → (returned r).0.error ≡ none
    → (j : Job) × (r.0 ≡ ok j) × ((returned r).0.job ≡ some j)
unfolding returned
returned-ok (ok j, db) h = (j, refl, refl)
returned-ok (err e, db) h = absurd (cc)

failed_with-error :
    (cause : Cause) (r : Result Job × Db) → (failed_with cause r).0.error ≡ some cause
unfolding failed_with
failed_with-error cause (ok j, db) = refl
failed_with-error cause (err e, db) = refl

module _ (w : World) where
  fail_job-error :
      (j : Job) (cause : Cause) (reason : String) (db : Db)
      → (fail_job w j cause reason db).0.error ≢ none
  unfolding fail_job
  fail_job-error j cause reason db h = elim (Bool-cases (can_transition j.state failed)) [
    | inr stuck ↦ cc (rw stuck at h)
    | inl free ↦ cc (rw (free, failed_with-error) at h)
  ]

  module _ (execute : Executor) where
    record_phase-Ran :
        (i : Job) (d during : Db) (o : Outcome) (t : State) (m : Option String)
        → execute i d ≡ (outcome o, during)
        → next_state i.state o ≡ to t
        → (record_phase w i o t m during).0.error ≡ none
        → Ran execute i d (record_phase w i o t m during)
    unfolding record_phase
    record_phase-Ran i d during o t none ran routed h = absurd (cc)
    record_phase-Ran i d during o t (some m) ran routed h =
        let request = completion i o t m in
        let (j', got, given) = returned-ok (complete_phase w.complete_env request during) h in
        let (j, u, found, version, phase, _, _, made, left) =
          complete_phase_ok w.complete_env request during j' got in
        let now = find_completed w.complete_env request during j u found in
        record {
          during = during;
          reported = o;
          next = t;
          after = j';
          ran = ran;
          routed = routed;
          returns = given;
          state = rw made;
          version = ground arith;
          stored = rw (returned-db (complete_phase w.complete_env request during), left, made) now;
        }

    follow_route-Ran :
        (i : Job) (d during : Db) (o : Outcome) (r : Routed)
        → execute i d ≡ (outcome o, during)
        → next_state i.state o ≡ r
        → (follow_route w i o r during).0.error ≡ none
        → Ran execute i d (follow_route w i o r during)
    unfolding follow_route
    follow_route-Ran i d during o (refused e) ran routed h = absurd (cc)
    follow_route-Ran i d during o (to t) ran routed h =
        record_phase-Ran i d during o t (w.marshal o) ran routed h

    after_execute-Ran :
        (i : Job) (d during : Db) (x : Executed)
        → execute i d ≡ (x, during)
        → (after_execute w i (x, during)).0.error ≡ none
        → Ran execute i d (after_execute w i (x, during))
    unfolding after_execute finish_phase
    after_execute-Ran i d during (outcome o) ran h =
        follow_route-Ran i d during o (next_state i.state o) ran refl h
    after_execute-Ran i d during cancelled_context ran h = absurd (fail_job-error i _ _ during h)
    after_execute-Ran i d during (failure e) ran h = absurd (fail_job-error i _ _ during h)

    run_phase-Ran :
        (i : Job) (d : Db)
        → (run_phase w execute i d).0.error ≡ none
        → Ran execute i d (run_phase w execute i d)
    unfolding run_phase
    run_phase-Ran i d h = after_execute-Ran i d (execute i d).1 (execute i d).0 refl h

    -- What a step of a job that reports no error did with it.
    abbrev Handled : Job → Db → Stepped × Db → Type 0
    Handled j db res =
        (job : Job) × (before : Db) × Handed w j db job before × Ran execute job before res

    after_reserve-Handled :
        (j : Job) (db : Db) (r : Result Job) (d : Db)
        → 1 ≤ phase_token_reservation j.state
        → reserve_job_tokens w.reserve_env j.id
            (pos j.version)
            j.state
            (pos (phase_token_reservation j.state))
            db
          ≡ (r, d)
        → (after_reserve w execute j (r, d)).0.error ≡ none
        → Handled j db (after_reserve w execute j (r, d))
    unfolding after_reserve
    after_reserve-Handled j db (ok i) d paid reserved h =
        (i, d, inr (paid, reserved), run_phase-Ran i d h)
    after_reserve-Handled j db (err e) d paid reserved h = absurd (fail_job-error j _ _ d h)

    step_job-Handled :
        (j : Job) (db : Db)
        → (step_job w execute j db).0.error ≡ none
        → (resumable j.state ≡ true)
          × (past_deadline w j ≡ false)
          × Handled j db (step_job w execute j db)
    unfolding step_job
    step_job-Handled j db h = elim (Bool-cases (resumable j.state)) [
      | inr stuck ↦ absurd (cc (rw stuck at h))
      | inl free ↦ elim (Bool-cases (past_deadline w j)) [
        | inl late ↦ absurd (fail_job-error j _ _ db (rw (free, late) at h))
        | inr early ↦ elim (Bool-cases (phase_token_reservation j.state == 0)) [
          | inl plain ↦ (
            free,
            early,
            (
              j,
              db,
              inl (ground arith, refl, refl),
              rw (free, early, plain) (run_phase-Ran j db (rw (free, early, plain) at h)),
            ),
          )
          | inr paid ↦ (
            free,
            early,
            rw (free, early, paid)
                (after_reserve-Handled j db _ _ (ground arith) refl (rw (free, early, paid) at h)),
          )
        ]
      ]
    ]

    get_job-id : (k : String) (db : Db) (j : Job) → get_job w.read_env k db ≡ ok j → j.id ≡ k
    unfolding get_job
    get_job-id k db j h = elim (Option-cases (find_job k db.jobs)) [
      | inl missing ↦ absurd (ground arith)
      | inr (i, found) ↦ let named = find_job-id k db.jobs i found in ground arith
    ]

    Handed-same :
        (j : Job) (db : Db) (job : Job) (before : Db)
        → Handed w j db job before
        → (job.id ≡ j.id) × (job.state ≡ j.state) × (job.version ≡ j.version)
    Handed-same j db job before (inl (_, e, _)) = rw e (refl, refl, refl)
    Handed-same j db job before (inr (_, h)) =
        let (id, state, version) =
          reserve-same w.reserve_env j.id (pos j.version) j.state _ db job (ap (λ x. x.0) h) in
        (id, state, ground arith)

    step_read-Handled :
        (r : Result Job) (db : Db)
        → (step_read w execute r db).0.error ≡ none
        → (j : Job) × (r ≡ ok j)
          × (resumable j.state ≡ true)
          × (past_deadline w j ≡ false)
          × Handled j db (step_read w execute r db)
    unfolding step_read
    step_read-Handled (err e) db h = absurd (cc)
    step_read-Handled (ok j) db h =
        let (free, early, handled) = step_job-Handled j db h in (j, refl, free, early, handled)

    -- A step that reports no error read the job with its key in a resumable state, before its
    -- deadline; it reserved the tokens of the phase, where the phase costs any; it ran the executor
    -- on that job, under the same key and version, in the tables that this left; and the job is
    -- stored under the key in the state that the executor's outcome leads to, one version on, and
    -- is the one that the step returns.
    pub step_advances :
        (k : String) (db : Db)
        → (step w execute k db).0.error ≡ none
        → Advanced w execute k db (step w execute k db)
    unfolding step
    step_advances k db h =
        let (j, got, free, early, handled) = step_read-Handled (get_job w.read_env k db) db h in
        let (job, before, handed, ran) = handled in
        let key = get_job-id k db j got in
        let (id, state, version) = Handed-same j db job before handed in
        record {
          found = j;
          job = job;
          before = before;
          key = key;
          read = got;
          resumable_state = free;
          early = early;
          handed = handed;
          same = (id ∙ key, state, version);
          ran = ran;
        }

resumable_can_fail : (s : State) → resumable s ≡ true → can_transition s failed ≡ true
unfolding resumable
resumable_can_fail s h = can_fail s (ground arith) (ground arith)

-- A world in which the store can record a failure.
abbrev pub calm_failure : World → World
calm_failure w = record w { fail_env = calm w.fail_env }

abbrev failure_request : World → Job → Cause → String → TransitionRequest
failure_request w j cause reason = record {
  to = failed;
  actor_id = "workflow-engine";
  reason = reason;
  expected_version = pos j.version;
  details = w.error_details cause;
}

-- Whatever stops the phase of a resumable job, be it the deadline, the budget or the executor,
-- with a driver that does not fail the engine stores the job as failed, one version on, and
-- returns it with the cause.
pub fail_job_records :
    (w : World) (j : Job) (cause : Cause) (reason : String) (db : Db)
    → Consistent db
    → find_job j.id db.jobs ≡ some j
    → resumable j.state ≡ true
    → fresh_audit w.fail_env db ≡ true
    → let (res, after) = fail_job (calm_failure w) j cause reason db in
      (res ≡ record { job = some (move_to w.fail_env failed j); error = some cause })
      × (find_job j.id after.jobs ≡ some (move_to w.fail_env failed j))
unfolding fail_job failed_with
fail_job_records w j cause reason db c found free new =
    let request = failure_request w j cause reason in
    let goes = resumable_can_fail j.state free in
    let moves = transition_job_moves w.fail_env j.id request db j c found (ground arith) goes new in
    rw (goes, moves) (refl, find_moved w.fail_env j.id request db j found)
