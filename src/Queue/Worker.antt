-- ===== src/Queue/Worker.antt =====
-- internal/queue/worker.go: a worker takes a job under a lease, and runs the processor while a
-- goroutine renews the lease. The two, the parent context and every other user of the store take
-- their steps in any order: a run is a sequence of steps.
pub mod Laws
use code_maintainer.Base.{
  ℕ, ◌*◌, ◌/◌, String, Bool, true, false, not, ◌&&◌, ◌||◌, Option, none, some, ◌≡◌, ltb,
  if◌then◌else◌,
}
use code_maintainer.Base.Clock.{second}
use code_maintainer.Base.Int.{ℤ, pos, pos_part, ltb_ℤ, leb_ℤ}
use code_maintainer.Base.Text.{is_empty}
use code_maintainer.Store.Rows.{Job, JobLease}
use code_maintainer.Store.Tx.{Env, Db, StoreError, no_lease_available, Result, ok, err}
use code_maintainer.Store.Leases.{acquire_job_lease, renew_job_lease, release_job_lease}
use code_maintainer.Store.History.{Op, perform}
use code_maintainer.Workflow.Engine.{Cause, store}

pub record Worker : Type 0 where
  pub has_store : Bool
  pub has_processor : Bool
  pub owner_id : String
  pub lease_ttl : ℤ
  pub poll_interval : ℤ

-- What Run refuses.
unfoldable pub bad_worker : Worker → Bool
bad_worker w =
    not w.has_store
    || not w.has_processor
    || is_empty w.owner_id
    || ltb_ℤ w.lease_ttl (pos second)
    || leb_ℤ w.poll_interval (pos 0)

-- A turn of the loop of Run: it returns, waits for the poll interval, or works on a job.
pub data Turn : Type 0 where
  leave poll : Turn
  give_up : StoreError → Turn
  work : Job → JobLease → Turn

abbrev turn_of_error : StoreError → Turn
turn_of_error no_lease_available = poll
turn_of_error e = give_up e

turn_of : Result (Job × JobLease) → Turn
turn_of (ok (j, l)) = work j l
turn_of (err e) = turn_of_error e

unfoldable pub take_turn : Worker → Env → Bool → Db → Turn × Db
unfolding turn_of
take_turn w env cancelled db =
    let (r, after) = acquire_job_lease env w.owner_id w.lease_ttl db in
    if cancelled then (leave, db) else (turn_of r, after)

-- The time between two renewals.
unfoldable pub heartbeat_interval : ℕ → ℕ
heartbeat_interval ttl = if ltb (ttl / 3) second then second else ttl / 3

-- The goroutine that renews the lease: it runs, it has seen the end, or it has lost the lease.
pub data Heartbeat : Type 0 where
  beating stopped : Heartbeat
  lost : StoreError → Heartbeat

-- The processor runs, it has returned, or processLeased has returned.
pub data Phase : Type 0 where
  processing : Phase
  returned : Option Cause → Phase
  released : Option Cause → Phase

-- What processLeased works on: the tables, its context, and its two goroutines.
pub record Process : Type 0 where
  pub db : Db
  pub cancelled : Bool
  pub heartbeat : Heartbeat
  pub phase : Phase

abbrev pub started : Db → Process
started db = record { db = db; cancelled = false; heartbeat = beating; phase = processing }

abbrev after_renewal : Process → Result JobLease × Db → Process
after_renewal p (ok _, db) = record p { db = db }
after_renewal p (err e, db) = record p { db = db; cancelled = true; heartbeat = lost e }

-- `case <-ticker.C`
unfoldable pub beat : Worker → Env → String → Process → Process
beat w env k p = after_renewal p (renew_job_lease env k w.owner_id w.lease_ttl p.db)

-- The error of processLeased: that of the heartbeat before that of the processor, and that before
-- that of the release.
unfoldable pub process_error : Heartbeat → Option Cause → Result (Unit {0}) → Option Cause
process_error (lost e) c r = some (store e)
process_error _ (some c) r = some c
process_error _ none (ok _) = none
process_error _ none (err e) = some (store e)

-- ReleaseJobLease and the return, once the processor and the heartbeat are done.
unfoldable pub release : Worker → Env → String → Option Cause → Process → Process
release w env k c p =
    let (r, db) = release_job_lease env k w.owner_id p.db in
    record p { db = db; phase = released (process_error p.heartbeat c r) }

abbrev pub is_beating : Heartbeat → Bool
is_beating beating = true
is_beating _ = false

-- The steps of processLeased for the job `k`, and of what surrounds it.
pub data Step (w : Worker) (k : String) (p : Process) : Process → Type 0 where
  -- A call on the store, of the processor or of anyone else.
  act : (env : Env) (op : Op) → Step w k p (record p { db = perform env op p.db })
  -- The parent context is cancelled.
  cancel : Step w k p (record p { cancelled = true })
  tick : (env : Env) → p.heartbeat ≡ beating → Step w k p (beat w env k p)
  see_end :
      p.heartbeat ≡ beating → p.cancelled ≡ true → Step w k p (record p { heartbeat = stopped })
  -- The processor returns, and its context is cancelled.
  finish :
      (c : Option Cause)
      → p.phase ≡ processing
      → Step w k p (record p { cancelled = true; phase = returned c })
  give_back :
      (env : Env) (c : Option Cause)
      → p.phase ≡ returned c
      → is_beating p.heartbeat ≡ false
      → Step w k p (release w env k c p)

pub data Run (w : Worker) (k : String) (p : Process) : Process → Type 0 where
  here : Run w k p p
  more : {q r : Process} → Run w k p q → Step w k q r → Run w k p r
