-- ===== src/Store/Leases/Keeps.antt =====
-- internal/storage/sqlite/scheduler.go: leases leave the tables of jobs alone.
use code_maintainer.Base.{
  ℕ, ◌≡◌, refl, String, arith, Option, none, some, List, Option-cases, inl, inr,
}
use code_maintainer.Base.Int.{ℤ, pos_part}
use code_maintainer.Scheduler.Simulate.{Simulated, decided, refused, simulate}
use code_maintainer.Store.Rows.{Job, JobLease}
use code_maintainer.Store.Tx.{Env, Db, Result, ok, err, in_tx, in_tx-cases}
use code_maintainer.Store.Tables.{find_job}
use code_maintainer.Store.JobOps.Changes.{guarded-Change}
use code_maintainer.Store.Ledger.{still, Change}
use code_maintainer.Store.Leases.{
  active_jobs, candidate_jobs, insert_decision, take_lease, lease_selected, record_deferral,
  settle_decision, after_simulation, acquire_body, acquired, acquire_job_lease, lease_request,
  renew_job_lease, release_job_lease,
}

-- The tables of jobs are the same.
abbrev SameJobs : Db → Db → Type 0
SameJobs db db' =
    (db'.jobs ≡ db.jobs)
    × (db'.job_transitions ≡ db.job_transitions)
    × (db'.reservations ≡ db.reservations)

after_simulation-jobs :
    (env : Env) (owner : String) (ttl : ℕ) (js : List Job) (s : Simulated) (db : Db)
    (r : Option (Job × JobLease)) (db' : Db)
    → after_simulation env owner ttl js s db ≡ ok (r, db')
    → SameJobs db db'
unfolding after_simulation settle_decision lease_selected take_lease record_deferral insert_decision
after_simulation-jobs env owner ttl js (refused e) db r db' h = absurd (cc)
after_simulation-jobs env owner ttl js (decided d (some e)) db r db' h = absurd (cc)
after_simulation-jobs env owner ttl js (decided d none) db r db' h =
    elim (Option-cases (find_job d.selected_job_id js)) [
      | inl missing ↦ (ground arith, ground arith, ground arith)
      | inr (j, found) ↦ (ground arith, ground arith, ground arith)
    ]

acquire_body-jobs :
    (env : Env) (owner : String) (ttl : ℕ) (db : Db) (r : Option (Job × JobLease)) (db' : Db)
    → acquire_body env owner ttl db ≡ ok (r, db')
    → SameJobs db db'
unfolding acquire_body
acquire_body-jobs env owner ttl db r db' h =
    after_simulation-jobs env owner ttl (candidate_jobs env.now db)
      (simulate env.now (lease_request env.now (active_jobs env.now db) (candidate_jobs env.now db))
        env.now)
      db r db' (ground arith)

pub acquired-db : (x : Result (Option (Job × JobLease)) × Db) → (acquired x).1 ≡ x.1
unfolding acquired
acquired-db (err e, db) = refl
acquired-db (ok none, db) = refl
acquired-db (ok (some r), db) = refl

pub acquire_job_lease-Change :
    (env : Env) (owner : String) (ttl : ℤ) (db : Db)
    → Change still db (acquire_job_lease env owner ttl db).1
unfolding acquire_job_lease
acquire_job_lease-Change env owner ttl db = search (guarded-Change, body)
  where
    body : Change still db (acquired (in_tx env (acquire_body env owner (pos_part ttl)) db)).1
    body = elim (in_tx-cases env (acquire_body env owner (pos_part ttl)) db) [
      | inl (e, stays) ↦
          rw (acquired-db (in_tx env (acquire_body env owner (pos_part ttl)) db), stays)
            (Change.unchanged refl refl refl)
      | inr (r, db', ran, stays) ↦
          let (jobs, entries, charges) = acquire_body-jobs env owner (pos_part ttl) db r db' ran in
          rw (acquired-db (in_tx env (acquire_body env owner (pos_part ttl)) db), stays)
            (Change.unchanged jobs entries charges)
    ]

pub renew_job_lease-Change :
    (env : Env) (k owner : String) (ttl : ℤ) (db : Db)
    → Change still db (renew_job_lease env k owner ttl db).1
unfolding renew_job_lease
renew_job_lease-Change env k owner ttl db =
    Change.unchanged (ground arith) (ground arith) (ground arith)

pub release_job_lease-Change :
    (env : Env) (k owner : String) (db : Db) → Change still db (release_job_lease env k owner db).1
unfolding release_job_lease
release_job_lease-Change env k owner db =
    Change.unchanged (ground arith) (ground arith) (ground arith)
