-- ===== src/Queue/Worker/Laws.antt =====
-- internal/queue/worker.go: what every interleaving of a leased job keeps.
use code_maintainer.Base.{
  ℕ, ◌*◌, ◌/◌, ◌≤◌, ◌<◌, ◌≡◌, refl, ◌∙◌, String, Bool, true, false, ◌&&◌, ◌||◌, Option, some, List,
  [], ◌∷◌, All, keep, length, arith, Bool-cases, inl, inr, ◌⊎◌, ltb,
}
use code_maintainer.Base.Clock.{second}
use code_maintainer.Base.Int.{ℤ, pos_part}
use code_maintainer.Base.Text.{is_empty}
use code_maintainer.Store.Ledger.{Consistent}
use code_maintainer.Store.Ledger.Steps.{Change-Consistent}
use code_maintainer.Store.History.{perform-Consistent}
use code_maintainer.Store.Leases.{
  renew_job_lease, release_job_lease, renewable, renew_rows, owned, bad_ttl,
}
use code_maintainer.Store.Leases.Keeps.{renew_job_lease-Change, release_job_lease-Change}
use code_maintainer.Store.Rows.{JobLease}
use code_maintainer.Store.Tx.{Env, Db, Call, StoreError, Result, ok, err, lease_lost}
use code_maintainer.Workflow.Engine.{Cause, store}
use code_maintainer.Queue.Worker.{
  Worker, heartbeat_interval, Heartbeat, beating, stopped, lost, Phase, processing, returned,
  released, Process, started, after_renewal, beat, process_error, release, is_beating, Step, act,
  cancel, tick, see_end, finish, give_back, Run, here, more,
}

abbrev pub is_processing : Phase → Bool
is_processing processing = true
is_processing _ = false

abbrev pub is_released : Phase → Bool
is_released (released c) = true
is_released _ = false

-- A lost lease is what is reported in the end.
abbrev pub Reports : Heartbeat → Phase → Type 0
Reports (lost e) (released c) = c ≡ some (store e)
Reports _ _ = Unit

pub record Orderly (p : Process) : Type 0 where
  pub tables : Consistent p.db
  -- The processor's context is cancelled once the heartbeat is over or the processor has returned.
  pub over_cancels : (is_beating p.heartbeat || p.cancelled) ≡ true
  pub return_cancels : (is_processing p.phase || p.cancelled) ≡ true
  -- The lease is given back after the last renewal.
  pub released_last : (is_released p.phase && is_beating p.heartbeat) ≡ false
  pub reports : Reports p.heartbeat p.phase

started-Orderly : (db : Db) → Consistent db → Orderly (started db)
started-Orderly db c = record {
  tables = c;
  over_cancels = refl;
  return_cancels = refl;
  released_last = refl;
  reports = tt;
}

-- With the heartbeat running, nothing has been given back.
beating-open : (p : Process) → Orderly p → p.heartbeat ≡ beating → is_released p.phase ≡ false
beating-open p o h = ground (arith, o.released_last)

Reports-open : (h : Heartbeat) (f : Phase) → is_released f ≡ false → Reports h f
Reports-open (lost e) (released c) n = absurd (cc)
Reports-open (lost e) processing n = tt
Reports-open (lost e) (returned c) n = tt
Reports-open beating f n = tt
Reports-open stopped f n = tt

after_renewal-Orderly :
    (p : Process) (x : Result JobLease × Db)
    → Orderly p
    → p.heartbeat ≡ beating
    → Consistent x.1
    → Orderly (after_renewal p x)
after_renewal-Orderly p (ok l, db) o h c = record {
  tables = c;
  over_cancels = o.over_cancels;
  return_cancels = o.return_cancels;
  released_last = o.released_last;
  reports = o.reports;
}
after_renewal-Orderly p (err e, db) o h c =
    let open_phase = beating-open p o h in
    record {
      tables = c;
      over_cancels = refl;
      return_cancels = ground arith;
      released_last = ground arith;
      reports = Reports-open (lost e) p.phase open_phase;
    }

tick-Orderly :
    (w : Worker) (env : Env) (k : String) (p : Process)
    → Orderly p
    → p.heartbeat ≡ beating
    → Orderly (beat w env k p)
unfolding beat
tick-Orderly w env k p o h =
    after_renewal-Orderly p (renew_job_lease env k w.owner_id w.lease_ttl p.db) o h (
      Change-Consistent p.db (renew_job_lease env k w.owner_id w.lease_ttl p.db).1 o.tables
        (renew_job_lease-Change env k w.owner_id w.lease_ttl p.db))

process_error-Reports :
    (h : Heartbeat) (c : Option Cause) (r : Result (Unit {0}))
    → Reports h (released (process_error h c r))
unfolding process_error
process_error-Reports (lost e) c r = refl
process_error-Reports beating c r = tt
process_error-Reports stopped c r = tt

release-Orderly :
    (w : Worker) (env : Env) (k : String) (c : Option Cause) (p : Process)
    → Orderly p
    → p.phase ≡ returned c
    → is_beating p.heartbeat ≡ false
    → Orderly (release w env k c p)
unfolding release
release-Orderly w env k c p o f h =
    let given = release_job_lease env k w.owner_id p.db in
    record {
      tables =
          Change-Consistent p.db given.1 o.tables (release_job_lease-Change env k w.owner_id p.db);
      over_cancels = o.over_cancels;
      return_cancels = ground (arith, o.return_cancels);
      released_last = ground arith;
      reports = process_error-Reports p.heartbeat c given.0;
    }

Step-Orderly :
    (w : Worker) (k : String) (p : Process) {q : Process} → Step w k p q → Orderly p → Orderly q
Step-Orderly w k p (act env op) o = record {
  tables = perform-Consistent env op p.db o.tables;
  over_cancels = o.over_cancels;
  return_cancels = o.return_cancels;
  released_last = o.released_last;
  reports = o.reports;
}
Step-Orderly w k p cancel o = record {
  tables = o.tables;
  over_cancels = ground arith;
  return_cancels = ground arith;
  released_last = o.released_last;
  reports = o.reports;
}
Step-Orderly w k p (tick env h) o = tick-Orderly w env k p o h
Step-Orderly w k p (see_end h c) o = record {
  tables = o.tables;
  over_cancels = ground arith;
  return_cancels = ground arith;
  released_last = ground arith;
  reports = tt;
}
Step-Orderly w k p (finish c f) o = record {
  tables = o.tables;
  over_cancels = ground arith;
  return_cancels = ground arith;
  released_last = refl;
  reports = Reports-open p.heartbeat (returned c) refl;
}
Step-Orderly w k p (give_back env c f h) o = release-Orderly w env k c p o f h

-- However the processor, the heartbeat, the parent context and the other users of the store
-- interleave: the tables of jobs stay consistent; the processor's context is cancelled when the
-- heartbeat has ended or lost the lease, and when the processor has returned; the lease is given
-- back after the last renewal; and a lost lease is the error that is reported.
pub Run-Orderly :
    (w : Worker) (k : String) (db : Db) {p : Process}
    → Consistent db
    → Run w k (started db) p
    → Orderly p
Run-Orderly w k db c here = started-Orderly db c
Run-Orderly w k db c (more {q} run s) = Step-Orderly w k q s (Run-Orderly w k db c run)

none_owned :
    (now : ℕ) (k owner : String) (ttl : ℕ) (ls : List JobLease)
    → All (λ l. owned k owner l ≡ false) ls
    → (length (keep (renewable now k owner) ls) ≡ 0) × (renew_rows now k owner ttl ls ≡ ls)
none_owned now k owner ttl [] os = (refl, refl)
none_owned now k owner ttl (l ∷ ls) (o, os) =
    let (none_kept, same) = none_owned now k owner ttl ls os in
    let not_this : renewable now k owner l ≡ false = ground arith in
    (ground arith, rw (not_this, same) refl)

renew-taken_over :
    (env : Env) (k owner : String) (ttl : ℤ) (db : Db)
    → All (λ l. owned k owner l ≡ false) db.leases
    → ((e : StoreError) × ((renew_job_lease env k owner ttl db).0 ≡ err e))
      × ((renew_job_lease env k owner ttl db).1.leases ≡ db.leases)
unfolding renew_job_lease
renew-taken_over env k owner ttl db others =
    let (none_kept, same) = none_owned env.now k owner (pos_part ttl) db.leases others in
    elim (Bool-cases (is_empty k || is_empty owner || bad_ttl ttl)) [
      | inl b ↦ ((StoreError.invalid, ground arith), ground arith)
      | inr b ↦ elim (Bool-cases (env.fault Call.write_lease)) [
        | inl c ↦ ((StoreError.driver Call.write_lease, ground arith), ground arith)
        | inr c ↦ ((lease_lost, ground arith), ground arith)
      ]
    ]

after_renewal-err :
    (p : Process) (x : Result JobLease × Db)
    → ((e : StoreError) × (x.0 ≡ err e))
    → ((after_renewal p x).cancelled ≡ true) × ((after_renewal p x).db.leases ≡ x.1.leases)
after_renewal-err p (ok l, db) (e, h) = absurd (cc)
after_renewal-err p (err e, db) h = (refl, refl)

-- When no row of the job is this worker's any more, because another one has taken it over, the
-- next heartbeat cancels the processor, and changes no lease.
pub taken_over_cancels :
    (w : Worker) (env : Env) (k : String) (p : Process)
    → All (λ l. owned k w.owner_id l ≡ false) p.db.leases
    → ((beat w env k p).cancelled ≡ true) × ((beat w env k p).db.leases ≡ p.db.leases)
unfolding beat
taken_over_cancels w env k p others =
    let (failed, same) = renew-taken_over env k w.owner_id w.lease_ttl p.db others in
    let (stops, kept) =
      after_renewal-err p (renew_job_lease env k w.owner_id w.lease_ttl p.db) failed in
    (stops, kept ∙ same)

-- A lease of more than a second is renewed before it is over, and one of three seconds or more at
-- least twice.
pub heartbeat_in_time :
    (ttl : ℕ)
    → second < ttl
    → (heartbeat_interval ttl < ttl) × ((ttl < 3 * second) ⊎ (3 * heartbeat_interval ttl ≤ ttl))
unfolding heartbeat_interval
heartbeat_in_time ttl h = elim (Bool-cases (ltb (ttl / 3) second)) [
  | inl b ↦ rw b (h, inl (ground arith))
  | inr b ↦ rw b (ground arith, inr (ground arith))
]
