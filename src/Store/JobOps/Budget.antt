-- ===== src/Store/JobOps/Budget.antt =====
-- internal/storage/sqlite/budgets.go: a phase pays for its tokens once.
use code_maintainer.Base.{
  ℕ, ◌≡◌, refl, sym, String, Option, none, some, arith, Bool-cases, inl, inr, eq_iff,
}
use code_maintainer.Base.Int.{ℤ, pos, pos_part}
use code_maintainer.Jobs.State.{State}
use code_maintainer.Store.Rows.{Job, Reservation}
use code_maintainer.Store.Tx.{Env, Db, Result, ok, err, Call, StoreError, settle-cases}
use code_maintainer.Store.Tables.{find_job, append_audit}
use code_maintainer.Store.Ledger.Keys.{find_job-update_job, find_job-id}
use code_maintainer.Store.JobOps.{read_back, get_job}
use code_maintainer.Store.Budgets.{
  reserve_job_tokens, reserve_reads, reserve_rest, reserve_new, find_reservation, charge,
  bad_reservation,
}
use code_maintainer.Store.JobOps.Changes.{reserve_reads-found, read_back-db}

-- The phase of a job has its reservation.
abbrev HasReservation : String → ℤ → Db → Type 0
HasReservation k v db =
    (j : Job) × (find_job k db.jobs ≡ some j)
    × (v ≡ pos j.version)
    × (r : Reservation) × (find_reservation k j.version db.reservations ≡ some r)

reserve_new-HasReservation :
    (env : Env) (k : String) (j : Job) (s : State) (n : ℕ) (db db' : Db) (u : Unit {0})
    → find_job k db.jobs ≡ some j
    → reserve_new env k j s n db ≡ ok (u, db')
    → HasReservation k (pos j.version) db'
unfolding reserve_new append_audit
reserve_new-HasReservation env k j s n db db' u found h = (
  charge env n j,
  ground (arith, eq_iff k k, find_job-update_job k k j.version (charge env n) db.jobs (λ i. refl)),
  refl,
  record {
    job_id = k;
    phase_version = j.version;
    phase_state = s;
    reserved_tokens = n;
    created_at = env.now;
  },
  ground (arith, eq_iff k k),
)

refused_read_back :
    (env : Env) (k : String) (e : StoreError) (db : Db) (j : Job)
    → (read_back env k (err e, db)).0 ≡ ok j
    → ⊥
unfolding read_back
refused_read_back env k e db j h = cc

-- A reservation that returned a job leaves the phase with its reservation.
reserve_rest-HasReservation :
    (env : Env) (k : String) (v : ℤ) (s : State) (n : ℕ) (db : Db) (j : Job)
    → (r : Result ((Job × Option Reservation) × Db)) → reserve_reads env k v s db ≡ r
    → (reserve_rest env k s n db r).0 ≡ ok j
    → HasReservation k v (reserve_rest env k s n db r).1
unfolding reserve_rest
reserve_rest-HasReservation env k v s n db j (err e) reads h = absurd (cc)
reserve_rest-HasReservation env k v s n db j (ok ((i, some r), db')) reads h =
    let (found, _, there, _, fits) = reserve_reads-found env k v s db db' (i, some r) reads in
    (i, found, fits, r, ground arith)
reserve_rest-HasReservation env k v s n db j (ok ((i, none), db')) reads h =
    let (found, _, _, _, fits) = reserve_reads-found env k v s db db' (i, none) reads in
    elim (settle-cases env db (reserve_new env k i s n db)) [
      | inl (e, stays) ↦ absurd (refused e (rw stays at h))
      | inr (u, after, ran, stays) ↦
          rw (stays, read_back-db env k (ok u, after), fits)
            (reserve_new-HasReservation env k i s n db after u found ran)
    ]
  where
    refused : (e : StoreError) → (read_back env k (err e, db)).0 ≡ ok j → ⊥
    refused e = refused_read_back env k e db j

-- The job `j` is the one that was asked to pay.
abbrev SameJob : String → ℤ → State → Job → Type 0
SameJob k v s j = (j.id ≡ k) × (j.state ≡ s) × (v ≡ pos j.version)

read_back-found :
    (env : Env) (k : String) (u : Unit {0}) (db : Db) (i j : Job)
    → find_job k db.jobs ≡ some i
    → (read_back env k (ok u, db)).0 ≡ ok j
    → j ≡ i
unfolding read_back get_job
read_back-found env k u db i j found h = ground arith

charged_row :
    (env : Env) (k : String) (i : Job) (s : State) (n : ℕ) (db db' : Db) (u : Unit {0})
    → find_job k db.jobs ≡ some i
    → reserve_new env k i s n db ≡ ok (u, db')
    → find_job k db'.jobs ≡ some (charge env n i)
unfolding reserve_new append_audit
charged_row env k i s n db db' u found h =
    ground (arith, eq_iff k k, find_job-update_job k k i.version (charge env n) db.jobs (λ j. refl))

reserve_rest-same :
    (env : Env) (k : String) (v : ℤ) (s : State) (n : ℕ) (db : Db) (j : Job)
    → (r : Result ((Job × Option Reservation) × Db)) → reserve_reads env k v s db ≡ r
    → (reserve_rest env k s n db r).0 ≡ ok j
    → SameJob k v s j
unfolding reserve_rest
reserve_rest-same env k v s n db j (err e) reads h = absurd (cc)
reserve_rest-same env k v s n db j (ok ((i, some r), db')) reads h =
    let (found, _, _, state, fits) = reserve_reads-found env k v s db db' (i, some r) reads in
    let id = find_job-id k db.jobs i found in
    let one : i ≡ j = ground arith in (rw (sym one) id, rw (sym one) state, rw (sym one) fits)
reserve_rest-same env k v s n db j (ok ((i, none), db')) reads h =
    let (found, _, _, state, fits) = reserve_reads-found env k v s db db' (i, none) reads in
    let id = find_job-id k db.jobs i found in
    elim (settle-cases env db (reserve_new env k i s n db)) [
      | inl (e, stays) ↦ absurd (refused_read_back env k e db j (rw stays at h))
      | inr (u, after, ran, stays) ↦
          let row = charged_row env k i s n db after u found ran in
          let one = read_back-found env k u after (charge env n i) j row (rw stays at h) in
          (rw one id, rw one state, rw one fits)
    ]

-- A reservation returns the job that it was for.
pub reserve-same :
    (env : Env) (k : String) (v : ℤ) (s : State) (n : ℤ) (db : Db) (j : Job)
    → (reserve_job_tokens env k v s n db).0 ≡ ok j
    → (j.id ≡ k) × (j.state ≡ s) × (v ≡ pos j.version)
unfolding reserve_job_tokens
reserve-same env k v s n db j h = elim (Bool-cases (bad_reservation k v s n)) [
  | inl bad ↦ absurd (cc (rw bad at h))
  | inr good ↦ elim (Bool-cases (env.fault Call.begin)) [
    | inl down ↦ absurd (cc (rw (good, down) at h))
    | inr up ↦ reserve_rest-same env k v s (pos_part n) db j _ refl (rw (good, up) at h)
  ]
]

-- A phase that has its reservation is not charged again.
reserve_rest-keeps :
    (env : Env) (k : String) (v : ℤ) (s : State) (n : ℕ) (db : Db)
    → (r : Result ((Job × Option Reservation) × Db)) → reserve_reads env k v s db ≡ r
    → HasReservation k v db
    → (reserve_rest env k s n db r).1 ≡ db
unfolding reserve_rest
reserve_rest-keeps env k v s n db (err e) reads h = refl
reserve_rest-keeps env k v s n db (ok ((i, some r), db')) reads h = refl
reserve_rest-keeps env k v s n db (ok ((i, none), db')) reads (j, found, fits, r, there) =
    let (found', _, there', _, fits') = reserve_reads-found env k v s db db' (i, none) reads in
    absurd (ground arith)

reserve-HasReservation :
    (env : Env) (k : String) (v : ℤ) (s : State) (n : ℤ) (db : Db) (j : Job)
    → (reserve_job_tokens env k v s n db).0 ≡ ok j
    → HasReservation k v (reserve_job_tokens env k v s n db).1
unfolding reserve_job_tokens
reserve-HasReservation env k v s n db j h = elim (Bool-cases (bad_reservation k v s n)) [
  | inl bad ↦ absurd (cc (rw bad at h))
  | inr good ↦ elim (Bool-cases (env.fault Call.begin)) [
    | inl down ↦ absurd (cc (rw (good, down) at h))
    | inr up ↦
        rw (good, up)
          (reserve_rest-HasReservation env k v s (pos_part n) db j _ refl (rw (good, up) at h))
  ]
]

reserve-keeps :
    (env : Env) (k : String) (v : ℤ) (s : State) (n : ℤ) (db : Db)
    → HasReservation k v db
    → (reserve_job_tokens env k v s n db).1 ≡ db
unfolding reserve_job_tokens
reserve-keeps env k v s n db has = elim (Bool-cases (bad_reservation k v s n)) [
  | inl bad ↦ rw bad
  | inr good ↦ elim (Bool-cases (env.fault Call.begin)) [
    | inl down ↦ rw (good, down)
    | inr up ↦ rw (good, up) (reserve_rest-keeps env k v s (pos_part n) db _ refl has)
  ]
]

-- A phase pays once: after a reservation that returned a job, reserving for the same job and
-- version changes no table, whatever the state, the amount and the surroundings of that call.
pub reserve_once :
    (env env' : Env) (k : String) (v : ℤ) (s s' : State) (n n' : ℤ) (db : Db) (j : Job)
    → (reserve_job_tokens env k v s n db).0 ≡ ok j
    → (reserve_job_tokens env' k v s' n' (reserve_job_tokens env k v s n db).1).1
      ≡ (reserve_job_tokens env k v s n db).1
reserve_once env env' k v s s' n n' db j h =
    reserve-keeps env' k v s' n' (reserve_job_tokens env k v s n db).1
      (reserve-HasReservation env k v s n db j h)
