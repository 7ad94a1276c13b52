-- ===== src/Store/JobOps/Changes.antt =====
-- Each operation on jobs makes one of the abstract changes of Store/Ledger, on every path.
use code_maintainer.Base.{
  ℕ, ◌≡◌, refl, String, Bool, true, false, Option, none, some, arith, Option-cases, inl, inr,
  if◌then◌else◌,
}
use code_maintainer.Base.Int.{ℤ, pos, pos_part}
use code_maintainer.Jobs.State.{State}
use code_maintainer.Jobs.Table.{same→≡}
use code_maintainer.Store.Rows.{
  Job, TransitionRequest, CreateJobParams, PhaseCompletion, Reservation,
}
use code_maintainer.Store.Tx.{
  Env, Db, Result, ok, err, Tx, in_tx, in_tx-cases, settle, settle-cases,
}
use code_maintainer.Base.Text.{is_empty}
use code_maintainer.Store.Tables.{find_job, read_job}
use code_maintainer.Store.Ledger.{
  Deed, submits, moves, pays, Change, unchanged, created, moved, charged,
}
use code_maintainer.Store.JobOps.{
  create_job, transition_job, read_back, insert_new_job, new_job, transition_body,
}
use code_maintainer.Store.Budgets.{
  reserve_job_tokens, reserve_new, reserve_reads, reserve_rest, find_reservation,
}
use code_maintainer.Store.Completion.{complete_phase, complete_body}
use code_maintainer.Store.JobOps.Bodies.{
  complete_body-Moved, insert_new_job-Created, reserve_new-Charged, transition_body-Moved,
}

-- The reads of a reservation find the job that the rest charges.
pub reserve_reads-found :
    (env : Env) (k : String) (v : ℤ) (s : State) (db db' : Db) (r : Job × Option Reservation)
    → reserve_reads env k v s db ≡ ok (r, db')
    → (find_job k db.jobs ≡ some r.0)
      × (db' ≡ db)
      × (r.1 ≡ find_reservation k r.0.version db.reservations)
      × (r.0.state ≡ s)
      × (v ≡ pos r.0.version)
unfolding reserve_reads read_job
reserve_reads-found env k v s db db' r h = elim (Option-cases (find_job k db.jobs)) [
  | inl missing ↦ absurd (ground arith)
  | inr (j, found) ↦ ground (arith, same→≡ j.state s)
]

-- A reload changes nothing.
pub read_back-db :
    (env : Env) (k : String) (r : Result (Unit {0}) × Db) → (read_back env k r).1 ≡ r.1
unfolding read_back
read_back-db env k (err e, db) = refl
read_back-db env k (ok u, db) = refl

-- A reloaded transaction makes the change that its body makes.
reloaded-Change :
    {d : Deed} (env : Env) (k : String) (body : Tx (Unit {0})) (db : Db)
    → ((u : Unit {0}) (db' : Db) → body db ≡ ok (u, db') → Change d db db')
    → Change d db (read_back env k (in_tx env body db)).1
reloaded-Change env k body db changes =
    rw (read_back-db env k (in_tx env body db)) (elim (in_tx-cases env body db) [
      | inl (e, stays) ↦ rw stays (unchanged refl refl refl)
      | inr (u, db', ran, stays) ↦ rw stays (changes u db' ran)
    ])

-- A refused call changes nothing.
pub guarded-Change :
    {A : Type 0} {d : Deed} (refused : Bool) (e : Result A) (db : Db) (r : Result A × Db)
    → Change d db r.1
    → Change d db (if refused then (e, db) else r).1
guarded-Change true e db r c = unchanged refl refl refl
guarded-Change false e db r c = c

pub transition_job-Change :
    (env : Env) (k : String) (request : TransitionRequest) (db : Db)
    → Change (moves k request.to) db (transition_job env k request db).1
unfolding transition_job
transition_job-Change env k request db =
    reloaded-Change env k (transition_body env k request) db
      (λ u db' h. moved (transition_body-Moved env k request db db' u h))

pub complete_phase-Change :
    (env : Env) (request : PhaseCompletion) (db : Db)
    → Change (moves request.job_id request.to) db (complete_phase env request db).1
unfolding complete_phase
complete_phase-Change env request db =
    let ran =
      reloaded-Change env request.job_id (complete_body env request) db
        (λ u db' h. moved (complete_body-Moved env request db db' u h)) in
    search (guarded-Change, ran)

inserted-Change :
    (env : Env) (params : CreateJobParams) (id : String) (db : Db)
    → Change (submits id) db (in_tx env (insert_new_job env params (new_job env id params)) db).1
inserted-Change env params id db =
    elim (in_tx-cases env (insert_new_job env params (new_job env id params)) db) [
      | inl (e, stays) ↦ rw stays (unchanged refl refl refl)
      | inr (j, db', ran, stays) ↦
          rw stays (created (insert_new_job-Created env params id db db' j ran))
    ]

-- The id of a new job.
abbrev pub created_id : Env → CreateJobParams → String
created_id env params = if is_empty params.id then env.new_id "job" else params.id

pub create_job-Change :
    (env : Env) (params : CreateJobParams) (db : Db)
    → Change (submits (created_id env params)) db (create_job env params db).1
unfolding create_job
create_job-Change env params db = search (guarded-Change, inserted-Change)

reserve_rest-Change :
    (env : Env) (k : String) (s : State) (amount : ℕ) (db : Db)
    → (r : Result ((Job × Option Reservation) × Db))
    → ((x : Job × Option Reservation) (db' : Db) → r ≡ ok (x, db') → find_job k db.jobs ≡ some x.0)
    → Change (pays k amount) db (reserve_rest env k s amount db r).1
unfolding reserve_rest
reserve_rest-Change env k s amount db (err e) found = unchanged refl refl refl
reserve_rest-Change env k s amount db (ok ((j, some r), db')) found = unchanged refl refl refl
reserve_rest-Change env k s amount db (ok ((j, none), db')) found =
    rw (read_back-db env k (settle env db (reserve_new env k j s amount db)))
      (elim (settle-cases env db (reserve_new env k j s amount db)) [
        | inl (e, stays) ↦ rw stays (unchanged refl refl refl)
        | inr (u, after, ran, stays) ↦ rw stays (
            charged
              (reserve_new-Charged env k j s amount db after u (found (j, none) db' refl) ran))
      ])

pub reserve_job_tokens-Change :
    (env : Env) (k : String) (v : ℤ) (s : State) (amount : ℤ) (db : Db)
    → Change (pays k (pos_part amount)) db (reserve_job_tokens env k v s amount db).1
unfolding reserve_job_tokens
reserve_job_tokens-Change env k v s amount db =
    let ran =
      reserve_rest-Change env k s (pos_part amount) db (reserve_reads env k v s db)
        (λ x db' h. (reserve_reads-found env k v s db db' x h).0) in
    search (guarded-Change, ran)
