-- ===== src/Store/JobOps/Laws.antt =====
-- What the operations on jobs return: success, lost updates, and what an error leaves.
use code_maintainer.Base.{
  ◌≡◌, ◌≢◌, refl, ap, ◌∙◌, String, Bool, true, false, ◌&&◌, not, some, ◌∷◌, arith, Option-cases,
  inl, inr, ◌⊎◌, ◌is◌, eq_iff, any,
}
use code_maintainer.Base.Int.{ℤ, pos, ltb_ℤ, eqb_ℤ}
use code_maintainer.Jobs.State.{can_transition, same}
use code_maintainer.Jobs.Graph.{validate_transition_iff}
use code_maintainer.Store.Rows.{Job, TransitionRequest, AuditEvent}
use code_maintainer.Store.Tx.{
  Env, Db, Result, ok, err, Call, StoreError, Tx, in_tx, in_tx-cases, driver,
}
use code_maintainer.Store.Tables.{
  find_job, update_job, read_job, append_audit, insert_transition, audit_event,
}
use code_maintainer.Store.Ledger.{Consistent}
use code_maintainer.Store.Ledger.Keys.{find_job-update_job, affected_one}
use code_maintainer.Store.JobOps.Changes.{read_back-db}
use code_maintainer.Store.JobOps.{
  transition_job, read_back, get_job, transition_body, move_to, transition_entry, transition_audit,
}

-- The same surroundings with a driver that never fails.
abbrev pub calm : Env → Env
calm env = record env { fault = λ _. false }

-- The identifier of the audit event has not been drawn before.
abbrev pub fresh_audit : Env → Db → Bool
fresh_audit env db = not (any (λ (e : AuditEvent). e.id is env.new_id "audit") db.audit_events)

-- The expected version is not given, or it is the job's.
abbrev pub version_fits : ℤ → Job → Bool
version_fits v j = not (ltb_ℤ (pos 0) v && not (eqb_ℤ v (pos j.version)))

-- The tables after a transition that went through.
abbrev pub moved_db : Env → String → TransitionRequest → Job → Db → Db
moved_db env k r j db = record db {
  jobs = update_job k j.version (move_to env r.to) db.jobs;
  job_transitions = transition_entry env k r j.state ∷ db.job_transitions;
  audit_events = audit_event env (transition_audit env k r) ∷ db.audit_events;
}

module _ (env : Env) (k : String) (r : TransitionRequest) (db : Db) (j : Job) where
  transition_body-calm :
      Consistent db
      → find_job k db.jobs ≡ some j
      → version_fits r.expected_version j ≡ true
      → can_transition j.state r.to ≡ true
      → fresh_audit env db ≡ true
      → transition_body (calm env) k r db ≡ ok (tt, moved_db (calm env) k r j db)
  unfolding transition_body read_job insert_transition append_audit
  transition_body-calm c found fits allowed new = ground (
    arith,
    affected_one k db.jobs j (c.single k) found,
    (validate_transition_iff j.state r.to).1 allowed,
  )

  in_tx-calm :
      {A : Type 0} (body : Tx A) (a : A) (db' : Db)
      → body db ≡ ok (a, db')
      → in_tx (calm env) body db ≡ (ok a, db')
  unfolding in_tx
  in_tx-calm body a db' h = rw h

  pub find_moved :
      find_job k db.jobs ≡ some j
      → find_job k (update_job k j.version (move_to (calm env) r.to) db.jobs)
        ≡ some (move_to (calm env) r.to j)
  find_moved found =
      rw (find_job-update_job k k j.version (move_to (calm env) r.to) db.jobs (λ i. refl))
        (ground (arith, eq_iff k k))

  -- With a driver that does not fail, a job in consistent tables, an expected version that is
  -- absent or current, an allowed transition and a new audit identifier, `TransitionJob` returns
  -- the job in its new state under the next version, and adds one log entry and one audit event.
  pub transition_job_moves :
      Consistent db
      → find_job k db.jobs ≡ some j
      → version_fits r.expected_version j ≡ true
      → can_transition j.state r.to ≡ true
      → fresh_audit env db ≡ true
      → transition_job (calm env) k r db
        ≡ (ok (move_to (calm env) r.to j), moved_db (calm env) k r j db)
  unfolding transition_job read_back get_job
  transition_job_moves c found fits allowed new =
      rw
        (in_tx-calm (transition_body (calm env) k r) tt (moved_db (calm env) k r j db)
          (transition_body-calm c found fits allowed new))
        (rw (find_moved found))

-- The reload after a commit reports what the tables hold, or that it failed.
pub read_back-ok :
    (env : Env) (k : String) (res : Result (Unit {0}) × Db) (j : Job)
    → (read_back env k res).0 ≡ ok j
    → (res.0 ≡ ok tt) × (find_job k res.1.jobs ≡ some j)
unfolding read_back get_job
read_back-ok env k (err e, db) j h = cc
read_back-ok env k (ok u, db) j h = ground arith

-- A failed transaction returns no job.
pub not_reloaded :
    (env : Env) (k : String) (res : Result (Unit {0}) × Db) (j : Job) (e : StoreError) (db : Db)
    → res ≡ (err e, db)
    → (read_back env k res).0 ≡ ok j
    → ⊥
not_reloaded env k res j e db stays h =
    let g : res.0 ≡ ok tt = (read_back-ok env k res j h).0 in ground arith

-- Where the row is there, a reload fails only in the driver.
pub read_back-err :
    (env : Env) (k : String) (u : Unit {0}) (db : Db) (e : StoreError) (j : Job)
    → (read_back env k (ok u, db)).0 ≡ err e
    → find_job k db.jobs ≡ some j
    → e ≡ driver Call.read_back
unfolding read_back get_job
read_back-err env k u db e j h found = ground arith

module _ (env : Env) (k : String) (r : TransitionRequest) (db : Db) where
  -- What a body that ran has read and written.
  transition_body-ran :
      (db' : Db) (u : Unit {0})
      → transition_body env k r db ≡ ok (u, db')
      → (j : Job) × (find_job k db.jobs ≡ some j)
        × (version_fits r.expected_version j ≡ true)
        × (can_transition j.state r.to ≡ true)
        × (db' ≡ moved_db env k r j db)
  unfolding transition_body read_job insert_transition append_audit
  transition_body-ran db' u h = elim (Option-cases (find_job k db.jobs)) [
    | inl missing ↦ absurd (ground arith)
    | inr (j, found) ↦ (
      j,
      found,
      ground arith,
      (validate_transition_iff j.state r.to).0 (ground arith),
      ground arith,
    )
  ]

  -- When `TransitionJob` returns a job, that job was stored in a state from which the table
  -- allows the requested one, under the expected version if one was given; it is returned in the
  -- requested state under the next version.
  pub transition_job_ok :
      (j' : Job)
      → (transition_job env k r db).0 ≡ ok j'
      → (j : Job) × (find_job k db.jobs ≡ some j)
        × (version_fits r.expected_version j ≡ true)
        × (can_transition j.state r.to ≡ true)
        × (j' ≡ move_to env r.to j)
        × ((transition_job env k r db).1 ≡ moved_db env k r j db)
  unfolding transition_job
  transition_job_ok j' h = elim (in_tx-cases env (transition_body env k r) db) [
    | inl (e, stays) ↦ absurd (not_reloaded env k _ j' e db stays h)
    | inr (u, db', ran, stays) ↦
        let (j, found, fits, allowed, after) = transition_body-ran db' u ran in
        let reloaded = read_back-ok env k (ok u, db') j' (rw stays at h) in
        let now : find_job k (moved_db env k r j db).jobs ≡ some j' = rw after at reloaded.1 in
        let moved = find_moved env k r db j found in
        (j, found, fits, allowed, ground arith, rw (stays, read_back-db env k (ok u, db')) after)
  ]

-- Of two calls that expect the same positive version of a job, at most one moves it: once the
-- first has returned a job, the second, whoever makes it and whatever it asks for, returns none.
pub transition_job_once :
    (env env' : Env) (k : String) (r r' : TransitionRequest) (db : Db) (j₁ j₂ : Job)
    → ltb_ℤ (pos 0) r.expected_version ≡ true
    → r'.expected_version ≡ r.expected_version
    → (transition_job env k r db).0 ≡ ok j₁
    → (transition_job env' k r' (transition_job env k r db).1).0 ≢ ok j₂
transition_job_once env env' k r r' db j₁ j₂ given same first second =
    let (j, found, fits, _, _, after) = transition_job_ok env k r db j₁ first in
    let (i, again, fits', _, _, _) =
      transition_job_ok env' k r' (transition_job env k r db).1 j₂ second in
    let now : find_job k (moved_db env k r j db).jobs ≡ some i = rw after at again in
    let moved = find_moved env k r db j found in ground arith

-- An error of `TransitionJob` leaves the tables as they were, except in one case: the commit went
-- through and the reload after it failed, and then the job was moved.
pub transition_job_error :
    (env : Env) (k : String) (r : TransitionRequest) (db : Db) (e : StoreError)
    → (transition_job env k r db).0 ≡ err e
    → ((transition_job env k r db).1 ≡ db)
      ⊎ ((e ≡ driver Call.read_back)
          × ((j : Job) × (find_job k db.jobs ≡ some j)
              × ((transition_job env k r db).1 ≡ moved_db env k r j db)))
unfolding transition_job
transition_job_error env k r db e h = elim (in_tx-cases env (transition_body env k r) db) [
  | inl (f, stays) ↦ inl (read_back-db env k _ ∙ ap (λ (x : Result (Unit {0}) × Db). x.1) stays)
  | inr (u, db', ran, stays) ↦
      let (j, found, fits, allowed, after) = transition_body-ran env k r db db' u ran in
      let now : find_job k db'.jobs ≡ some (move_to env r.to j) =
        rw after (find_moved env k r db j found) in
      inr (
        read_back-err env k u db' e (move_to env r.to j) (rw stays at h) now,
        (j, found, rw (stays, read_back-db env k (ok u, db')) after),
      )
]
