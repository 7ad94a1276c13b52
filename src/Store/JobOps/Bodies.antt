-- ===== src/Store/JobOps/Bodies.antt =====
-- The body of each operation on jobs makes one of the abstract changes of Store/Ledger.
use code_maintainer.Base.{ℕ, ◌≡◌, refl, String, none, some, arith, Option-cases, inl, inr}
use code_maintainer.Jobs.State.{State, queued}
use code_maintainer.Jobs.Graph.{validate_transition_iff}
use code_maintainer.Store.Rows.{
  Job, TransitionRequest, CreateJobParams, PhaseCompletion, AppendRequest,
}
use code_maintainer.Store.Tx.{Env, Db, ok}
use code_maintainer.Store.Tables.{
  find_job, read_job, append_audit, insert_transition, required, normalize_json,
}
use code_maintainer.Store.Ledger.{Created, Moved, Charged}
use code_maintainer.Store.Ledger.Keys.{find_job-any}
use code_maintainer.Store.JobOps.{insert_new_job, new_job, transition_body, move_to}
use code_maintainer.Store.Budgets.{charge, reserve_new}
use code_maintainer.Store.Completion.{complete_body, complete_to, apply_metadata}

-- Appending to the audit log touches no table of jobs.
append_audit-jobs :
    (env : Env) (r : AppendRequest) (db db' : Db) (u : Unit {0})
    → append_audit env r db ≡ ok (u, db')
    → (db'.jobs ≡ db.jobs)
      × (db'.job_transitions ≡ db.job_transitions)
      × (db'.reservations ≡ db.reservations)
unfolding append_audit
append_audit-jobs env r db db' u h = ground arith

pub transition_body-Moved :
    (env : Env) (k : String) (request : TransitionRequest) (db db' : Db) (u : Unit {0})
    → transition_body env k request db ≡ ok (u, db')
    → Moved k request.to db db'
unfolding transition_body read_job insert_transition append_audit
transition_body-Moved env k request db db' u h = elim (Option-cases (find_job k db.jobs)) [
  | inl missing ↦ absurd (ground arith)
  | inr (j, found) ↦ record {
    key = k;
    current = j;
    change = move_to env request.to;
    entry = record {
      job_id = k;
      from = some j.state;
      to = request.to;
      actor_id = required request.actor_id "system";
      reason = request.reason;
      details = normalize_json env request.details;
      created_at = env.now;
    };
    named = (refl, refl);
    found = found;
    keeps = λ i. refl;
    spares = (refl, refl);
    bumps = refl;
    ends = refl;
    allowed = (validate_transition_iff j.state request.to).0 (ground arith);
    logs = (refl, refl);
    jobs = ground arith;
    transitions = ground arith;
    reservations = ground arith;
  }
]

pub insert_new_job-Created :
    (env : Env) (params : CreateJobParams) (id : String) (db db' : Db) (j : Job)
    → insert_new_job env params (new_job env id params) db ≡ ok (j, db')
    → Created id db db'
unfolding insert_new_job insert_transition append_audit
insert_new_job-Created env params id db db' j h = record {
  job = new_job env id params;
  entry = record {
    job_id = id;
    from = none;
    to = queued;
    actor_id = required params.actor_id "system";
    reason = "job submitted";
    details = normalize_json env params.details;
    created_at = env.now;
  };
  named = refl;
  new = find_job-any id db.jobs (ground arith);
  fresh = (refl, refl, refl);
  logs = (refl, refl, refl);
  jobs = ground arith;
  transitions = ground arith;
  reservations = ground arith;
}

pub complete_body-Moved :
    (env : Env) (request : PhaseCompletion) (db db' : Db) (u : Unit {0})
    → complete_body env request db ≡ ok (u, db')
    → Moved request.job_id request.to db db'
unfolding complete_body read_job insert_transition append_audit
complete_body-Moved env request db db' u h = elim (Option-cases (find_job request.job_id db.jobs)) [
  | inl missing ↦ absurd (ground arith)
  | inr (j, found) ↦ elim (Option-cases (apply_metadata env j request.metadata)) [
    | inl refused ↦ absurd (ground arith)
    | inr (updated, patched) ↦ record {
      key = request.job_id;
      current = j;
      change = complete_to env request.to updated;
      entry = record {
        job_id = request.job_id;
        from = some j.state;
        to = request.to;
        actor_id = required request.actor_id "workflow-engine";
        reason = request.reason;
        details = normalize_json env request.details;
        created_at = env.now;
      };
      named = (refl, refl);
      found = found;
      keeps = λ i. refl;
      spares = (refl, refl);
      bumps = refl;
      ends = refl;
      allowed = (validate_transition_iff j.state request.to).0 (ground arith);
      logs = (refl, refl);
      jobs = ground arith;
      transitions = ground arith;
      reservations = ground arith;
    }
  ]
]

pub reserve_new-Charged :
    (env : Env) (k : String) (j : Job) (s : State) (amount : ℕ) (db db' : Db) (u : Unit {0})
    → find_job k db.jobs ≡ some j
    → reserve_new env k j s amount db ≡ ok (u, db')
    → Charged k amount db db'
unfolding reserve_new append_audit
reserve_new-Charged env k j s amount db db' u found h = record {
  key = k;
  current = j;
  amount = amount;
  change = charge env amount;
  entry = record {
    job_id = k;
    phase_version = j.version;
    phase_state = s;
    reserved_tokens = amount;
    created_at = env.now;
  };
  named = (refl, refl);
  found = found;
  keeps = λ i. refl;
  spares = (refl, refl, refl);
  charges = refl;
  fits = ground arith;
  logs = (refl, refl);
  jobs = ground arith;
  transitions = ground arith;
  reservations = ground arith;
}
