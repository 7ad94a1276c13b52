-- ===== src/Store/JobOps/Phases.antt =====
-- internal/storage/sqlite/workflow.go: what a completed phase has done.
use code_maintainer.Base.{
  ◌≡◌, refl, ap, sym, true, Option, none, some, ◌∷◌, arith, Option-cases, Bool-cases, inl, inr,
  eq_iff,
}
use code_maintainer.Base.Int.{pos}
use code_maintainer.Jobs.State.{State, can_transition}
use code_maintainer.Jobs.Table.{same→≡}
use code_maintainer.Jobs.Graph.{validate_transition_iff}
use code_maintainer.Store.Rows.{Job, PhaseCompletion}
use code_maintainer.Store.Tx.{Env, Db, ok, in_tx, in_tx-cases}
use code_maintainer.Store.Tables.{
  find_job, update_job, read_job, append_audit, insert_transition, audit_event,
}
use code_maintainer.Store.Ledger.Keys.{find_job-update_job}
use code_maintainer.Store.JobOps.{read_back}
use code_maintainer.Store.Completion.{
  complete_phase, complete_body, complete_to, apply_metadata, is_phase, phase_row, phase_entry,
  phase_audit, bad_completion,
}
use code_maintainer.Store.JobOps.Changes.{read_back-db}
use code_maintainer.Store.JobOps.Laws.{read_back-ok, not_reloaded}

-- The tables after a phase of `j` was completed with the patched job `u`.
abbrev pub completed_db : Env → PhaseCompletion → Job → Job → Db → Db
completed_db env r j u db = record db {
  jobs = update_job r.job_id j.version (complete_to env r.to u) db.jobs;
  phase_records = phase_row env r j ∷ db.phase_records;
  job_transitions = phase_entry env r j.state ∷ db.job_transitions;
  audit_events = audit_event env (phase_audit env r) ∷ db.audit_events;
}

module _ (env : Env) (r : PhaseCompletion) (db : Db) where
  -- What a body that ran has read and written.
  complete_body-ran :
      (db' : Db) (x : Unit {0})
      → complete_body env r db ≡ ok (x, db')
      → (j : Job) × (u : Job) × (find_job r.job_id db.jobs ≡ some j)
        × (r.expected_version ≡ pos j.version)
        × (r.phase_state ≡ some j.state)
        × (can_transition j.state r.to ≡ true)
        × (apply_metadata env j r.metadata ≡ some u)
        × (db' ≡ completed_db env r j u db)
  unfolding complete_body read_job insert_transition append_audit
  complete_body-ran db' x h = elim (Option-cases (find_job r.job_id db.jobs)) [
    | inl missing ↦ absurd (ground arith)
    | inr (j, found) ↦ elim (Option-cases (apply_metadata env j r.metadata)) [
      | inl refused ↦ absurd (ground arith)
      | inr (u, patched) ↦ (
        j,
        u,
        found,
        ground arith,
        is_phase→≡ r.phase_state j.state (ground arith),
        (validate_transition_iff j.state r.to).0 (ground arith),
        patched,
        ground arith,
      )
    ]
  ]
    where
      is_phase→≡ : (p : Option State) (s : State) → is_phase p s ≡ true → p ≡ some s
      is_phase→≡ none s e = absurd (cc)
      is_phase→≡ (some t) s e = ap some (sym (same→≡ s t e))

  pub find_completed :
      (j u : Job)
      → find_job r.job_id db.jobs ≡ some j
      → find_job r.job_id (completed_db env r j u db).jobs ≡ some (complete_to env r.to u j)
  find_completed j u found =
      rw
        (find_job-update_job r.job_id r.job_id j.version (complete_to env r.to u) db.jobs
          (λ i. refl))
        (ground (arith, eq_iff r.job_id r.job_id))

  -- When `CompletePhase` returns a job, that job was stored in the phase and the version that the
  -- request names, the table allows the transition, and the job is returned in the new state with
  -- the patched identity under the next version; the phase record, the log entry and the audit
  -- event are the rows that were added.
  pub complete_phase_ok :
      (j' : Job)
      → (complete_phase env r db).0 ≡ ok j'
      → (j : Job) × (u : Job) × (find_job r.job_id db.jobs ≡ some j)
        × (r.expected_version ≡ pos j.version)
        × (r.phase_state ≡ some j.state)
        × (can_transition j.state r.to ≡ true)
        × (apply_metadata env j r.metadata ≡ some u)
        × (j' ≡ complete_to env r.to u j)
        × ((complete_phase env r db).1 ≡ completed_db env r j u db)
  unfolding complete_phase
  complete_phase_ok j' h = elim (Bool-cases (bad_completion env r)) [
    | inl bad ↦ absurd (cc (rw bad at h))
    | inr good ↦ rw good (reloaded (rw good at h))
  ]
    where
      reloaded :
          (read_back env r.job_id (in_tx env (complete_body env r) db)).0 ≡ ok j'
          → (j : Job) × (u : Job) × (find_job r.job_id db.jobs ≡ some j)
            × (r.expected_version ≡ pos j.version)
            × (r.phase_state ≡ some j.state)
            × (can_transition j.state r.to ≡ true)
            × (apply_metadata env j r.metadata ≡ some u)
            × (j' ≡ complete_to env r.to u j)
            × ((read_back env r.job_id (in_tx env (complete_body env r) db)).1
                ≡ completed_db env r j u db)
      reloaded g = elim (in_tx-cases env (complete_body env r) db) [
        | inl (e, stays) ↦ absurd (not_reloaded env r.job_id _ j' e db stays g)
        | inr (x, db', ran, stays) ↦
            let (j, u, found, version, phase, allowed, patched, after) =
              complete_body-ran db' x ran in
            let got = read_back-ok env r.job_id (ok x, db') j' (rw stays at g) in
            let now : find_job r.job_id (completed_db env r j u db).jobs ≡ some j' =
              rw after at got.1 in
            let moved = find_completed j u found in
            (
              j,
              u,
              found,
              version,
              phase,
              allowed,
              patched,
              ground arith,
              rw (stays, read_back-db env r.job_id (ok x, db')) after,
            )
      ]
