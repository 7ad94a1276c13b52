-- ===== src/Store/Ledger/Gates.antt =====
-- The gates of the workflow, read off the stored log of a job.
use code_maintainer.Base.{
  ◌≡◌, refl, String, Bool, true, false, ◌||◌, ◌&&◌, some, List, [], ◌∷◌, arith, Bool-cases,
  Option-cases, inl, inr, ◌⊎◌, ◌is◌, eq_iff,
}
use code_maintainer.Jobs.State.{
  State, queued, awaiting_task_approval, implementing, awaiting_operator, completed, same, has,
}
use code_maintainer.Jobs.Graph.{
  closed_without, stays, before_task_approval, before_task_approval_closed, before_operator,
  before_operator_closed, before_implementing, before_implementing_closed,
}
use code_maintainer.Store.Rows.{Job, Transition}
use code_maintainer.Store.Tx.{Db}
use code_maintainer.Store.Tables.{find_job}
use code_maintainer.Store.Ledger.{Consistent, Lawful, last_state}

-- The log has an entry by which the job enters the state.
abbrev pub entered : String → State → List Transition → Bool
entered k s [] = false
entered k s (t ∷ log) = (t.job_id is k && same s t.to) || entered k s log

module _ (gate : State) (states : List State) (closed : closed_without gate states ≡ true)
    (starts : has queued states ≡ true) where
  inside_or_entered :
      (k : String) (s : State) (log : List Transition)
      → Lawful log
      → last_state k log ≡ some s
      → (has s states ≡ true) ⊎ (entered k gate log ≡ true)
  inside_or_entered k s [] l e = absurd (cc)
  inside_or_entered k s (t ∷ log) l e = elim (Bool-cases (t.job_id is k)) [
    | inr other ↦ ground (arith, inside_or_entered k s log l.2)
    | inl own ↦ elim (Bool-cases (same gate t.to)) [
      | inl g ↦ inr (ground arith)
      | inr away ↦
          let p : t.job_id ≡ k = (eq_iff t.job_id k).0 own in
          elim (Option-cases (last_state k log)) [
            | inl first ↦ inl (ground (arith, p))
            | inr (u, before) ↦
                ground
                  (arith, p, inside_or_entered k u log l.2 before, stays gate states closed u t.to)
          ]
    ]
  ]

  -- A stored job whose state lies outside has entered the gate.
  gate_entered :
      (db : Db) (k : String) (j : Job)
      → Consistent db
      → find_job k db.jobs ≡ some j
      → has j.state states ≡ false
      → entered k gate db.job_transitions ≡ true
  gate_entered db k j c found outside =
      ground (arith, c.states k, inside_or_entered k j.state db.job_transitions c.lawful)

-- In consistent tables a completed job has log entries by which it entered
-- `awaiting_task_approval`, `implementing` and `awaiting_operator`.
pub completed_was_approved :
    (db : Db) (k : String) (j : Job)
    → Consistent db
    → find_job k db.jobs ≡ some j
    → j.state ≡ completed
    → (entered k awaiting_task_approval db.job_transitions ≡ true)
      × (entered k implementing db.job_transitions ≡ true)
      × (entered k awaiting_operator db.job_transitions ≡ true)
unfolding has same
completed_was_approved db k j c found e = (
  gate_entered awaiting_task_approval before_task_approval before_task_approval_closed refl db k j c
      found (rw e),
  gate_entered implementing before_implementing before_implementing_closed refl db k j c found
      (rw e),
  gate_entered awaiting_operator before_operator before_operator_closed refl db k j c found (rw e),
)
