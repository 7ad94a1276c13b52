-- ===== src/Store/Findings/Observe/Laws.antt =====
-- internal/storage/sqlite/findings.go: what a review leaves of the findings.
use code_maintainer.Base.{
  ℕ, ◌≡◌, refl, ◌∙◌, String, Bool, true, false, ◌&&◌, Option, none, some, List, [], ◌∷◌, arith, ltb,
  inl, inr, ◌⊎◌, ◌is◌, eq_iff, if◌then◌else◌,
}
use code_maintainer.Store.Ledger.Quiet.{Quiet}
use code_maintainer.Store.Rows.{AgentFinding, Finding}
use code_maintainer.Store.Tx.{Env, Db, StoreError, Result, ok, err}
use code_maintainer.Store.Tables.{update_where}
use code_maintainer.Store.Findings.{find_finding, read_finding}
use code_maintainer.Store.Findings.Observe.{
  late_blocking, new_finding, is_row, seen_again, other_meaning, observe_row, observe_one,
}

-- The row of a finding after the update of the row of another or the same one.
abbrev pub touched : Env → ℕ → Bool → Option Finding → Option Finding
touched env cycle hit none = none
touched env cycle hit (some x) = some (if hit then seen_again env cycle x else x)

pub find_finding-seen :
    (env : Env) (cycle : ℕ) (k f l g : String) (xs : List Finding)
    → find_finding k f (update_where (is_row l g) (seen_again env cycle) xs)
      ≡ touched env cycle (k is l && f is g) (find_finding k f xs)
find_finding-seen env cycle k f l g [] = refl
find_finding-seen env cycle k f l g (x ∷ xs) = ground (
  arith,
  eq_iff x.job_id k,
  eq_iff x.id f,
  eq_iff x.job_id l,
  eq_iff x.id g,
  eq_iff k l,
  eq_iff f g,
  find_finding-seen env cycle k f l g xs,
)

-- What the observation of one finding found and returned.
pub record Observed (env : Env) (k : String) (cycle : ℕ) (v : AgentFinding) (db : Db) (x : Finding)
    (db' : Db) : Type 0 where
  pub outcome :
      ((find_finding k v.id db.qc_findings ≡ none)
        × (late_blocking cycle v ≡ false)
        × (x ≡ new_finding env k cycle v)
        × (db'.qc_findings ≡ new_finding env k cycle v ∷ db.qc_findings))
      ⊎ ((old : Finding) × (find_finding k v.id db.qc_findings ≡ some old)
          × (other_meaning env v old ≡ false)
          × (ltb cycle old.last_seen_cycle ≡ false)
          × (x ≡ seen_again env cycle old)
          × (db'.qc_findings ≡ update_where (is_row k v.id) (seen_again env cycle) db.qc_findings))
  pub quiet : Quiet db db'

observe_row-new :
    (env : Env) (k : String) (cycle : ℕ) (v : AgentFinding) (db : Db) (x : Finding) (db' : Db)
    → find_finding k v.id db.qc_findings ≡ none
    → observe_row env k cycle v none db ≡ ok (x, db')
    → Observed env k cycle v db x db'
unfolding observe_row read_finding
observe_row-new env k cycle v db x db' missing h =
    let own : (k is k && v.id is v.id) ≡ true = ground (arith, eq_iff k k, eq_iff v.id v.id) in
    record {
      outcome = inl (missing, ground arith, ground arith, ground arith);
      quiet = (ground arith, ground arith, ground arith);
    }

observe_row-old :
    (env : Env) (k : String) (cycle : ℕ) (v : AgentFinding) (old : Finding) (db : Db) (x : Finding)
    (db' : Db)
    → find_finding k v.id db.qc_findings ≡ some old
    → observe_row env k cycle v (some old) db ≡ ok (x, db')
    → Observed env k cycle v db x db'
unfolding observe_row read_finding
observe_row-old env k cycle v old db x db' found h =
    let again = find_finding-seen env cycle k v.id k v.id db.qc_findings in
    let own : (k is k && v.id is v.id) ≡ true = ground (arith, eq_iff k k, eq_iff v.id v.id) in
    let stored : find_finding k v.id
          (update_where (is_row k v.id) (seen_again env cycle) db.qc_findings)
        ≡ some (seen_again env cycle old) =
      again ∙ rw (own, found) refl in
    record {
      outcome = inr (old, found, ground arith, ground arith, ground (arith, stored), ground arith);
      quiet = (ground arith, ground arith, ground arith);
    }

-- What a row's observation leaves is what stays, but for the log of observations.
after_row-Observed :
    (env : Env) (k : String) (cycle : ℕ) (v : AgentFinding) (db db₁ : Db) (x : Finding) (db' : Db)
    → Observed env k cycle v db x db₁
    → db'.qc_findings ≡ db₁.qc_findings
    → Quiet db₁ db'
    → Observed env k cycle v db x db'
after_row-Observed env k cycle v db db₁ x db' o same (j, t, r) = record {
  outcome = elim o.outcome [
    | inl (missing, late, e, rows) ↦ inl (missing, late, e, same ∙ rows)
    | inr (old, found, meaning, forward, e, rows) ↦
        inr (old, found, meaning, forward, e, same ∙ rows)
  ];
  quiet = (j ∙ o.quiet.0, t ∙ o.quiet.1, r ∙ o.quiet.2);
}

observe_row-Observed :
    (env : Env) (k : String) (cycle : ℕ) (v : AgentFinding) (found : Option Finding) (db : Db)
    (x : Finding) (db' : Db)
    → find_finding k v.id db.qc_findings ≡ found
    → observe_row env k cycle v found db ≡ ok (x, db')
    → Observed env k cycle v db x db'
observe_row-Observed env k cycle v none db x db' f h = observe_row-new env k cycle v db x db' f h
observe_row-Observed env k cycle v (some old) db x db' f h =
    observe_row-old env k cycle v old db x db' f h

pub Result-cases :
    {A : Type 0} (r : Result A) → ((e : StoreError) × (r ≡ err e)) ⊎ ((a : A) × (r ≡ ok a))
Result-cases (err e) = inl (e, refl)
Result-cases (ok a) = inr (a, refl)

pub observe_one-Observed :
    (env : Env) (k : String) (cycle : ℕ) (v : AgentFinding) (db : Db) (x : Finding) (db' : Db)
    → observe_one env k cycle v db ≡ ok (x, db')
    → Observed env k cycle v db x db'
unfolding observe_one
observe_one-Observed env k cycle v db x db' h =
    elim (Result-cases (observe_row env k cycle v (find_finding k v.id db.qc_findings) db)) [
      | inl (e, failed) ↦ absurd (ground arith)
      | inr ((y, db₁), ran) ↦
          let same : y ≡ x = ground arith in
          after_row-Observed env k cycle v db db₁ x db'
            (observe_row-Observed env k cycle v (find_finding k v.id db.qc_findings) db x db₁ refl
              (rw same at ran))
            (ground arith) (ground arith, ground arith, ground arith)
    ]
