-- ===== src/Store/Findings/Observe/Report.antt =====
-- internal/storage/sqlite/findings.go: what ObserveFindings returns, and what it leaves of every
-- finding that is stored.
use code_maintainer.Base.{
  ℕ, ◌≡◌, ◌≤◌, refl, ◌∙◌, String, Bool, true, false, ◌&&◌, Option, none, some, List, [], ◌∷◌, arith,
  ltb, Option-cases, inl, inr, ◌⊎◌, ◌is◌, eq_iff, if◌then◌else◌,
}
use code_maintainer.Store.Rows.{AgentFinding, Finding}
use code_maintainer.Store.Tx.{Env, Db}
use code_maintainer.Store.Findings.{find_finding}
use code_maintainer.Store.Findings.Observe.{late_blocking, new_finding, seen_again, other_meaning}
use code_maintainer.Store.Findings.Observe.Laws.{find_finding-seen, Observed}

-- A reported finding that is new, or that is stored and is seen again.
abbrev pub IsReported : Env → String → ℕ → Option Finding → AgentFinding → Finding → Type 0
IsReported env k cycle before v x =
    ((before ≡ none) × (late_blocking cycle v ≡ false) × (x ≡ new_finding env k cycle v))
    ⊎ ((old : Finding) × (before ≡ some old)
        × (other_meaning env v old ≡ false)
        × (ltb cycle old.last_seen_cycle ≡ false)
        × (x ≡ seen_again env cycle old))

-- One returned row for each reported finding, by what was stored before the call.
abbrev pub AllReported : Env → String → ℕ → List Finding → List AgentFinding → List Finding → Type 0
AllReported env k cycle table [] [] = Unit
AllReported env k cycle table (v ∷ vs) (x ∷ xs) =
    IsReported env k cycle (find_finding k v.id table) v x × AllReported env k cycle table vs xs
AllReported env k cycle table [] (x ∷ xs) = ⊥
AllReported env k cycle table (v ∷ vs) [] = ⊥

-- What stays of a finding that a review sees or does not see.
pub record IsKept (x y : Finding) : Type 0 where
  pub status : y.status ≡ x.status
  pub severity : y.severity ≡ x.severity
  pub category : y.category ≡ x.category
  pub location : y.location ≡ x.location
  pub first_seen : y.first_seen_cycle ≡ x.first_seen_cycle
  pub version : x.version ≤ y.version

pub IsKept-refl : (x : Finding) → IsKept x x
IsKept-refl x = record {
  status = refl;
  severity = refl;
  category = refl;
  location = refl;
  first_seen = refl;
  version = omega arith;
}

pub IsKept-trans : (x y z : Finding) → IsKept x y → IsKept y z → IsKept x z
IsKept-trans x y z a b = record {
  status = b.status ∙ a.status;
  severity = b.severity ∙ a.severity;
  category = b.category ∙ a.category;
  location = b.location ∙ a.location;
  first_seen = b.first_seen ∙ a.first_seen;
  version = omega (arith, a.version, b.version);
}

seen-Kept :
    (env : Env) (cycle : ℕ) (hit : Bool) (y : Finding)
    → IsKept y (if hit then seen_again env cycle y else y)
seen-Kept env cycle true y = record {
  status = refl;
  severity = refl;
  category = refl;
  location = refl;
  first_seen = refl;
  version = omega arith;
}
seen-Kept env cycle false y = IsKept-refl y

-- The rows of another finding are not touched.
pub Observed-other :
    (env : Env) (k f : String) (cycle : ℕ) (v : AgentFinding) (db : Db) (x : Finding) (db' : Db)
    → Observed env k cycle v db x db'
    → (f is v.id) ≡ false
    → find_finding k f db'.qc_findings ≡ find_finding k f db.qc_findings
Observed-other env k f cycle v db x db' o other = elim o.outcome [
  | inl (missing, late, e, rows) ↦ rw rows (ground (arith, eq_iff v.id f, eq_iff f v.id))
  | inr (old, found, meaning, forward, e, rows) ↦
      rw (rows, find_finding-seen env cycle k f k v.id db.qc_findings)
        (elim (Option-cases (find_finding k f db.qc_findings)) [
          | inl b ↦ rw b refl
          | inr (y, b) ↦ rw b (ground arith)
        ])
]

-- A row that is stored stays, and keeps its status and its meaning.
pub Observed-Kept :
    (env : Env) (k i f : String) (cycle : ℕ) (v : AgentFinding) (db : Db) (x : Finding) (db' : Db)
    (y : Finding)
    → Observed env k cycle v db x db'
    → find_finding i f db.qc_findings ≡ some y
    → (z : Finding) × (find_finding i f db'.qc_findings ≡ some z) × IsKept y z
Observed-Kept env k i f cycle v db x db' y o stored = elim o.outcome [
  | inl (missing, late, e, rows) ↦
      (y, rw rows (ground (arith, eq_iff k i, eq_iff v.id f)), IsKept-refl y)
  | inr (old, found, meaning, forward, e, rows) ↦
      let moved = find_finding-seen env cycle i f k v.id db.qc_findings in
      (
        (if i is k && f is v.id then seen_again env cycle y else y),
        rw rows (moved ∙ rw stored refl),
        seen-Kept env cycle (i is k && f is v.id) y,
      )
]
