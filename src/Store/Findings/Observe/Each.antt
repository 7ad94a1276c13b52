-- ===== src/Store/Findings/Observe/Each.antt =====
-- internal/storage/sqlite/findings.go: the loop of ObserveFindings, and the call as a whole.
use code_maintainer.Base.{
  ℕ, ◌≡◌, refl, ◌∙◌, subst, String, Bool, true, false, not, ◌&&◌, some, List, [], ◌∷◌, any, arith,
  Bool-cases, inl, inr, ◌is◌,
}
use code_maintainer.Base.Int.{ℤ, pos_part}
use code_maintainer.Store.Ledger.Quiet.{Quiet, in_tx-Quiet}
use code_maintainer.Store.Rows.{AgentFinding, Finding}
use code_maintainer.Store.Tx.{Env, Db, ok, in_tx-cases}
use code_maintainer.Store.Tables.{append_audit}
use code_maintainer.Store.Findings.{find_finding}
use code_maintainer.Store.Findings.Observe.{
  report_valid, observe_one, observe_each, observe_body, bad_report, observe_findings,
}
use code_maintainer.Store.Findings.Observe.Laws.{Observed, observe_one-Observed, Result-cases}
use code_maintainer.Store.Findings.Observe.Report.{
  IsReported, AllReported, IsKept, IsKept-refl, IsKept-trans, Observed-other, Observed-Kept,
}

-- A loop over one finding more: the finding, and then the others on the tables that it left.
each-steps :
    (env : Env) (k : String) (cycle : ℕ) (v : AgentFinding) (vs : List AgentFinding) (db : Db)
    (ys : List Finding) (db' : Db)
    → observe_each env k cycle (v ∷ vs) db ≡ ok (ys, db')
    → (x : Finding) × (xs : List Finding) × (db₁ : Db) × (ys ≡ x ∷ xs)
      × Observed env k cycle v db x db₁
      × (observe_each env k cycle vs db₁ ≡ ok (xs, db'))
unfolding observe_each
each-steps env k cycle v vs db ys db' h = elim (Result-cases (observe_one env k cycle v db)) [
  | inl (e, failed) ↦ absurd (ground arith)
  | inr ((x, db₁), ran) ↦ elim (Result-cases (observe_each env k cycle vs db₁)) [
    | inl (e, failed) ↦ absurd (ground arith)
    | inr ((xs, db₂), rest) ↦
        let last : db₂ ≡ db' = ground arith in
        (x, xs, db₁, ground arith, observe_one-Observed env k cycle v db x db₁ ran, rw last at rest)
  ]
]

-- What is reported by the tables after another finding is reported by those before.
AllReported-before :
    (env : Env) (k : String) (cycle : ℕ) (v : AgentFinding) (vs : List AgentFinding)
    (xs : List Finding) (db : Db) (x : Finding) (db₁ : Db)
    → Observed env k cycle v db x db₁
    → any (λ (u : AgentFinding). u.id is v.id) vs ≡ false
    → AllReported env k cycle db₁.qc_findings vs xs
    → AllReported env k cycle db.qc_findings vs xs
AllReported-before env k cycle v [] [] db x db₁ o new r = tt
AllReported-before env k cycle v [] (y ∷ ys) db x db₁ o new r = r
AllReported-before env k cycle v (u ∷ us) [] db x db₁ o new r = r
AllReported-before env k cycle v (u ∷ us) (y ∷ ys) db x db₁ o new (r, rs) =
    let same = Observed-other env k u.id cycle v db x db₁ o (ground arith) in
    (
      subst (λ before. IsReported env k cycle before u y) same r,
      AllReported-before env k cycle v us ys db x db₁ o (ground arith) rs,
    )

Observed-IsReported :
    (env : Env) (k : String) (cycle : ℕ) (v : AgentFinding) (db : Db) (x : Finding) (db₁ : Db)
    → Observed env k cycle v db x db₁
    → IsReported env k cycle (find_finding k v.id db.qc_findings) v x
Observed-IsReported env k cycle v db x db₁ o = elim o.outcome [
  | inl (missing, late, e, rows) ↦ inl (missing, late, e)
  | inr (old, found, meaning, forward, e, rows) ↦ inr (old, found, meaning, forward, e)
]

and_three : (a b c : Bool) → (a && not b && c) ≡ true → (b ≡ false) × (c ≡ true)
and_three a b c h = ground arith

report_valid-tail :
    (v : AgentFinding) (vs : List AgentFinding)
    → report_valid (v ∷ vs) ≡ true
    → (any (λ (u : AgentFinding). u.id is v.id) vs ≡ false) × (report_valid vs ≡ true)
unfolding report_valid
report_valid-tail v vs h =
    and_three _ (any (λ (u : AgentFinding). u.id is v.id) vs) (report_valid vs) h

each-Reported :
    (env : Env) (k : String) (cycle : ℕ) (vs : List AgentFinding) (db : Db) (xs : List Finding)
    (db' : Db)
    → report_valid vs ≡ true
    → observe_each env k cycle vs db ≡ ok (xs, db')
    → AllReported env k cycle db.qc_findings vs xs × Quiet db db'
unfolding observe_each
each-Reported env k cycle [] db xs db' valid h =
    let nothing : xs ≡ [] = ground arith in
    (rw nothing tt, (ground arith, ground arith, ground arith))
each-Reported env k cycle (v ∷ vs) db ys db' valid h =
    let (new, valid') = report_valid-tail v vs valid in
    let (x, xs, db₁, both, o, rest) = each-steps env k cycle v vs db ys db' h in
    let (reported, (j, t, r)) = each-Reported env k cycle vs db₁ xs db' valid' rest in
    let earlier = AllReported-before env k cycle v vs xs db x db₁ o new reported in
    (
      rw both (Observed-IsReported env k cycle v db x db₁ o, earlier),
      (j ∙ o.quiet.0, t ∙ o.quiet.1, r ∙ o.quiet.2),
    )

each_nil :
    (env : Env) (k : String) (cycle : ℕ) (db : Db) (xs : List Finding) (db' : Db)
    → observe_each env k cycle [] db ≡ ok (xs, db')
    → db' ≡ db
unfolding observe_each
each_nil env k cycle db xs db' h = ground arith

each-Kept :
    (env : Env) (k i f : String) (cycle : ℕ) (vs : List AgentFinding) (db : Db) (xs : List Finding)
    (db' : Db) (y : Finding)
    → observe_each env k cycle vs db ≡ ok (xs, db')
    → find_finding i f db.qc_findings ≡ some y
    → (z : Finding) × (find_finding i f db'.qc_findings ≡ some z) × IsKept y z
each-Kept env k i f cycle [] db xs db' y h stored =
    let same : db' ≡ db = each_nil env k cycle db xs db' h in (y, rw same stored, IsKept-refl y)
each-Kept env k i f cycle (v ∷ vs) db ys db' y h stored =
    let (x, xs, db₁, both, o, rest) = each-steps env k cycle v vs db ys db' h in
    let (w, mid, kept) = Observed-Kept env k i f cycle v db x db₁ y o stored in
    let (z, last, kept') = each-Kept env k i f cycle vs db₁ xs db' w rest mid in
    (z, last, IsKept-trans y w z kept kept')

body-ran :
    (env : Env) (k : String) (cycle : ℕ) (vs : List AgentFinding) (db : Db) (xs : List Finding)
    (db' : Db)
    → observe_body env k cycle vs db ≡ ok (xs, db')
    → (db₁ : Db) × (observe_each env k cycle vs db ≡ ok (xs, db₁))
      × (db'.qc_findings ≡ db₁.qc_findings)
      × Quiet db₁ db'
unfolding observe_body append_audit
body-ran env k cycle vs db xs db' h = elim (Result-cases (observe_each env k cycle vs db)) [
  | inl (e, failed) ↦ absurd (ground arith)
  | inr ((ys, db₁), ran) ↦
      let same : ys ≡ xs = ground arith in
      (db₁, rw same at ran, ground arith, (ground arith, ground arith, ground arith))
]

body-Reported :
    (env : Env) (k : String) (cycle : ℕ) (vs : List AgentFinding) (db : Db) (xs : List Finding)
    (db' : Db)
    → report_valid vs ≡ true
    → observe_body env k cycle vs db ≡ ok (xs, db')
    → AllReported env k cycle db.qc_findings vs xs × Quiet db db'
body-Reported env k cycle vs db xs db' valid h =
    let (db₁, ran, rows, (j, t, r)) = body-ran env k cycle vs db xs db' h in
    let (reported, (j', t', r')) = each-Reported env k cycle vs db xs db₁ valid ran in
    (reported, (j ∙ j', t ∙ t', r ∙ r'))

guards :
    (k : String) (cycle : ℤ) (vs : List AgentFinding)
    → bad_report k cycle vs ≡ false
    → report_valid vs ≡ true
guards k cycle vs h = ground arith

-- A review that is recorded returns one row for each finding that it reports, in their order: a
-- finding that was not stored is open in its first version, and after a repair it is not blocking
-- unless its category is one of the four that may be; a finding that was stored has the severity,
-- the category and the location that are reported, was last seen in no later cycle, and is returned
-- as it was stored but for the cycle, the time and the next version. The tables of jobs stay as
-- they were.
pub observe_findings_ok :
    (env : Env) (k : String) (cycle : ℤ) (vs : List AgentFinding) (db : Db) (xs : List Finding)
    → (observe_findings env k cycle vs db).0 ≡ ok xs
    → AllReported env k (pos_part cycle) db.qc_findings vs xs
      × Quiet db (observe_findings env k cycle vs db).1
unfolding observe_findings
observe_findings_ok env k cycle vs db xs h = elim (Bool-cases (bad_report k cycle vs)) [
  | inl bad ↦ absurd (cc (rw bad at h))
  | inr good ↦ elim (in_tx-cases env (observe_body env k (pos_part cycle) vs) db) [
    | inl (e, stays) ↦ absurd (cc (rw (good, stays) at h))
    | inr (ys, db', ran, stays) ↦
        let same : ys ≡ xs = ground arith in
        rw (good, stays)
          (body-Reported env k (pos_part cycle) vs db xs db' (guards k cycle vs good)
            (rw same at ran))
  ]
]

body-Kept :
    (env : Env) (k i f : String) (cycle : ℕ) (vs : List AgentFinding) (db : Db) (xs : List Finding)
    (db' : Db) (y : Finding)
    → observe_body env k cycle vs db ≡ ok (xs, db')
    → find_finding i f db.qc_findings ≡ some y
    → (z : Finding) × (find_finding i f db'.qc_findings ≡ some z) × IsKept y z
body-Kept env k i f cycle vs db xs db' y h stored =
    let (db₁, ran, rows, quiet) = body-ran env k cycle vs db xs db' h in
    let (z, last, kept) = each-Kept env k i f cycle vs db xs db₁ y ran stored in
    (z, rw rows last, kept)

-- Recording a review, whatever it reports and whether it succeeds, keeps every stored finding with
-- its status, severity, category, location and first cycle: it closes none, and it reopens none,
-- not even one that the review reports again.
pub observe_findings-Kept :
    (env : Env) (k : String) (cycle : ℤ) (vs : List AgentFinding) (db : Db) (i f : String)
    (y : Finding)
    → find_finding i f db.qc_findings ≡ some y
    → (z : Finding) × (find_finding i f (observe_findings env k cycle vs db).1.qc_findings ≡ some z)
      × IsKept y z
unfolding observe_findings
observe_findings-Kept env k cycle vs db i f y stored = elim (Bool-cases (bad_report k cycle vs)) [
  | inl bad ↦ rw bad (y, stored, IsKept-refl y)
  | inr good ↦ elim (in_tx-cases env (observe_body env k (pos_part cycle) vs) db) [
    | inl (e, stays) ↦ rw (good, stays) (y, stored, IsKept-refl y)
    | inr (xs, db', ran, stays) ↦
        rw (good, stays) (body-Kept env k i f (pos_part cycle) vs db xs db' y ran stored)
  ]
]

pub observe_findings-Quiet :
    (env : Env) (k : String) (cycle : ℤ) (vs : List AgentFinding) (db : Db)
    → Quiet db (observe_findings env k cycle vs db).1
unfolding observe_findings
observe_findings-Quiet env k cycle vs db = elim (Bool-cases (bad_report k cycle vs)) [
  | inl bad ↦ rw bad (refl, refl, refl)
  | inr good ↦ rw good (
      in_tx-Quiet env (observe_body env k (pos_part cycle) vs) db (λ xs db' h.
        (body-Reported env k (pos_part cycle) vs db xs db' (guards k cycle vs good) h).1))
]
