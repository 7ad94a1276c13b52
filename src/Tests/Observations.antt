-- ===== src/Tests/Observations.antt =====
-- internal/storage/sqlite/findings.go: a review is recorded, and recorded again.
use code_maintainer.Base.{◌≡◌, refl, some, [], ◌∷◌}
use code_maintainer.Base.Int.{pos}
use code_maintainer.Base.Text.{is_blank}
use code_maintainer.Base.Patterns.{is_finding_id, is_safe_path}
use code_maintainer.Store.Rows.{AgentFinding, Finding, verified}
use code_maintainer.Store.Tx.{Db, ok, in_tx}
use code_maintainer.Store.Tables.{append_audit, normalize_json, required}
use code_maintainer.Store.History.{empty}
use code_maintainer.Store.Findings.{find_finding, read_finding}
use code_maintainer.Store.Findings.Observe.{
  report_valid, new_finding, seen_again, observe_row, observe_one, observe_each, observe_body,
  observe_findings,
}
use code_maintainer.Store.Findings.Observe.Report.{IsKept}
use code_maintainer.Store.Findings.Observe.Each.{observe_findings-Kept}
use code_maintainer.Tests.Fixture.{env_with}

abbrev leak : AgentFinding
leak = record {
  id = "QC-LEAK";
  severity = "blocker";
  category = "correctness";
  claim = "a handle is not closed";
  path = "internal/a.go";
  line = pos 7;
  evidence = "line 7";
  required_resolution = "close it";
  verification_method = "test";
}

reports :
    (observe_findings (env_with "o") "job-1" (pos 0) (leak ∷ []) empty).0
    ≡ ok (new_finding (env_with "o") "job-1" 0 leak ∷ [])
unfolding observe_findings observe_body observe_each observe_one observe_row read_finding
    report_valid is_blank is_finding_id is_safe_path in_tx append_audit normalize_json required
reports = refl

-- The finding was repaired and verified.
abbrev repaired : Finding
repaired = record (new_finding (env_with "o") "job-1" 0 leak) { status = verified; version = 3 }

abbrev with_repaired : Db
with_repaired = record empty { qc_findings = repaired ∷ [] }

-- A review that reports it again leaves it verified.
reports_again :
    (observe_findings (env_with "p") "job-1" (pos 1) (leak ∷ []) with_repaired).0
    ≡ ok (seen_again (env_with "p") 1 repaired ∷ [])
unfolding observe_findings observe_body observe_each observe_one observe_row read_finding
    report_valid is_blank is_finding_id is_safe_path in_tx append_audit normalize_json required
reports_again = refl

observe_findings-Kept_example :
    (z : Finding) × (find_finding "job-1" "QC-LEAK"
        (observe_findings (env_with "p") "job-1" (pos 1) (leak ∷ []) with_repaired).1.qc_findings
      ≡ some z)
    × IsKept repaired z
observe_findings-Kept_example =
    observe_findings-Kept (env_with "p") "job-1" (pos 1) (leak ∷ []) with_repaired "job-1" "QC-LEAK"
      repaired refl
