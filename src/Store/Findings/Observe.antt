-- ===== src/Store/Findings/Observe.antt =====
-- internal/storage/sqlite/findings.go: ObserveFindings, which records what a review reports; and
-- Finding.Validate of internal/agents/contracts.go.
pub mod Laws
pub mod Report
pub mod Each
use code_maintainer.Base.{
  ℕ, ◌+◌, String, Bool, true, false, not, ◌&&◌, ◌||◌, Option, none, some, List, [], ◌∷◌, any, all,
  length, ltb, ◌is◌, if◌then◌else◌,
}
use code_maintainer.Base.Int.{ℤ, pos, pos_part, ltb_ℤ}
use code_maintainer.Base.Text.{is_blank, is_empty, byte_len}
use code_maintainer.Base.Patterns.{is_finding_id, is_safe_path}
use code_maintainer.Scheduler.Types.{one_of}
use code_maintainer.Store.Rows.{AgentFinding, Finding, open_finding, FindingObservation}
use code_maintainer.Store.Tx.{
  Env, Db, Call, StoreError, Result, ok, err, Tx, ◌>>=◌, ◌>>◌, pure, reject_if, call, gets, modify,
  in_tx,
}
use code_maintainer.Store.Tables.{append_audit, update_where}
use code_maintainer.Store.JobOps.{audit_of}
use code_maintainer.Store.Findings.{find_finding, read_finding}

-- Whether Validate of a reported finding passes.
unfoldable pub reported_valid : AgentFinding → Bool
reported_valid v =
    is_finding_id v.id
    && one_of ("blocker" ∷ "must_fix" ∷ "should_fix" ∷ "note" ∷ []) v.severity
    && not (is_blank v.category)
    && not (is_blank v.claim)
    && is_safe_path v.path
    && not (ltb_ℤ v.line (pos 0))
    && not (is_blank v.evidence)
    && not (is_blank v.required_resolution)
    && not (is_blank v.verification_method)
    && not (ltb 8000 (byte_len v.claim))
    && not (ltb 16000 (byte_len v.evidence))
    && not (ltb 8000 (byte_len v.required_resolution))
    && not (ltb 8000 (byte_len v.verification_method))

-- Every finding is valid, and no id is there twice.
unfoldable pub report_valid : List AgentFinding → Bool
unfolding reported_valid
report_valid [] = true
report_valid (v ∷ vs) =
    reported_valid v && not (any (λ (u : AgentFinding). u.id is v.id) vs) && report_valid vs

-- A blocking finding that is new after a repair, of a category that may not be.
abbrev pub late_blocking : ℕ → AgentFinding → Bool
late_blocking cycle v =
    ltb 0 cycle
    && one_of ("blocker" ∷ "must_fix" ∷ []) v.severity
    && not (
        one_of
          ("regression_introduced_by_repair" ∷ "newly_observed_evidence" ∷ "documentation_policy"
            ∷ "documentation_unsupported_claim" ∷ [])
          v.category)

abbrev pub new_finding : Env → String → ℕ → AgentFinding → Finding
new_finding env k cycle v = record {
  job_id = k;
  id = v.id;
  severity = v.severity;
  category = v.category;
  claim = v.claim;
  location = env.location_json v;
  required_resolution = v.required_resolution;
  verification_method = v.verification_method;
  status = open_finding;
  first_seen_cycle = cycle;
  last_seen_cycle = cycle;
  version = 1;
  created_at = env.now;
  updated_at = env.now;
}

-- `job_id=? AND id=?`
abbrev pub is_row : String → String → Finding → Bool
is_row k f x = x.job_id is k && x.id is f

abbrev pub seen_again : Env → ℕ → Finding → Finding
seen_again env cycle x = record x {
  last_seen_cycle = cycle;
  updated_at = env.now;
  version = x.version + 1;
}

-- The same finding with another category, location or severity.
abbrev pub other_meaning : Env → AgentFinding → Finding → Bool
other_meaning env v x =
    not (x.category is v.category)
    || not (x.location is env.location_json v)
    || not (x.severity is v.severity)

-- The insertion of a finding that is new, or the update of the row that was read.
unfoldable pub observe_row : Env → String → ℕ → AgentFinding → Option Finding → Tx Finding
observe_row env k cycle v none = do
  reject_if (late_blocking cycle v) StoreError.invalid
  call env Call.insert_finding
  modify λ db. record db { qc_findings = new_finding env k cycle v ∷ db.qc_findings }
  read_finding env k v.id
observe_row env k cycle v (some x) = do
  reject_if (other_meaning env v x) StoreError.conflict
  reject_if (ltb cycle x.last_seen_cycle) StoreError.conflict
  call env Call.update_finding
  modify λ db. record db {
    qc_findings = update_where (is_row k v.id) (seen_again env cycle) db.qc_findings;
  }
  read_finding env k v.id

abbrev pub observation : Env → String → ℕ → AgentFinding → FindingObservation
observation env k cycle v = record {
  job_id = k;
  finding_id = v.id;
  review_cycle = cycle;
  report = env.observation_json v;
  created_at = env.now;
}

unfoldable pub observe_one : Env → String → ℕ → AgentFinding → Tx Finding
observe_one env k cycle v = do
  call env Call.read_finding
  found ← gets (λ db. find_finding k v.id db.qc_findings)
  x ← observe_row env k cycle v found
  call env Call.insert_observation
  modify
      λ db. record db { finding_observations = observation env k cycle v ∷ db.finding_observations }
  pure x

-- The loop over the reported findings.
unfoldable pub observe_each : Env → String → ℕ → List AgentFinding → Tx (List Finding)
observe_each env k cycle [] = pure []
observe_each env k cycle (v ∷ vs) = do
  x ← observe_one env k cycle v
  xs ← observe_each env k cycle vs
  pure (x ∷ xs)

unfoldable pub observe_body : Env → String → ℕ → List AgentFinding → Tx (List Finding)
observe_body env k cycle vs = do
  xs ← observe_each env k cycle vs
  append_audit env
      (audit_of "qc-agent" "qc" "qc.findings.observe" "job" k (env.observed_details cycle vs))
  pure xs

abbrev pub bad_report : String → ℤ → List AgentFinding → Bool
bad_report k cycle vs =
    is_empty k
    || ltb_ℤ cycle (pos 0)
    || ltb_ℤ (pos 10) cycle
    || ltb 100 (length vs)
    || not (report_valid vs)

-- ObserveFindings
unfoldable pub observe_findings :
    Env → String → ℤ → List AgentFinding → Db → Result (List Finding) × Db
observe_findings env k cycle vs db =
    if bad_report k cycle vs
    then (err StoreError.invalid, db)
    else in_tx env (observe_body env k (pos_part cycle) vs) db
