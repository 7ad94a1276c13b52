-- ===== src/Store/Findings.antt =====
-- internal/findings/types.go and TransitionFinding of internal/storage/sqlite/findings.go: the
-- lifecycle of a review finding.
pub mod Laws
pub mod Observe
use code_maintainer.Base.{
  ℕ, suc, ◌+◌, String, Bool, true, false, not, ◌&&◌, ◌||◌, Option, none, some, List, [], ◌∷◌, keep,
  length, ◌==◌, ◌is◌, if◌then◌else◌,
}
use code_maintainer.Base.Int.{ℤ, pos, pos_part, ltb_ℤ, eqb_ℤ}
use code_maintainer.Base.Text.{is_blank, is_empty, concat}
use code_maintainer.Scheduler.Types.{one_of}
use code_maintainer.Store.Rows.{
  FindingStatus, open_finding, fixed, verified, disputed, accepted, rejected, human_waived, closed,
  Finding, FindingRequest, FindingTransition,
}
use code_maintainer.Store.Tx.{
  Env, Db, Call, StoreError, Result, ok, err, Tx, ◌>>=◌, ◌>>◌, pure, fail, reject_if, call, gets,
  modify, or_fail, in_tx,
}
use code_maintainer.Store.Tables.{append_audit}
use code_maintainer.Store.JobOps.{audit_of}

-- CanTransition of internal/findings/types.go
unfoldable pub can_move : FindingStatus → FindingStatus → Bool
can_move open_finding fixed = true
can_move open_finding disputed = true
can_move open_finding human_waived = true
can_move fixed verified = true
can_move fixed open_finding = true
can_move verified closed = true
can_move verified open_finding = true
can_move disputed accepted = true
can_move disputed rejected = true
can_move accepted closed = true
can_move rejected open_finding = true
can_move human_waived closed = true
can_move _ _ = false

abbrev pub is_waiver : FindingStatus → Bool
is_waiver human_waived = true
is_waiver _ = false

-- The row of a finding, whose job and id are the primary key.
abbrev pub find_finding : String → String → List Finding → Option Finding
find_finding k f [] = none
find_finding k f (x ∷ xs) = if x.job_id is k && x.id is f then some x else find_finding k f xs

abbrev pub is_version : String → String → ℤ → Finding → Bool
is_version k f v x = x.job_id is k && x.id is f && eqb_ℤ (pos x.version) v

-- `UPDATE qc_findings SET ... WHERE job_id=? AND id=? AND version=?`
abbrev pub update_finding : (Finding → Bool) → (Finding → Finding) → List Finding → List Finding
update_finding p g [] = []
update_finding p g (x ∷ xs) = (if p x then g x else x) ∷ update_finding p g xs

abbrev pub move_finding : Env → FindingStatus → Finding → Finding
move_finding env to x = record x { status = to; version = x.version + 1; updated_at = env.now }

-- A waiver of a blocking finding by someone who may not.
abbrev pub bad_waiver : FindingRequest → Finding → Bool
bad_waiver r x =
    is_waiver r.to
    && one_of ("blocker" ∷ "must_fix" ∷ []) x.severity
    && (not r.reauthenticated || not (one_of ("reviewer" ∷ "administrator" ∷ []) r.actor_role))

abbrev pub finding_entry :
    Env → String → String → FindingRequest → FindingStatus → FindingTransition
finding_entry env k f r from = record {
  job_id = k;
  finding_id = f;
  from_status = from;
  to_status = r.to;
  actor_id = r.actor_id;
  actor_role = r.actor_role;
  rationale = r.rationale;
  reauthenticated = r.reauthenticated;
  created_at = env.now;
}

unfoldable pub read_finding : Env → String → String → Tx Finding
read_finding env k f = do
  call env Call.read_finding
  found ← gets (λ db. find_finding k f db.qc_findings)
  or_fail found StoreError.not_found

unfoldable pub finding_body : Env → String → String → FindingRequest → Tx Finding
finding_body env k f r = do
  current ← read_finding env k f
  reject_if (not (eqb_ℤ (pos current.version) r.expected_version)) StoreError.conflict
  reject_if (not (can_move current.status r.to)) StoreError.invalid
  reject_if (bad_waiver r current) StoreError.invalid
  call env Call.update_finding
  rows ← gets (λ db. length (keep (is_version k f r.expected_version) db.qc_findings))
  modify λ db. record db {
    qc_findings =
        update_finding (is_version k f r.expected_version) (move_finding env r.to) db.qc_findings;
  }
  reject_if (not (rows == 1)) StoreError.conflict
  call env Call.insert_finding_transition
  modify λ db. record db {
    finding_transitions = finding_entry env k f r current.status ∷ db.finding_transitions;
  }
  append_audit env (
      audit_of r.actor_id r.actor_role "qc.finding.transition" "qc_finding"
        (concat (k ∷ "/" ∷ f ∷ [])) (env.finding_details current.status r))
  read_finding env k f

abbrev pub bad_finding_request : String → String → FindingRequest → Bool
bad_finding_request k f r =
    is_empty k
    || is_empty f
    || is_blank r.actor_id
    || is_blank r.actor_role
    || is_blank r.rationale
    || ltb_ℤ r.expected_version (pos 1)

unfoldable pub transition_finding :
    Env → String → String → FindingRequest → Db → Result Finding × Db
transition_finding env k f r db =
    if bad_finding_request k f r
    then (err StoreError.invalid, db)
    else in_tx env (finding_body env k f r) db
