-- ===== src/Store/Findings/Laws.antt =====
-- internal/storage/sqlite/findings.go: what a move of a finding requires and what it leaves.
use code_maintainer.Base.{
  ◌≡◌, refl, ap, String, true, false, ◌&&◌, arith, some, List, [], ◌∷◌, Bool-cases, Option-cases,
  inl, inr, ◌is◌,
}
use code_maintainer.Base.Int.{ℤ, pos, eqb_ℤ}
use code_maintainer.Store.Rows.{FindingStatus, Finding, FindingRequest}
use code_maintainer.Store.Tx.{Env, Db, ok, in_tx, in_tx-cases}
use code_maintainer.Store.Tables.{append_audit}
use code_maintainer.Store.JobOps.Changes.{guarded-Change}
use code_maintainer.Store.Ledger.{still, Change}
use code_maintainer.Store.Findings.{
  can_move, find_finding, is_version, update_finding, move_finding, bad_waiver, finding_entry,
  read_finding, finding_body, bad_finding_request, transition_finding,
}

-- What a move of a finding has found and written.
pub record FindingMoved (env : Env) (k f : String) (r : FindingRequest) (db : Db) (y : Finding)
    (db' : Db) : Type 0 where
  pub current : Finding
  pub found : find_finding k f db.qc_findings ≡ some current
  pub version : eqb_ℤ (pos current.version) r.expected_version ≡ true
  pub allowed : can_move current.status r.to ≡ true
  pub waiver : bad_waiver r current ≡ false
  pub returned : y ≡ move_finding env r.to current
  pub stored : find_finding k f db'.qc_findings ≡ some y
  pub logged :
      db'.finding_transitions ≡ finding_entry env k f r current.status ∷ db.finding_transitions
  pub keeps :
      (db'.jobs ≡ db.jobs)
      × (db'.job_transitions ≡ db.job_transitions)
      × (db'.reservations ≡ db.reservations)

find_finding-update :
    (env : Env) (to : FindingStatus) (k f : String) (v : ℤ) (xs : List Finding) (x : Finding)
    → find_finding k f xs ≡ some x
    → eqb_ℤ (pos x.version) v ≡ true
    → find_finding k f (update_finding (is_version k f v) (move_finding env to) xs)
      ≡ some (move_finding env to x)
find_finding-update env to k f v [] x found fits = absurd (cc)
find_finding-update env to k f v (z ∷ zs) x found fits =
    elim (Bool-cases (z.job_id is k && z.id is f)) [
      | inl here ↦
          let one : z ≡ x = ground arith in
          let hit : is_version k f v z ≡ true = ground arith in
          rw (hit, here) (ap (λ w. some (move_finding env to w)) one)
      | inr other ↦
          let rest =
            find_finding-update env to k f v zs x (rw (find_finding, other) at found) fits in
          let miss : is_version k f v z ≡ false = ground arith in rw (miss, other) rest
    ]

finding_body-Moved :
    (env : Env) (k f : String) (r : FindingRequest) (db : Db) (y : Finding) (db' : Db)
    → finding_body env k f r db ≡ ok (y, db')
    → FindingMoved env k f r db y db'
unfolding finding_body read_finding append_audit
finding_body-Moved env k f r db y db' h = elim (Option-cases (find_finding k f db.qc_findings)) [
  | inl missing ↦ absurd (ground arith)
  | inr (x, found) ↦
      let version : eqb_ℤ (pos x.version) r.expected_version ≡ true = ground arith in
      let moved =
        find_finding-update env r.to k f r.expected_version db.qc_findings x found version in
      let findings : db'.qc_findings
          ≡ update_finding (is_version k f r.expected_version) (move_finding env r.to)
              db.qc_findings =
        ground arith in
      let stored : find_finding k f db'.qc_findings ≡ some y = ground arith in
      record {
        current = x;
        found = found;
        version = version;
        allowed = ground arith;
        waiver = ground arith;
        returned = ground arith;
        stored = stored;
        logged = ground arith;
        keeps = (ground arith, ground arith, ground arith);
      }
]

-- A finding moves only under the version that the request names, along the lifecycle, and a
-- blocking one is waived only by a reviewer or administrator who has authenticated again; it is
-- returned as it is stored, in the new status under the next version, the move is logged with the
-- status before, and the tables of jobs stay as they were.
pub transition_finding_ok :
    (env : Env) (k f : String) (r : FindingRequest) (db : Db) (y : Finding)
    → (transition_finding env k f r db).0 ≡ ok y
    → FindingMoved env k f r db y (transition_finding env k f r db).1
unfolding transition_finding
transition_finding_ok env k f r db y h = elim (Bool-cases (bad_finding_request k f r)) [
  | inl bad ↦ absurd (cc (rw bad at h))
  | inr good ↦ elim (in_tx-cases env (finding_body env k f r) db) [
    | inl (e, stays) ↦ absurd (cc (rw (good, stays) at h))
    | inr (x, db', ran, stays) ↦
        let one : x ≡ y = ground arith in
        rw (good, stays) (finding_body-Moved env k f r db y db' (rw one at ran))
  ]
]

pub transition_finding-Change :
    (env : Env) (k f : String) (r : FindingRequest) (db : Db)
    → Change still db (transition_finding env k f r db).1
unfolding transition_finding
transition_finding-Change env k f r db = search (guarded-Change, body)
  where
    body : Change still db (in_tx env (finding_body env k f r) db).1
    body = elim (in_tx-cases env (finding_body env k f r) db) [
      | inl (e, stays) ↦ rw stays (Change.unchanged refl refl refl)
      | inr (y, db', ran, stays) ↦
          let (jobs, entries, charges) = (finding_body-Moved env k f r db y db' ran).keeps in
          rw stays (Change.unchanged jobs entries charges)
    ]
