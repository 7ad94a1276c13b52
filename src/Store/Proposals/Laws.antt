-- ===== src/Store/Proposals/Laws.antt =====
-- internal/storage/sqlite/automation.go: a proposal is reviewed once, and stays what it was.
use code_maintainer.Base.{◌≤◌, ◌≡◌, ◌≢◌, refl, String, false, arith, Bool-cases, inl, inr, ◌is◌}
use code_maintainer.Automation.{SkillProposal, SkillProposalRequest, SkillReviewRequest}
use code_maintainer.Store.Ledger.Quiet.{Quiet, in_tx-Quiet, guarded-Quiet}
use code_maintainer.Store.Tx.{Env, Db, Result, ok, err, in_tx, in_tx-cases}
use code_maintainer.Store.Tables.{append_audit, count_where, update_where}
use code_maintainer.Store.Tables.Counts.{count_where-le, count_where-update}
use code_maintainer.Store.Proposals.{
  is_pending, is_reviewed, review_row, reviewed_status, review_body, insert_event, propose_body,
  new_proposal, proposal_back, bad_review, review_skill_proposal, create_skill_proposal,
}

propose_body-Quiet :
    (env : Env) (p q : SkillProposal) (db db' : Db)
    → propose_body env p db ≡ ok (q, db')
    → Quiet db db'
unfolding propose_body insert_event append_audit
propose_body-Quiet env p q db db' h = (ground arith, ground arith, ground arith)

pub create_skill_proposal-Quiet :
    (env : Env) (r : SkillProposalRequest) (db : Db) → Quiet db (create_skill_proposal env r db).1
unfolding create_skill_proposal
create_skill_proposal-Quiet env r db =
    let ran =
      in_tx-Quiet env (propose_body env (new_proposal env r)) db
        (λ q db' h. propose_body-Quiet env (new_proposal env r) q db db' h) in
    search (guarded-Quiet, ran)

-- What the body of a review leaves where it succeeds.
record Reviewed (env : Env) (k : String) (r : SkillReviewRequest) (db db' : Db) : Type 0 where
  one : count_where (is_reviewed k r.expected_version) db.skill_proposals ≡ 1
  rows :
      db'.skill_proposals
      ≡ update_where (is_reviewed k r.expected_version) (review_row env r) db.skill_proposals
  quiet : Quiet db db'

review_body-Reviewed :
    (env : Env) (k : String) (r : SkillReviewRequest) (db db' : Db) (u : Unit {0})
    → review_body env k r db ≡ ok (u, db')
    → Reviewed env k r db db'
unfolding review_body insert_event append_audit
review_body-Reviewed env k r db db' u h = record {
  one = ground arith;
  rows = ground arith;
  quiet = (ground arith, ground arith, ground arith);
}

back-db : (env : Env) (k : String) (x : Result (Unit {0}) × Db) → (proposal_back env k x).1 ≡ x.1
unfolding proposal_back
back-db env k (ok u, db) = refl
back-db env k (err e, db) = refl

pub review_skill_proposal-Quiet :
    (env : Env) (k : String) (r : SkillReviewRequest) (db : Db)
    → Quiet db (review_skill_proposal env k r db).1
unfolding review_skill_proposal
review_skill_proposal-Quiet env k r db =
    let ran : Quiet db (proposal_back env k (in_tx env (review_body env k r) db)).1 =
      rw (back-db env k (in_tx env (review_body env k r) db)) (
        in_tx-Quiet env (review_body env k r) db
          (λ u db' h. (review_body-Reviewed env k r db db' u h).quiet)) in
    search (guarded-Quiet, ran)

-- A review that returns a proposal has run its body.
review-ran :
    (env : Env) (k : String) (r : SkillReviewRequest) (db : Db) (p : SkillProposal)
    → (review_skill_proposal env k r db).0 ≡ ok p
    → Reviewed env k r db (review_skill_proposal env k r db).1
unfolding review_skill_proposal proposal_back
review-ran env k r db p h = elim (Bool-cases (bad_review r)) [
  | inl refused ↦ absurd (ground arith)
  | inr passes ↦ elim (in_tx-cases env (review_body env k r) db) [
    | inl (e, stays) ↦ absurd (ground arith)
    | inr (u, db', ran, stays) ↦ rw (passes, stays) (review_body-Reviewed env k r db db' u ran)
  ]
]

reviewed_status-ne : (r : SkillReviewRequest) → (reviewed_status r is "proposed") ≡ false
reviewed_status-ne r = elim (Bool-cases (r.decision is "approve")) [
  | inl b ↦ rw b refl
  | inr b ↦ rw b refl
]

-- A proposal is reviewed once: where its id has one row, after a review that succeeded no other
-- review of it succeeds, whatever it decides, whoever makes it and whichever version it expects.
pub review_skill_proposal_once :
    (env env' : Env) (k : String) (r r' : SkillReviewRequest) (db : Db) (p p' : SkillProposal)
    → count_where (λ (q : SkillProposal). q.id is k) db.skill_proposals ≤ 1
    → (review_skill_proposal env k r db).0 ≡ ok p
    → (review_skill_proposal env' k r' (review_skill_proposal env k r db).1).0 ≢ ok p'
review_skill_proposal_once env env' k r r' db p p' single first second =
    let one = review-ran env k r db p first in
    let two = review-ran env' k r' (review_skill_proposal env k r db).1 p' second in
    let pending =
      count_where-le (is_pending k) (λ (q : SkillProposal). q.id is k) db.skill_proposals
        (λ q h. ground arith) in
    let settled =
      count_where-update (is_pending k) (is_reviewed k r.expected_version) (review_row env r)
        db.skill_proposals (λ q h. ground arith) (λ q. ground (arith, reviewed_status-ne r)) in
    let left =
      count_where-le (is_reviewed k r'.expected_version) (is_pending k)
        (review_skill_proposal env k r db).1.skill_proposals (λ q h. ground arith) in
    let hits = two.one in
    let was = one.one in
    let left' = rw one.rows at left in let hits' = rw one.rows at hits in omega arith
