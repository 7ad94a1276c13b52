-- ===== src/Store/Proposals.antt =====
-- internal/storage/sqlite/automation.go: proposals of skills, which stay inert, and their review.
use code_maintainer.Base.{
  ℕ, suc, ◌+◌, String, Bool, true, false, not, ◌&&◌, ◌||◌, Option, none, some, List, [], ◌∷◌, any,
  find, map, take, ◌==◌, ◌is◌, if◌then◌else◌,
}
use code_maintainer.Base.Int.{ℤ, pos, eqb_ℤ}
use code_maintainer.Base.Stamp.{stamp_before, text_before}
use code_maintainer.Base.Text.{codes, is_blank, is_empty, trim_space, contains_codes, lower_code}
use code_maintainer.Automation.{
  AutomationError, SkillProposal, SkillProposalRequest, SkillReviewRequest, SkillEvent,
  proposal_valid,
}
use code_maintainer.Scheduler.Order.{stable_sort}
use code_maintainer.Scheduler.Types.{one_of}
use code_maintainer.Store.Schedules.{limit_or_hundred}
use code_maintainer.Store.Tx.{
  Env, Db, Call, StoreError, Result, ok, err, Tx, ◌>>=◌, ◌>>◌, pure, fail, reject_if, call, gets,
  modify, or_fail, in_tx,
}
use code_maintainer.Store.Tables.{append_audit, count_where, update_where}
use code_maintainer.Store.JobOps.{audit_of}
pub mod Laws

-- containsProposalSecret
unfoldable pub has_secret : String → Bool
unfolding contains_codes lower_code
has_secret content =
    let lower = map lower_code (codes content) in
    any (λ marker. contains_codes lower (codes marker))
      ("-----begin private key-----" ∷ "github_pat_" ∷ "ghp_" ∷ "password="
        ∷ "aws_secret_access_key" ∷ [])

abbrev pub new_proposal : Env → SkillProposalRequest → SkillProposal
new_proposal env r = record {
  id = env.new_id "skillproposal";
  name = r.name;
  description = trim_space r.description;
  content = r.content;
  content_hash = env.sha256_hex r.content;
  status = "proposed";
  version = 1;
  proposed_by = r.proposed_by;
  reviewed_by = "";
  review_reason = "";
  activated = false;
  created_at = env.now;
  updated_at = env.now;
}

unfoldable pub insert_event : Env → String → String → String → String → Tx (Unit {0})
insert_event env k action actor rationale = do
  call env Call.insert_proposal_event
  modify λ db. record db {
    skill_events =
        record {
          proposal_id = k;
          action = action;
          actor_id = actor;
          rationale = rationale;
          created_at = env.now;
        }
        ∷ db.skill_events;
  }

unfoldable pub propose_body : Env → SkillProposal → Tx SkillProposal
propose_body env p = do
  call env Call.insert_proposal
  taken ← gets (λ db. any (λ (q : SkillProposal). q.id is p.id) db.skill_proposals)
  reject_if taken (StoreError.driver Call.insert_proposal)
  modify λ db. record db { skill_proposals = p ∷ db.skill_proposals }
  insert_event env p.id "proposed" p.proposed_by
      "proposal remains inert pending administrator review"
  append_audit env (audit_of p.proposed_by "service" "skill.propose" "skill_proposal" p.id "")
  pure p

-- CreateSkillProposal
unfoldable pub create_skill_proposal : Env → SkillProposalRequest → Db → Result SkillProposal × Db
create_skill_proposal env r db =
    if not (proposal_valid r) || has_secret r.content
    then (err (StoreError.automation AutomationError.invalid), db)
    else if env.fault Call.random
    then (err (StoreError.driver Call.random), db)
    else in_tx env (propose_body env (new_proposal env r)) db

abbrev pub reviewed_status : SkillReviewRequest → String
reviewed_status r = if r.decision is "approve" then "approved_inert" else "rejected"

-- `id = ? AND status = 'proposed'`
abbrev pub is_pending : String → SkillProposal → Bool
is_pending k p = p.id is k && p.status is "proposed"

-- `id = ? AND status = 'proposed' AND version = ?`
abbrev pub is_reviewed : String → ℤ → SkillProposal → Bool
is_reviewed k v p = is_pending k p && eqb_ℤ v (pos p.version)

abbrev pub review_row : Env → SkillReviewRequest → SkillProposal → SkillProposal
review_row env r p = record p {
  status = reviewed_status r;
  reviewed_by = r.actor_id;
  review_reason = trim_space r.rationale;
  version = p.version + 1;
  updated_at = env.now;
}

unfoldable pub review_body : Env → String → SkillReviewRequest → Tx (Unit {0})
review_body env k r = do
  call env Call.update_proposal
  rows ← gets (λ db. count_where (is_reviewed k r.expected_version) db.skill_proposals)
  modify λ db. record db {
    skill_proposals =
        update_where (is_reviewed k r.expected_version) (review_row env r) db.skill_proposals;
  }
  reject_if (not (rows == 1)) (StoreError.automation AutomationError.conflict)
  insert_event env k (reviewed_status r) r.actor_id (trim_space r.rationale)
  append_audit env (audit_of r.actor_id "administrator" "skill.review" "skill_proposal" k "")

abbrev pub find_proposal : String → List SkillProposal → Option SkillProposal
find_proposal k ps = find (λ (p : SkillProposal). p.id is k) ps

-- getSkillProposal
unfoldable pub get_proposal : Env → String → Db → Result SkillProposal
get_proposal env k db =
    if env.fault Call.read_proposal
    then err (StoreError.driver Call.read_proposal)
    else elim (find_proposal k db.skill_proposals) [
      | none ↦ err (StoreError.automation AutomationError.not_found)
      | some p ↦ ok p
    ]

-- `return s.getSkillProposal(ctx, id)` after the commit.
unfoldable pub proposal_back : Env → String → Result (Unit {0}) × Db → Result SkillProposal × Db
proposal_back env k (err e, db) = (err e, db)
proposal_back env k (ok _, db) = (get_proposal env k db, db)

abbrev pub bad_review : SkillReviewRequest → Bool
bad_review r =
    not (one_of ("approve" ∷ "reject" ∷ []) r.decision)
    || is_blank r.rationale
    || is_empty r.actor_id

-- ReviewSkillProposal
unfoldable pub review_skill_proposal :
    Env → String → SkillReviewRequest → Db → Result SkillProposal × Db
review_skill_proposal env k r db =
    if bad_review r
    then (err (StoreError.automation AutomationError.invalid), db)
    else proposal_back env k (in_tx env (review_body env k r) db)

-- `ORDER BY created_at DESC, id`
abbrev newest : SkillProposal → SkillProposal → Bool
newest a b =
    stamp_before b.created_at a.created_at
    || (not (stamp_before a.created_at b.created_at) && text_before (codes a.id) (codes b.id))

-- ListSkillProposals
unfoldable pub list_skill_proposals : Env → ℤ → Db → Result (List SkillProposal)
list_skill_proposals env limit db =
    if env.fault Call.read_proposal
    then err (StoreError.driver Call.read_proposal)
    else ok (take (limit_or_hundred limit) (stable_sort newest db.skill_proposals))
