-- ===== src/Jobs/Table.antt =====
-- internal/jobs/state.go: equality of states, and facts that are checked by running the whole
-- transition table.
use code_maintainer.Base.{
  ℕ, ◌≡◌, refl, sym, ◌∙◌, Bool, true, ◌||◌, none, some, List, [], ◌∷◌, arith, all, get_elem?, ◌==◌,
  ==_iff, ◌is◌, eq_iff, Bool-cases, inl, inr, ◌↔◌, &&-eq_true, String,
}
use code_maintainer.Jobs.State.{
  State, queued, syncing, preparing_dependencies, creating_worktree, locking_acceptance_criteria,
  awaiting_task_approval, loading_implementation_model, reproducing, implementing,
  verifying_targeted, verifying_full, loading_test_designer_model, test_design_review,
  awaiting_test_design_disposition, golden_rehearsal_review, awaiting_golden_approval,
  awaiting_remote_egress_approval, loading_documentation_model, documentation_review, policy_review,
  loading_qc_model, qc_review, awaiting_repair, repairing, final_verification, awaiting_operator,
  publishing_branch, draft_pr_created, completed, failed, cancelled, other, index, other_text, same,
  all_states, transitions, has, valid, can_transition,
}

-- The constant at a position of the list of states.
from_index : ℕ → String → State
from_index i s = elim (get_elem? all_states i) [ none ↦ other s | some t ↦ t ]

from_index-index : (s : State) → from_index (index s) (other_text s) ≡ s
unfolding from_index
from_index-index queued = refl
from_index-index syncing = refl
from_index-index preparing_dependencies = refl
from_index-index creating_worktree = refl
from_index-index locking_acceptance_criteria = refl
from_index-index awaiting_task_approval = refl
from_index-index loading_implementation_model = refl
from_index-index reproducing = refl
from_index-index implementing = refl
from_index-index verifying_targeted = refl
from_index-index verifying_full = refl
from_index-index loading_test_designer_model = refl
from_index-index test_design_review = refl
from_index-index awaiting_test_design_disposition = refl
from_index-index golden_rehearsal_review = refl
from_index-index awaiting_golden_approval = refl
from_index-index awaiting_remote_egress_approval = refl
from_index-index loading_documentation_model = refl
from_index-index documentation_review = refl
from_index-index policy_review = refl
from_index-index loading_qc_model = refl
from_index-index qc_review = refl
from_index-index awaiting_repair = refl
from_index-index repairing = refl
from_index-index final_verification = refl
from_index-index awaiting_operator = refl
from_index-index publishing_branch = refl
from_index-index draft_pr_created = refl
from_index-index completed = refl
from_index-index failed = refl
from_index-index cancelled = refl
from_index-index (other s) = refl

pub same→≡ : (s t : State) → same s t ≡ true → s ≡ t
unfolding same
same→≡ s t h =
    let (i, o) = &&-eq_true (index s == index t) (other_text s is other_text t) h in
    let p : index s ≡ index t = (==_iff (index s) (index t)).0 i in
    let q : other_text s ≡ other_text t = (eq_iff (other_text s) (other_text t)).0 o in
    let r : from_index (index s) (other_text s) ≡ from_index (index t) (other_text t) = cc in
    sym (from_index-index s) ∙ r ∙ from_index-index t

pub same_refl : (s : State) → same s s ≡ true
unfolding same
same_refl s = ground (arith, eq_iff (other_text s) (other_text s))

pub same_iff : (s t : State) → (same s t ≡ true) ↔ (s ≡ t)
same_iff s t = (same→≡ s t, λ e. rw e (same_refl t))

-- What holds of every member of a list holds of a state that the list has.
pub has-all :
    (p : State → Bool) (s : State) (l : List State) → has s l ≡ true → all p l ≡ true → p s ≡ true
unfolding has
has-all p s [] h a = cc
has-all p s (t ∷ l) h a = elim (Bool-cases (same s t)) [
  | inl e ↦ rw (same→≡ s t e) (&&-eq_true (p t) (all p l) a).0
  | inr e ↦ has-all p s l (ground arith) (&&-eq_true (p t) (all p l) a).1
]

-- A source of a transition is a constant.
pub can_transition-valid : (s t : State) → can_transition s t ≡ true → valid s ≡ true
unfolding can_transition valid has same
can_transition-valid queued t h = refl
can_transition-valid syncing t h = refl
can_transition-valid preparing_dependencies t h = refl
can_transition-valid creating_worktree t h = refl
can_transition-valid locking_acceptance_criteria t h = refl
can_transition-valid awaiting_task_approval t h = refl
can_transition-valid loading_implementation_model t h = refl
can_transition-valid reproducing t h = refl
can_transition-valid implementing t h = refl
can_transition-valid verifying_targeted t h = refl
can_transition-valid verifying_full t h = refl
can_transition-valid loading_test_designer_model t h = refl
can_transition-valid test_design_review t h = refl
can_transition-valid awaiting_test_design_disposition t h = refl
can_transition-valid golden_rehearsal_review t h = refl
can_transition-valid awaiting_golden_approval t h = refl
can_transition-valid awaiting_remote_egress_approval t h = refl
can_transition-valid loading_documentation_model t h = refl
can_transition-valid documentation_review t h = refl
can_transition-valid policy_review t h = refl
can_transition-valid loading_qc_model t h = refl
can_transition-valid qc_review t h = refl
can_transition-valid awaiting_repair t h = refl
can_transition-valid repairing t h = refl
can_transition-valid final_verification t h = refl
can_transition-valid awaiting_operator t h = refl
can_transition-valid publishing_branch t h = refl
can_transition-valid draft_pr_created t h = refl
can_transition-valid completed t h = refl
can_transition-valid failed t h = refl
can_transition-valid cancelled t h = refl
can_transition-valid (other s) t h = cc

-- A check of every successor of every constant covers every transition.
pub every_transition :
    (p : State → State → Bool)
    → all (λ s. all (p s) (transitions s)) all_states ≡ true
    → (s t : State) → can_transition s t ≡ true
    → p s t ≡ true
unfolding can_transition valid
every_transition p check s t h =
    has-all (p s) t (transitions s) h
      (has-all (λ u. all (p u) (transitions u)) s all_states (can_transition-valid s t h) check)

pub has_cons : (s t : State) (l : List State) → has s (t ∷ l) ≡ (same s t || has s l)
unfolding has
has_cons s t l = refl
