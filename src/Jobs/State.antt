-- ===== src/Jobs/State.antt =====
-- internal/jobs/state.go: the durable phases of a job and the table of allowed transitions.
use code_maintainer.Base.{
  ℕ, String, Bool, not, ◌&&◌, ◌||◌, Option, none, some, List, [], ◌∷◌, any, ◌==◌, ◌is◌,
  if◌then◌else◌,
}

-- The constants of the Go string type, and `other` for any text that is none of them.
pub data State : Type 0 where
  queued syncing preparing_dependencies creating_worktree locking_acceptance_criteria : State
  awaiting_task_approval loading_implementation_model reproducing implementing verifying_targeted :
      State
  verifying_full loading_test_designer_model test_design_review awaiting_test_design_disposition :
      State
  golden_rehearsal_review awaiting_golden_approval awaiting_remote_egress_approval : State
  loading_documentation_model documentation_review policy_review loading_qc_model qc_review : State
  awaiting_repair repairing final_verification awaiting_operator publishing_branch : State
  draft_pr_created completed failed cancelled : State
  other : String → State

-- The text of a constant, which the API and the database keep.
unfoldable pub text : State → String
text queued = "queued"
text syncing = "syncing"
text preparing_dependencies = "preparing_dependencies"
text creating_worktree = "creating_worktree"
text locking_acceptance_criteria = "locking_acceptance_criteria"
text awaiting_task_approval = "awaiting_task_approval"
text loading_implementation_model = "loading_implementation_model"
text reproducing = "reproducing"
text implementing = "implementing"
text verifying_targeted = "verifying_targeted"
text verifying_full = "verifying_full"
text loading_test_designer_model = "loading_test_designer_model"
text test_design_review = "test_design_review"
text awaiting_test_design_disposition = "awaiting_test_design_disposition"
text golden_rehearsal_review = "golden_rehearsal_review"
text awaiting_golden_approval = "awaiting_golden_approval"
text awaiting_remote_egress_approval = "awaiting_remote_egress_approval"
text loading_documentation_model = "loading_documentation_model"
text documentation_review = "documentation_review"
text policy_review = "policy_review"
text loading_qc_model = "loading_qc_model"
text qc_review = "qc_review"
text awaiting_repair = "awaiting_repair"
text repairing = "repairing"
text final_verification = "final_verification"
text awaiting_operator = "awaiting_operator"
text publishing_branch = "publishing_branch"
text draft_pr_created = "draft_pr_created"
text completed = "completed"
text failed = "failed"
text cancelled = "cancelled"
text (other s) = s

-- The position of a constant in `allStates`.
abbrev pub index : State → ℕ
index queued = 0
index syncing = 1
index preparing_dependencies = 2
index creating_worktree = 3
index locking_acceptance_criteria = 4
index awaiting_task_approval = 5
index loading_implementation_model = 6
index reproducing = 7
index implementing = 8
index verifying_targeted = 9
index verifying_full = 10
index loading_test_designer_model = 11
index test_design_review = 12
index awaiting_test_design_disposition = 13
index golden_rehearsal_review = 14
index awaiting_golden_approval = 15
index awaiting_remote_egress_approval = 16
index loading_documentation_model = 17
index documentation_review = 18
index policy_review = 19
index loading_qc_model = 20
index qc_review = 21
index awaiting_repair = 22
index repairing = 23
index final_verification = 24
index awaiting_operator = 25
index publishing_branch = 26
index draft_pr_created = 27
index completed = 28
index failed = 29
index cancelled = 30
index (other s) = 31

abbrev pub other_text : State → String
other_text (other s) = s
other_text _ = ""

-- `s == t` on the Go strings; `other` never holds the text of a constant.
unfoldable pub same : State → State → Bool
same s t = index s == index t && other_text s is other_text t

abbrev pub all_states : List State
all_states =
    queued ∷ syncing ∷ preparing_dependencies ∷ creating_worktree ∷ locking_acceptance_criteria
    ∷ awaiting_task_approval ∷ loading_implementation_model ∷ reproducing ∷ implementing
    ∷ verifying_targeted ∷ verifying_full ∷ loading_test_designer_model ∷ test_design_review
    ∷ awaiting_test_design_disposition ∷ golden_rehearsal_review ∷ awaiting_golden_approval
    ∷ awaiting_remote_egress_approval ∷ loading_documentation_model ∷ documentation_review
    ∷ policy_review ∷ loading_qc_model ∷ qc_review ∷ awaiting_repair ∷ repairing
    ∷ final_verification ∷ awaiting_operator ∷ publishing_branch ∷ draft_pr_created ∷ completed
    ∷ failed ∷ cancelled ∷ []

-- The set of states that a state may go to.
unfoldable pub transitions : State → List State
transitions queued = syncing ∷ cancelled ∷ failed ∷ []
transitions syncing = creating_worktree ∷ cancelled ∷ failed ∷ []
transitions creating_worktree = preparing_dependencies ∷ cancelled ∷ failed ∷ []
transitions preparing_dependencies = locking_acceptance_criteria ∷ cancelled ∷ failed ∷ []
transitions locking_acceptance_criteria = awaiting_task_approval ∷ cancelled ∷ failed ∷ []
transitions awaiting_task_approval = loading_implementation_model ∷ cancelled ∷ failed ∷ []
transitions loading_implementation_model = reproducing ∷ cancelled ∷ failed ∷ []
transitions reproducing = implementing ∷ cancelled ∷ failed ∷ []
transitions implementing =
    verifying_targeted ∷ awaiting_remote_egress_approval ∷ cancelled ∷ failed ∷ []
transitions verifying_targeted = verifying_full ∷ awaiting_repair ∷ cancelled ∷ failed ∷ []
transitions verifying_full =
    loading_test_designer_model ∷ golden_rehearsal_review ∷ loading_documentation_model
    ∷ loading_qc_model ∷ awaiting_repair ∷ cancelled ∷ failed ∷ []
transitions loading_test_designer_model = test_design_review ∷ cancelled ∷ failed ∷ []
transitions test_design_review =
    awaiting_test_design_disposition ∷ golden_rehearsal_review ∷ loading_documentation_model
    ∷ loading_qc_model ∷ awaiting_remote_egress_approval ∷ cancelled ∷ failed ∷ []
transitions awaiting_test_design_disposition =
    golden_rehearsal_review ∷ loading_documentation_model ∷ loading_qc_model ∷ cancelled ∷ failed
    ∷ []
transitions golden_rehearsal_review =
    awaiting_golden_approval ∷ loading_documentation_model ∷ loading_qc_model ∷ cancelled ∷ failed
    ∷ []
transitions awaiting_golden_approval =
    loading_documentation_model ∷ loading_qc_model ∷ cancelled ∷ failed ∷ []
transitions awaiting_remote_egress_approval =
    implementing ∷ test_design_review ∷ loading_documentation_model ∷ documentation_review
    ∷ loading_qc_model ∷ qc_review ∷ repairing ∷ cancelled ∷ failed ∷ []
transitions loading_documentation_model = documentation_review ∷ cancelled ∷ failed ∷ []
transitions documentation_review =
    policy_review ∷ loading_qc_model ∷ awaiting_remote_egress_approval ∷ cancelled ∷ failed ∷ []
transitions policy_review = loading_qc_model ∷ cancelled ∷ failed ∷ []
transitions loading_qc_model = qc_review ∷ cancelled ∷ failed ∷ []
transitions qc_review =
    awaiting_repair ∷ awaiting_operator ∷ awaiting_remote_egress_approval ∷ cancelled ∷ failed ∷ []
transitions awaiting_repair = repairing ∷ awaiting_operator ∷ cancelled ∷ failed ∷ []
transitions repairing =
    final_verification ∷ awaiting_remote_egress_approval ∷ cancelled ∷ failed ∷ []
transitions final_verification =
    loading_documentation_model ∷ policy_review ∷ loading_qc_model ∷ awaiting_repair ∷ cancelled
    ∷ failed ∷ []
transitions awaiting_operator = publishing_branch ∷ completed ∷ cancelled ∷ failed ∷ []
transitions publishing_branch = draft_pr_created ∷ awaiting_operator ∷ failed ∷ []
transitions draft_pr_created = completed ∷ failed ∷ []
transitions failed = queued ∷ []
transitions cancelled = queued ∷ []
transitions _ = []

-- Membership in a list of states.
unfoldable pub has : State → List State → Bool
unfolding same
has s states = any (same s) states

unfoldable pub valid : State → Bool
unfolding has
valid s = has s all_states

unfoldable pub terminal : State → Bool
unfolding same
terminal s = same s completed || same s failed || same s cancelled

unfoldable pub resumable : State → Bool
unfolding valid terminal same
resumable s =
    valid s
    && not (terminal s)
    && not (same s awaiting_operator)
    && not (same s awaiting_task_approval)
    && not (same s awaiting_test_design_disposition)
    && not (same s awaiting_golden_approval)
    && not (same s awaiting_remote_egress_approval)

unfoldable pub can_transition : State → State → Bool
unfolding transitions has
can_transition from to = has to (transitions from)

pub data TransitionError : Type 0 where
  unknown_source unknown_destination not_allowed : TransitionError

unfoldable pub validate_transition : State → State → Option TransitionError
unfolding valid can_transition
validate_transition from to =
    if not (valid from)
    then some unknown_source
    else if not (valid to)
    then some unknown_destination
    else if not (can_transition from to)
    then some not_allowed
    else none
