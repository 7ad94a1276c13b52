-- ===== src/Tests/JobStates.antt =====
-- internal/jobs: the runs of state_test.go, and the theorems at them.
use code_maintainer.Base.{◌≡◌, refl, ◌↔◌, Bool, true, false, none, List, [], ◌∷◌}
use code_maintainer.Jobs.State.{
  State, queued, syncing, preparing_dependencies, creating_worktree, locking_acceptance_criteria,
  awaiting_task_approval, loading_implementation_model, reproducing, implementing,
  verifying_targeted, verifying_full, loading_test_designer_model, test_design_review,
  awaiting_test_design_disposition, golden_rehearsal_review, awaiting_golden_approval,
  awaiting_remote_egress_approval, loading_documentation_model, documentation_review, policy_review,
  loading_qc_model, qc_review, awaiting_operator, publishing_branch, draft_pr_created, completed,
  has, can_transition, validate_transition,
}
use code_maintainer.Jobs.Graph.{IsRun, completed_gates, validate_transition_iff}

-- The second path of TestHappyPathAndRepairPathTransitions.
abbrev happy_path : List State
happy_path =
    syncing ∷ creating_worktree ∷ preparing_dependencies ∷ locking_acceptance_criteria
    ∷ awaiting_task_approval ∷ loading_implementation_model ∷ reproducing ∷ implementing
    ∷ verifying_targeted ∷ verifying_full ∷ loading_test_designer_model ∷ test_design_review
    ∷ awaiting_test_design_disposition ∷ golden_rehearsal_review ∷ awaiting_golden_approval
    ∷ loading_documentation_model ∷ documentation_review ∷ policy_review ∷ loading_qc_model
    ∷ qc_review ∷ awaiting_operator ∷ publishing_branch ∷ draft_pr_created ∷ []

steps_of : (s : State) → List State → Bool
steps_of s [] = true
steps_of s (t ∷ ts) = elim (can_transition s t) [ true ↦ steps_of t ts | false ↦ false ]

happy_path_allowed : steps_of queued happy_path ≡ true
unfolding steps_of can_transition
happy_path_allowed = refl

-- TestDangerousShortcutsAreRejected
shortcut_rejected : can_transition qc_review publishing_branch ≡ false
unfolding can_transition
shortcut_rejected = refl

abbrev pub short_run : List State
short_run =
    syncing ∷ creating_worktree ∷ preparing_dependencies ∷ locking_acceptance_criteria
    ∷ awaiting_task_approval ∷ loading_implementation_model ∷ reproducing ∷ implementing
    ∷ awaiting_remote_egress_approval ∷ qc_review ∷ awaiting_operator ∷ completed ∷ []

short_run-IsRun : IsRun queued short_run completed
unfolding can_transition
short_run-IsRun = (
  refl,
  (refl, (refl, (refl, (refl, (refl, (refl, (refl, (refl, (refl, (refl, (refl, refl))))))))))),
)

completed_gates_example :
    (has awaiting_task_approval short_run ≡ true)
    × (has implementing short_run ≡ true)
    × (has awaiting_operator short_run ≡ true)
completed_gates_example = completed_gates short_run short_run-IsRun

happy_path-IsRun : IsRun queued happy_path draft_pr_created
unfolding can_transition
happy_path-IsRun = (
  refl,
  (
    refl,
    (
      refl,
      (
        refl,
        (
          refl,
          (
            refl,
            (
              refl,
              (
                refl,
                (
                  refl,
                  (
                    refl,
                    (
                      refl,
                      (
                        refl,
                        (
                          refl,
                          (
                            refl,
                            (
                              refl,
                              (refl, (refl, (refl, (refl, (refl, (refl, (refl, (refl, refl)))))))),
                            ),
                          ),
                        ),
                      ),
                    ),
                  ),
                ),
              ),
            ),
          ),
        ),
      ),
    ),
  ),
)

validate_transition_iff_example :
    (validate_transition queued completed ≡ none) ↔ (can_transition queued completed ≡ true)
validate_transition_iff_example = validate_transition_iff queued completed
