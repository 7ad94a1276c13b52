-- ===== src/Workflow/Route.antt =====
-- internal/workflow/engine.go: where a finished phase leads, and what a phase may spend.
pub mod Laws
use code_maintainer.Base.{ℕ, String, Bool, true, false, Option, none, some, if◌then◌else◌}
use code_maintainer.Store.Rows.{JobMetadataPatch}
use code_maintainer.Jobs.State.{
  State, can_transition, queued, syncing, preparing_dependencies, creating_worktree,
  locking_acceptance_criteria, awaiting_task_approval, loading_implementation_model, reproducing,
  implementing, verifying_targeted, verifying_full, loading_test_designer_model, test_design_review,
  golden_rehearsal_review, awaiting_golden_approval, loading_documentation_model,
  documentation_review, policy_review, loading_qc_model, qc_review, awaiting_repair, repairing,
  final_verification, awaiting_operator, publishing_branch, draft_pr_created, completed,
}

-- An empty `NextState` is `none`.
pub record Outcome : Type 0 where
  pub needs_repair : Bool
  pub next_state : Option State
  pub details : String
  pub metadata : JobMetadataPatch

-- The table of automatic successors in nextState.
unfoldable pub successor : State → Option State
successor queued = some syncing
successor syncing = some creating_worktree
successor creating_worktree = some preparing_dependencies
successor preparing_dependencies = some locking_acceptance_criteria
successor locking_acceptance_criteria = some awaiting_task_approval
successor loading_implementation_model = some reproducing
successor reproducing = some implementing
successor implementing = some verifying_targeted
successor verifying_targeted = some verifying_full
successor verifying_full = some loading_qc_model
successor loading_test_designer_model = some test_design_review
successor test_design_review = some golden_rehearsal_review
successor golden_rehearsal_review = some loading_documentation_model
successor awaiting_golden_approval = some loading_documentation_model
successor loading_documentation_model = some documentation_review
successor documentation_review = some policy_review
successor policy_review = some loading_qc_model
successor loading_qc_model = some qc_review
successor qc_review = some awaiting_operator
successor awaiting_repair = some repairing
successor repairing = some final_verification
successor final_verification = some loading_documentation_model
successor publishing_branch = some draft_pr_created
successor draft_pr_created = some completed
successor _ = none

pub data RouteError : Type 0 where
  cannot_request_repair cannot_route no_automatic_successor : RouteError

pub data Routed : Type 0 where
  to : State → Routed
  refused : RouteError → Routed

unfoldable pub next_state : State → Outcome → Routed
next_state s outcome =
    if outcome.needs_repair
    then (if can_transition s awaiting_repair
        then to awaiting_repair
        else refused cannot_request_repair)
    else elim outcome.next_state [
      | some t ↦ if can_transition s t then to t else refused cannot_route
      | none ↦ elim (successor s) [ some t ↦ to t | none ↦ refused no_automatic_successor ]
    ]

-- phaseTokenReservation
unfoldable pub phase_token_reservation : State → ℕ
phase_token_reservation implementing = 16_384
phase_token_reservation test_design_review = 16_384
phase_token_reservation documentation_review = 16_384
phase_token_reservation policy_review = 16_384
phase_token_reservation qc_review = 16_384
phase_token_reservation repairing = 16_384
phase_token_reservation _ = 0
