-- ===== src/Jobs/Graph.antt =====
-- internal/jobs/state.go: the gates that every run of the workflow passes, the states that end a
-- job, and how a state can be left.
use code_maintainer.Base.{
  ◌≡◌, refl, ◌≢◌, Bool, true, false, not, ◌&&◌, ◌||◌, none, List, [], ◌∷◌, arith, all, keep,
  Bool-cases, inl, inr, ◌↔◌,
}
use code_maintainer.Jobs.State.{
  State, queued, syncing, creating_worktree, preparing_dependencies, locking_acceptance_criteria,
  loading_implementation_model, reproducing, awaiting_task_approval, implementing,
  awaiting_operator, draft_pr_created, publishing_branch, completed, failed, cancelled, all_states,
  transitions, same, has, valid, terminal, can_transition, validate_transition,
}
use code_maintainer.Jobs.Table.{
  same→≡, same_refl, has-all, has_cons, can_transition-valid, every_transition,
}

-- The states entered one after the other, each by an allowed transition from the one before.
abbrev pub IsRun : State → List State → State → Type 0
IsRun s [] t = s ≡ t
IsRun s (u ∷ us) t = (can_transition s u ≡ true) × IsRun u us t

-- `states` is closed under the transitions that do not enter `gate`.
abbrev pub closed_without : State → List State → Bool
closed_without gate states =
    all (λ s. all (λ u. not (has s states) || same gate u || has u states) (transitions s))
      all_states

module _ (gate : State) (states : List State) (closed : closed_without gate states ≡ true) where
  pub stays :
      (s u : State)
      → has s states ≡ true
      → can_transition s u ≡ true
      → same gate u ≡ false
      → has u states ≡ true
  stays s u inside step away =
      let p : (not (has s states) || same gate u || has u states) ≡ true =
        every_transition (λ a b. not (has a states) || same gate b || has b states) closed s u
          step in
      ground arith

  -- A run that starts inside and ends outside enters the gate.
  gate_passed :
      (s : State) (us : List State) (t : State)
      → has s states ≡ true
      → IsRun s us t
      → has t states ≡ false
      → has gate us ≡ true
  gate_passed s [] t inside e outside = cc
  gate_passed s (u ∷ us) t inside (step, run) outside = elim (Bool-cases (same gate u)) [
    | inl g ↦ rw (has_cons gate u us, g) refl
    | inr g ↦ rw (has_cons gate u us, g) (gate_passed u us t (stays s u inside step g) run outside)
  ]

abbrev pub before_task_approval : List State
before_task_approval =
    queued ∷ syncing ∷ creating_worktree ∷ preparing_dependencies ∷ locking_acceptance_criteria
    ∷ failed ∷ cancelled ∷ []

-- What a run from `queued` can enter without an operator's decision on the result.
abbrev pub before_operator : List State
before_operator =
    keep
      (λ s. not (has s (awaiting_operator ∷ publishing_branch ∷ draft_pr_created ∷ completed ∷ [])))
      all_states

pub before_task_approval_closed : closed_without awaiting_task_approval before_task_approval ≡ true
unfolding transitions has same
before_task_approval_closed = refl

pub before_operator_closed : closed_without awaiting_operator before_operator ≡ true
unfolding transitions has same
before_operator_closed = refl

abbrev pub before_implementing : List State
before_implementing =
    queued ∷ syncing ∷ creating_worktree ∷ preparing_dependencies ∷ locking_acceptance_criteria
    ∷ awaiting_task_approval ∷ loading_implementation_model ∷ reproducing ∷ failed ∷ cancelled ∷ []

pub before_implementing_closed : closed_without implementing before_implementing ≡ true
unfolding transitions has same
before_implementing_closed = refl

-- Every run of allowed transitions from `queued` to `completed`, whatever detours, repairs and
-- restarts it takes, enters `awaiting_task_approval`, `implementing` and `awaiting_operator`.
pub completed_gates :
    (us : List State)
    → IsRun queued us completed
    → (has awaiting_task_approval us ≡ true)
      × (has implementing us ≡ true)
      × (has awaiting_operator us ≡ true)
unfolding has same
completed_gates us run = (
  gate_passed awaiting_task_approval before_task_approval before_task_approval_closed queued us
      completed refl run refl,
  gate_passed implementing before_implementing before_implementing_closed queued us completed refl
      run refl,
  gate_passed awaiting_operator before_operator before_operator_closed queued us completed refl run
      refl,
)

abbrev pub before_publishing : List State
before_publishing = keep (λ s. not (has s (publishing_branch ∷ draft_pr_created ∷ []))) all_states

pub before_publishing_closed : closed_without publishing_branch before_publishing ≡ true
unfolding transitions has same
before_publishing_closed = refl

-- Every run from `queued` to `draft_pr_created` enters `awaiting_operator` and
-- `publishing_branch`: no branch is published and no draft is opened before an operator's turn.
pub draft_gates :
    (us : List State)
    → IsRun queued us draft_pr_created
    → (has awaiting_operator us ≡ true) × (has publishing_branch us ≡ true)
unfolding has same
draft_gates us run = (
  gate_passed awaiting_operator before_operator before_operator_closed queued us draft_pr_created
      refl run refl,
  gate_passed publishing_branch before_publishing before_publishing_closed queued us
      draft_pr_created refl run refl,
)

targets_valid : all (λ s. all (λ t. valid t) (transitions s)) all_states ≡ true
unfolding transitions valid
targets_valid = refl

-- A transition is accepted by `ValidateTransition` exactly when the table allows it: the checks
-- of the two states refuse nothing that the table would have let through.
pub validate_transition_iff :
    (s t : State) → (validate_transition s t ≡ none) ↔ (can_transition s t ≡ true)
unfolding validate_transition
validate_transition_iff s t = (
  λ e. ground arith,
  λ h.
      ground
        (arith, can_transition-valid s t h, every_transition (λ a b. valid b) targets_valid s t h),
)

abbrev restart_only : State → State → Bool
restart_only s t = not (terminal s) || (same t queued && not (same s completed))

restart_only_table : all (λ s. all (restart_only s) (transitions s)) all_states ≡ true
unfolding transitions terminal same
restart_only_table = refl

-- A job whose state is terminal moves on only by a restart: `completed` has no successor, and
-- from `failed` and `cancelled` the one successor is `queued`.
pub terminal_restarts :
    (s t : State) → terminal s ≡ true → can_transition s t ≡ true → (t ≡ queued) × (s ≢ completed)
terminal_restarts s t h step =
    let p : restart_only s t ≡ true = every_transition restart_only restart_only_table s t step in
    let q : same t queued ≡ true = ground arith in
    let r : same s completed ≡ false = ground arith in
    (same→≡ t queued q, λ e. ground (arith, same_refl s))

can_fail_table : all (λ s. terminal s || can_transition s failed) all_states ≡ true
unfolding terminal can_transition transitions same
can_fail_table = refl

-- Every known state that is not terminal can fail, so the engine can always record a failure.
pub can_fail : (s : State) → valid s ≡ true → terminal s ≡ false → can_transition s failed ≡ true
unfolding valid
can_fail s h n =
    let p : (terminal s || can_transition s failed) ≡ true =
      has-all (λ u. terminal u || can_transition u failed) s all_states h can_fail_table in
    ground arith
