-- ===== src/Workflow/Route/Laws.antt =====
-- internal/workflow/engine.go: the successors that nextState computes are allowed, and the
-- automatic ones lead every job to a state where a person decides.
use code_maintainer.Base.{
  ℕ, zero, suc, ◌≡◌, refl, Bool, true, false, not, ◌&&◌, ◌||◌, none, some, arith, all, Option-cases,
  inl, inr, if◌then◌else◌, &&-eq_true,
}
use code_maintainer.Jobs.State.{
  State, all_states, awaiting_operator, awaiting_task_approval, completed, transitions, has, valid,
  resumable, can_transition, same,
}
use code_maintainer.Jobs.Table.{has-all}
use code_maintainer.Workflow.Route.{Outcome, successor, to, next_state}

abbrev allowed_successor : State → Bool
allowed_successor s = elim (successor s) [ none ↦ true | some t ↦ can_transition s t ]

successor_table : all allowed_successor all_states ≡ true
unfolding successor can_transition transitions has same
successor_table = refl

-- Only constants have a successor.
successor-valid : (s t : State) → successor s ≡ some t → valid s ≡ true
unfolding successor valid has same
successor-valid (State.other x) t h = cc
successor-valid _ t h = refl

pub successor_allowed : (s t : State) → successor s ≡ some t → can_transition s t ≡ true
unfolding valid
successor_allowed s t h =
    let p : allowed_successor s ≡ true =
      has-all allowed_successor s all_states (successor-valid s t h) successor_table in
    ground arith

-- Whatever a phase reports, the state that the engine computes for the job is one that the
-- transition table allows.
pub next_state_allowed :
    (s t : State) (o : Outcome) → next_state s o ≡ to t → can_transition s t ≡ true
unfolding next_state
next_state_allowed s t o h = ground (arith, successor_allowed s t)

-- The state after automatic steps: a resumable job takes its successor, any other stays.
abbrev pub drive : ℕ → State → State
drive zero s = s
drive (suc n) s =
    let rest : State = elim (successor s) [ none ↦ s | some t ↦ drive n t ] in
    if resumable s then rest else s

-- The states in which the automatic steps may leave a job.
abbrev pub resting : State → Bool
resting s = same s awaiting_task_approval || same s awaiting_operator || same s completed

abbrev progresses : State → Bool
progresses s =
    not (resumable s)
    || (resting (drive 8 s) && elim (successor s) [ none ↦ false | some _ ↦ true ])

progress_table : all progresses all_states ≡ true
unfolding resumable successor
progress_table = refl

resumable-valid : (s : State) → resumable s ≡ true → valid s ≡ true
unfolding resumable
resumable-valid s h = ground arith

-- A job in any resumable state has an automatic successor, and after at most 8 automatic steps
-- it waits for the approval of the task or of the result, or is completed.
pub automatic_progress :
    (s : State)
    → resumable s ≡ true
    → ((t : State) × (successor s ≡ some t)) × (resting (drive 8 s) ≡ true)
unfolding valid
automatic_progress s h =
    let p : progresses s ≡ true =
      has-all progresses s all_states (resumable-valid s h) progress_table in
    let q : (resting (drive 8 s) && elim (successor s) [ none ↦ false | some _ ↦ true ]) ≡ true =
      ground arith in
    elim (Option-cases (successor s)) [
      | inl e ↦ absurd (ground arith)
      | inr (t, e) ↦ ((t, e), (&&-eq_true _ _ q).0)
    ]
