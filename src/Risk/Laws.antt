-- ===== src/Risk/Laws.antt =====
-- internal/risk/types.go: the level follows from the signals and the operator's minimum, and a
-- higher level never requires less.
use code_maintainer.Base.{
  ℕ, ◌+◌, ◌≤◌, ◌≡◌, refl, String, Bool, true, false, arith, some, List, [], ◌∷◌, all, length,
  Bool-cases, inl, inr, ltb, ◌==◌,
}
use code_maintainer.Base.Int.{pos, ltb_ℤ}
use code_maintainer.Base.Stamp.{text_before}
use code_maintainer.Scheduler.Order.{stable_sort}
use code_maintainer.Base.Text.{codes, is_empty, is_blank, byte_len}
use code_maintainer.Base.Patterns.{safe_id}
use code_maintainer.Scheduler.Types.{one_of}
use code_maintainer.Risk.{
  Level, low, medium, high, other_level, Signal, Contract, Assessment, rank, valid_level,
  routing_for_level, score_of, level_of_score, raise, signals_of, assess, matched_ids, good_signal,
  assessment_valid,
}

raise-valid : (m l : Level) → valid_level l ≡ true → valid_level (raise m l) ≡ true
unfolding raise rank valid_level
raise-valid m l v = elim (Bool-cases (ltb (rank l) (rank m))) [
  | inr b ↦ rw b v
  | inl b ↦ rw b (ranked m (ground arith))
]
  where
    ranked : (m : Level) → (rank m == 0) ≡ false → valid_level m ≡ true
    ranked (other_level s) h = absurd (ground arith)
    ranked _ h = refl

raise-rank : (m l : Level) → (rank m ≤ rank (raise m l)) × (rank l ≤ rank (raise m l))
unfolding raise
raise-rank m l = elim (Bool-cases (ltb (rank l) (rank m))) [
  | inl b ↦ rw b (omega arith, ground arith)
  | inr b ↦ rw b (ground arith, omega arith)
]

level_of_score-valid : (n : ℕ) → valid_level (level_of_score n) ≡ true
unfolding level_of_score valid_level
level_of_score-valid n = ground arith

-- What the signals can add up to.
abbrev pub weights : List Signal → ℕ
weights [] = 0
weights (s ∷ ss) = s.weight + weights ss

score_of-le : (ss : List Signal) → score_of ss ≤ weights ss
unfolding score_of
score_of-le [] = omega arith
score_of-le (s ∷ ss) = let rest = score_of-le ss in ground arith

module _ (lower : String → String) (marshal : List String → Level → String) (c : Contract)
    (paths : List String) where
  score_bound : score_of (signals_of lower marshal c paths) ≤ 345
  unfolding signals_of
  score_bound = score_of-le (signals_of lower marshal c paths)

  signals_good :
      (all good_signal (signals_of lower marshal c paths) ≡ true)
      × (length (signals_of lower marshal c paths) ≡ 9)
  unfolding signals_of safe_id is_blank
  signals_good = (refl, refl)

  -- An assessment's level is a constant, at least the operator's minimum and at least what the
  -- score asks for; the score is what the matched signals add up to, at most 345, and the routing
  -- is that of the level.
  pub assess_level :
      (minimum : Level) (a : Assessment)
      → assess lower marshal c paths minimum ≡ some a
      → (valid_level a.level ≡ true)
        × (rank minimum ≤ rank a.level)
        × (rank (level_of_score a.score) ≤ rank a.level)
        × (a.score ≡ score_of a.signals)
        × (a.score ≤ 345)
        × (a.routing ≡ routing_for_level a.level)
  unfolding assess
  assess_level minimum a h = elim (Bool-cases (one_of ("approved" ∷ "draft" ∷ []) c.status)) [
    | inr bad ↦ absurd (cc (rw bad at h))
    | inl good ↦
        let score = score_of (signals_of lower marshal c paths) in
        let valid = raise-valid minimum (level_of_score score) (level_of_score-valid score) in
        let (up, kept) = raise-rank minimum (level_of_score score) in
        let level : a.level ≡ raise minimum (level_of_score score) = ground arith in
        let scored : a.score ≡ score = ground arith in
        let signals : a.signals ≡ signals_of lower marshal c paths = ground arith in
        (
          rw level valid,
          rw level up,
          rw (level, scored) kept,
          rw signals scored,
          rw scored score_bound,
          ground arith,
        )
  ]

  -- An assessment of a contract with a safe job id, a version and a digest passes its own check,
  -- when the object that is written for the decision is valid JSON of at most 65,536 bytes.
  pub assess_valid :
      (json_valid : String → Bool) (minimum : Level) (a : Assessment)
      → safe_id c.job_id ≡ true
      → ltb_ℤ c.version (pos 1) ≡ false
      → is_empty c.contract_sha256 ≡ false
      → ((ids : List String) (m : Level)
          → (json_valid (marshal ids m) ≡ true) × (byte_len (marshal ids m) ≤ 65_536))
      → assess lower marshal c paths minimum ≡ some a
      → assessment_valid json_valid a ≡ true
  unfolding assess assessment_valid
  assess_valid json_valid minimum a job version digest written h =
      let (level, _, _, _, bound, _) = assess_level minimum a h in
      let (good, nine) = signals_good in
      let ids =
        stable_sort (λ a b. text_before (codes a) (codes b))
          (matched_ids (signals_of lower marshal c paths)) in
      let (valid, short) = written ids minimum in
      let signals : a.signals ≡ signals_of lower marshal c paths = ground arith in
      let decision : a.policy_decision ≡ marshal ids minimum = ground arith in
      let same_job : a.job_id ≡ c.job_id = ground arith in
      let same_digest : a.contract_sha256 ≡ c.contract_sha256 = ground arith in
      let same_version : a.contract_version ≡ c.version = ground arith in
      let schema : a.schema_version ≡ 1 = ground arith in
      rw
        (
          same_job, job, schema, same_version, version, same_digest, digest, level, signals, nine,
          decision, valid, good,
        )
        (ground arith)

-- A level that ranks at least as high requires every stage and every manual gate of the lower one.
pub routing_for_level_monotone :
    (a b : Level)
    → rank a ≤ rank b
    → (all
          (λ s. one_of (routing_for_level b).required_stages s)
          (routing_for_level a).required_stages
        ≡ true)
      × (all (λ g. one_of (routing_for_level b).manual_gates g) (routing_for_level a).manual_gates
          ≡ true)
unfolding rank routing_for_level
routing_for_level_monotone high high h = (refl, refl)
routing_for_level_monotone high medium h = absurd (omega arith)
routing_for_level_monotone high low h = absurd (omega arith)
routing_for_level_monotone high (other_level s) h = absurd (omega arith)
routing_for_level_monotone medium low h = absurd (omega arith)
routing_for_level_monotone medium (other_level s) h = absurd (omega arith)
routing_for_level_monotone low (other_level s) h = absurd (omega arith)
routing_for_level_monotone medium high h = (refl, refl)
routing_for_level_monotone medium medium h = (refl, refl)
routing_for_level_monotone low high h = (refl, refl)
routing_for_level_monotone low medium h = (refl, refl)
routing_for_level_monotone low low h = (refl, refl)
routing_for_level_monotone (other_level s) high h = (refl, refl)
routing_for_level_monotone (other_level s) medium h = (refl, refl)
routing_for_level_monotone (other_level s) low h = (refl, refl)
routing_for_level_monotone (other_level s) (other_level t) h = (refl, refl)
