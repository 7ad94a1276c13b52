-- ===== src/Store/JobOps/Metadata.antt =====
-- internal/storage/sqlite/workflow.go: what a phase may change in the identity of a job.
use code_maintainer.Base.{
  ◌+◌, ◌≤◌, ◌≡◌, String, true, false, ◌||◌, Option, none, some, arith, Option-cases, inl, inr, ◌⊎◌,
  eq_iff,
}
use code_maintainer.Base.Int.{ℤ}
use code_maintainer.Base.Text.{is_empty}
use code_maintainer.Base.Patterns.{is_commit}
use code_maintainer.Store.Rows.{Job, JobMetadataPatch}
use code_maintainer.Store.Tx.{Env}
use code_maintainer.Store.Completion.{
  apply_metadata, patch_base, patch_result, patch_criteria, patch_cycle,
}

-- What an accepted patch leaves and bounds.
pub record IsPatched (env : Env) (j u : Job) : Type 0 where
  -- The base commit is set once.
  pub base : is_empty j.base_sha ≡ false → u.base_sha ≡ j.base_sha
  -- The hash of the acceptance criteria is set once.
  pub hash :
      is_empty j.acceptance_criteria_hash ≡ false
      → u.acceptance_criteria_hash ≡ j.acceptance_criteria_hash
  -- The criteria are those of before or are the text that the hash stands for.
  pub criteria :
      (u.acceptance_criteria ≡ j.acceptance_criteria)
      ⊎ (u.acceptance_criteria_hash ≡ env.sha256_hex u.acceptance_criteria)
  pub cycle : (j.review_cycle ≤ u.review_cycle) × (u.review_cycle ≤ j.review_cycle + 1)
  pub cycle_cap : (u.review_cycle ≡ j.review_cycle) ⊎ (u.review_cycle ≤ 10)
  pub result :
      (u.result_sha ≡ j.result_sha) ⊎ ((is_empty u.result_sha || is_commit u.result_sha) ≡ true)

-- The fields that applyMetadata sets one after the other, each from the job before it.
patch_base-lem :
    (p : Option String) (j u : Job)
    → patch_base p j ≡ some u
    → (is_empty j.base_sha ≡ false → u.base_sha ≡ j.base_sha)
      × (u ≡ record j { base_sha = u.base_sha })
unfolding patch_base
patch_base-lem none j u h = (λ _. cc, cc)
patch_base-lem (some sha) j u h = (λ e. ground (arith, eq_iff j.base_sha sha), ground arith)

patch_result-lem :
    (p : Option String) (j u : Job)
    → patch_result p j ≡ some u
    → ((u.result_sha ≡ j.result_sha) ⊎ ((is_empty u.result_sha || is_commit u.result_sha) ≡ true))
      × (u ≡ record j { result_sha = u.result_sha })
unfolding patch_result
patch_result-lem none j u h = (inl (cc), cc)
patch_result-lem (some sha) j u h = (inr (ground arith), ground arith)

patch_criteria-lem :
    (env : Env) (p q : Option String) (j u : Job)
    → patch_criteria env p q j ≡ some u
    → (is_empty j.acceptance_criteria_hash ≡ false
        → u.acceptance_criteria_hash ≡ j.acceptance_criteria_hash)
      × ((u.acceptance_criteria ≡ j.acceptance_criteria)
          ⊎ (u.acceptance_criteria_hash ≡ env.sha256_hex u.acceptance_criteria))
      × (u ≡ record j {
        acceptance_criteria = u.acceptance_criteria;
        acceptance_criteria_hash = u.acceptance_criteria_hash;
      })
unfolding patch_criteria
patch_criteria-lem env none none j u h = (λ _. cc, inl (cc), cc)
patch_criteria-lem env (some c) (some d) j u h = (
  λ e. ground (arith, eq_iff j.acceptance_criteria_hash d),
  inr (ground (arith, eq_iff d (env.sha256_hex c))),
  ground arith,
)
patch_criteria-lem env none (some d) j u h = absurd (cc)
patch_criteria-lem env (some c) none j u h = absurd (cc)

patch_cycle-lem :
    (p : Option ℤ) (j u : Job)
    → patch_cycle p j ≡ some u
    → (j.review_cycle ≤ u.review_cycle)
      × (u.review_cycle ≤ j.review_cycle + 1)
      × ((u.review_cycle ≡ j.review_cycle) ⊎ (u.review_cycle ≤ 10))
      × (u ≡ record j { review_cycle = u.review_cycle })
unfolding patch_cycle
patch_cycle-lem none j u h = ground arith
patch_cycle-lem (some c) j u h = (ground arith, ground arith, inr (ground arith), ground arith)

patched :
    (env : Env) (j a b c u : Job)
    → (is_empty j.base_sha ≡ false → a.base_sha ≡ j.base_sha)
      × (a ≡ record j { base_sha = a.base_sha })
    → ((b.result_sha ≡ a.result_sha) ⊎ ((is_empty b.result_sha || is_commit b.result_sha) ≡ true))
      × (b ≡ record a { result_sha = b.result_sha })
    → (is_empty b.acceptance_criteria_hash ≡ false
        → c.acceptance_criteria_hash ≡ b.acceptance_criteria_hash)
      × ((c.acceptance_criteria ≡ b.acceptance_criteria)
          ⊎ (c.acceptance_criteria_hash ≡ env.sha256_hex c.acceptance_criteria))
      × (c ≡ record b {
        acceptance_criteria = c.acceptance_criteria;
        acceptance_criteria_hash = c.acceptance_criteria_hash;
      })
    → (c.review_cycle ≤ u.review_cycle)
      × (u.review_cycle ≤ c.review_cycle + 1)
      × ((u.review_cycle ≡ c.review_cycle) ⊎ (u.review_cycle ≤ 10))
      × (u ≡ record c { review_cycle = u.review_cycle })
    → IsPatched env j u
patched env j a b c u ha hb hc hd = record {
  base = λ e. ground arith;
  hash = λ e. ground arith;
  criteria = ground arith;
  cycle = ground arith;
  cycle_cap = ground arith;
  result = ground arith;
}

-- An accepted patch of a finished phase keeps a base commit and a criteria hash that were set,
-- stores criteria only under their SHA-256, raises the review cycle by at most one, and never
-- beyond ten; a stored result is empty or a commit id.
pub apply_metadata_pins :
    (env : Env) (j u : Job) (p : JobMetadataPatch)
    → apply_metadata env j p ≡ some u
    → IsPatched env j u
unfolding apply_metadata
apply_metadata_pins env j u p h = elim (Option-cases (patch_base p.base_sha j)) [
  | inl e ↦ absurd (ground arith)
  | inr (a, ha) ↦ elim (Option-cases (patch_result p.result_sha a)) [
    | inl e ↦ absurd (ground arith)
    | inr (b, hb) ↦
        elim (Option-cases
          (patch_criteria env p.acceptance_criteria p.acceptance_criteria_hash b)) [
            | inl e ↦ absurd (ground arith)
            | inr (c, hc) ↦
                let hd : patch_cycle p.review_cycle c ≡ some u = ground arith in
                patched env j a b c u (patch_base-lem p.base_sha j a ha)
                  (patch_result-lem p.result_sha a b hb)
                  (patch_criteria-lem env p.acceptance_criteria p.acceptance_criteria_hash b c hc)
                  (patch_cycle-lem p.review_cycle c u hd)
          ]
  ]
]
