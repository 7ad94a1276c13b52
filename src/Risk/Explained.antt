-- ===== src/Risk/Explained.antt =====
-- internal/risk/types.go: how an assessment comes by its score and its level.
use code_maintainer.Base.{
  ℕ, ◌+◌, ◌≤◌, ◌<◌, ◌≡◌, ◌≢◌, ◌↔◌, ◌⊎◌, refl, String, Bool, true, not, ◌||◌, arith, some, List, [],
  ◌∷◌, ◌++◌, Bool-cases, inl, inr, ltb, any, length, if◌then◌else◌, ap, ◌∙◌, sym,
}
use mathlib.Core.List.{Memᴰ}
use code_maintainer.Base.Text.{codes}
use code_maintainer.Scheduler.Types.{one_of}
use code_maintainer.Risk.{
  Level, low, medium, high, other_level, Contract, Assessment, rank, level_of_score, raise,
  score_of, signals_of, assess, starts_with, occurs, contains, contains_any, text_contains,
  has_evidence,
}

abbrev hit : ℕ → Bool → ℕ
hit weight b = if b then weight else 0

abbrev protected_paths : List String
protected_paths =
    ".github/" ∷ "CODEOWNERS" ∷ ".gitmodules" ∷ "migrations/" ∷ "database/migrations/" ∷ []

-- The one text stands in the other.
abbrev pub Within : String → String → Type 0
Within s t = (pre : List ℕ) × (post : List ℕ) × (codes t ≡ pre ++ (codes s ++ post))

raised_high : (m : Level) (n : ℕ) → (raise m (level_of_score n) ≡ high) ↔ ((90 ≤ n) ⊎ (m ≡ high))
unfolding raise rank level_of_score
raised_high high n = (λ h. inr refl, λ h. ground arith)
raised_high medium n = (λ h. inl (ground arith), λ h. ground arith)
raised_high low n = (λ h. inl (ground arith), λ h. ground arith)
raised_high (other_level s) n = (λ h. inl (ground arith), λ h. ground arith)

raised_low :
    (m : Level) (n : ℕ)
    → (raise m (level_of_score n) ≡ low) ↔ ((n < 35) × (m ≢ medium) × (m ≢ high))
unfolding raise rank level_of_score
raised_low high n = (λ h. absurd (ground arith), λ (_, _, h). absurd (h refl))
raised_low medium n = (λ h. absurd (ground arith), λ (_, h, _). absurd (h refl))
raised_low low n = (λ h. (ground arith, (λ e. cc), (λ e. cc)), λ h. ground arith)
raised_low (other_level s) n = (λ h. (ground arith, (λ e. cc), (λ e. cc)), λ h. ground arith)

starts_with-append : (xs ys : List ℕ) → starts_with xs (xs ++ ys) ≡ true
starts_with-append [] ys = refl
starts_with-append (x ∷ xs) ys = let rest = starts_with-append xs ys in ground arith

occurs_here : (xs ys : List ℕ) → starts_with xs ys ≡ true → occurs xs ys ≡ true
occurs_here xs [] h = h
occurs_here xs (y ∷ ys) h = ground arith

occurs-append : (pre xs post : List ℕ) → occurs xs (pre ++ (xs ++ post)) ≡ true
occurs-append [] xs post = occurs_here xs (xs ++ post) (starts_with-append xs post)
occurs-append (y ∷ pre) xs post = let rest = occurs-append pre xs post in ground arith

contains-Within : (s t : String) → Within s t → contains t s ≡ true
unfolding contains
contains-Within s t (pre, post, e) = rw e (occurs-append pre (codes s) post)

any-Mem :
    (p : String → Bool) (s : String) (ss : List String) → Memᴰ s ss → p s ≡ true → any p ss ≡ true
any-Mem p s [] m h = elim m [ ]
any-Mem p s (t ∷ ts) (Memᴰ.head e) h = let here : p t ≡ true = ap p (sym e) ∙ h in ground arith
any-Mem p s (t ∷ ts) (Memᴰ.tail m) h = let rest = any-Mem p s ts m h in ground arith

module _ (lower : String → String) (marshal : List String → Level → String) (c : Contract)
    (paths : List String) where
  touches-Within :
      (needles : List String) (path needle : String)
      → Memᴰ path paths
      → Memᴰ needle needles
      → Within (lower needle) (lower path)
      → contains_any lower marshal paths needles ≡ true
  unfolding contains_any
  touches-Within needles path needle at among within =
      any-Mem (λ q. any (λ n. contains (lower q) (lower n)) needles) path paths at
        (any-Mem (λ n. contains (lower path) (lower n)) needle needles among
          (contains-Within (lower needle) (lower path) within))

  abbrev touches : List String → Bool
  touches needles = contains_any lower marshal paths needles

  abbrev says : List String → Bool
  says needles = text_contains lower marshal c needles

  -- The weights, and what each is for.
  abbrev pub weighed : ℕ
  weighed =
      hit 45 (touches protected_paths)
      + hit 35 (touches ("internal/api/" ∷ "openapi" ∷ "schema" ∷ "migrations/" ∷ []))
      + hit 55 (
          says (
            "auth" ∷ "authorization" ∷ "secret" ∷ "crypto" ∷ "network" ∷ "egress" ∷ "credential"
            ∷ []))
      + hit 40 (touches ("go.mod" ∷ "go.sum" ∷ "package-lock.json" ∷ "Dockerfile" ∷ "compose" ∷ []))
      + hit 50 (says ("installer" ∷ "service" ∷ "signing" ∷ "hardware" ∷ "windows" ∷ "vpn" ∷ []))
      + hit 30 (says ("r " ∷ "statistical" ∷ "numerical" ∷ "tolerance" ∷ "golden" ∷ []))
      + hit 25 (not (has_evidence lower marshal c "test"))
      + hit 30 (says ("generated" ∷ "binary" ∷ "screenshot" ∷ "artifact" ∷ []))
      + hit 35 (ltb 0 c.questions || ltb 0 (length c.assumptions))

  score-weighed : score_of (signals_of lower marshal c paths) ≡ weighed
  unfolding score_of signals_of
  score-weighed = omega arith

  -- How an assessment came by its level.
  pub record Explained (minimum : Level) (a : Assessment) : Type 0 where
    pub score : a.score ≡ weighed
    pub is_high : (a.level ≡ high) ↔ ((90 ≤ a.score) ⊎ (minimum ≡ high))
    pub is_low : (a.level ≡ low) ↔ ((a.score < 35) × (minimum ≢ medium) × (minimum ≢ high))
    pub constant : (a.level ≡ low) ⊎ (a.level ≡ medium) ⊎ (a.level ≡ high)
    pub protected :
        (path needle : String)
        → Memᴰ path paths
        → Memᴰ needle protected_paths
        → Within (lower needle) (lower path)
        → a.level ≢ low

  raised-constant :
      (m : Level) (n : ℕ)
      → let l = raise m (level_of_score n) in (l ≡ low) ⊎ (l ≡ medium) ⊎ (l ≡ high)
  unfolding raise rank level_of_score
  raised-constant high n = ground arith
  raised-constant medium n = ground arith
  raised-constant low n = ground arith
  raised-constant (other_level s) n = ground arith

  -- An assessment's score is the sum of the nine weights, each counted where its signal holds of
  -- the contract and the paths. Its level is high exactly when the score is at least 90 or the
  -- operator's minimum is high, low exactly when the score is below 35 and the minimum is neither
  -- medium nor high, and medium otherwise. If a protected text stands in one of the paths, both as
  -- strings.ToLower writes them, the level is not low.
  pub assess-Explained :
      (minimum : Level) (a : Assessment)
      → assess lower marshal c paths minimum ≡ some a
      → Explained minimum a
  unfolding assess
  assess-Explained minimum a h = elim (Bool-cases (one_of ("approved" ∷ "draft" ∷ []) c.status)) [
    | inr bad ↦ absurd (cc (rw bad at h))
    | inl good ↦
        let n = score_of (signals_of lower marshal c paths) in
        let level : a.level ≡ raise minimum (level_of_score n) = ground arith in
        let scored : a.score ≡ n = ground arith in
        record {
          score = scored ∙ score-weighed;
          is_high = rw (level, scored) (raised_high minimum n);
          is_low = rw (level, scored) (raised_low minimum n);
          constant = rw level (raised-constant minimum n);
          protected = λ path needle at among within e.
              let touched = touches-Within protected_paths path needle at among within in
              let below = ((raised_low minimum n).0 (sym level ∙ e)).0 in
              let sum = score-weighed in ground arith;
        }
  ]
