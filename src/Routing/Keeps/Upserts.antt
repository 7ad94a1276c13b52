-- ===== src/Routing/Keeps/Upserts.antt =====
-- internal/storage/sqlite/providers.go: what the upsert of a row keeps of a table.
use code_maintainer.Base.{◌≡◌, Bool, true, arith, List, [], ◌∷◌, All, any, Bool-cases, inl, inr}
use code_maintainer.Routing.Catalog.{upsert_row}

module _ {ℓ} {A : Type ℓ} (same : A → Bool) (change : A → A) (row : A) where
  pub upsert_row-All {κ} :
      {P : A → Type κ} (xs : List A)
      → P row
      → ((x : A) → P x → P (change x))
      → All P xs
      → All P (upsert_row same change row xs)
  upsert_row-All [] new old ps = (new, tt)
  upsert_row-All (x ∷ xs) new old (p, ps) =
      let rest = upsert_row-All xs new old ps in
      elim (Bool-cases (same x)) [
        | inl here ↦ rw here (old x p, ps)
        | inr there ↦ rw there (p, rest)
      ]

  -- A row that is looked for is still there.
  pub upsert_row-any :
      (q : A → Bool) (xs : List A)
      → ((x : A) → same x ≡ true → q x ≡ true → q (change x) ≡ true)
      → any q xs ≡ true
      → any q (upsert_row same change row xs) ≡ true
  upsert_row-any q [] stays h = absurd (ground arith)
  upsert_row-any q (x ∷ xs) stays h =
      let rest = upsert_row-any q xs stays in
      let kept = stays x in
      elim (Bool-cases (same x)) [
        | inl here ↦ ground arith
        | inr there ↦ elim (Bool-cases (q x)) [
          | inl held ↦ ground arith
          | inr other ↦ let r = rest (ground arith) in ground arith
        ]
      ]
