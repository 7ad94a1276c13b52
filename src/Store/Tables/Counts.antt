-- ===== src/Store/Tables/Counts.antt =====
-- How many rows an update affects, and how many it leaves for the next one.
use code_maintainer.Base.{
  ◌+◌, ◌≤◌, ◌≡◌, Bool, true, false, List, [], ◌∷◌, arith, Bool-cases, inl, inr,
}
use code_maintainer.Store.Tables.{update_where, count_where}

module _ {ℓ} {A : Type ℓ} where
  -- A narrower test finds no more rows.
  pub count_where-le :
      (p q : A → Bool) (xs : List A)
      → ((x : A) → p x ≡ true → q x ≡ true)
      → count_where p xs ≤ count_where q xs
  count_where-le p q [] imp = omega arith
  count_where-le p q (x ∷ xs) imp =
      let rest = count_where-le p q xs imp in
      elim (Bool-cases (p x)) [ inl b ↦ let c = imp x b in ground arith | inr b ↦ ground arith ]

  -- An update that takes what it hits out of a test leaves the others.
  pub count_where-update :
      (p hit : A → Bool) (f : A → A) (xs : List A)
      → ((x : A) → hit x ≡ true → p x ≡ true)
      → ((x : A) → p (f x) ≡ false)
      → count_where p (update_where hit f xs) + count_where hit xs ≡ count_where p xs
  count_where-update p hit f [] imp out = omega arith
  count_where-update p hit f (x ∷ xs) imp out =
      let rest = count_where-update p hit f xs imp out in
      let gone = out x in
      elim (Bool-cases (hit x)) [ inl b ↦ let c = imp x b in ground arith | inr b ↦ ground arith ]
