-- ===== src/Scheduler/Order/Unique.antt =====
-- The stable sort by a comparison that tells any two elements apart does not depend on the order that
-- it is given.
use code_maintainer.Base.{
  ◌≡◌, refl, ap, ◌∙◌, sym, Bool, true, false, List, [], ◌∷◌, Bool-cases, inl, inr,
}
use code_maintainer.Scheduler.Order.{insert_back, insert_all, reverse_onto, stable_sort}
use mathlib.Core.List.{Permᴰ}

module _ {A : Type 0} (less : A → A → Bool) where
  -- A strict total order.
  pub record IsTotal : Type 0 where
    pub asymmetric : (a b : A) → less a b ≡ true → less b a ≡ false
    pub transitive : (a b c : A) → less a b ≡ true → less b c ≡ true → less a c ≡ true
    pub connected : (a b : A) → less a b ≡ false → less b a ≡ false → a ≡ b

  module _ (total : IsTotal) where
    insert_back_later :
        (x y : A) (zs : List A)
        → less x y ≡ true
        → insert_back less x (insert_back less y zs) ≡ insert_back less y (insert_back less x zs)
    unfolding insert_back
    insert_back_later x y [] h = rw (h, total.asymmetric x y h) refl
    insert_back_later x y (z ∷ zs) h =
        let later = total.asymmetric x y h in
        elim (Bool-cases (less y z)) [
          | inl b ↦
              let far = total.transitive x y z h b in
              rw (b, far) (rw b (ap (λ l. z ∷ l) (insert_back_later x y zs h)))
          | inr b ↦ elim (Bool-cases (less x z)) [
            | inl a ↦ rw (b, a) (rw (h, b) refl)
            | inr a ↦ rw (b, a) (rw (h, later) refl)
          ]
        ]

    insert_back_swap :
        (x y : A) (zs : List A)
        → insert_back less x (insert_back less y zs) ≡ insert_back less y (insert_back less x zs)
    insert_back_swap x y zs = elim (Bool-cases (less x y)) [
      | inl b ↦ insert_back_later x y zs b
      | inr b ↦ elim (Bool-cases (less y x)) [
        | inl a ↦ sym (insert_back_later y x zs a)
        | inr a ↦ rw (total.connected x y b a) refl
      ]
    ]

    insert_all-perm_eq :
        {xs ys : List A} (zs : List A) → Permᴰ xs ys → insert_all less xs zs ≡ insert_all less ys zs
    unfolding insert_all
    insert_all-perm_eq zs Permᴰ.nil = refl
    insert_all-perm_eq zs (Permᴰ.cons {a} {b} {l₁} {l₂} e p) =
        rw e (insert_all-perm_eq (insert_back less b zs) p)
    insert_all-perm_eq zs (Permᴰ.swap {a} {b} {a'} {b'} {l} e f) =
        rw (e, f) (ap (insert_all less l) (insert_back_swap a' b' zs))
    insert_all-perm_eq zs (Permᴰ.trans p q) = insert_all-perm_eq zs p ∙ insert_all-perm_eq zs q

    pub stable_sort-perm_eq :
        {xs ys : List A} → Permᴰ xs ys → stable_sort less xs ≡ stable_sort less ys
    unfolding stable_sort
    stable_sort-perm_eq p = ap (λ l. reverse_onto less l []) (insert_all-perm_eq [] p)
