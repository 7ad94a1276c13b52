-- ===== src/Scheduler/Order/Laws.antt =====
-- internal/scheduler/types.go: sortQueue keeps the items of the queue, and puts the most urgent first.
use code_maintainer.Base.{
  ◌≡◌, refl, String, Bool, true, false, arith, List, [], ◌∷◌, ◌++◌, All, All-map, All-map2,
  perm_refl, perm_append_left, perm_middle_to, Bool-cases, inl, inr,
}
use code_maintainer.Base.Clock.{Time, before}
use code_maintainer.Scheduler.Types.{QueueItem, mode_quality_latency}
use code_maintainer.Scheduler.Order.{
  urgent_first, queue_less, insert_back, insert_all, reverse_onto, stable_sort, sort_queue,
}
use mathlib.Core.List.{Permᴰ}

module _ {A : Type 0} (less : A → A → Bool) where
  -- No element is less than one before it.
  abbrev pub Sorted : List A → Type 0
  Sorted [] = Unit
  Sorted (x ∷ xs) = All (λ z. less z x ≡ false) xs × Sorted xs

  -- The same of a list in reverse order.
  abbrev pub SortedBack : List A → Type 0
  SortedBack [] = Unit
  SortedBack (x ∷ xs) = All (λ z. less x z ≡ false) xs × SortedBack xs

  insert_back-perm : (x : A) (ys : List A) → Permᴰ (x ∷ ys) (insert_back less x ys)
  unfolding insert_back
  insert_back-perm x [] = perm_refl (x ∷ [])
  insert_back-perm x (y ∷ ys) = elim (Bool-cases (less x y)) [
    | inl b ↦ rw b (Permᴰ.trans (Permᴰ.swap refl refl) (Permᴰ.cons refl (insert_back-perm x ys)))
    | inr b ↦ rw b (perm_refl (x ∷ y ∷ ys))
  ]

  pub reverse_onto-perm : (xs acc : List A) → Permᴰ (xs ++ acc) (reverse_onto less xs acc)
  reverse_onto-perm [] acc = perm_refl acc
  reverse_onto-perm (x ∷ xs) acc =
      Permᴰ.trans (perm_middle_to x xs acc) (reverse_onto-perm xs (x ∷ acc))

  insert_all-perm : (xs ys : List A) → Permᴰ (xs ++ ys) (insert_all less xs ys)
  unfolding insert_all
  insert_all-perm [] ys = perm_refl ys
  insert_all-perm (x ∷ xs) ys = Permᴰ.trans (perm_middle_to x xs ys) (
      Permᴰ.trans (perm_append_left xs (insert_back-perm x ys))
        (insert_all-perm xs (insert_back less x ys)))

  pub stable_sort-perm : (xs : List A) → Permᴰ xs (stable_sort less xs)
  unfolding stable_sort
  stable_sort-perm xs = Permᴰ.trans (append_nil_perm xs) (
      Permᴰ.trans (insert_all-perm xs []) (
        Permᴰ.trans (append_nil_perm (insert_all less xs []))
          (reverse_onto-perm (insert_all less xs []) [])))
    where
      append_nil_perm : (ys : List A) → Permᴰ ys (ys ++ [])
      append_nil_perm [] = Permᴰ.nil
      append_nil_perm (y ∷ ys) = Permᴰ.cons refl (append_nil_perm ys)

  insert_back-All :
      (P : A → Type 0) (x : A) (ys : List A) → P x → All P ys → All P (insert_back less x ys)
  unfolding insert_back
  insert_back-All P x [] p all = (p, tt)
  insert_back-All P x (y ∷ ys) p (q, all) = elim (Bool-cases (less x y)) [
    | inl b ↦ rw b (q, insert_back-All P x ys p all)
    | inr b ↦ rw b (p, (q, all))
  ]

  -- A comparison that is asymmetric, and whose negation is transitive: a strict weak order.
  pub record IsOrder : Type 0 where
    pub asymmetric : (a b : A) → less a b ≡ true → less b a ≡ false
    pub transitive : (a b c : A) → less a b ≡ false → less b c ≡ false → less a c ≡ false

  module _ (order : IsOrder) where
    insert_back-sorted : (x : A) (ys : List A) → SortedBack ys → SortedBack (insert_back less x ys)
    unfolding insert_back
    insert_back-sorted x [] s = (tt, tt)
    insert_back-sorted x (y ∷ ys) (all, s) = elim (Bool-cases (less x y)) [
      | inl b ↦ rw b (
        insert_back-All (λ z. less y z ≡ false) x ys (order.asymmetric x y b) all,
        insert_back-sorted x ys s,
      )
      | inr b ↦ rw b ((b, All-map (λ z h. order.transitive x y z b h) ys all), (all, s))
    ]

    insert_all-sorted : (xs ys : List A) → SortedBack ys → SortedBack (insert_all less xs ys)
    unfolding insert_all
    insert_all-sorted [] ys s = s
    insert_all-sorted (x ∷ xs) ys s =
        insert_all-sorted xs (insert_back less x ys) (insert_back-sorted x ys s)

    reverse_onto-Sorted :
        (xs acc : List A)
        → SortedBack xs
        → Sorted acc
        → All (λ y. All (λ z. less z y ≡ false) acc) xs
        → Sorted (reverse_onto less xs acc)
    reverse_onto-Sorted [] acc s t cross = t
    reverse_onto-Sorted (x ∷ xs) acc (all, s) t (before, cross) =
        reverse_onto-Sorted xs (x ∷ acc) s (before, t)
          (All-map2 (λ z h below. (h, below)) xs all cross)

    pub stable_sort-Sorted : (xs : List A) → Sorted (stable_sort less xs)
    unfolding stable_sort
    stable_sort-Sorted xs =
        reverse_onto-Sorted (insert_all less xs []) [] (insert_all-sorted xs [] tt) tt (nothing _)
      where
        nothing : (ys : List A) → All (λ y. All (λ z. less z y ≡ false) []) ys
        nothing [] = tt
        nothing (y ∷ ys) = (tt, nothing ys)

-- The comparison of `quality_latency` is a strict weak order.
pub urgent_first-IsOrder : (now : Time) → IsOrder (urgent_first now)
unfolding urgent_first
urgent_first-IsOrder now = record {
  asymmetric = λ a b h. ground arith;
  transitive = λ a b c h k. ground arith;
}

pub sort_queue-perm :
    (items : List QueueItem) (mode : String) (now : Time) → Permᴰ items (sort_queue items mode now)
unfolding sort_queue
sort_queue-perm items mode now = stable_sort-perm (queue_less mode now) items

-- The sorted queue holds the items of the queue, each as often as before; and in the mode
-- `quality_latency` no item is more urgent than one before it, where the urgency of a deadline
-- counts first, then the priority, then the age.
pub sort_queue-Sorted :
    (items : List QueueItem) (now : Time)
    → Permᴰ items (sort_queue items mode_quality_latency now)
      × Sorted (urgent_first now) (sort_queue items mode_quality_latency now)
unfolding sort_queue queue_less
sort_queue-Sorted items now = (
  sort_queue-perm items mode_quality_latency now,
  stable_sort-Sorted (urgent_first now) (urgent_first-IsOrder now) items,
)
