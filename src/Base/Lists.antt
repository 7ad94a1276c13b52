-- ===== src/Base/Lists.antt =====
-- List functions over the native numbers under the library's names, and Boolean quantifiers.
use Prim.Native.Nat.{ℕ, zero, suc, ◌+◌}
use mathlib.Core.Path.{◌≡◌, refl, sym, ap, subst, ◌∙◌}
use mathlib.Core.Bool.{Bool, true, false, ◌&&◌, ◌||◌}
use mathlib.Core.Option.{Option, none, some}
use mathlib.Core.List.{List, [], ◌∷◌, ◌++◌, Memᴰ, Permᴰ}
use native.Mathlib.Omega.{arith}
use mathlib.Core.Logic.{inl, inr}
use code_maintainer.Base.Tests.{if◌then◌else◌, Bool-cases}

module _ {ℓ} {A : Type ℓ} where
  abbrev pub length : List A → ℕ
  length [] = 0
  length (x ∷ xs) = suc (length xs)

  abbrev pub get_elem? : List A → ℕ → Option A
  get_elem? [] i = none
  get_elem? (x ∷ xs) zero = some x
  get_elem? (x ∷ xs) (suc i) = get_elem? xs i

  abbrev pub take : ℕ → List A → List A
  take zero xs = []
  take (suc n) [] = []
  take (suc n) (x ∷ xs) = x ∷ take n xs

  -- Every element passes the test.
  abbrev pub all : (A → Bool) → List A → Bool
  all p [] = true
  all p (x ∷ xs) = p x && all p xs

  -- Some element passes the test.
  abbrev pub any : (A → Bool) → List A → Bool
  any p [] = false
  any p (x ∷ xs) = p x || any p xs

  -- The elements that pass the test, in order.
  abbrev pub keep : (A → Bool) → List A → List A
  keep p [] = []
  keep p (x ∷ xs) = if p x then x ∷ keep p xs else keep p xs

  -- The first element that passes the test.
  abbrev pub find : (A → Bool) → List A → Option A
  find p [] = none
  find p (x ∷ xs) = if p x then some x else find p xs

  pub length-append : (xs ys : List A) → length (xs ++ ys) ≡ length xs + length ys
  length-append [] ys = omega arith
  length-append (x ∷ xs) ys = omega (arith, length-append xs ys)

-- A predicate that holds of every element.
abbrev pub All {ℓ κ} : {A : Type ℓ} → (A → Type κ) → List A → Type κ
All P [] = Unit
All P (x ∷ xs) = P x × All P xs

pub all→All {ℓ} :
    {A : Type ℓ} (p : A → Bool) (xs : List A) → all p xs ≡ true → All (λ x. p x ≡ true) xs
all→All p [] h = tt
all→All p (x ∷ xs) h = (ground arith, all→All p xs (ground arith))

module _ {ℓ κ} {A : Type ℓ} where
  pub All-map {μ} :
      {P : A → Type κ} {Q : A → Type μ} (f : (a : A) → P a → Q a) (xs : List A)
      → All P xs
      → All Q xs
  All-map f [] ps = tt
  All-map f (x ∷ xs) (p, ps) = (f x p, All-map f xs ps)

  pub All-map2 {μ ν} :
      {P : A → Type κ} {Q : A → Type μ} {R : A → Type ν} (f : (a : A) → P a → Q a → R a)
      (xs : List A)
      → All P xs
      → All Q xs
      → All R xs
  All-map2 f [] ps qs = tt
  All-map2 f (x ∷ xs) (p, ps) (q, qs) = (f x p q, All-map2 f xs ps qs)

  pub All-mem : (P : A → Type κ) {a : A} (xs : List A) → All P xs → Memᴰ a xs → P a
  All-mem P [] _ m = elim m [ ]
  All-mem P (x ∷ xs) (p, ps) (Memᴰ.head e) = rw e p
  All-mem P (x ∷ xs) (p, ps) (Memᴰ.tail m) = All-mem P xs ps m

-- Membership is kept by a permutation.
pub mem-perm {ℓ} : {A : Type ℓ} {a : A} {xs ys : List A} → Permᴰ xs ys → Memᴰ a xs → Memᴰ a ys
mem-perm Permᴰ.nil m = m
mem-perm (Permᴰ.cons e p) (Memᴰ.head h) = Memᴰ.head (h ∙ e)
mem-perm (Permᴰ.cons e p) (Memᴰ.tail m) = Memᴰ.tail (mem-perm p m)
mem-perm (Permᴰ.swap e f) (Memᴰ.head h) = Memᴰ.tail (Memᴰ.head (h ∙ e))
mem-perm (Permᴰ.swap e f) (Memᴰ.tail (Memᴰ.head h)) = Memᴰ.head (h ∙ f)
mem-perm (Permᴰ.swap e f) (Memᴰ.tail (Memᴰ.tail m)) = Memᴰ.tail (Memᴰ.tail m)
mem-perm (Permᴰ.trans p q) m = mem-perm q (mem-perm p m)

pub perm_refl {ℓ} : {A : Type ℓ} (xs : List A) → Permᴰ xs xs
perm_refl [] = Permᴰ.nil
perm_refl (x ∷ xs) = Permᴰ.cons refl (perm_refl xs)

pub perm_append_left {ℓ} :
    {A : Type ℓ} (xs : List A) {ys zs : List A} → Permᴰ ys zs → Permᴰ (xs ++ ys) (xs ++ zs)
perm_append_left [] p = p
perm_append_left (x ∷ xs) p = Permᴰ.cons refl (perm_append_left xs p)

pub perm_middle_to {ℓ} :
    {A : Type ℓ} (x : A) (xs ys : List A) → Permᴰ (x ∷ (xs ++ ys)) (xs ++ (x ∷ ys))
perm_middle_to x [] ys = perm_refl (x ∷ ys)
perm_middle_to x (z ∷ zs) ys =
    Permᴰ.trans (Permᴰ.swap refl refl) (Permᴰ.cons refl (perm_middle_to x zs ys))

pub perm_sym {ℓ} : {A : Type ℓ} {xs ys : List A} → Permᴰ xs ys → Permᴰ ys xs
perm_sym Permᴰ.nil = Permᴰ.nil
perm_sym (Permᴰ.cons e p) = Permᴰ.cons (sym e) (perm_sym p)
perm_sym (Permᴰ.swap e f) = Permᴰ.swap (sym f) (sym e)
perm_sym (Permᴰ.trans p q) = Permᴰ.trans (perm_sym q) (perm_sym p)

pub perm_length {ℓ} : {A : Type ℓ} {xs ys : List A} → Permᴰ xs ys → length xs ≡ length ys
perm_length Permᴰ.nil = refl
perm_length (Permᴰ.cons e p) = omega (arith, perm_length p)
perm_length (Permᴰ.swap e f) = refl
perm_length (Permᴰ.trans p q) = perm_length p ∙ perm_length q

pub perm_All {ℓ κ} :
    {A : Type ℓ} (P : A → Type κ) {xs ys : List A} → Permᴰ xs ys → All P xs → All P ys
perm_All P Permᴰ.nil ps = tt
perm_All P (Permᴰ.cons e p) (q, ps) = (subst P e q, perm_All P p ps)
perm_All P (Permᴰ.swap e f) (q, (s, ps)) = (subst P f s, (subst P e q, ps))
perm_All P (Permᴰ.trans p q) ps = perm_All P q (perm_All P p ps)

module _ {ℓ κ} {A : Type ℓ} (P : A → Type κ) where
  pub All-append_left : (xs ys : List A) → All P (xs ++ ys) → All P xs
  All-append_left [] ys ps = tt
  All-append_left (x ∷ xs) ys (p, ps) = (p, All-append_left xs ys ps)

  pub All-append_right : (xs ys : List A) → All P (xs ++ ys) → All P ys
  All-append_right [] ys ps = ps
  All-append_right (x ∷ xs) ys (p, ps) = All-append_right xs ys ps

  pub All-append : (xs ys : List A) → All P xs → All P ys → All P (xs ++ ys)
  All-append [] ys ps qs = qs
  All-append (x ∷ xs) ys (p, ps) qs = (p, All-append xs ys ps qs)

pub mem-middle {ℓ} : {A : Type ℓ} (xs : List A) (x : A) (ys : List A) → Memᴰ x (xs ++ (x ∷ ys))
mem-middle [] x ys = Memᴰ.head refl
mem-middle (z ∷ zs) x ys = Memᴰ.tail (mem-middle zs x ys)

pub all-append {ℓ} :
    {A : Type ℓ} (p : A → Bool) (xs ys : List A) → all p (xs ++ ys) ≡ (all p xs && all p ys)
all-append p [] ys = refl
all-append p (x ∷ xs) ys = rw (all-append p xs ys) (ground arith)

pub append_nil {ℓ} : {A : Type ℓ} (xs : List A) → xs ++ [] ≡ xs
append_nil [] = refl
append_nil (x ∷ xs) = ap (λ ys. x ∷ ys) (append_nil xs)

pub All-take {ℓ κ} :
    {A : Type ℓ} (P : A → Type κ) (n : ℕ) (xs : List A) → All P xs → All P (take n xs)
All-take P zero xs ps = tt
All-take P (suc n) [] ps = tt
All-take P (suc n) (x ∷ xs) (p, ps) = (p, All-take P n xs ps)

pub keep-All {ℓ} : {A : Type ℓ} (p : A → Bool) (xs : List A) → All (λ x. p x ≡ true) (keep p xs)
keep-All p [] = tt
keep-All p (x ∷ xs) = elim (Bool-cases (p x)) [
  | inl b ↦ rw (keep, b) (b, keep-All p xs)
  | inr b ↦ rw (keep, b) (keep-All p xs)
]

pub All-keep {ℓ κ} :
    {A : Type ℓ} (P : A → Type κ) (p : A → Bool) (xs : List A) → All P xs → All P (keep p xs)
All-keep P p [] ps = tt
All-keep P p (x ∷ xs) (q, ps) = elim (Bool-cases (p x)) [
  | inl b ↦ rw (keep, b) (q, All-keep P p xs ps)
  | inr b ↦ rw (keep, b) (All-keep P p xs ps)
]
