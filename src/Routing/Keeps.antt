-- ===== src/Routing/Keeps.antt =====
-- internal/providers/service.go: properties of the catalogue that an action keeps, whatever it
-- answers, as each of its calls does.
pub mod Upserts
pub mod Intact
pub mod States
pub mod Writes
pub mod Logs
pub mod Reads
pub mod Service
pub mod Decisions
pub mod History
use code_maintainer.Base.{
  ◌≡◌, refl, String, Bool, true, false, Option, none, some, List, [], ◌∷◌, if◌then◌else◌,
}
use code_maintainer.Routing.Catalog.{
  RouteEnv, CatalogError, RouteCall, Catalog, Reply, ok, err, Act, after, ◌>>=◌, ◌>>◌, pure, fail,
  reject_if, call, gets, modify, or_fail,
}
use code_maintainer.Routing.Defaults.{store_missing}

-- The property holds after the action where it held before.
abbrev pub KeepsAt : (Catalog → Type 0) → {A : Type 0} → Act A → Catalog → Type 0
KeepsAt I m c = I c → I ((m c).1)

abbrev pub Keeps : (Catalog → Type 0) → {A : Type 0} → Act A → Type 0
Keeps I m = (c : Catalog) → KeepsAt I m c

module _ (I : Catalog → Type 0) {A B : Type 0} where
  after-Keeps :
      (r : Reply A × Catalog) (f : A → Act B)
      → I r.1
      → ((a : A) → Keeps I (f a))
      → I ((after r f).1)
  after-Keeps (ok a, c) f i keeps = keeps a c i
  after-Keeps (err e, c) f i keeps = i

  pub >>=-Keeps :
      (m : Act A) (f : A → Act B) → Keeps I m → ((a : A) → Keeps I (f a)) → Keeps I (m >>= f)
  >>=-Keeps m f first rest c i = after-Keeps (m c) f (first c i) rest

module _ (I : Catalog → Type 0) where
  pub reject_if-Keeps :
      {B : Type 0} (b : Bool) (e : CatalogError) (k : Act B)
      → Keeps I k
      → Keeps I (reject_if b e >> k)
  reject_if-Keeps true e k keeps c i = i
  reject_if-Keeps false e k keeps c i = keeps c i

  pub or_fail-Keeps : {A : Type 0} (o : Option A) (e : CatalogError) → Keeps I (or_fail o e)
  or_fail-Keeps none e c i = i
  or_fail-Keeps (some a) e c i = i

  pub or_fail-then-Keeps :
      {A B : Type 0} (o : Option A) (e : CatalogError) (f : A → Act B)
      → ((a : A) → Keeps I (f a))
      → Keeps I (or_fail o e >>= f)
  or_fail-then-Keeps none e f keeps = λ c i. i
  or_fail-then-Keeps (some a) e f keeps = keeps a

  stored-Keeps :
      {B : Type 0} (b : Bool) (m : Act B)
      → Keeps I m
      → Keeps I (if b then pure tt else (m >>= λ _. pure tt))
  stored-Keeps true m keeps = λ c i. i
  stored-Keeps false m keeps = >>=-Keeps I m (λ _. pure tt) keeps (λ a c i. i)

  pub store_missing-Keeps :
      {A B : Type 0} (known : A → Bool) (upsert : A → Act B) (xs : List A)
      → ((a : A) → Keeps I (upsert a))
      → Keeps I (store_missing known upsert xs)
  store_missing-Keeps known upsert [] keeps = λ c i. i
  store_missing-Keeps known upsert (x ∷ xs) keeps =
      let rest = store_missing-Keeps known upsert xs keeps in
      >>=-Keeps I (if known x then pure tt else (upsert x >>= λ _. pure tt))
        (λ _. store_missing known upsert xs) (stored-Keeps (known x) (upsert x) (keeps x))
        (λ _. rest)
