-- ===== src/Store/Ledger/Keys.antt =====
-- Reads of the jobs table after an update, by key.
use code_maintainer.Base.{
  ℕ, ◌≤◌, ◌≡◌, refl, String, false, ◌&&◌, Option, none, some, List, [], ◌∷◌, arith, any, ◌==◌, ◌is◌,
  eq_iff, if◌then◌else◌,
}
use code_maintainer.Store.Rows.{Job}
use code_maintainer.Store.Tables.{find_job, update_job, affected}
use code_maintainer.Store.Ledger.{rows}

-- What the update makes of the row that was found under `k`.
abbrev pub touched : String → String → ℕ → (Job → Job) → Option Job → Option Job
touched k i v f none = none
touched k i v f (some j) = some (if k is i && j.version == v then f j else j)

pub find_job-update_job :
    (k i : String) (v : ℕ) (f : Job → Job) (js : List Job)
    → ((j : Job) → (f j).id ≡ j.id)
    → find_job k (update_job i v f js) ≡ touched k i v f (find_job k js)
find_job-update_job k i v f [] keeps = refl
find_job-update_job k i v f (j ∷ js) keeps = ground (
  arith,
  eq_iff j.id k,
  eq_iff (f j).id k,
  eq_iff j.id i,
  eq_iff k i,
  keeps j,
  find_job-update_job k i v f js keeps,
)

-- The row found under a key has that key.
pub find_job-id : (k : String) (js : List Job) (j : Job) → find_job k js ≡ some j → j.id ≡ k
find_job-id k [] j h = cc
find_job-id k (i ∷ js) j h = ground (arith, eq_iff i.id k, find_job-id k js j)

pub find_job-any :
    (k : String) (js : List Job) → any (λ (j : Job). j.id is k) js ≡ false → find_job k js ≡ none
find_job-any k [] h = refl
find_job-any k (j ∷ js) h = ground (arith, find_job-any k js)

-- An update that keeps the keys keeps the rows of each.
pub rows-update_job :
    (k i : String) (v : ℕ) (f : Job → Job) (js : List Job)
    → ((j : Job) → (f j).id ≡ j.id)
    → rows k (update_job i v f js) ≡ rows k js
rows-update_job k i v f [] keeps = refl
rows-update_job k i v f (j ∷ js) keeps =
    ground (arith, eq_iff j.id k, eq_iff (f j).id k, keeps j, rows-update_job k i v f js keeps)

pub rows-none : (k : String) (js : List Job) → find_job k js ≡ none → rows k js ≡ 0
rows-none k [] h = refl
rows-none k (j ∷ js) h = ground (arith, rows-none k js)

affected-le-rows : (k : String) (v : ℕ) (js : List Job) → affected k v js ≤ rows k js
affected-le-rows k v [] = omega arith
affected-le-rows k v (j ∷ js) = ground (arith, affected-le-rows k v js)

affected-pos :
    (k : String) (v : ℕ) (js : List Job) (j : Job)
    → find_job k js ≡ some j
    → j.version ≡ v
    → 1 ≤ affected k v js
affected-pos k v [] j h e = absurd (cc)
affected-pos k v (i ∷ js) j h e = ground (arith, affected-pos k v js j)

-- Under a primary key the update by key and version hits the one row that was read.
pub affected_one :
    (k : String) (js : List Job) (j : Job)
    → rows k js ≤ 1
    → find_job k js ≡ some j
    → affected k j.version js ≡ 1
affected_one k js j single found =
    omega (arith, affected-le-rows k j.version js, affected-pos k j.version js j found refl)
