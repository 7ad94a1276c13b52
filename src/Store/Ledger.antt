-- ===== src/Store/Ledger.antt =====
-- The abstract view of the job tables: the last state and the number of entries that the log of
-- transitions has for a job, what its reservations add up to, and what one call may change.
use code_maintainer.Base.{
  ℕ, suc, ◌+◌, ◌≤◌, ◌≡◌, refl, String, Bool, true, false, Option, none, some, List, [], ◌∷◌, arith,
  length, ◌is◌, if◌then◌else◌,
}
use code_maintainer.Jobs.State.{State, queued, can_transition}
use code_maintainer.Store.Rows.{Job, Transition, Reservation}
use code_maintainer.Store.Tx.{Db}
use code_maintainer.Store.Tables.{find_job, update_job}
pub mod Keys
pub mod Steps
pub mod Gates
pub mod Quiet

-- The log is newest first, so the first entry of a job is its last.
abbrev pub last_state : String → List Transition → Option State
last_state k [] = none
last_state k (t ∷ log) = if t.job_id is k then some t.to else last_state k log

abbrev pub entries : String → List Transition → ℕ
entries k [] = 0
entries k (t ∷ log) = if t.job_id is k then suc (entries k log) else entries k log

abbrev pub spent : String → List Reservation → ℕ
spent k [] = 0
spent k (r ∷ rs) = if r.job_id is k then r.reserved_tokens + spent k rs else spent k rs

-- The rows under a key, of which the primary key allows one.
abbrev pub rows : String → List Job → ℕ
rows k [] = 0
rows k (j ∷ js) = if j.id is k then suc (rows k js) else rows k js

abbrev pub state_of : Option Job → Option State
state_of none = none
state_of (some j) = some j.state

abbrev pub version_of : Option Job → ℕ
version_of none = 0
version_of (some j) = j.version

abbrev pub reserved_of : Option Job → ℕ
reserved_of none = 0
reserved_of (some j) = j.reserved_tokens

abbrev pub max_of : Option Job → ℕ
max_of none = 0
max_of (some j) = j.max_tokens

-- A first entry is the submission; a later one is an allowed transition.
abbrev pub Enters : Option State → State → Type 0
Enters none to = to ≡ queued
Enters (some s) to = can_transition s to ≡ true

-- Every entry starts where the job's entry before it ended.
abbrev pub Lawful : List Transition → Type 0
Lawful [] = Unit
Lawful (t ∷ log) =
    (t.from ≡ last_state t.job_id log) × Enters (last_state t.job_id log) t.to × Lawful log

pub record Consistent (db : Db) : Type 0 where
  pub states : (k : String) → last_state k db.job_transitions ≡ state_of (find_job k db.jobs)
  pub versions : (k : String) → entries k db.job_transitions ≡ version_of (find_job k db.jobs)
  pub charges : (k : String) → spent k db.reservations ≡ reserved_of (find_job k db.jobs)
  pub budget : (k : String) → reserved_of (find_job k db.jobs) ≤ max_of (find_job k db.jobs)
  pub lawful : Lawful db.job_transitions
  pub single : (k : String) → rows k db.jobs ≤ 1

-- What a call of the store may do to the tables of jobs: nothing, or one thing to one job.
pub data Deed : Type 0 where
  still : Deed
  submits : String → Deed
  moves : String → State → Deed
  pays : String → ℕ → Deed

-- A job is submitted.
pub record Created (k : String) (db db' : Db) : Type 0 where
  pub job : Job
  pub entry : Transition
  pub named : job.id ≡ k
  pub new : find_job job.id db.jobs ≡ none
  pub fresh : (job.state ≡ queued) × (job.version ≡ 1) × (job.reserved_tokens ≡ 0)
  pub logs : (entry.job_id ≡ job.id) × (entry.from ≡ none) × (entry.to ≡ queued)
  pub jobs : db'.jobs ≡ job ∷ db.jobs
  pub transitions : db'.job_transitions ≡ entry ∷ db.job_transitions
  pub reservations : db'.reservations ≡ db.reservations

-- A job is moved, under its version, along an allowed transition.
pub record Moved (k : String) (to : State) (db db' : Db) : Type 0 where
  pub key : String
  pub current : Job
  pub change : Job → Job
  pub entry : Transition
  pub named : (key ≡ k) × (entry.to ≡ to)
  pub found : find_job key db.jobs ≡ some current
  pub keeps : (j : Job) → (change j).id ≡ j.id
  pub spares :
      ((change current).reserved_tokens ≡ current.reserved_tokens)
      × ((change current).max_tokens ≡ current.max_tokens)
  pub bumps : (change current).version ≡ current.version + 1
  pub ends : (change current).state ≡ entry.to
  pub allowed : can_transition current.state entry.to ≡ true
  pub logs : (entry.job_id ≡ key) × (entry.from ≡ some current.state)
  pub jobs : db'.jobs ≡ update_job key current.version change db.jobs
  pub transitions : db'.job_transitions ≡ entry ∷ db.job_transitions
  pub reservations : db'.reservations ≡ db.reservations

-- A job's budget is charged for its phase.
pub record Charged (k : String) (n : ℕ) (db db' : Db) : Type 0 where
  pub key : String
  pub current : Job
  pub amount : ℕ
  pub change : Job → Job
  pub entry : Reservation
  pub named : (key ≡ k) × (amount ≡ n)
  pub found : find_job key db.jobs ≡ some current
  pub keeps : (j : Job) → (change j).id ≡ j.id
  pub spares :
      ((change current).state ≡ current.state)
      × ((change current).version ≡ current.version)
      × ((change current).max_tokens ≡ current.max_tokens)
  pub charges : (change current).reserved_tokens ≡ current.reserved_tokens + amount
  pub fits : current.reserved_tokens + amount ≤ current.max_tokens
  pub logs : (entry.job_id ≡ key) × (entry.reserved_tokens ≡ amount)
  pub jobs : db'.jobs ≡ update_job key current.version change db.jobs
  pub transitions : db'.job_transitions ≡ db.job_transitions
  pub reservations : db'.reservations ≡ entry ∷ db.reservations

-- What one call of the store leaves: the tables of jobs as they were, or its deed done.
pub data Change : Deed → Db → Db → Type 0 where
  unchanged :
      {d : Deed} {db db' : Db}
      → db'.jobs ≡ db.jobs
      → db'.job_transitions ≡ db.job_transitions
      → db'.reservations ≡ db.reservations
      → Change d db db'
  created : {k : String} {db db' : Db} → Created k db db' → Change (submits k) db db'
  moved : {k : String} {to : State} {db db' : Db} → Moved k to db db' → Change (moves k to) db db'
  charged : {k : String} {n : ℕ} {db db' : Db} → Charged k n db db' → Change (pays k n) db db'
