-- ===== src/Store/Ledger/Quiet.antt =====
-- Calls that leave the tables of jobs as they were.
use code_maintainer.Base.{◌≡◌, refl, Bool, true, false, inl, inr, if◌then◌else◌}
use code_maintainer.Store.Ledger.{Deed, Change, unchanged}
use code_maintainer.Store.Tx.{Env, Db, Result, ok, Tx, in_tx, in_tx-cases}

abbrev pub Quiet : Db → Db → Type 0
Quiet db db' =
    (db'.jobs ≡ db.jobs)
    × (db'.job_transitions ≡ db.job_transitions)
    × (db'.reservations ≡ db.reservations)

pub Quiet-Change : {d : Deed} (db db' : Db) → Quiet db db' → Change d db db'
Quiet-Change db db' (j, t, r) = unchanged j t r

-- A transaction is quiet if its body is, where it succeeds.
pub in_tx-Quiet :
    {A : Type 0} (env : Env) (body : Tx A) (db : Db)
    → ((a : A) (db' : Db) → body db ≡ ok (a, db') → Quiet db db')
    → Quiet db (in_tx env body db).1
in_tx-Quiet env body db quiet = elim (in_tx-cases env body db) [
  | inl (e, stays) ↦ rw stays (refl, refl, refl)
  | inr (a, db', ran, stays) ↦ rw stays (quiet a db' ran)
]

-- A refused call changes nothing.
pub guarded-Quiet :
    {A : Type 0} (refused : Bool) (e : Result A) (db : Db) (r : Result A × Db)
    → Quiet db r.1
    → Quiet db (if refused then (e, db) else r).1
guarded-Quiet true e db r q = (refl, refl, refl)
guarded-Quiet false e db r q = q
