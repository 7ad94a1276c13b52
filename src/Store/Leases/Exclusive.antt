-- ===== src/Store/Leases/Exclusive.antt =====
-- internal/storage/sqlite: a live lease stays through the calls of other workers, and nobody else
-- takes its job.
use code_maintainer.Base.{
  ℕ, ◌≡◌, ◌≢◌, String, true, not, ◌||◌, arith, Option, none, some, List, [], ◌∷◌, keep,
  Option-cases, Bool-cases, inl, inr, ◌⊎◌, eq_iff,
}
use code_maintainer.Base.Int.{ℤ, pos_part}
use code_maintainer.Base.Clock.{Time}
use code_maintainer.Base.Text.{is_blank}
use code_maintainer.Scheduler.Simulate.{Simulated, decided, refused, simulate}
use code_maintainer.Store.Rows.{Job, JobLease}
use code_maintainer.Store.Tx.{Env, Db, ok, in_tx-cases}
use code_maintainer.Store.Tables.{find_job}
use code_maintainer.Store.Leases.{
  find_lease, live, active_jobs, candidate_jobs, upsert_lease, insert_decision, take_lease,
  lease_selected, record_deferral, settle_decision, after_simulation, acquire_body,
  acquire_job_lease, lease_request, bad_ttl, new_lease, is_scheduled, owned, renew_rows,
  renew_job_lease, release_job_lease,
}
use code_maintainer.Store.Leases.Keeps.{acquired-db}
use code_maintainer.Store.Leases.Laws.{acquire_job_lease_ok}

-- The calls of a worker.
pub data LeaseCall : Type 0 where
  acquire : String → ℤ → LeaseCall
  renew : String → String → ℤ → LeaseCall
  release : String → String → LeaseCall

unfoldable pub lease_call : Env → LeaseCall → Db → Db
lease_call env (LeaseCall.acquire owner ttl) db = (acquire_job_lease env owner ttl db).1
lease_call env (LeaseCall.renew k owner ttl) db = (renew_job_lease env k owner ttl db).1
lease_call env (LeaseCall.release k owner) db = (release_job_lease env k owner db).1

unfoldable pub lease_calls : List (Env × LeaseCall) → Db → Db
unfolding lease_call
lease_calls [] db = db
lease_calls ((env, a) ∷ calls) db = lease_calls calls (lease_call env a db)

-- The call is not the holder's, and an acquisition meets a clock at which the lease is live.
abbrev pub Foreign : JobLease → Env × LeaseCall → Type 0
Foreign l (env, LeaseCall.acquire owner ttl) = live env.now l ≡ true
Foreign l (env, LeaseCall.renew k owner ttl) = owner ≢ l.owner_id
Foreign l (env, LeaseCall.release k owner) = owner ≢ l.owner_id

abbrev pub AllForeign : JobLease → List (Env × LeaseCall) → Type 0
AllForeign l [] = Unit
AllForeign l (x ∷ xs) = Foreign l x × AllForeign l xs

-- An upsert spares a live row, its own key's included.
find_lease-upsert_live :
    (now : Time) (k : String) (l m : JobLease) (ls : List JobLease)
    → find_lease k ls ≡ some l
    → live now l ≡ true
    → find_lease k (upsert_lease now m ls) ≡ some l
find_lease-upsert_live now k l m [] h alive = absurd (cc)
find_lease-upsert_live now k l m (x ∷ xs) h alive =
    let rest = find_lease-upsert_live now k l m xs in
    ground (arith, eq_iff x.job_id k, eq_iff x.job_id m.job_id)

find_lease-renew :
    (now : Time) (k i owner : String) (ttl : ℕ) (l : JobLease) (ls : List JobLease)
    → find_lease k ls ≡ some l
    → owner ≢ l.owner_id
    → find_lease k (renew_rows now i owner ttl ls) ≡ some l
find_lease-renew now k i owner ttl l [] h other = absurd (cc)
find_lease-renew now k i owner ttl l (x ∷ xs) h other =
    let rest = find_lease-renew now k i owner ttl l xs in ground (arith, eq_iff x.owner_id owner)

find_lease-release :
    (k i owner : String) (l : JobLease) (ls : List JobLease)
    → find_lease k ls ≡ some l
    → owner ≢ l.owner_id
    → find_lease k (keep (λ m. not (owned i owner m)) ls) ≡ some l
find_lease-release k i owner l [] h other = absurd (cc)
find_lease-release k i owner l (x ∷ xs) h other =
    let rest = find_lease-release k i owner l xs in ground (arith, eq_iff x.owner_id owner)

-- What an acquisition does to the leases: nothing, or one upsert.
abbrev Upserts : Time → Db → Db → Type 0
Upserts now db db' =
    (db'.leases ≡ db.leases) ⊎ ((m : JobLease) × (db'.leases ≡ upsert_lease now m db.leases))

after_simulation-Upserts :
    (env : Env) (owner : String) (ttl : ℕ) (js : List Job) (s : Simulated) (db : Db)
    (r : Option (Job × JobLease)) (db' : Db)
    → after_simulation env owner ttl js s db ≡ ok (r, db')
    → Upserts env.now db db'
unfolding after_simulation settle_decision lease_selected take_lease record_deferral insert_decision
after_simulation-Upserts env owner ttl js (refused e) db r db' h = absurd (cc)
after_simulation-Upserts env owner ttl js (decided d (some e)) db r db' h = absurd (cc)
after_simulation-Upserts env owner ttl js (decided d none) db r db' h =
    elim (Option-cases (find_job d.selected_job_id js)) [
      | inl missing ↦ inl (ground arith)
      | inr (j, found) ↦ elim (Bool-cases (is_scheduled d.status)) [
        | inl picked ↦ inr (new_lease env.now owner ttl j, ground arith)
        | inr deferred ↦ inl (ground arith)
      ]
    ]

acquire_body-Upserts :
    (env : Env) (owner : String) (ttl : ℕ) (db : Db) (r : Option (Job × JobLease)) (db' : Db)
    → acquire_body env owner ttl db ≡ ok (r, db')
    → Upserts env.now db db'
unfolding acquire_body
acquire_body-Upserts env owner ttl db r db' h =
    after_simulation-Upserts env owner ttl (candidate_jobs env.now db)
      (simulate env.now (lease_request env.now (active_jobs env.now db) (candidate_jobs env.now db))
        env.now)
      db r db' (ground arith)

-- The row of the job is still the lease.
abbrev Holds : String → JobLease → Db → Type 0
Holds k l db = find_lease k db.leases ≡ some l

Upserts-Holds :
    (now : Time) (k : String) (l : JobLease) (db db' : Db)
    → live now l ≡ true
    → Upserts now db db'
    → Holds k l db
    → Holds k l db'
Upserts-Holds now k l db db' alive (inl same) h = rw same h
Upserts-Holds now k l db db' alive (inr (m, upserted)) h =
    rw upserted (find_lease-upsert_live now k l m db.leases h alive)

acquire-Holds :
    (env : Env) (owner : String) (ttl : ℤ) (k : String) (l : JobLease) (db : Db)
    → live env.now l ≡ true
    → Holds k l db
    → Holds k l (acquire_job_lease env owner ttl db).1
unfolding acquire_job_lease
acquire-Holds env owner ttl k l db alive h = elim (Bool-cases (is_blank owner || bad_ttl ttl)) [
  | inl bad ↦ rw bad h
  | inr good ↦
      rw (good, acquired-db)
        (elim (in_tx-cases env (acquire_body env owner (pos_part ttl)) db) [
          | inl (e, stays) ↦ rw stays h
          | inr (r, db', ran, stays) ↦ rw stays (
              Upserts-Holds env.now k l db db' alive
                (acquire_body-Upserts env owner (pos_part ttl) db r db' ran) h)
        ])
]

lease_call-Holds :
    (k : String) (l : JobLease) (env : Env) (a : LeaseCall) (db : Db)
    → Foreign l (env, a)
    → Holds k l db
    → Holds k l (lease_call env a db)
unfolding lease_call renew_job_lease release_job_lease
lease_call-Holds k l env (LeaseCall.acquire owner ttl) db alive h =
    acquire-Holds env owner ttl k l db alive h
lease_call-Holds k l env (LeaseCall.renew i owner ttl) db other h =
    let kept = find_lease-renew env.now k i owner (pos_part ttl) l db.leases h other in ground arith
lease_call-Holds k l env (LeaseCall.release i owner) db other h =
    let kept = find_lease-release k i owner l db.leases h other in ground arith

lease_calls-Holds :
    (k : String) (l : JobLease) (calls : List (Env × LeaseCall)) (db : Db)
    → AllForeign l calls
    → Holds k l db
    → Holds k l (lease_calls calls db)
unfolding lease_calls
lease_calls-Holds k l [] db others h = h
lease_calls-Holds k l ((env, a) ∷ calls) db (other, others) h =
    lease_calls-Holds k l calls (lease_call env a db) others (lease_call-Holds k l env a db other h)

-- A worker took a job. After any acquisitions, renewals and releases of leases, of which the renewals
-- and releases are other owners' and the acquisitions meet clocks at which the lease is live, its row
-- is as it was written; and no acquisition at such a clock then returns the same job. A lease is live
-- where its expiry comes after the clock in the order of their texts, as the store compares them.
pub lease_exclusive :
    (env env' : Env) (owner owner' : String) (ttl ttl' : ℤ) (db : Db) (j : Job) (l : JobLease)
    (calls : List (Env × LeaseCall))
    → (acquire_job_lease env owner ttl db).0 ≡ ok (j, l)
    → AllForeign l calls
    → live env'.now l ≡ true
    → let later = lease_calls calls (acquire_job_lease env owner ttl db).1 in
      (find_lease j.id later.leases ≡ some l)
      × ((i : Job) (m : JobLease)
          → (acquire_job_lease env' owner' ttl' later).0 ≡ ok (i, m)
          → i.id ≢ j.id)
lease_exclusive env env' owner owner' ttl ttl' db j l calls first others alive =
    let start = (acquire_job_lease env owner ttl db).1 in
    let later = lease_calls calls start in
    let taken = acquire_job_lease_ok env owner ttl db j l first in
    let held = lease_calls-Holds j.id l calls start others taken.holds in
    (
      held,
      λ i m second one.
          let again = acquire_job_lease_ok env' owner' ttl' later i m second in
          let free = again.free.1 in ground (arith, one),
    )
