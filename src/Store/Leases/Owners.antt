-- ===== src/Store/Leases/Owners.antt =====
-- internal/storage/sqlite/store.go: renewing and releasing touch only the caller's own lease.
use code_maintainer.Base.{ℕ, ◌≡◌, refl, String, not, arith, List, [], ◌∷◌, keep}
use code_maintainer.Base.Int.{ℤ, pos_part}
use code_maintainer.Base.Clock.{Time}
use code_maintainer.Store.Rows.{JobLease}
use code_maintainer.Store.Tx.{Env, Db}
use code_maintainer.Store.Leases.{owned, renew_rows, renew_job_lease, release_job_lease}

-- The rows that are not the owner's lease of the job.
abbrev pub foreign : String → String → List JobLease → List JobLease
foreign k owner ls = keep (λ l. not (owned k owner l)) ls

renew_rows-foreign :
    (now : Time) (k owner : String) (ttl : ℕ) (ls : List JobLease)
    → foreign k owner (renew_rows now k owner ttl ls) ≡ foreign k owner ls
renew_rows-foreign now k owner ttl [] = refl
renew_rows-foreign now k owner ttl (l ∷ ls) =
    let rest = renew_rows-foreign now k owner ttl ls in ground arith

foreign_twice :
    (k owner : String) (ls : List JobLease)
    → foreign k owner (foreign k owner ls) ≡ foreign k owner ls
foreign_twice k owner [] = refl
foreign_twice k owner (l ∷ ls) = let rest = foreign_twice k owner ls in ground arith

-- Whatever a call of RenewJobLease or ReleaseJobLease meets, on every path the leases of other jobs
-- and of other owners stay row for row as they were.
pub leases_of_others :
    (env : Env) (k owner : String) (ttl : ℤ) (db : Db)
    → (foreign k owner (renew_job_lease env k owner ttl db).1.leases ≡ foreign k owner db.leases)
      × (foreign k owner (release_job_lease env k owner db).1.leases ≡ foreign k owner db.leases)
unfolding renew_job_lease release_job_lease
leases_of_others env k owner ttl db =
    let renewed = renew_rows-foreign env.now k owner (pos_part ttl) db.leases in
    let released = foreign_twice k owner db.leases in (ground arith, ground arith)
