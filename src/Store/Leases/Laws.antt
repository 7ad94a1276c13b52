-- ===== src/Store/Leases/Laws.antt =====
-- internal/storage/sqlite/scheduler.go: a lease is taken on a job that nobody holds.
use code_maintainer.Base.{
  ℕ, ◌≡◌, ◌≢◌, refl, subst, append_nil, sym, ◌∙◌, String, Bool, true, false, not, ◌&&◌, ◌||◌, arith,
  Option, none, some, List, [], ◌∷◌, All, All-take, keep-All, perm_All, keep, Bool-cases,
  Option-cases, inl, inr, if◌then◌else◌, ◌is◌, eq_iff,
}
use code_maintainer.Base.Int.{ℤ, pos_part}
use code_maintainer.Base.Clock.{Time, is_zero}
use code_maintainer.Base.Text.{is_blank}
use code_maintainer.Jobs.State.{resumable}
use code_maintainer.Scheduler.Types.{Decision, Status, scheduled}
use code_maintainer.Scheduler.Order.{reverse_onto}
use code_maintainer.Scheduler.Order.Laws.{stable_sort-perm, reverse_onto-perm}
use code_maintainer.Scheduler.Simulate.{Simulated, decided, refused, simulate}
use code_maintainer.Store.Rows.{Job, JobLease}
use code_maintainer.Store.Tx.{Env, Db, Call, ok, in_tx, in_tx-cases}
use code_maintainer.Store.Tables.{find_job}
use code_maintainer.Store.Leases.{
  find_lease, live_row, active_jobs, candidate_jobs, by_creation, upsert_lease, new_lease,
  take_lease, lease_selected, record_deferral, recorded, settle_decision, is_scheduled,
  after_simulation, acquire_body, acquired, bad_ttl, acquire_job_lease, lease_request,
}
use code_maintainer.Scheduler.Simulate.Selection.{Selected, simulate_selects}

-- The job may be leased: it is resumable, and nobody holds a live lease of it.
abbrev pub leasable : Time → Db → Job → Bool
leasable now db j = resumable j.state && not (live_row now (find_lease j.id db.leases))

-- What a lease that was taken leaves.
abbrev pub leased_db : Env → String → ℕ → Decision → Job → Db → Db
leased_db env owner ttl d j db = record db {
  leases = upsert_lease env.now (new_lease env.now owner ttl j) db.leases;
  scheduler_decisions = d ∷ db.scheduler_decisions;
}

find_job-All :
    (P : Job → Type 0) (k : String) (js : List Job) (j : Job)
    → All P js
    → find_job k js ≡ some j
    → P j × (j.id ≡ k)
find_job-All P k [] j ps h = absurd (cc)
find_job-All P k (i ∷ js) j (p, ps) h = elim (Bool-cases (i.id is k)) [
  | inl b ↦
      let same_job : i ≡ j = ground arith in
      (subst P same_job p, subst (λ x. x.id ≡ k) same_job ((eq_iff i.id k).0 b))
  | inr b ↦ find_job-All P k js j ps (rw (find_job, b) at h)
]

module _ (P : Job → Type 0) where
  by_creation-All : (js : List Job) → All P js → All P (by_creation js)
  by_creation-All js ps =
      perm_All P (stable_sort-perm _ (reverse_onto (λ (a : Job) (b : Job). false) js []))
        (perm_All P (reverse_onto-perm (λ a b. false) js []) (rw (append_nil js) ps))

candidate_jobs-All :
    (now : Time) (db : Db) → All (λ j. leasable now db j ≡ true) (candidate_jobs now db)
unfolding candidate_jobs
candidate_jobs-All now db =
    All-take (λ j. leasable now db j ≡ true) 128 (by_creation (keep (leasable now db) db.jobs))
      (by_creation-All (λ j. leasable now db j ≡ true) (keep (leasable now db) db.jobs)
        (keep-All (leasable now db) db.jobs))

take_lease-ran :
    (env : Env) (owner : String) (ttl : ℕ) (d : Decision) (j : Job) (db : Db)
    (r : Option (Job × JobLease)) (db' : Db)
    → take_lease env owner ttl d j db ≡ ok (r, db')
    → (r ≡ some (j, new_lease env.now owner ttl j)) × (db' ≡ leased_db env owner ttl d j db)
unfolding take_lease
take_lease-ran env owner ttl d j db r db' h = (ground arith, ground arith)

find_lease-upsert :
    (now : Time) (l : JobLease) (k : String) (ls : List JobLease)
    → live_row now (find_lease l.job_id ls) ≡ false
    → find_lease k (upsert_lease now l ls) ≡ (if l.job_id is k then some l else find_lease k ls)
find_lease-upsert now l k [] h = refl
find_lease-upsert now l k (m ∷ ls) h = elim (Bool-cases (m.job_id is l.job_id)) [
  | inl b ↦ ground (arith, eq_iff m.job_id l.job_id)
  | inr b ↦
      let rest = find_lease-upsert now l k ls in
      ground (arith, rest, eq_iff m.job_id l.job_id, eq_iff m.job_id k, eq_iff l.job_id k)
]

record_deferral-none :
    (env : Env) (d : Decision) (db : Db) (r : Job × JobLease) (db' : Db)
    → record_deferral env d db ≢ ok (some r, db')
unfolding record_deferral
record_deferral-none env d db r db' h = ground arith

settle_decision-ran :
    (env : Env) (owner : String) (ttl : ℕ) (js : List Job) (d : Decision) (db : Db) (j : Job)
    (l : JobLease) (db' : Db)
    → settle_decision env owner ttl js d db ≡ ok (some (j, l), db')
    → (d.status ≡ scheduled)
      × (find_job d.selected_job_id js ≡ some j)
      × (l ≡ new_lease env.now owner ttl j)
      × (db' ≡ leased_db env owner ttl d j db)
unfolding settle_decision lease_selected
settle_decision-ran env owner ttl js d db j l db' h = elim (Bool-cases (is_scheduled d.status)) [
  | inr waits ↦ absurd (record_deferral-none env d db (j, l) db' (rw waits at h))
  | inl goes ↦ elim (Option-cases (find_job d.selected_job_id js)) [
    | inl missing ↦ absurd (cc (rw (goes, missing) at h))
    | inr (i, found) ↦
        let (got, after) =
          take_lease-ran env owner ttl d i db (some (j, l)) db' (rw (goes, found) at h) in
        let one : i ≡ j = ground arith in
        (is_scheduled→≡ d.status goes, ground arith, ground arith, rw (sym one) after)
  ]
]
  where
    is_scheduled→≡ : (s : Status) → is_scheduled s ≡ true → s ≡ scheduled
    is_scheduled→≡ scheduled e = refl
    is_scheduled→≡ _ e = absurd (cc)

after_simulation-ran :
    (env : Env) (owner : String) (ttl : ℕ) (js : List Job) (s : Simulated) (db : Db) (j : Job)
    (l : JobLease) (db' : Db)
    → after_simulation env owner ttl js s db ≡ ok (some (j, l), db')
    → (d : Decision) × (s ≡ decided d none)
      × (d.status ≡ scheduled)
      × (find_job d.selected_job_id js ≡ some j)
      × (l ≡ new_lease env.now owner ttl j)
      × (db' ≡ leased_db env owner ttl (recorded env d) j db)
unfolding after_simulation
after_simulation-ran env owner ttl js (refused e) db j l db' h = absurd (cc)
after_simulation-ran env owner ttl js (decided d (some e)) db j l db' h = absurd (cc)
after_simulation-ran env owner ttl js (decided d none) db j l db' h =
    elim (Bool-cases (env.fault Call.random)) [
      | inl down ↦ absurd (cc (rw down at h))
      | inr up ↦
          let (goes, found, lease, after) =
            settle_decision-ran env owner ttl js (recorded env d) db j l db' (rw up at h) in
          (d, refl, goes, found, lease, after)
    ]

acquire_body-ran :
    (env : Env) (owner : String) (ttl : ℕ) (db : Db) (j : Job) (l : JobLease) (db' : Db)
    → acquire_body env owner ttl db ≡ ok (some (j, l), db')
    → after_simulation env owner ttl
        (candidate_jobs env.now db)
        (simulate env.now
          (lease_request env.now (active_jobs env.now db) (candidate_jobs env.now db))
          env.now)
        db
      ≡ ok (some (j, l), db')
unfolding acquire_body
acquire_body-ran env owner ttl db j l db' h = ground arith

-- What an acquisition that returned a job and a lease has found and written.
pub record Leased (env : Env) (owner : String) (ttl : ℕ) (db : Db) (j : Job) (l : JobLease)
    (db' : Db) : Type 0 where
  pub decision : Decision
  pub selected :
      Selected
        (lease_request env.now (active_jobs env.now db) (candidate_jobs env.now db))
        (if is_zero env.now then env.now else env.now)
        decision
  pub job : decision.selected_job_id ≡ j.id
  pub free : resumable j.state ≡ true × (live_row env.now (find_lease j.id db.leases) ≡ false)
  pub lease : l ≡ new_lease env.now owner ttl j
  pub holds : find_lease j.id db'.leases ≡ some l
  pub others : (k : String) → k ≢ j.id → find_lease k db'.leases ≡ find_lease k db.leases
  pub keeps :
      (db'.jobs ≡ db.jobs)
      × (db'.job_transitions ≡ db.job_transitions)
      × (db'.reservations ≡ db.reservations)
  pub decisions : db'.scheduler_decisions ≡ recorded env decision ∷ db.scheduler_decisions

acquire_body-Leased :
    (env : Env) (owner : String) (ttl : ℕ) (db : Db) (j : Job) (l : JobLease) (db' : Db)
    → acquire_body env owner ttl db ≡ ok (some (j, l), db')
    → Leased env owner ttl db j l db'
unfolding lease_request
acquire_body-Leased env owner ttl db j l db' h =
    let r = lease_request env.now (active_jobs env.now db) (candidate_jobs env.now db) in
    let (d, s, goes, found, lease, after) =
      after_simulation-ran env owner ttl (candidate_jobs env.now db) (simulate env.now r env.now) db
        j l db' (acquire_body-ran env owner ttl db j l db' h) in
    let (free, same_id) =
      find_job-All (λ i. leasable env.now db i ≡ true) d.selected_job_id (candidate_jobs env.now db)
        j (candidate_jobs-All env.now db) found in
    let unheld : live_row env.now (find_lease j.id db.leases) ≡ false = ground arith in
    let look : (k : String)
        → find_lease k db'.leases
          ≡ (if j.id is k then some (new_lease env.now owner ttl j) else find_lease k db.leases) =
      λ k.
        rw after (find_lease-upsert env.now (new_lease env.now owner ttl j) k db.leases unheld) in
    record {
      decision = d;
      selected = simulate_selects env.now r env.now d none s goes;
      job = sym same_id;
      free = (ground arith, unheld);
      lease = lease;
      holds = look j.id ∙ ground (arith, eq_iff j.id j.id);
      others = λ k other. look k ∙ ground (arith, eq_iff j.id k);
      keeps = rw after (refl, refl, refl);
      decisions = rw after refl;
    }

-- An acquisition that returns a job returns one that is resumable and that nobody held under a live
-- lease, and which the scheduler selected among the candidates; the lease is the owner's until its
-- time is over, it is the one row of the job, and the leases of other jobs and the tables of jobs
-- stay as they were.
pub acquire_job_lease_ok :
    (env : Env) (owner : String) (ttl : ℤ) (db : Db) (j : Job) (l : JobLease)
    → (acquire_job_lease env owner ttl db).0 ≡ ok (j, l)
    → Leased env owner (pos_part ttl) db j l (acquire_job_lease env owner ttl db).1
unfolding acquire_job_lease acquired
acquire_job_lease_ok env owner ttl db j l h = elim (Bool-cases (is_blank owner || bad_ttl ttl)) [
  | inl bad ↦ absurd (cc (rw bad at h))
  | inr good ↦ rw good (committed (rw good at h))
]
  where
    committed :
        (acquired (in_tx env (acquire_body env owner (pos_part ttl)) db)).0 ≡ ok (j, l)
        → Leased env owner
            (pos_part ttl)
            db
            j
            l
            (acquired (in_tx env (acquire_body env owner (pos_part ttl)) db)).1
    committed g = elim (in_tx-cases env (acquire_body env owner (pos_part ttl)) db) [
      | inl (e, stays) ↦ absurd (cc (rw stays at g))
      | inr (r, db', ran, stays) ↦ rw stays (returned r db' ran (rw stays at g))
    ]
      where
        returned :
            (r : Option (Job × JobLease)) (db' : Db)
            → acquire_body env owner (pos_part ttl) db ≡ ok (r, db')
            → (acquired (ok r, db')).0 ≡ ok (j, l)
            → Leased env owner (pos_part ttl) db j l (acquired (ok r, db')).1
        returned none db' ran g = absurd (cc)
        returned (some (i, m)) db' ran g =
            let job : i ≡ j = ground arith in
            let lease : m ≡ l = ground arith in
            acquire_body-Leased env owner (pos_part ttl) db j l db' (rw (job, lease) at ran)
