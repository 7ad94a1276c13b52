-- ===== src/Store/Leases.antt =====
-- internal/storage/sqlite/scheduler.go and the leases of store.go: a worker takes the job that the
-- scheduler selects under a lease that expires, renews the lease, and gives it back.
pub mod Laws
pub mod Keeps
pub mod Owners
pub mod Exclusive
use code_maintainer.Base.{
  ℕ, suc, ◌+◌, ◌*◌, String, Bool, true, false, not, ◌&&◌, ◌||◌, Option, none, some, List, [], ◌∷◌,
  any, keep, length, take, ltb, leb, ◌==◌, ◌is◌, if◌then◌else◌,
}
use code_maintainer.Base.Int.{ℤ, pos, pos_part, ltb_ℤ}
use code_maintainer.Base.Clock.{Time, second}
use code_maintainer.Base.Stamp.{stamp_before}
use code_maintainer.Base.Text.{is_blank, is_empty}
use code_maintainer.Jobs.State.{State, text, resumable}
use code_maintainer.Scheduler.Types.{
  QueueItem, SimulationRequest, Decision, Status, scheduled, default_topology, default_profiles,
  mode_quality_latency, profile_id_for_state, model_id_for_profile, runner_id_for_profile,
}
use code_maintainer.Scheduler.Checks.{SchedulerError, validate_decision}
use code_maintainer.Scheduler.Order.{stable_sort, reverse_onto}
use code_maintainer.Scheduler.Priority.{priority_for_deadline}
use code_maintainer.Scheduler.Simulate.{Simulated, decided, refused, simulate}
use code_maintainer.Store.Rows.{Job, JobLease}
use code_maintainer.Store.Tx.{
  Env, Db, Call, StoreError, Result, ok, err, Tx, ◌>>=◌, ◌>>◌, pure, fail, reject_if, call, gets,
  modify, or_fail, in_tx,
}
use code_maintainer.Store.Tables.{find_job}

-- The row of a job, whose id is the primary key.
abbrev pub find_lease : String → List JobLease → Option JobLease
find_lease k [] = none
find_lease k (l ∷ ls) = if l.job_id is k then some l else find_lease k ls

-- `expires_at > ?`
abbrev pub live : Time → JobLease → Bool
live now l = stamp_before now l.expires_at

abbrev pub live_row : Time → Option JobLease → Bool
live_row now none = false
live_row now (some l) = live now l

-- `ORDER BY created_at ASC`, rows of one time stamp in the order of their insertion
abbrev pub by_creation : List Job → List Job
by_creation js =
    stable_sort (λ (a : Job) (b : Job). stamp_before a.created_at b.created_at)
      (reverse_onto (λ (a : Job) (b : Job). false) js [])

-- schedulerActiveJobs
unfoldable pub active_jobs : Time → Db → List Job
active_jobs now db =
    by_creation (keep (λ (j : Job). live_row now (find_lease j.id db.leases)) db.jobs)

-- schedulerCandidateJobs
unfoldable pub candidate_jobs : Time → Db → List Job
candidate_jobs now db = take 128 (
    by_creation (
      keep (λ (j : Job). resumable j.state && not (live_row now (find_lease j.id db.leases)))
        db.jobs))

abbrev pub queue_item : Time → Job → QueueItem
queue_item now j =
    let profile = profile_id_for_state (text j.state) in
    record {
      job_id = j.id;
      project_id = j.project_id;
      state = text j.state;
      priority = pos (priority_for_deadline now j.deadline_at j.created_at);
      profile_id = profile;
      created_at = j.created_at;
      deadline_at = j.deadline_at;
      model_id = model_id_for_profile profile;
      runner_id = runner_id_for_profile profile;
      reason = "durable lease scheduler candidate";
    }

-- schedulerQueueItems
abbrev pub queue_items : Time → List Job → List QueueItem
queue_items now [] = []
queue_items now (j ∷ js) = queue_item now j ∷ queue_items now js

unfoldable pub lease_request : Time → List Job → List Job → SimulationRequest
lease_request now active candidates = record {
  mode = mode_quality_latency;
  topology = default_topology;
  profiles = default_profiles;
  active = queue_items now active;
  queued = queue_items now candidates;
  maintenance_window = true;
  fairness_window = pos 1;
}

-- insertSchedulerDecision, in the transaction or outside of one; the id column is unique.
unfoldable pub insert_decision : Env → Decision → Tx (Unit {0})
insert_decision env d = do
  reject_if (elim (validate_decision d) [ none ↦ false | some _ ↦ true ]) StoreError.invalid
  call env Call.insert_decision
  taken ← gets (λ db. any (λ (e : Decision). e.id is d.id) db.scheduler_decisions)
  reject_if taken (StoreError.driver Call.insert_decision)
  modify λ db. record db { scheduler_decisions = d ∷ db.scheduler_decisions }

-- The row that replaces a row of its job whose `expires_at` is not after `now`, or is inserted.
abbrev pub upsert_lease : Time → JobLease → List JobLease → List JobLease
upsert_lease now lease [] = lease ∷ []
upsert_lease now lease (l ∷ ls) =
    if l.job_id is lease.job_id
    then (if live now l then l ∷ ls else lease ∷ ls)
    else l ∷ upsert_lease now lease ls

-- The rows that the upsert changes.
abbrev pub upserted : Time → JobLease → List JobLease → ℕ
upserted now lease ls = if live_row now (find_lease lease.job_id ls) then 0 else 1

abbrev pub new_lease : Time → String → ℕ → Job → JobLease
new_lease now owner ttl j = record {
  job_id = j.id;
  owner_id = owner;
  acquired_at = now;
  heartbeat_at = now;
  expires_at = now + ttl;
}

-- The upsert, the check of its rows, and the record of the decision.
unfoldable pub take_lease : Env → String → ℕ → Decision → Job → Tx (Option (Job × JobLease))
unfolding insert_decision
take_lease env owner ttl d j = do
  call env Call.write_lease
  rows ← gets (λ db. upserted env.now (new_lease env.now owner ttl j) db.leases)
  modify λ db. record db { leases = upsert_lease env.now (new_lease env.now owner ttl j) db.leases }
  reject_if (not (rows == 1)) StoreError.no_lease_available
  insert_decision env d
  pure (some (j, new_lease env.now owner ttl j))

-- findJob on the candidates; a job that is missing there is ErrNoLeaseAvailable.
unfoldable pub lease_selected :
    Env → String → ℕ → Decision → Option Job → Tx (Option (Job × JobLease))
lease_selected env owner ttl d none = fail StoreError.no_lease_available
lease_selected env owner ttl d (some j) = take_lease env owner ttl d j

-- A deferral is recorded and committed, and no job is returned.
unfoldable pub record_deferral : Env → Decision → Tx (Option (Job × JobLease))
record_deferral env d = do insert_decision env d; pure none

abbrev pub is_scheduled : Status → Bool
is_scheduled scheduled = true
is_scheduled _ = false

unfoldable pub settle_decision :
    Env → String → ℕ → List Job → Decision → Tx (Option (Job × JobLease))
settle_decision env owner ttl candidates d =
    if is_scheduled d.status
    then lease_selected env owner ttl d (find_job d.selected_job_id candidates)
    else record_deferral env d

-- The decision as it is recorded.
abbrev pub recorded : Env → Decision → Decision
recorded env d = record d { id = env.new_id "scheduler"; created_at = env.now }

-- The decision under the id that is drawn for it. An error of Simulate is passed on.
unfoldable pub after_simulation :
    Env → String → ℕ → List Job → Simulated → Tx (Option (Job × JobLease))
after_simulation env owner ttl candidates (refused e) = fail (StoreError.scheduler e)
after_simulation env owner ttl candidates (decided _ (some e)) = fail (StoreError.scheduler e)
after_simulation env owner ttl candidates (decided decision none) = do
  call env Call.random
  settle_decision env owner ttl candidates (recorded env decision)

unfoldable pub acquire_body : Env → String → ℕ → Tx (Option (Job × JobLease))
acquire_body env owner ttl = do
  call env Call.list_active
  active ← gets (active_jobs env.now)
  call env Call.list_candidates
  candidates ← gets (candidate_jobs env.now)
  reject_if (length candidates == 0) StoreError.no_lease_available
  after_simulation env owner ttl candidates
      (simulate env.now (lease_request env.now active candidates) env.now)

-- A committed deferral is ErrNoLeaseAvailable.
unfoldable pub acquired : Result (Option (Job × JobLease)) × Db → Result (Job × JobLease) × Db
acquired (err e, db) = (err e, db)
acquired (ok none, db) = (err StoreError.no_lease_available, db)
acquired (ok (some r), db) = (ok r, db)

abbrev pub bad_ttl : ℤ → Bool
bad_ttl ttl = ltb_ℤ ttl (pos second) || ltb_ℤ (pos (3600 * second)) ttl

-- AcquireJobLease and acquireScheduledJobLease
unfoldable pub acquire_job_lease : Env → String → ℤ → Db → Result (Job × JobLease) × Db
acquire_job_lease env owner ttl db =
    if is_blank owner || bad_ttl ttl
    then (err StoreError.invalid, db)
    else acquired (in_tx env (acquire_body env owner (pos_part ttl)) db)

-- The rows of a job under an owner that are not expired.
abbrev pub renewable : Time → String → String → JobLease → Bool
renewable now k owner l = l.job_id is k && l.owner_id is owner && live now l

abbrev pub renew_rows : Time → String → String → ℕ → List JobLease → List JobLease
renew_rows now k owner ttl [] = []
renew_rows now k owner ttl (l ∷ ls) =
    (if renewable now k owner l then record l { heartbeat_at = now; expires_at = now + ttl } else l)
    ∷ renew_rows now k owner ttl ls

-- getJobLease
unfoldable pub get_job_lease : Env → String → Db → Result JobLease
get_job_lease env k db =
    if env.fault Call.read_lease
    then err (StoreError.driver Call.read_lease)
    else elim (find_lease k db.leases) [ none ↦ err StoreError.not_found | some l ↦ ok l ]

-- RenewJobLease: one statement outside a transaction, then the row that it leaves.
unfoldable pub renew_job_lease : Env → String → String → ℤ → Db → Result JobLease × Db
renew_job_lease env k owner ttl db =
    let after = record db { leases = renew_rows env.now k owner (pos_part ttl) db.leases } in
    if is_empty k || is_empty owner || bad_ttl ttl
    then (err StoreError.invalid, db)
    else if env.fault Call.write_lease
    then (err (StoreError.driver Call.write_lease), db)
    else if not (length (keep (renewable env.now k owner) db.leases) == 1)
    then (err StoreError.lease_lost, after)
    else (get_job_lease env k after, after)

abbrev pub owned : String → String → JobLease → Bool
owned k owner l = l.job_id is k && l.owner_id is owner

-- ReleaseJobLease: the row is deleted; a lease of another owner is ErrLeaseLost, none is success.
unfoldable pub release_job_lease : Env → String → String → Db → Result (Unit {0}) × Db
release_job_lease env k owner db =
    let after = record db { leases = keep (λ l. not (owned k owner l)) db.leases } in
    if is_empty k || is_empty owner
    then (err StoreError.invalid, db)
    else if env.fault Call.write_lease
    then (err (StoreError.driver Call.write_lease), db)
    else if length (keep (owned k owner) db.leases) == 1
    then (ok tt, after)
    else if env.fault Call.read_lease
    then (err (StoreError.driver Call.read_lease), after)
    else if not (any (λ (l : JobLease). l.job_id is k) after.leases)
    then (ok tt, after)
    else (err StoreError.lease_lost, after)
