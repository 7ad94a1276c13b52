-- ===== src/Tests/Leases.antt =====
-- internal/scheduler/types.go and internal/storage/sqlite/scheduler.go: leases taken on the submitted
-- job, and the theorems there.
use code_maintainer.Base.{◌*◌, ◌≡◌, ◌≢◌, eq_iff, String, ◌⊎◌, refl, true, none, some, List, [], ◌∷◌}
use code_maintainer.Base.Int.{pos, ◌+ℤ◌, ◌-ℤ◌}
use code_maintainer.Base.Text.{is_blank, decimal, concat}
use code_maintainer.Base.Patterns.{safe_id}
use code_maintainer.Base.Clock.{sub_time, second}
use code_maintainer.Base.Stamp.{stamp_before, fraction_text}
use code_maintainer.Jobs.State.{resumable, text}
use code_maintainer.Store.Rows.{Job, JobLease, CreateJobParams}
use code_maintainer.Store.Tx.{Db, ok, in_tx}
use code_maintainer.Store.Tables.{append_audit, insert_transition}
use code_maintainer.Store.JobOps.{create_job}
use code_maintainer.Scheduler.Types.{
  SimulationRequest, Decision, scheduled, default_topology, default_profiles, profile_id_for_state,
  model_id_for_profile, runner_id_for_profile,
}
use code_maintainer.Scheduler.Checks.{
  validate_request, validate_decision, topology_valid, profile_valid, item_valid, check_profiles,
  check_items,
}
use code_maintainer.Scheduler.Order.{
  deadline_score, urgent_first, queue_less, insert_back, insert_all, stable_sort, sort_queue,
}
use code_maintainer.Scheduler.Priority.{priority_for_deadline, priority_of_remaining}
use code_maintainer.Scheduler.Simulate.{
  resource_summary, scan_queue, decide, decided, simulate, with_mode,
}
use code_maintainer.Scheduler.Simulate.Selection.{Selected, simulate_selects}
use code_maintainer.Scheduler.Simulate.Decided.{simulate_decides}
use code_maintainer.Scheduler.Simulate.Skipped.{listed}
use code_maintainer.Store.Leases.{
  queue_item, lease_request, active_jobs, candidate_jobs, new_lease, insert_decision, take_lease,
  lease_selected, record_deferral, settle_decision, after_simulation, acquire_body, acquired,
  acquire_job_lease, live,
}
use code_maintainer.Store.Leases.Laws.{Leased, acquire_job_lease_ok}
use code_maintainer.Store.Leases.{find_lease}
use code_maintainer.Store.Tx.{Env}
use code_maintainer.Store.Leases.Exclusive.{LeaseCall, lease_calls, lease_exclusive}
use code_maintainer.Tests.Fixture.{env_with, stored, job, params}

abbrev lease : JobLease
lease = new_lease 1_000 "worker-1" (60 * second) job

abbrev second_params : CreateJobParams
second_params = record params { id = "job-2"; project_id = "project-2" }

abbrev second_job : Job
second_job = record job { id = "job-2"; project_id = "project-2" }

-- The database with a second job, of another project.
abbrev two : Db
two = (create_job (env_with "x") second_params stored).1

abbrev second_lease : JobLease
second_lease = new_lease 1_000 "worker-2" (60 * second) second_job

taken : (acquire_job_lease (env_with "l") "worker-1" (pos (60 * second)) two).0 ≡ ok (job, lease)
unfolding stored create_job in_tx append_audit insert_transition is_blank safe_id decimal concat
    ◌+ℤ◌ ◌-ℤ◌ sub_time stamp_before fraction_text resumable text default_topology default_profiles
    profile_id_for_state model_id_for_profile runner_id_for_profile validate_request
    validate_decision topology_valid profile_valid item_valid check_profiles check_items
    deadline_score urgent_first queue_less insert_back insert_all stable_sort sort_queue
    priority_for_deadline priority_of_remaining resource_summary scan_queue decide simulate
    lease_request active_jobs candidate_jobs insert_decision take_lease lease_selected
    record_deferral settle_decision after_simulation acquire_body acquired acquire_job_lease
taken = refl

-- The second worker gets the second job.
taken_next :
    (acquire_job_lease
      (env_with "m")
      "worker-2"
      (pos (60 * second))
      (acquire_job_lease (env_with "l") "worker-1" (pos (60 * second)) two).1).0
    ≡ ok (second_job, second_lease)
unfolding stored create_job in_tx append_audit insert_transition is_blank safe_id decimal concat
    ◌+ℤ◌ ◌-ℤ◌ sub_time stamp_before fraction_text resumable text default_topology default_profiles
    profile_id_for_state model_id_for_profile runner_id_for_profile validate_request
    validate_decision topology_valid profile_valid item_valid check_profiles check_items
    deadline_score urgent_first queue_less insert_back insert_all stable_sort sort_queue
    priority_for_deadline priority_of_remaining resource_summary scan_queue decide simulate
    lease_request active_jobs candidate_jobs insert_decision take_lease lease_selected
    record_deferral settle_decision after_simulation acquire_body acquired acquire_job_lease
taken_next = refl

abbrev held : Db
held = record two { leases = lease ∷ [] }

alive : live 1_000 lease ≡ true
unfolding stamp_before
alive = refl

acquire_job_lease_ok_example :
    Leased
      (env_with "l")
      "worker-1"
      (60 * second)
      two
      job
      lease
      (acquire_job_lease (env_with "l") "worker-1" (pos (60 * second)) two).1
acquire_job_lease_ok_example =
    acquire_job_lease_ok (env_with "l") "worker-1" (pos (60 * second)) two job lease taken

-- Another worker takes a job, and tries to release the first one.
abbrev between : List (Env × LeaseCall)
between =
    (env_with "m", LeaseCall.acquire "worker-2" (pos (60 * second)))
    ∷ (env_with "n", LeaseCall.release "job-1" "worker-2")
    ∷ []

abbrev holder : String
holder = "worker-1"

abbrev rival : String
rival = "worker-2"

other_worker : rival ≢ holder
other_worker e = let same = (eq_iff rival holder).1 e in absurd (cc)

lease_exclusive_example :
    let later =
      lease_calls between (acquire_job_lease (env_with "l") "worker-1" (pos (60 * second)) two).1 in
    (find_lease "job-1" later.leases ≡ some lease)
    × ((i : Job) (m : JobLease)
        → (acquire_job_lease (env_with "o") "worker-3" (pos (60 * second)) later).0 ≡ ok (i, m)
        → i.id ≢ "job-1")
lease_exclusive_example =
    lease_exclusive (env_with "l") (env_with "o") "worker-1" "worker-3" (pos (60 * second))
      (pos (60 * second)) two job lease between taken (alive, (other_worker, tt)) alive

-- Two queued items of the default host.
abbrev request : SimulationRequest
request = record {
  mode = "";
  topology = default_topology;
  profiles = default_profiles;
  active = [];
  queued = queue_item 1_000 second_job ∷ queue_item 1_000 job ∷ [];
  maintenance_window = true;
  fairness_window = pos 1;
}

abbrev decision : Decision
decision = decide (with_mode request) 1_000

request_checked : validate_request (with_mode request) ≡ none
unfolding safe_id is_blank text default_topology default_profiles profile_id_for_state
    model_id_for_profile runner_id_for_profile priority_for_deadline priority_of_remaining sub_time
    validate_request topology_valid profile_valid item_valid check_profiles check_items
request_checked = refl

simulate_decides_example :
    (d : Decision) × (simulate 5 request 1_000 ≡ decided d none)
    × ((d.status ≡ scheduled) ⊎ (listed d ≡ 2))
simulate_decides_example = simulate_decides 5 request 1_000 request_checked

simulated : simulate 5 request 1_000 ≡ decided decision none
unfolding is_blank safe_id decimal concat ◌+ℤ◌ ◌-ℤ◌ sub_time stamp_before fraction_text resumable
    text default_topology default_profiles profile_id_for_state model_id_for_profile
    runner_id_for_profile validate_request validate_decision topology_valid profile_valid item_valid
    check_profiles check_items deadline_score urgent_first queue_less insert_back insert_all
    stable_sort sort_queue priority_for_deadline priority_of_remaining resource_summary scan_queue
    decide simulate
simulated = refl

decision_scheduled : decision.status ≡ scheduled
unfolding is_blank safe_id decimal concat ◌+ℤ◌ ◌-ℤ◌ sub_time stamp_before fraction_text resumable
    text default_topology default_profiles profile_id_for_state model_id_for_profile
    runner_id_for_profile validate_request validate_decision topology_valid profile_valid item_valid
    check_profiles check_items deadline_score urgent_first queue_less insert_back insert_all
    stable_sort sort_queue priority_for_deadline priority_of_remaining resource_summary scan_queue
    decide
decision_scheduled = refl

simulate_selects_example : Selected (with_mode request) 1_000 decision
simulate_selects_example =
    simulate_selects 5 request 1_000 decision none simulated decision_scheduled
