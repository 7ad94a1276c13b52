-- ===== src/Tests/Workers.antt =====
-- internal/queue/worker.go: a run of the worker, and a lease that is taken over.
use code_maintainer.Base.{◌*◌, ◌≡◌, refl, true, none, [], ◌∷◌}
use code_maintainer.Base.Clock.{second}
use code_maintainer.Base.Int.{pos}
use code_maintainer.Store.Rows.{JobLease}
use code_maintainer.Queue.Worker.{
  Worker, heartbeat_interval, stopped, returned, Process, started, beat, release, finish, see_end,
  give_back, here, more,
}
use code_maintainer.Queue.Worker.Laws.{Orderly, Run-Orderly, taken_over_cancels}
use code_maintainer.Tests.Fixture.{env_with, stored, stored-Consistent}

abbrev worker : Worker
worker = record {
  has_store = true;
  has_processor = true;
  owner_id = "worker-1";
  lease_ttl = pos (30 * second);
  poll_interval = pos second;
}

abbrev processed : Process
processed = record (started stored) { cancelled = true; heartbeat = stopped; phase = returned none }

Run-Orderly_example : Orderly (release worker (env_with "x") "job-1" none processed)
Run-Orderly_example = Run-Orderly worker "job-1" stored stored-Consistent (
    more (more (more here (finish none refl)) (see_end refl refl))
      (give_back (env_with "x") none refl refl))

abbrev foreign_lease : JobLease
foreign_lease = record {
  job_id = "job-1";
  owner_id = "worker-2";
  acquired_at = 1_000;
  heartbeat_at = 1_000;
  expires_at = 60_000_001_000;
}

abbrev taken_over : Process
taken_over = started (record stored { leases = foreign_lease ∷ [] })

taken_over_cancels_example :
    ((beat worker (env_with "x") "job-1" taken_over).cancelled ≡ true)
    × ((beat worker (env_with "x") "job-1" taken_over).db.leases ≡ foreign_lease ∷ [])
taken_over_cancels_example = taken_over_cancels worker (env_with "x") "job-1" taken_over (refl, tt)

heartbeat_runs : heartbeat_interval (30 * second) ≡ 10 * second
unfolding heartbeat_interval
heartbeat_runs = refl

-- With a lease of one second the first renewal comes when the lease is over.
heartbeat_late : heartbeat_interval second ≡ second
unfolding heartbeat_interval
heartbeat_late = refl
