-- ===== src/Lib.antt =====
-- A verification library for CodeMaintainer: the durable state of maintenance jobs, the scheduler
-- that hands them to workers, the workflow that drives them, and the routing of model requests.
--
-- The program. A job is submitted to the controller and stored in SQLite (internal/storage/sqlite).
-- A worker asks for a job; the scheduler (internal/scheduler/types.go) selects one that fits the
-- host, and the worker holds it under a lease that expires. The workflow engine
-- (internal/workflow/engine.go) advances it a phase at a time. The phases are the states of
-- internal/jobs/state.go, whose table says which state may follow which. The engine reads a job,
-- charges its token budget, runs the phase executor and completes the phase in the store, which
-- checks the version and the table again, moves the job, and writes a row to the log of transitions
-- and one to the audit log. Reviewers settle findings, release a result for publication and let a
-- job send a manifest to a remote provider (approvals.go, findings.go). The risk of a task contract
-- (internal/risk/types.go) says which stages and gates it needs. Schedules (internal/automation,
-- internal/storage/sqlite/automation.go) submit jobs of enabled projects when they are due. The
-- worker (internal/queue/worker.go) renews the lease of its job while the processor runs. The events
-- that a model provider streams back are read by internal/providers/stream.go. Which provider a
-- request goes to is decided by internal/providers/service.go, from a catalogue of providers,
-- endpoints, models and routes (internal/storage/sqlite/providers.go), and the decision is recorded
-- as an egress manifest, which a reviewer of the job can approve.
--
-- The files.
--   Base        helpers: tests on numbers, list functions and lemmas over the native numbers,
--               permutations, Go's signed integers, strings and their patterns, instants. Stamp: the
--               text of a time stamp, as SQL compares it.
--   Jobs        internal/jobs/state.go. State: the states, the table (`transitions`), CanTransition and
--               ValidateTransition. Table: lemmas on comparison and membership. Graph: the table as
--               a graph and the runs of it.
--   Automation  internal/automation/types.go: the records and the Validate methods.
--   Projects    internal/projects/types.go: the records and Validate.
--   Providers   internal/providers/stream.go. Json: the values that encoding/json decodes. Records:
--               streamRecords. Events: the readers of an event. ToolKeys: collectToolKeys. Stream:
--               ParseStreamEvents; below it Accounts says what a report accounts for, Sound that every
--               event keeps it.
--   Routing     internal/providers and internal/storage/sqlite/providers.go. Profiles: the records of
--               types.go. Parsers: what is asked of url.Parse, net.ParseIP and float64. Checks: the
--               Validate methods. Catalog: the tables and the monad of the calls. Tables, Records: the
--               store's calls. Adapters: adapters.go. Presets, Defaults: DefaultProfiles and
--               EnsureDefaults. Select: what SimulateRoute asks of a candidate; Scan: its loops; below
--               it Laws and Trust say what a chosen candidate satisfies, Chosen what a choice does. Simulate:
--               SimulateRoute; below it Decides the decision, Safe what may be sent,
--               Unordered that the order of lists is no matter. Updates: the updates of profiles and
--               ProbeModel. Keeps: what every call keeps of the tables; below
--               it Intact says when rows are valid and refer to stored rows, Upserts, States, Writes and
--               Logs are about the store's calls, Reads, Service and Decisions about the service's, History
--               about sequences of them.
--   Queue       internal/queue/worker.go. Worker: Run as turns of its loop, and processLeased as a
--               relation of steps that interleave.
--   Risk        internal/risk/types.go: Assess, RoutingForLevel, Validate; below it Explained says how
--               an assessment comes by its score and its level.
--   Scheduler   internal/scheduler/types.go. Types: the records and the defaults. Checks: the Validate
--               methods. Order: deadlineScore and sortQueue. Priority: PriorityForDeadline. Simulate:
--               Simulate and resourceSummary; below it Laws describes the loop over the queue,
--               Selection the job that is selected, Skipped the jobs that are passed over,
--               Decided the decision that is returned.
--   Store       internal/storage/sqlite. Rows: the rows of the tables (internal/jobs/types.go,
--               internal/storage/store.go, internal/audit/types.go, internal/findings/types.go). Tx: the
--               database `Db`, the surroundings `Env` of a call, the transaction monad, `in_tx`.
--               Tables: the SQL statements. JobOps: CreateJob, GetJob, TransitionJob (store.go),
--               and, below it, their laws (Bodies and Changes: the abstract changes). Budgets: ReserveJobTokens (budgets.go). Completion:
--               CompletePhase and applyMetadata (workflow.go). Leases: AcquireJobLease,
--               RenewJobLease, ReleaseJobLease (scheduler.go, store.go), and in Exclusive sequences
--               of their calls. Approvals:
--               ApprovePublication and ApproveRemoteEgress (approvals.go). Findings:
--               TransitionFinding and, in Observe, ObserveFindings (findings.go). Projects:
--               UpsertProject, DisableProject and the reads (projects.go). Schedules: SaveSchedule
--               and the reads; Dispatch: DispatchDueSchedule; Proposals: CreateSkillProposal,
--               ReviewSkillProposal; Notices: CreateApprovalRequest, AcknowledgeNotification
--               (automation.go). Ledger: the abstract view of the tables of jobs (last
--               log entry, number of entries, sum of reservations), the invariant `Consistent` and
--               the abstract changes that keep it. History: sequences of all these calls, and the
--               deed of each. Refine: an abstract store of entries, which the tables refine.
--   Workflow    internal/workflow/engine.go. Route: nextState and phaseTokenReservation. Engine: Step
--               and fail, with the phase executor as an argument. Resume: Resume and ListJobs.
--   Tests       runs at concrete inputs.
--
-- How the code is modelled.
--   The database driver is not in the repository. A driver call may fail; `Env.fault` says which
--   kinds of call do, and every theorem that does not say otherwise holds for all of them. A failed
--   body leaves the tables as they were (the deferred Rollback), and `in_tx` commits otherwise.
--   A table is a list of rows, a log newest first. UPDATE ... WHERE id = ? AND version = ? changes
--   every row that matches, and the number of rows is checked as the code does. Rows of one time
--   stamp are listed in the order of their insertion.
--   `Env.now` is the clock, one reading for a call; `Env.new_id` is what NewID draws. `json_valid`,
--   `json_array`, `approval_details`, `finding_details`, `location_json`, `observation_json`,
--   `observed_details`, `schedule_details`, `project_details` and `sha256_hex` stand for encoding/json and
--   crypto/sha256. An instant is a number of nanoseconds; SQL compares the texts of instants, and so
--   does the model (`stamp_before`).
--   The call `snapshot` stands for snapshotAcceptedJobTx, which writes tables of its own.
--   Numbers that the checks of the code keep nonnegative are natural numbers in a stored row, and
--   integers in a request. A job has an unbounded version and reservation count; the code's 64-bit
--   values do not reach their end (a budget is at most 10,000,000 tokens, a version grows by one; the
--   scheduler adds at most 128 profiles of 2 ^ 44 bytes).
--   A state is a constant of the Go string type, or `other` with a text that is none of them.
--   sort.SliceStable is insertion sort. A stable sort by a strict weak order has one result, and the
--   comparison of the mode `quality_latency`, the only one that leases use, is such an order.
--   The loop over missed runs of a schedule has fuel for one round for each nanosecond between the
--   run that was due and the clock; a round adds an interval, so that is enough.
--   A text is its code points; a chunk of a stream is a text, so invalid UTF-8 is outside the model.
--   Decoding a record of a stream is an argument of the parser, and the members of an object stand in
--   the order in which a range over the Go map visits them. A character has the lower case that
--   unicode.ToLower gives it where that is in ASCII; the comparisons are with ASCII texts.
--   url.Parse, net.ParseIP, the arithmetic of float64 and the digests of the routing are arguments;
--   a float64 is its bit pattern. sort.Slice is the insertion sort that it runs on at most twelve
--   routes, and an argument beyond. Each call of the catalogue commits on its own, so what was
--   written stays when a later call fails. A routing call reads the clock once.
--   The steps of a worker come in any order: a tick of its timer may come at any time.
--   A number is written in decimal on fuel 20, one for a digit; 64-bit numbers have at most 19.
--
-- Not modelled: the HTTP layer, git and forge clients, model servers, runners, configuration and the
-- other packages of records; the SQL triggers of the migrations, which write the notices;
-- extractFailedCase, which writes to the memory store; the second context that `fail` makes after a
-- cancellation; the other list queries.
pub mod Automation
pub mod Base
pub mod Jobs
pub mod Projects
pub mod Providers
pub mod Queue
pub mod Risk
pub mod Routing
pub mod Scheduler
pub mod Store
pub mod Workflow
mod Tests
