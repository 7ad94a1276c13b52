-- ===== src/Tests/Fixture.antt =====
-- A database with one submitted job, and surroundings for calls on it.
use code_maintainer.Base.{◌≡◌, refl, String, false, not, none, some, List, [], ◌∷◌}
use code_maintainer.Base.Int.{pos}
use code_maintainer.Base.Text.{is_empty, is_blank}
use code_maintainer.Jobs.State.{queued, syncing}
use code_maintainer.Store.Rows.{Job, TransitionRequest, CreateJobParams}
use code_maintainer.Store.Tx.{Env, Db, in_tx}
use code_maintainer.Store.Tables.{find_job, append_audit, insert_transition}
use code_maintainer.Store.JobOps.{create_job}
use code_maintainer.Store.Ledger.{Consistent}
use code_maintainer.Store.History.{Op, perform_all, perform_all-Consistent, empty}

-- Surroundings whose identifiers all have the given text.
abbrev pub env_with : String → Env
env_with id = record {
  now = 1_000;
  new_id = λ _. id;
  fault = λ _. false;
  json_valid = λ s. not (is_empty s);
  json_array = λ _. some 1;
  sha256_hex = λ s. s;
  approval_details = λ a s. "{}";
  finding_details = λ s r. "{}";
  location_json = λ v. v.path;
  observation_json = λ v. "{}";
  observed_details = λ n vs. "{}";
  schedule_details = λ s. "{}";
  project_details = λ r. "{}";
}

abbrev pub params : CreateJobParams
params = record {
  id = "job-1";
  project_id = "project";
  repository = "owner/repository";
  task = "add a test";
  issue_number = none;
  actor_id = "operator";
  details = "";
  max_wall_seconds = pos 0;
  max_tokens = pos 20_000;
}

abbrev pub submitted : List (Env × Op)
submitted = (env_with "a", Op.create params) ∷ []

unfoldable pub stored : Db
unfolding perform_all
stored = perform_all submitted empty

pub stored-Consistent : Consistent stored
unfolding stored
stored-Consistent = perform_all-Consistent submitted

abbrev pub job : Job
job = record {
  id = "job-1";
  project_id = "project";
  repository = "owner/repository";
  task = "add a test";
  issue_number = none;
  state = queued;
  base_sha = "";
  result_sha = "";
  acceptance_criteria = "[]";
  acceptance_criteria_hash = "";
  review_cycle = 0;
  max_wall_seconds = 14_400;
  deadline_at = 14_400_000_001_000;
  max_tokens = 20_000;
  reserved_tokens = 0;
  version = 1;
  created_at = 1_000;
  updated_at = 1_000;
}

pub stored-job : find_job "job-1" stored.jobs ≡ some job
unfolding stored create_job in_tx append_audit insert_transition is_blank
stored-job = refl

abbrev pub to_syncing : TransitionRequest
to_syncing = record {
  to = syncing;
  actor_id = "";
  reason = "next phase";
  expected_version = pos 1;
  details = "";
}
