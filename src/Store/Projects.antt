-- ===== src/Store/Projects.antt =====
-- internal/storage/sqlite/projects.go: projects are registered, disabled with their schedules, and
-- read.
pub mod Laws
use code_maintainer.Base.{
  ℕ, suc, ◌+◌, String, Bool, true, false, not, ◌&&◌, ◌||◌, Option, none, some, List, [], ◌∷◌, any,
  keep, find, length, take, ◌==◌, ◌is◌, if◌then◌else◌,
}
use code_maintainer.Base.Int.{ℤ}
use code_maintainer.Base.Text.{codes}
use code_maintainer.Base.Patterns.{safe_id}
use code_maintainer.Base.Stamp.{text_before}
use code_maintainer.Automation.{Schedule}
use code_maintainer.Projects.{Project, UpsertRequest, upsert_valid}
use code_maintainer.Scheduler.Order.{stable_sort}
use code_maintainer.Store.Tx.{
  Env, Db, Call, StoreError, Result, ok, err, Tx, ◌>>=◌, ◌>>◌, pure, fail, reject_if, call, gets,
  modify, or_fail, in_tx,
}
use code_maintainer.Store.Tables.{required, append_audit, count_where, update_where, bounded_limit}
use code_maintainer.Store.JobOps.{audit_of}

abbrev pub find_project : String → List Project → Option Project
find_project k ps = find (λ (p : Project). p.id is k) ps

-- GetProject
unfoldable pub get_project : Env → String → Db → Result Project
get_project env k db =
    if not (safe_id k)
    then err StoreError.invalid
    else if env.fault Call.read_project
    then err (StoreError.driver Call.read_project)
    else elim (find_project k db.projects) [ none ↦ err StoreError.not_found | some p ↦ ok p ]

-- `return s.GetProject(ctx, id)` after the commit.
unfoldable pub project_back : Env → String → Result (Unit {0}) × Db → Result Project × Db
project_back env k (err e, db) = (err e, db)
project_back env k (ok _, db) = (get_project env k db, db)

-- The id of the first row of the repository, if it is another one.
abbrev pub taken_by_other : UpsertRequest → Option Project → Bool
taken_by_other r none = false
taken_by_other r (some p) = not (p.id is r.id)

abbrev pub same_repository : UpsertRequest → Project → Bool
same_repository r p = p.provider is r.provider && p.repository is r.repository

abbrev pub registered : Env → UpsertRequest → Project
registered env r = record {
  id = r.id;
  provider = r.provider;
  repository = r.repository;
  default_branch = r.default_branch;
  local_remote_name = r.local_remote_name;
  enabled = true;
  created_at = env.now;
  updated_at = env.now;
}

-- ON CONFLICT(id) DO UPDATE keeps the time at which the row was made.
abbrev pub upsert_rows : Env → UpsertRequest → List Project → List Project
upsert_rows env r [] = registered env r ∷ []
upsert_rows env r (p ∷ ps) =
    let rest = upsert_rows env r ps in
    if p.id is r.id then record (registered env r) { created_at = p.created_at } ∷ ps else p ∷ rest

unfoldable pub upsert_body : Env → UpsertRequest → String → Tx (Unit {0})
upsert_body env r actor = do
  call env Call.read_project
  existing ← gets (λ db. find (same_repository r) db.projects)
  reject_if (taken_by_other r existing) StoreError.conflict
  call env Call.write_project
  modify λ db. record db { projects = upsert_rows env r db.projects }
  append_audit env (
      audit_of (required actor "system") "administrator" "project.upsert" "project" r.id
        (env.project_details r))

-- UpsertProject
unfoldable pub upsert_project : Env → UpsertRequest → String → Db → Result Project × Db
upsert_project env r actor db =
    if not (upsert_valid r)
    then (err StoreError.invalid, db)
    else project_back env r.id (in_tx env (upsert_body env r actor) db)

abbrev pub is_enabled : String → Project → Bool
is_enabled k p = p.id is k && p.enabled

abbrev pub disable_row : Env → Project → Project
disable_row env p = record p { enabled = false; updated_at = env.now }

-- An enabled schedule of the project.
abbrev pub schedule_of : String → Schedule → Bool
schedule_of k s = s.project_id is k && s.enabled

abbrev pub disable_schedule : Env → Schedule → Schedule
disable_schedule env s = record s { enabled = false; version = s.version + 1; updated_at = env.now }

unfoldable pub disable_body : Env → String → String → Tx (Unit {0})
disable_body env k actor = do
  call env Call.write_project
  rows ← gets (λ db. count_where (is_enabled k) db.projects)
  modify λ db. record db { projects = update_where (is_enabled k) (disable_row env) db.projects }
  reject_if (not (rows == 1)) StoreError.not_found
  call env Call.write_schedule
  modify λ db. record db {
    schedules = update_where (schedule_of k) (disable_schedule env) db.schedules;
  }
  append_audit env (
      audit_of (required actor "system") "administrator" "project.disable" "project" k
        "{\"enabled\":false}")

-- DisableProject
unfoldable pub disable_project : Env → String → String → Db → Result Project × Db
disable_project env k actor db =
    if not (safe_id k)
    then (err StoreError.invalid, db)
    else project_back env k (in_tx env (disable_body env k actor) db)

-- ListProjects
unfoldable pub list_projects : Env → ℤ → Db → Result (List Project)
list_projects env limit db =
    if env.fault Call.read_project
    then err (StoreError.driver Call.read_project)
    else ok (
        take (bounded_limit limit 100 500) (
          stable_sort (λ (a : Project) (b : Project). text_before (codes a.id) (codes b.id))
            db.projects))
