-- ===== src/Store/Projects/Laws.antt =====
-- internal/storage/sqlite/projects.go: a project that is disabled, and its schedules.
use code_maintainer.Base.{
  ◌≡◌, refl, String, false, arith, some, List, [], ◌∷◌, All, Bool-cases, inl, inr,
}
use code_maintainer.Base.Patterns.{safe_id}
use code_maintainer.Automation.{Schedule}
use code_maintainer.Projects.{Project, UpsertRequest}
use code_maintainer.Store.Ledger.Quiet.{Quiet, in_tx-Quiet, guarded-Quiet}
use code_maintainer.Store.Tx.{Env, Db, Result, ok, err, in_tx, in_tx-cases}
use code_maintainer.Store.Tables.{append_audit, count_where, update_where}
use code_maintainer.Store.Projects.{
  find_project, get_project, project_back, upsert_body, upsert_project, is_enabled, disable_row,
  schedule_of, disable_schedule, disable_body, disable_project,
}

back-db : (env : Env) (k : String) (x : Result (Unit {0}) × Db) → (project_back env k x).1 ≡ x.1
unfolding project_back
back-db env k (ok u, db) = refl
back-db env k (err e, db) = refl

upsert_body-Quiet :
    (env : Env) (r : UpsertRequest) (actor : String) (db db' : Db) (u : Unit {0})
    → upsert_body env r actor db ≡ ok (u, db')
    → Quiet db db'
unfolding upsert_body append_audit
upsert_body-Quiet env r actor db db' u h = (ground arith, ground arith, ground arith)

pub upsert_project-Quiet :
    (env : Env) (r : UpsertRequest) (actor : String) (db : Db)
    → Quiet db (upsert_project env r actor db).1
unfolding upsert_project
upsert_project-Quiet env r actor db =
    let ran : Quiet db (project_back env r.id (in_tx env (upsert_body env r actor) db)).1 =
      rw (back-db env r.id (in_tx env (upsert_body env r actor) db)) (
        in_tx-Quiet env (upsert_body env r actor) db
          (λ u db' h. upsert_body-Quiet env r actor db db' u h)) in
    search (guarded-Quiet, ran)

-- What disabling a project leaves where it succeeds.
record Disabled (env : Env) (k : String) (db db' : Db) : Type 0 where
  one : count_where (is_enabled k) db.projects ≡ 1
  projects : db'.projects ≡ update_where (is_enabled k) (disable_row env) db.projects
  schedules : db'.schedules ≡ update_where (schedule_of k) (disable_schedule env) db.schedules
  quiet : Quiet db db'

disable_body-Disabled :
    (env : Env) (k actor : String) (db db' : Db) (u : Unit {0})
    → disable_body env k actor db ≡ ok (u, db')
    → Disabled env k db db'
unfolding disable_body append_audit
disable_body-Disabled env k actor db db' u h = record {
  one = ground arith;
  projects = ground arith;
  schedules = ground arith;
  quiet = (ground arith, ground arith, ground arith);
}

pub disable_project-Quiet :
    (env : Env) (k actor : String) (db : Db) → Quiet db (disable_project env k actor db).1
unfolding disable_project
disable_project-Quiet env k actor db =
    let ran : Quiet db (project_back env k (in_tx env (disable_body env k actor) db)).1 =
      rw (back-db env k (in_tx env (disable_body env k actor) db)) (
        in_tx-Quiet env (disable_body env k actor) db
          (λ u db' h. (disable_body-Disabled env k actor db db' u h).quiet)) in
    search (guarded-Quiet, ran)

-- No schedule of the project is enabled.
abbrev pub Stopped : String → Db → Type 0
Stopped k db = All (λ (s : Schedule). schedule_of k s ≡ false) db.schedules

disabled_schedules :
    (env : Env) (k : String) (ss : List Schedule)
    → All
        (λ (s : Schedule). schedule_of k s ≡ false)
        (update_where (schedule_of k) (disable_schedule env) ss)
disabled_schedules env k [] = tt
disabled_schedules env k (s ∷ ss) = elim (Bool-cases (schedule_of k s)) [
  | inl b ↦ rw b (ground arith, disabled_schedules env k ss)
  | inr b ↦ rw b (ground arith, disabled_schedules env k ss)
]

disabled_project :
    (env : Env) (k : String) (ps : List Project) (p : Project)
    → find_project k (update_where (is_enabled k) (disable_row env) ps) ≡ some p
    → p.enabled ≡ false
disabled_project env k [] p h = absurd (cc)
disabled_project env k (q ∷ qs) p h = ground (arith, disabled_project env k qs p)

-- A project that is disabled was enabled in one row, is returned as disabled, and has no enabled
-- schedule left.
pub disable_project_ok :
    (env : Env) (k actor : String) (db : Db) (p : Project)
    → (disable_project env k actor db).0 ≡ ok p
    → (count_where (is_enabled k) db.projects ≡ 1)
      × (p.enabled ≡ false)
      × Stopped k (disable_project env k actor db).1
unfolding disable_project project_back get_project
disable_project_ok env k actor db p h = elim (Bool-cases (safe_id k)) [
  | inr unsafe ↦ absurd (ground arith)
  | inl safe ↦ elim (in_tx-cases env (disable_body env k actor) db) [
    | inl (e, stays) ↦ absurd (ground arith)
    | inr (u, db', ran, stays) ↦
        let d = disable_body-Disabled env k actor db db' u ran in
        let back : find_project k db'.projects ≡ some p = ground arith in
        let off = disabled_project env k db.projects p (rw d.projects at back) in
        rw (safe, stays) (d.one, off, rw d.schedules (disabled_schedules env k db.schedules))
  ]
]
