-- ===== src/Store/Schedules/Save.antt =====
-- internal/storage/sqlite/automation.go: what SaveSchedule requires and what it leaves.
use code_maintainer.Base.{
  ℕ, ◌≡◌, ◌≢◌, refl, String, true, false, ◌&&◌, ◌||◌, not, arith, none, some, List, [], ◌∷◌,
  Bool-cases, Option-cases, inl, inr, ◌⊎◌, ◌is◌, eq_iff, ◌+◌,
}
use code_maintainer.Base.Int.{ℤ, pos, eqb_ℤ}
use code_maintainer.Base.Text.{is_blank, is_empty}
use code_maintainer.Automation.{Schedule, ScheduleRequest, schedule_valid}
use code_maintainer.Projects.{Project}
use code_maintainer.Store.Ledger.Quiet.{Quiet, in_tx-Quiet, guarded-Quiet}
use code_maintainer.Store.Projects.{get_project}
use code_maintainer.Store.Tx.{Call, Env, Db, Result, ok, err, in_tx, in_tx-cases}
use code_maintainer.Store.Tables.{append_audit, update_where}
use code_maintainer.Store.Schedules.{
  find_schedule, is_schedule_version, saved, save_row, write_row, save_body, save_known,
  save_schedule, filled,
}

-- What a saved schedule found and wrote, under the id of the request.
pub record ScheduleSaved (env : Env) (r : ScheduleRequest) (db : Db) (s : Schedule) (db' : Db)
    : Type 0 where
  -- No row and the expected version 0, or a row of the expected version.
  pub expected :
      ((find_schedule r.id db.schedules ≡ none)
        × (eqb_ℤ r.expected_version (pos 0) ≡ true)
        × (s ≡ saved env r 1 env.now))
      ⊎ ((old : Schedule) × (find_schedule r.id db.schedules ≡ some old)
          × (eqb_ℤ r.expected_version (pos old.version) ≡ true)
          × (s ≡ save_row env r old))
  pub stored : find_schedule r.id db'.schedules ≡ some s
  pub keeps :
      (db'.jobs ≡ db.jobs)
      × (db'.job_transitions ≡ db.job_transitions)
      × (db'.reservations ≡ db.reservations)

find_schedule-update :
    (env : Env) (r : ScheduleRequest) (ss : List Schedule) (s : Schedule)
    → find_schedule r.id ss ≡ some s
    → eqb_ℤ r.expected_version (pos s.version) ≡ true
    → find_schedule r.id
        (update_where (is_schedule_version r.id r.expected_version) (save_row env r) ss)
      ≡ some (save_row env r s)
find_schedule-update env r [] s found fits = absurd (cc)
find_schedule-update env r (x ∷ xs) s found fits = elim (Bool-cases (x.id is r.id)) [
  | inl here ↦
      let one : x ≡ s = ground arith in
      let hit : is_schedule_version r.id r.expected_version x ≡ true = ground arith in
      ground (arith, eq_iff r.id r.id)
  | inr other ↦
      let rest = find_schedule-update env r xs s (rw (find_schedule, other) at found) fits in
      let miss : is_schedule_version r.id r.expected_version x ≡ false = ground arith in
      rw (miss, other) rest
]

save_body-Saved :
    (env : Env) (r : ScheduleRequest) (actor : String) (db : Db) (s : Schedule) (db' : Db)
    → save_body env r actor db ≡ ok (s, db')
    → ScheduleSaved env r db s db'
unfolding save_body write_row append_audit
save_body-Saved env r actor db s db' h = elim (Option-cases (find_schedule r.id db.schedules)) [
  | inl missing ↦ record {
    expected = inl (missing, ground arith, ground arith);
    stored = ground (arith, eq_iff r.id r.id);
    keeps = (ground arith, ground arith, ground arith);
  }
  | inr (old, found) ↦
      let fits : eqb_ℤ r.expected_version (pos old.version) ≡ true = ground arith in
      let moved = find_schedule-update env r db.schedules old found fits in
      record {
        expected = inr (old, found, fits, ground arith);
        stored = ground arith;
        keeps = (ground arith, ground arith, ground arith);
      }
]

-- What a call of SaveSchedule that returns a schedule has checked and done.
pub record SaveRan (env : Env) (r : ScheduleRequest) (actor : String) (db : Db) (s : Schedule)
    (db' : Db) : Type 0 where
  pub fits : schedule_valid r ≡ true
  pub named : is_blank actor ≡ false
  pub project : Project
  pub known : get_project env r.project_id db ≡ ok project
  pub saved_as : ScheduleSaved env (filled env r) db s db'

ran_body :
    (env : Env) (r : ScheduleRequest) (actor : String) (db : Db) (s : Schedule)
    → (in_tx env (save_body env r actor) db).0 ≡ ok s
    → ScheduleSaved env r db s (in_tx env (save_body env r actor) db).1
ran_body env r actor db s h = elim (in_tx-cases env (save_body env r actor) db) [
  | inl (e, stays) ↦ absurd (ground arith)
  | inr (x, db', ran, stays) ↦
      let same : x ≡ s = ground arith in
      rw stays (save_body-Saved env r actor db s db' (rw same at ran))
]

save_known-Saved :
    (env : Env) (r : ScheduleRequest) (actor : String) (db : Db) (s : Schedule)
    (found : Result Project)
    → (save_known env r actor db found).0 ≡ ok s
    → ((p : Project) × (found ≡ ok p))
      × ScheduleSaved env (filled env r) db s (save_known env r actor db found).1
unfolding save_known
save_known-Saved env r actor db s (err e) h = absurd (ground arith)
save_known-Saved env r actor db s (ok p) h =
    elim (Bool-cases (is_empty r.id && env.fault Call.random)) [
      | inl failed ↦ absurd (ground arith)
      | inr goes ↦ rw goes ((p, refl), ran_body env (filled env r) actor db s (rw goes at h))
    ]

-- A schedule that is saved passed its checks, has an actor and a known project, and was new with
-- the expected version 0, or was stored under the expected version; it is stored as it is
-- returned, under the next version, and the tables of jobs stay as they were.
pub save_schedule_ok :
    (env : Env) (r : ScheduleRequest) (actor : String) (db : Db) (s : Schedule)
    → (save_schedule env r actor db).0 ≡ ok s
    → SaveRan env r actor db s (save_schedule env r actor db).1
unfolding save_schedule
save_schedule_ok env r actor db s h = elim (Bool-cases (not (schedule_valid r) || is_blank actor)) [
  | inl refused ↦ absurd (ground arith)
  | inr passes ↦
      let (known, done) =
        save_known-Saved env r actor db s (get_project env r.project_id db) (rw passes at h) in
      rw passes (record {
        fits = ground arith;
        named = ground arith;
        project = known.0;
        known = known.1;
        saved_as = done;
      })
]

-- No version is expected that is both a stored one and the one after it.
eqb_ℤ-next : (v : ℤ) (n : ℕ) → eqb_ℤ v (pos n) ≡ true → eqb_ℤ v (pos (n + 1)) ≡ false
eqb_ℤ-next v n h = ground arith

-- The version of what was saved is not the expected one.
saved-moved_on :
    (env : Env) (r : ScheduleRequest) (db : Db) (s : Schedule) (db' : Db)
    → ScheduleSaved env r db s db'
    → eqb_ℤ r.expected_version (pos s.version) ≡ false
saved-moved_on env r db s db' d = elim d.expected [
  | inl (missing, fits, same) ↦ rw same (eqb_ℤ-next r.expected_version 0 fits)
  | inr (old, found, fits, same) ↦ rw same (eqb_ℤ-next r.expected_version old.version fits)
]

-- Of two saves of one schedule that expect the same version, the second made on the tables that
-- the first left, at most one succeeds, whoever makes it and whatever it writes.
pub save_schedule_once :
    (env env' : Env) (r r' : ScheduleRequest) (actor actor' : String) (db : Db) (s s' : Schedule)
    → is_empty r.id ≡ false
    → r'.id ≡ r.id
    → r'.expected_version ≡ r.expected_version
    → (save_schedule env r actor db).0 ≡ ok s
    → (save_schedule env' r' actor' (save_schedule env r actor db).1).0 ≢ ok s'
save_schedule_once env env' r r' actor actor' db s s' named same_id same_version first second =
    let one = save_schedule_ok env r actor db s first in
    let two = save_schedule_ok env' r' actor' (save_schedule env r actor db).1 s' second in
    let moved = saved-moved_on env (filled env r) db s _ one.saved_as in
    let here : find_schedule r.id (save_schedule env r actor db).1.schedules ≡ some s =
      rw named at one.saved_as.stored in
    elim two.saved_as.expected [
      | inl (missing, _, _) ↦ absurd (ground arith)
      | inr (old, found, fits, _) ↦ absurd (ground arith)
    ]

save_known-Quiet :
    (env : Env) (r : ScheduleRequest) (actor : String) (db : Db) (found : Result Project)
    → Quiet db (save_known env r actor db found).1
unfolding save_known
save_known-Quiet env r actor db (err e) = (refl, refl, refl)
save_known-Quiet env r actor db (ok p) =
    let ran =
      in_tx-Quiet env (save_body env (filled env r) actor) db
        (λ s db' h. (save_body-Saved env (filled env r) actor db s db' h).keeps) in
    search (guarded-Quiet, ran)

pub save_schedule-Quiet :
    (env : Env) (r : ScheduleRequest) (actor : String) (db : Db)
    → Quiet db (save_schedule env r actor db).1
unfolding save_schedule
save_schedule-Quiet env r actor db =
    let ran = save_known-Quiet env r actor db (get_project env r.project_id db) in
    search (guarded-Quiet, ran)
