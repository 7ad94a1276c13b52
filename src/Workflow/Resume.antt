-- ===== src/Workflow/Resume.antt =====
-- internal/workflow/engine.go: Engine.Resume, which steps every resumable job of a list once, and
-- ListJobs of internal/storage/sqlite/store.go, which lists them.
use code_maintainer.Base.{
  ℕ, zero, suc, ◌≡◌, refl, true, false, not, Option, none, some, List, [], ◌∷◌, take, ◌⊎◌,
  Bool-cases, Option-cases, inl, inr, if◌then◌else◌,
}
use code_maintainer.Base.Int.{ℤ, pos, pos_part}
use code_maintainer.Base.Stamp.{stamp_before}
use code_maintainer.Jobs.State.{resumable}
use code_maintainer.Scheduler.Order.{stable_sort, reverse_onto}
use code_maintainer.Store.Rows.{Job}
use code_maintainer.Store.Tables.{bounded_limit}
use code_maintainer.Store.Tx.{Env, Db, Call, StoreError, Result, ok, err}
use code_maintainer.Store.Ledger.{Consistent}
use code_maintainer.Workflow.Engine.{Cause, canceled, store, World, Executor, step}
use code_maintainer.Workflow.Engine.Outcomes.{Advanced, step_advances}
use code_maintainer.Workflow.Engine.Laws.{IsQuiet, step-Consistent}

abbrev pub drop : {A : Type 0} → ℕ → List A → List A
drop zero xs = xs
drop (suc n) [] = []
drop (suc n) (x ∷ xs) = drop n xs

-- The newest jobs first, rows of one time stamp in the order of their insertion.
unfoldable pub list_jobs : Env → ℤ → ℤ → Db → Result (List Job)
list_jobs env limit offset db =
    if env.fault Call.list_candidates
    then err (StoreError.driver Call.list_candidates)
    else ok (
        take (bounded_limit limit 50 200) (
          drop (pos_part offset) (
            stable_sort (λ (a : Job) (b : Job). stamp_before b.created_at a.created_at)
              (reverse_onto (λ (a : Job) (b : Job). false) db.jobs []))))

-- `err != nil && !errors.Is(err, context.Canceled)`
abbrev pub stop_cause : Option Cause → Option Cause
stop_cause none = none
stop_cause (some canceled) = none
stop_cause (some cause) = some cause

-- The jobs that were advanced, and what stopped the loop.
pub record Resumed : Type 0 where
  pub advanced : List (Option Job)
  pub error : Option Cause

-- The loop; each of its steps meets a world of its own.
unfoldable pub resume_items : (ℕ → World) → Executor → List Job → ℕ → Db → Resumed × Db
resume_items w execute [] n db = (record { advanced = []; error = none }, db)
resume_items w execute (j ∷ js) n db =
    let skipped = resume_items w execute js (suc n) db in
    let (stepped, after) = step (w n) execute j.id db in
    let (rest, last) = resume_items w execute js (suc n) after in
    if not (resumable j.state) then skipped else elim (stop_cause stepped.error) [
      | some cause ↦ (record { advanced = []; error = some cause }, after)
      | none ↦ (record rest { advanced = stepped.job ∷ rest.advanced }, last)
    ]

unfoldable pub resume_listed : (ℕ → World) → Executor → Result (List Job) → Db → Resumed × Db
resume_listed w execute (err e) db = (record { advanced = []; error = some (store e) }, db)
resume_listed w execute (ok js) db = resume_items w execute js 0 db

-- Engine.Resume
unfoldable pub resume : Env → (ℕ → World) → Executor → ℤ → Db → Resumed × Db
resume env w execute limit db = resume_listed w execute (list_jobs env limit (pos 0) db) db

resume_items-Consistent :
    (w : ℕ → World) (execute : Executor)
    → IsQuiet execute
    → (js : List Job) (n : ℕ) (db : Db) → Consistent db
    → Consistent (resume_items w execute js n db).1
unfolding resume_items
resume_items-Consistent w execute quiet [] n db c = c
resume_items-Consistent w execute quiet (j ∷ js) n db c =
    let after = (step (w n) execute j.id db).1 in
    let stepped = step-Consistent (w n) execute quiet j.id db c in
    elim (Bool-cases (resumable j.state)) [
      | inr held ↦ rw (resume_items, held) (resume_items-Consistent w execute quiet js (suc n) db c)
      | inl goes ↦ elim (Option-cases (stop_cause (step (w n) execute j.id db).0.error)) [
        | inr (cause, stops) ↦ rw (resume_items, goes, stops) stepped
        | inl on ↦
            rw (resume_items, goes, on)
              (resume_items-Consistent w execute quiet js (suc n) after stepped)
      ]
    ]

stop_cause-none : (e : Option Cause) → stop_cause e ≡ none → (e ≡ none) ⊎ (e ≡ some canceled)
stop_cause-none none h = inl refl
stop_cause-none (some canceled) h = inr refl
stop_cause-none (some _) h = absurd (cc)

-- The listed jobs are gone through in order, from one database to another. One that was not
-- resumable is passed over; every other is stepped under its own key, in the tables that the steps
-- before left, and either advances or is cancelled.
pub data Stepping (w : ℕ → World) (execute : Executor)
    : ℕ → List Job → Db → List (Option Job) → Db → Type 0 where
  done : {n : ℕ} {db : Db} → Stepping w execute n [] db [] db
  passed :
      {n : ℕ} {j : Job} {js : List Job} {db last : Db} {out : List (Option Job)}
      → resumable j.state ≡ false
      → Stepping w execute (suc n) js db out last
      → Stepping w execute n (j ∷ js) db out last
  advanced :
      {n : ℕ} {j : Job} {js : List Job} {db last : Db} {out : List (Option Job)}
      → resumable j.state ≡ true
      → Advanced (w n) execute j.id db (step (w n) execute j.id db)
      → Stepping w execute (suc n) js (step (w n) execute j.id db).1 out last
      → Stepping w execute n (j ∷ js) db ((step (w n) execute j.id db).0.job ∷ out) last
  cancelled :
      {n : ℕ} {j : Job} {js : List Job} {db last : Db} {out : List (Option Job)}
      → resumable j.state ≡ true
      → (step (w n) execute j.id db).0.error ≡ some canceled
      → Stepping w execute (suc n) js (step (w n) execute j.id db).1 out last
      → Stepping w execute n (j ∷ js) db ((step (w n) execute j.id db).0.job ∷ out) last

resume_items-Stepping :
    (w : ℕ → World) (execute : Executor) (js : List Job) (n : ℕ) (db : Db)
    → (resume_items w execute js n db).0.error ≡ none
    → Stepping w execute n js db
        (resume_items w execute js n db).0.advanced
        (resume_items w execute js n db).1
unfolding resume_items
resume_items-Stepping w execute [] n db h = done
resume_items-Stepping w execute (j ∷ js) n db h =
    let after = (step (w n) execute j.id db).1 in
    elim (Bool-cases (resumable j.state)) [
      | inr held ↦
          let rest = resume_items-Stepping w execute js (suc n) db (rw (resume_items, held) at h) in
          rw (resume_items, held) (passed held rest)
      | inl goes ↦ elim (Option-cases (stop_cause (step (w n) execute j.id db).0.error)) [
        | inr (cause, stops) ↦ absurd (cc (rw (resume_items, goes, stops) at h))
        | inl on ↦
            let rest =
              resume_items-Stepping w execute js (suc n) after (rw (resume_items, goes, on) at h) in
            rw (resume_items, goes, on)
              (elim (stop_cause-none (step (w n) execute j.id db).0.error on) [
                | inl fine ↦ advanced goes (step_advances (w n) execute j.id db fine) rest
                | inr stopped ↦ cancelled goes stopped rest
              ])
      ]
    ]

resume_listed-Consistent :
    (w : ℕ → World) (execute : Executor)
    → IsQuiet execute
    → (r : Result (List Job)) (db : Db) → Consistent db
    → Consistent (resume_listed w execute r db).1
unfolding resume_listed
resume_listed-Consistent w execute quiet (err e) db c = c
resume_listed-Consistent w execute quiet (ok js) db c =
    resume_items-Consistent w execute quiet js 0 db c

-- What a resumption without an error did with the jobs that it listed.
abbrev pub Through : (ℕ → World) → Executor → Result (List Job) → Db → Resumed × Db → Type 0
Through w execute r db (res, last) =
    (js : List Job) × (r ≡ ok js) × Stepping w execute 0 js db res.advanced last

resume_listed-Through :
    (w : ℕ → World) (execute : Executor) (r : Result (List Job)) (db : Db)
    → (resume_listed w execute r db).0.error ≡ none
    → Through w execute r db (resume_listed w execute r db)
unfolding resume_listed
resume_listed-Through w execute (err e) db h = absurd (cc)
resume_listed-Through w execute (ok js) db h = (js, refl, resume_items-Stepping w execute js 0 db h)

-- A resumption, with an executor that keeps the tables of jobs consistent, keeps them so on every
-- path, whatever stops it.
pub resume-Consistent :
    (env : Env) (w : ℕ → World) (execute : Executor) (limit : ℤ) (db : Db)
    → IsQuiet execute
    → Consistent db
    → Consistent (resume env w execute limit db).1
unfolding resume
resume-Consistent env w execute limit db quiet c =
    resume_listed-Consistent w execute quiet (list_jobs env limit (pos 0) db) db c

-- When a resumption ends without an error, the jobs were listed, and gone through in order: each one
-- that was not resumable was passed over, and each other one was stepped once, under its own key and
-- in the tables that the steps before left, and either advanced as a step without an error does or
-- was cancelled; the result holds what those steps returned, in that order.
pub resume_steps_all :
    (env : Env) (w : ℕ → World) (execute : Executor) (limit : ℤ) (db : Db)
    → (resume env w execute limit db).0.error ≡ none
    → Through w execute (list_jobs env limit (pos 0) db) db (resume env w execute limit db)
unfolding resume
resume_steps_all env w execute limit db =
    resume_listed-Through w execute (list_jobs env limit (pos 0) db) db
