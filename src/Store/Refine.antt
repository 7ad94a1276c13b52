-- ===== src/Store/Refine.antt =====
-- internal/storage/sqlite: the tables of jobs implement an abstract store. The abstract store maps
-- an id to what a job promises, and knows nothing of rows, logs, leases or transactions.
use code_maintainer.Base.{
  ℕ, ◌+◌, ◌≤◌, ◌≡◌, refl, fun_ext, subst, sym, String, true, Option, none, some, List, [], ◌∷◌,
  arith, ◌is◌, eq_iff, if◌then◌else◌,
}
use code_maintainer.Jobs.State.{State, queued, can_transition}
use code_maintainer.Store.Rows.{Job}
use code_maintainer.Store.Tx.{Env, Db}
use code_maintainer.Store.Tables.{find_job}
use code_maintainer.Store.Ledger.{
  Deed, submits, moves, pays, Created, Moved, Charged, Change, unchanged, created, moved, charged,
}
use code_maintainer.Store.Ledger.Keys.{find_job-update_job}
use code_maintainer.Store.History.{Op, deed_of, perform, perform_all, perform-Change}

-- What the abstract store knows of a job.
pub record Entry : Type 0 where
  pub state : State
  pub version : ℕ
  pub reserved : ℕ
  pub budget : ℕ

abbrev pub Entries : Type 0
Entries = String → Option Entry

-- The entry under one id is replaced.
abbrev pub put : String → Entry → Entries → Entries
put k e m i = if k is i then some e else m i

-- The steps of the abstract store.
pub data SpecStep (m : Entries) : Deed → Entries → Type 0 where
  stutter : {d : Deed} → SpecStep m d m
  submit :
      (k : String) (budget : ℕ)
      → m k ≡ none
      → SpecStep m
          (submits k)
          (put k (record { state = queued; version = 1; reserved = 0; budget = budget }) m)
  move :
      (k : String) (e : Entry) (to : State)
      → m k ≡ some e
      → can_transition e.state to ≡ true
      → SpecStep m (moves k to) (put k (record e { state = to; version = e.version + 1 }) m)
  pay :
      (k : String) (e : Entry) (amount : ℕ)
      → m k ≡ some e
      → e.reserved + amount ≤ e.budget
      → SpecStep m (pays k amount) (put k (record e { reserved = e.reserved + amount }) m)

-- Steps of the abstract store, one for each deed, in their order.
pub data SpecRun : List Deed → Entries → Entries → Type 0 where
  done : {m : Entries} → SpecRun [] m m
  next :
      {d : Deed} {ds : List Deed} {m n n' : Entries}
      → SpecStep m d n
      → SpecRun ds n n'
      → SpecRun (d ∷ ds) m n'

abbrev pub entry_of : Job → Entry
entry_of j = record {
  state = j.state;
  version = j.version;
  reserved = j.reserved_tokens;
  budget = j.max_tokens;
}

abbrev pub entry? : Option Job → Option Entry
entry? none = none
entry? (some j) = some (entry_of j)

-- What the tables say of each id.
abbrev pub view : Db → Entries
view db k = entry? (find_job k db.jobs)

-- A step that ends in equal entries.
retarget : {m n n' : Entries} {d : Deed} → n ≡ n' → SpecStep m d n → SpecStep m d n'
retarget {m} {d} e s = subst (SpecStep m d) e s

Created-SpecStep :
    (db db' : Db) (k : String) → Created k db db' → SpecStep (view db) (submits k) (view db')
Created-SpecStep db db' k s =
    subst (λ i. SpecStep (view db) (submits i) (view db')) s.named
      (retarget (fun_ext λ i. rw s.jobs (ground (arith, s.fresh)))
        (submit s.job.id s.job.max_tokens (rw s.new refl)))

Moved-SpecStep :
    (db db' : Db) (k : String) (to : State)
    → Moved k to db db'
    → SpecStep (view db) (moves k to) (view db')
Moved-SpecStep db db' k to s =
    rw (sym s.named.0, sym s.named.1)
      (retarget
        (fun_ext λ i.
          rw (s.jobs, find_job-update_job i s.key s.current.version s.change db.jobs s.keeps)
            (ground (arith, eq_iff s.key i, eq_iff i s.key, s.found, s.spares, s.bumps, s.ends)))
        (move s.key (entry_of s.current) s.entry.to (rw s.found refl) s.allowed))

Charged-SpecStep :
    (db db' : Db) (k : String) (n : ℕ)
    → Charged k n db db'
    → SpecStep (view db) (pays k n) (view db')
Charged-SpecStep db db' k n s =
    rw (sym s.named.0, sym s.named.1)
      (retarget
        (fun_ext λ i.
          rw (s.jobs, find_job-update_job i s.key s.current.version s.change db.jobs s.keeps)
            (ground (arith, eq_iff s.key i, eq_iff i s.key, s.found, s.spares, s.charges)))
        (pay s.key (entry_of s.current) s.amount (rw s.found refl) s.fits))

Change-SpecStep : (db db' : Db) {d : Deed} → Change d db db' → SpecStep (view db) d (view db')
Change-SpecStep db db' (unchanged j t r) = retarget (fun_ext λ i. rw j refl) stutter
Change-SpecStep db db' (created s) = Created-SpecStep db db' _ s
Change-SpecStep db db' (moved s) = Moved-SpecStep db db' _ _ s
Change-SpecStep db db' (charged s) = Charged-SpecStep db db' _ _ s

-- Each call is one step of the abstract store.
pub perform-SpecStep :
    (env : Env) (op : Op) (db : Db) → SpecStep (view db) (deed_of env op) (view (perform env op db))
perform-SpecStep env op db = Change-SpecStep db (perform env op db) (perform-Change env op db)

-- The deeds of some calls.
abbrev pub deeds : List (Env × Op) → List Deed
deeds [] = []
deeds ((env, op) ∷ ops) = deed_of env op ∷ deeds ops

-- The store refines the abstract one, call by call: whatever calls are made of it on any tables, with
-- whatever arguments, clocks, identifiers and failing driver calls, each call does to what the tables
-- say of the ids its own deed or nothing. A creation or a dispatch submits the id that it was given or
-- drew, which is new; a transition, a completion or an approval moves the job that it names to the
-- state that it names, along an allowed transition and to the next version; a reservation charges the
-- job that it names what it asks for, within its budget; every other call changes nothing; and no call
-- changes a budget, or what is said of any other id.
pub perform_all_refines :
    (ops : List (Env × Op)) (db : Db) → SpecRun (deeds ops) (view db) (view (perform_all ops db))
unfolding perform_all
perform_all_refines [] db = done
perform_all_refines ((env, op) ∷ ops) db =
    next (perform-SpecStep env op db) (perform_all_refines ops (perform env op db))
