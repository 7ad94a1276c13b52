-- ===== src/Store/Ledger/Steps.antt =====
-- Each change of the job tables keeps them consistent.
use code_maintainer.Base.{ℕ, String, arith, eq_iff}
use code_maintainer.Jobs.State.{State}
use code_maintainer.Store.Tx.{Db}
use code_maintainer.Store.Ledger.{
  Deed, Consistent, Created, Moved, Charged, Change, unchanged, created, moved, charged,
}
use code_maintainer.Store.Ledger.Keys.{find_job-update_job, rows-update_job, rows-none}

module _ (db db' : Db) (c : Consistent db) where
  Created-Consistent : {k : String} → Created k db db' → Consistent db'
  Created-Consistent s = record {
    states = λ k.
        rw (s.jobs, s.transitions)
          (ground (arith, eq_iff s.job.id k, eq_iff s.entry.job_id k, c.states k));
    versions = λ k.
        rw (s.jobs, s.transitions)
          (ground (arith, eq_iff s.job.id k, eq_iff s.entry.job_id k, c.versions k));
    charges = λ k. rw (s.jobs, s.reservations) (ground (arith, eq_iff s.job.id k, c.charges k));
    budget = λ k. rw s.jobs (ground (arith, c.budget k));
    lawful = rw s.transitions (ground (arith, c.states s.job.id, c.lawful));
    single = λ k. rw s.jobs (ground (arith, eq_iff s.job.id k, rows-none k db.jobs, c.single k));
  }

  Moved-Consistent : {k : String} {to : State} → Moved k to db db' → Consistent db'
  Moved-Consistent s = record {
    states = λ k.
        rw
          (
            s.jobs,
            s.transitions,
            find_job-update_job k s.key s.current.version s.change db.jobs s.keeps,
          )
          (ground (arith, eq_iff s.key k, eq_iff k s.key, eq_iff s.entry.job_id k, c.states k));
    versions = λ k.
        rw
          (
            s.jobs,
            s.transitions,
            find_job-update_job k s.key s.current.version s.change db.jobs s.keeps,
          )
          (ground (arith, eq_iff s.key k, eq_iff k s.key, eq_iff s.entry.job_id k, c.versions k));
    charges = λ k.
        rw
          (
            s.jobs,
            s.reservations,
            find_job-update_job k s.key s.current.version s.change db.jobs s.keeps,
          )
          (ground (arith, eq_iff k s.key, c.charges k));
    budget = λ k.
        rw (s.jobs, find_job-update_job k s.key s.current.version s.change db.jobs s.keeps)
          (ground (arith, eq_iff k s.key, c.budget k));
    lawful = rw s.transitions (ground (arith, c.states s.key, c.lawful));
    single = λ k.
        rw (s.jobs, rows-update_job k s.key s.current.version s.change db.jobs s.keeps)
          (c.single k);
  }

  Charged-Consistent : {k : String} {n : ℕ} → Charged k n db db' → Consistent db'
  Charged-Consistent s = record {
    states = λ k.
        rw
          (
            s.jobs,
            s.transitions,
            find_job-update_job k s.key s.current.version s.change db.jobs s.keeps,
          )
          (ground (arith, eq_iff k s.key, c.states k));
    versions = λ k.
        rw
          (
            s.jobs,
            s.transitions,
            find_job-update_job k s.key s.current.version s.change db.jobs s.keeps,
          )
          (ground (arith, eq_iff k s.key, c.versions k));
    charges = λ k.
        rw
          (
            s.jobs,
            s.reservations,
            find_job-update_job k s.key s.current.version s.change db.jobs s.keeps,
          )
          (ground (arith, eq_iff k s.key, eq_iff s.entry.job_id k, c.charges k));
    budget = λ k.
        rw (s.jobs, find_job-update_job k s.key s.current.version s.change db.jobs s.keeps)
          (ground (arith, eq_iff k s.key, c.budget k));
    lawful = rw s.transitions c.lawful;
    single = λ k.
        rw (s.jobs, rows-update_job k s.key s.current.version s.change db.jobs s.keeps)
          (c.single k);
  }

  pub Change-Consistent : {d : Deed} → Change d db db' → Consistent db'
  Change-Consistent (unchanged j t r) = record {
    states = λ k. rw (j, t) (c.states k);
    versions = λ k. rw (j, t) (c.versions k);
    charges = λ k. rw (j, r) (c.charges k);
    budget = λ k. rw j (c.budget k);
    lawful = rw t c.lawful;
    single = λ k. rw j (c.single k);
  }
  Change-Consistent (created s) = Created-Consistent s
  Change-Consistent (moved s) = Moved-Consistent s
  Change-Consistent (charged s) = Charged-Consistent s
