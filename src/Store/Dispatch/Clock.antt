-- ===== src/Store/Dispatch/Clock.antt =====
-- internal/storage/sqlite/automation.go: the loop that finds the next run of a schedule.
use code_maintainer.Base.{
  ℕ, zero, suc, ◌+◌, ◌-◌, ◌*◌, ◌<◌, ◌≤◌, ◌≡◌, refl, ◌⊎◌, inl, inr, arith, ltb, Bool-cases,
}
use code_maintainer.Base.Clock.{Time}
use code_maintainer.Store.Dispatch.{advance, next_run}

-- The first instant after `now` on the grid that starts at `due`.
pub record IsNextRun (now : Time) (interval : ℕ) (due next : Time) : Type 0 where
  pub rounds : ℕ
  pub on_grid : next ≡ due + rounds * interval
  pub later : now < next
  pub first : (rounds ≡ 0) ⊎ (next ≤ now + interval)

IsNextRun-round :
    (now : Time) (interval : ℕ) (due next : Time)
    → due ≤ now
    → IsNextRun now interval (due + interval) next
    → IsNextRun now interval due next
IsNextRun-round now interval due next h s = record {
  rounds = suc s.rounds;
  on_grid = grind (arith, s.on_grid);
  later = s.later;
  first = inr (elim s.first [ inl none_more ↦ grind (arith, s.on_grid) | inr bound ↦ bound ]);
}

advance-IsNextRun :
    (fuel : ℕ) (now : Time) (interval : ℕ) (due : Time)
    → 0 < interval
    → now < due + fuel
    → IsNextRun now interval due (advance fuel now interval due)
unfolding advance
advance-IsNextRun zero now interval due h enough = record {
  rounds = 0;
  on_grid = omega arith;
  later = omega arith;
  first = inl refl;
}
advance-IsNextRun (suc fuel) now interval due h enough = elim (Bool-cases (ltb now due)) [
  | inl after ↦
      rw (advance, after)
        (record { rounds = 0; on_grid = omega arith; later = ground arith; first = inl refl })
  | inr before ↦
      rw (advance, before)
        (IsNextRun-round now interval due _ (ground arith)
          (advance-IsNextRun fuel now interval (due + interval) h (omega arith)))
]

-- The loop that skips missed runs ends, for every positive interval, at the first instant after
-- the clock that lies a whole number of intervals after the run that was due: the run itself if it
-- is after the clock, and otherwise one within an interval of the clock.
pub next_run_lands :
    (now : Time) (interval : ℕ) (due : Time)
    → 0 < interval
    → IsNextRun now interval due (next_run now interval due)
unfolding next_run
next_run_lands now interval due h =
    advance-IsNextRun (suc now - due) now interval due h (omega arith)
