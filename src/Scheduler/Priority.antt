-- ===== src/Scheduler/Priority.antt =====
-- internal/scheduler/types.go: the priority that a job's deadline gives it.
use code_maintainer.Base.{ℕ, ◌/◌, ◌≤◌, arith, if◌then◌else◌}
use code_maintainer.Base.Int.{ℤ, pos, pos_part, leb_ℤ, ◌≤ℤ◌}
use code_maintainer.Base.Clock.{Time, is_zero, sub_time}

-- The cases of a job with a deadline, `total/10` and `total/4` with a positive `total`.
unfoldable pub priority_of_remaining : ℤ → ℤ → ℕ
priority_of_remaining total remaining =
    if leb_ℤ remaining (pos 0)
    then 1000
    else if leb_ℤ remaining (pos (pos_part total / 10))
    then 800
    else if leb_ℤ remaining (pos (pos_part total / 4))
    then 500
    else 100

unfoldable pub priority_for_deadline : Time → Time → Time → ℕ
priority_for_deadline now deadline created =
    let total = sub_time deadline created in
    if is_zero deadline
    then 100
    else if leb_ℤ total (pos 0)
    then 1000
    else priority_of_remaining total (sub_time deadline now)

sub_time_antitone : (a b c : Time) → b ≤ c → sub_time a c ≤ℤ sub_time a b
unfolding sub_time
sub_time_antitone a b c h = ground arith

priority_of_remaining_antitone :
    (total a b : ℤ) → a ≤ℤ b → priority_of_remaining total b ≤ priority_of_remaining total a
unfolding priority_of_remaining
priority_of_remaining_antitone total a b h = ground arith

-- The priority of a job never sinks as time passes.
pub priority_for_deadline_monotone :
    (now later deadline created : Time)
    → now ≤ later
    → priority_for_deadline now deadline created ≤ priority_for_deadline later deadline created
unfolding priority_for_deadline
priority_for_deadline_monotone now later deadline created h =
    let earlier = sub_time_antitone deadline now later h in
    let up =
      priority_of_remaining_antitone (sub_time deadline created) (sub_time deadline later)
        (sub_time deadline now) earlier in
    ground arith
