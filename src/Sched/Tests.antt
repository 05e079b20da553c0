-- ===== src/Sched/Tests.antt =====
-- kernel/scheduling.c on concrete flags.
use linux.Base.{ℕ, ◌<◌, ◌≡◌, refl, arith, some, replicate, set}
use linux.Tasks.{max_pid}
use linux.Sched.{Sched, pick, next_task}
use linux.Sched.Fair.{ticks, ticks_reach}

-- Tasks 3 and 9 are scheduled.
abbrev two : Sched
two = record { flags = set (set (replicate max_pid 0) 3 1) 9 1; beyond = 5 }

next-two : next_task 77 9 two ≡ some 3
unfolding next_task pick
next-two = refl

ticks_reach_example : (n : ℕ) × (n < max_pid) × (ticks n 77 9 two ≡ some 3)
ticks_reach_example = ticks_reach 77 9 3 two (omega arith) (omega arith) refl
