-- ===== src/Sched.antt =====
-- kernel/scheduling.c: the flags of runnable tasks and the choice of the next one.
pub mod Pick
pub mod Fair
pub mod Start
mod Tests
use linux.Base.{
  ℕ, zero, suc, ◌+◌, ◌%◌, Bool, true, false, List, Option, none, some, ltb, ◌==◌, if◌then◌else◌,
  get_or, set,
}
use linux.Tasks.{max_pid}

-- `static uint8_t sched[MAX_PID]`, and the byte that follows it in memory.
pub record Sched : Type 0 where
  pub flags : List ℕ
  pub beyond : ℕ

-- `sched[i] = v`. An index past the byte that follows is outside this model.
abbrev pub store : Sched → ℕ → ℕ → Sched
store s i v =
    if ltb i max_pid
    then record s { flags = set s.flags i v }
    else if i == max_pid
    then record s { beyond = v }
    else s

-- The loop of `scheduling_init`, with the rounds left and its index.
pub clear_from : ℕ → ℕ → Sched → Sched
clear_from zero i s = s
clear_from (suc r) i s = clear_from r (i + 1) (store s i 0)

-- The test is `i <= MAX_PID`.
pub scheduling_init : Sched → Sched
unfolding clear_from
scheduling_init s = clear_from (max_pid + 1) 0 s

unfoldable pub schedule_task : Sched → ℕ → Sched
schedule_task s pid = store s pid 1

unfoldable pub unschedule_task : Sched → ℕ → Sched
unschedule_task s pid = store s pid 0

abbrev pub runnable : Sched → ℕ → Bool
runnable s i = get_or s.flags i 0 == 1

-- The first loop of `scheduler_tick`: is any task scheduled?
pub any_from : ℕ → ℕ → Sched → Bool
any_from zero i s = false
any_from (suc r) i s = let rest = any_from r (i + 1) s in if runnable s i then true else rest

-- The second loop, from the index `i`: `next_pid` when it ends. `none`: the fuel ran out.
pub pick_from : ℕ → ℕ → ℕ → ℕ → Sched → Option ℕ
pick_from zero cur i next s = none
pick_from (suc f) cur i next s =
    let rest = pick_from f cur ((i + 1) % max_pid) cur s in
    if i == cur then some next else if runnable s i then some i else rest

-- `next_pid` is not initialised before the loop: `garbage`.
pub pick : ℕ → ℕ → Sched → Option ℕ
unfolding pick_from
pick garbage cur s = pick_from max_pid cur ((cur + 1) % max_pid) garbage s

-- What `scheduler_tick` decides: no switch at all, or the pid to switch to.
unfoldable pub next_task : ℕ → ℕ → Sched → Option ℕ
unfolding any_from pick
next_task garbage cur s = if any_from max_pid 0 s then pick garbage cur s else none
