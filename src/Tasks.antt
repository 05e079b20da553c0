-- ===== src/Tasks.antt =====
-- kernel/tasks.c: the table of process ids.
pub mod Alloc
pub mod History
mod Tests
use linux.Base.{ℕ, zero, suc, ◌+◌, ◌-◌, List, [], ◌∷◌, ◌==◌, if◌then◌else◌, get_or, set, replicate}

-- `static uint8_t pid_usage[MAX_PID]`.
abbrev pub PidTable : Type 0
PidTable = List ℕ

abbrev pub max_pid : ℕ
max_pid = 16

abbrev pub free : ℕ
free = 0

abbrev pub in_use : ℕ
in_use = 1

-- The `int16_t` -1 as the callers read it, in a `uint16_t` that they compare with NEGATIVE_1.
abbrev pub no_pid : ℕ
no_pid = 0xffff

-- The loop of `init_tasks`, with the rounds left and its index.
pub init_from : ℕ → ℕ → PidTable → PidTable
init_from zero i t = t
init_from (suc r) i t = init_from r (i + 1) (set t i free)

pub init_tasks : PidTable → PidTable
unfolding init_from
init_tasks t = init_from (max_pid - 1) 1 t

-- The loop of `tasks_pid_new`: the table that it leaves, and the pid.
unfoldable pub pid_new_from : ℕ → ℕ → PidTable → PidTable × ℕ
pid_new_from zero i t = (t, no_pid)
pid_new_from (suc r) i t =
    let rest = pid_new_from r (i + 1) t in
    if get_or t i free == free then (set t i in_use, i) else rest

unfoldable pub tasks_pid_new : PidTable → PidTable × ℕ
unfolding pid_new_from
tasks_pid_new t = pid_new_from (max_pid - 1) 1 t

unfoldable pub tasks_pid_free : PidTable → ℕ → PidTable
tasks_pid_free t pid = set t pid free

-- The `.bss` section is zero at boot.
abbrev pub boot_table : PidTable
boot_table = replicate max_pid 0
