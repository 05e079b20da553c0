-- ===== src/Tasks/Tests.antt =====
-- kernel/tasks.c on concrete tables.
use linux.Base.{◌≡◌, refl, List, [], ◌∷◌}
use linux.Tasks.{init_tasks, tasks_pid_new, tasks_pid_free}
use linux.Tasks.History.{Call, news, frees, step, run, boot, IsValid, run-IsValid}

abbrev script : List Call
script = news ∷ news ∷ frees 1 ∷ news ∷ []

-- Pid 1 is used again after it is freed.
script_next : (tasks_pid_new (run boot script).table).1 ≡ 3
unfolding run step tasks_pid_new tasks_pid_free init_tasks
script_next = refl

run-IsValid_example : IsValid (run boot script)
run-IsValid_example = run-IsValid script
