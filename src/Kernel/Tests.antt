-- ===== src/Kernel/Tests.antt =====
-- kernel/syscall.c on a concrete machine.
use linux.Base.{
  ℕ, ◌≡◌, ◌≢◌, refl, arith, Option, none, some, List, [], true, false, inl, length, replicate, set,
}
use linux.Memory.{Mem, ◌⊕◌, load32, memcpy, copy_top, copy_aligned, copy_bytes, copy_words}
use linux.CString.{strlen, strlen_from, strncmp, strncmp_from}
use linux.Tasks.{max_pid, in_use, tasks_pid_new, pid_new_from}
use linux.Pcb.{fd_max, minus_one, get_pcb}
use linux.Line.{no_data, terminal_open}
use linux.Fs.{inode_index_at, read_dentry_by_name, find_from, read_data, read_from}
use linux.Fs.Loading.{executable_check, loader}
use linux.Kernel.{Kernel, Env}
use linux.Kernel.Command.{parse, parse_from}
use linux.Kernel.Parsing.{Fits}
use linux.Kernel.Splitting.{Split, parse-Split}
use linux.Kernel.Calls.{World, unmapped}
use linux.Kernel.Programs.{
  fill_args, returns, starts, resumes, syscall_execute, syscall_init_shell, syscall_halt,
}
use linux.Kernel.Execute.{Steps, Untouched, succeeds}
use linux.Kernel.Started.{Started, execute_started, execute_failed}
use linux.Kernel.Shells.{opened, ShellStarted, syscall_init_shell-ShellStarted}
use linux.Kernel.RoundTrip.{Returned, execute_halt}
use linux.Kernel.Machine.{machine, frame, env, shell, shell-IsRunning}

line-Fits : Fits frame machine 0x40 3
line-Fits = record {
  line = record { end = refl; before = λ k h. ground arith };
  line_fits = omega arith;
  name_fits = omega arith;
  args_fits = omega arith;
  line_name = inl (omega arith);
  line_args = inl (omega arith);
  name_args = inl (omega arith);
}

parse-Split_example :
    (m' : Mem) × (parse 4 frame machine 0x40 ≡ some (some m')) × Split frame machine m' 0x40 3 1
parse-Split_example =
    parse-Split 4 frame machine 0x40 3 1 line-Fits (omega arith) (omega arith) (omega arith)
      (λ k h. ground arith) refl (omega arith)

word-Fits : Fits frame machine 0x48 1
word-Fits = record {
  line = record { end = refl; before = λ k h. ground arith };
  line_fits = omega arith;
  name_fits = omega arith;
  args_fits = omega arith;
  line_name = inl (omega arith);
  line_args = inl (omega arith);
  name_args = inl (omega arith);
}

-- The results of the steps of the command "p x".
abbrev memory_of : Option (Option Mem) → Mem
memory_of (some (some m)) = m
memory_of (some none) = machine
memory_of none = machine

abbrev pair_of : Option (Mem × ℕ) → Mem × ℕ
pair_of none = (machine, 0)
pair_of (some r) = r

abbrev line : Mem
line = memory_of (parse 200 frame machine 0x40)

abbrev found : Mem × ℕ
found = pair_of (read_dentry_by_name 200 env.fs line 0x200 0x400)

abbrev checked : Mem × ℕ
checked = executable_check env.fs found.0 (load32 found.0 (0x400 ⊕ inode_index_at)) 0x500

abbrev load : Mem × ℕ
load = pair_of (loader 200 env.fs checked.0 0x400 0x510 0x200)

abbrev args_of : Option (List ℕ) → List ℕ
args_of none = []
args_of (some args) = args

abbrev world : World
world = record { ticks = []; stray_word = 0; stray_pcb = unmapped }

eight : length (shell.pcbs (get_pcb 2)).elements ≡ fd_max
unfolding get_pcb
eight = refl

steps : Steps env frame shell 0x40
unfolding parse parse_from read_dentry_by_name find_from strlen strlen_from strncmp strncmp_from
    memcpy copy_top copy_aligned copy_bytes copy_words executable_check read_data read_from load32
    loader tasks_pid_new pid_new_from fill_args get_pcb
steps = record {
  line = line;
  parses = refl;
  found = found;
  finds = refl;
  checked = checked;
  checks = refl;
  pids = set (set (replicate max_pid 0) 1 in_use) 2 in_use;
  pid = 2;
  takes = refl;
  load = load;
  loads = refl;
  args = args_of (fill_args 200 load.0 0x300 0 (replicate 100 0));
  fills = refl;
}

steps-succeed : succeeds steps ≡ true
unfolding parse parse_from read_dentry_by_name find_from strlen strlen_from strncmp strncmp_from
    memcpy copy_top copy_aligned copy_bytes copy_words executable_check read_data read_from load32
    loader tasks_pid_new pid_new_from fill_args get_pcb steps
steps-succeed = refl

execute_started_example :
    (k' : Kernel) × (syscall_execute env frame shell 0x40 100 200 ≡ some (k', starts steps.load.1))
    × Started env shell k' steps.pid steps.args 100 200
execute_started_example =
    execute_started env frame shell 0x40 steps 100 200 shell-IsRunning (omega arith) steps-succeed

-- It enters the program at 0x8040000.
entry_point : steps.load.1 ≡ 0x8040000
unfolding parse parse_from read_dentry_by_name find_from strlen strlen_from strncmp strncmp_from
    memcpy copy_top copy_aligned copy_bytes copy_words executable_check read_data read_from load32
    loader tasks_pid_new pid_new_from fill_args get_pcb steps
entry_point = refl

started_child :
    (k' : Kernel) × (syscall_execute env frame shell 0x40 100 200 ≡ some (k', starts steps.load.1))
    × Started env shell k' steps.pid steps.args 100 200
started_child =
    execute_started env frame shell 0x40 steps 100 200 shell-IsRunning (omega arith) steps-succeed

execute_halt_example :
    (k2 : Kernel) × (syscall_halt world env frame (started_child.0) 0x105 0
      ≡ some (k2, resumes 100 200 0))
    × Returned env shell k2 steps.pid 100 200
unfolding steps
execute_halt_example =
    execute_halt env shell (started_child.0) steps.pid steps.args 100 200 shell-IsRunning
      (started_child.2) world frame 0x105 0 eight

-- The command "q" has no file.
abbrev missing_line : Mem
missing_line = memory_of (parse 200 frame machine 0x48)

abbrev not_found : Mem × ℕ
not_found = pair_of (read_dentry_by_name 200 env.fs missing_line 0x200 0x400)

abbrev not_checked : Mem × ℕ
not_checked =
    executable_check env.fs not_found.0 (load32 not_found.0 (0x400 ⊕ inode_index_at)) 0x500

abbrev not_loaded : Mem × ℕ
not_loaded = pair_of (loader 200 env.fs not_checked.0 0x400 0x510 0x200)

no_steps : Steps env frame shell 0x48
unfolding parse parse_from read_dentry_by_name find_from strlen strlen_from strncmp strncmp_from
    memcpy copy_top copy_aligned copy_bytes copy_words executable_check read_data read_from load32
    loader tasks_pid_new pid_new_from fill_args get_pcb
no_steps = record {
  line = missing_line;
  parses = refl;
  found = not_found;
  finds = refl;
  checked = not_checked;
  checks = refl;
  pids = set (set (replicate max_pid 0) 1 in_use) 2 in_use;
  pid = 2;
  takes = refl;
  load = not_loaded;
  loads = refl;
  args = args_of (fill_args 200 not_loaded.0 0x300 0 (replicate 100 0));
  fills = refl;
}

no_steps-fail : succeeds no_steps ≡ false
unfolding parse parse_from read_dentry_by_name find_from strlen strlen_from strncmp strncmp_from
    memcpy copy_top copy_aligned copy_bytes copy_words executable_check read_data read_from load32
    loader tasks_pid_new pid_new_from fill_args get_pcb no_steps
no_steps-fail = refl

execute_failed_example :
    (k' : Kernel) × (syscall_execute env frame shell 0x48 100 200 ≡ some (k', returns minus_one))
    × Untouched shell k'
execute_failed_example =
    execute_failed env frame shell 0x48 no_steps 100 200 shell-IsRunning (omega arith) no_steps-fail

-- The program "p" taken for the shell, on the second terminal, which has a user already.
abbrev shell_env : Env
shell_env = record env { shell_name = 0x40 }

abbrev booted : Kernel
booted = record shell {
  terminals = record (shell.terminals) {
    term_data_array = set (replicate 4 no_data) 1 (record no_data { usr_count = 1 });
  };
}

shell_steps : Steps shell_env frame booted 0x40
unfolding steps
shell_steps = record {
  line = steps.line;
  parses = steps.parses;
  found = steps.found;
  finds = steps.finds;
  checked = steps.checked;
  checks = steps.checks;
  pids = steps.pids;
  pid = steps.pid;
  takes = steps.takes;
  load = steps.load;
  loads = steps.loads;
  args = steps.args;
  fills = steps.fills;
}

shell_steps-succeed : succeeds shell_steps ≡ true
unfolding shell_steps
shell_steps-succeed = steps-succeed

-- "x", and the terminator.
abbrev shell_args : List ℕ
shell_args = set (replicate 100 0) 0 b'x'

shell_fills :
    fill_args 200 (opened shell_env frame booted shell_steps 1).mem 0x300 0 (replicate 100 0)
    ≡ some shell_args
unfolding parse parse_from read_dentry_by_name find_from strlen strlen_from strncmp strncmp_from
    memcpy copy_top copy_aligned copy_bytes copy_words executable_check read_data read_from load32
    loader tasks_pid_new pid_new_from fill_args get_pcb steps shell_steps terminal_open
shell_fills = refl

booted_apart : get_pcb 2 ≢ get_pcb 1
unfolding get_pcb
booted_apart = omega arith

syscall_init_shell-ShellStarted_example :
    (k' : Kernel) × (syscall_init_shell shell_env frame booted 1 100 200
      ≡ some (k', starts shell_steps.load.1))
    × ShellStarted shell_env booted k'
        (opened shell_env frame booted shell_steps 1)
        2
        1
        shell_args
        100
        200
unfolding shell_steps steps get_pcb
syscall_init_shell-ShellStarted_example =
    syscall_init_shell-ShellStarted shell_env frame booted shell_steps 1 100 200 shell_args refl
      refl booted_apart shell_steps-succeed shell_fills
