-- ===== src/Kernel/CallTests.antt =====
-- The calls on files, syscall_halt and scheduler_tick on a concrete machine.
use linux.Base.{
  ℕ, zero, suc, ◌≡◌, ◌<◌, ◌≢◌, ◌||◌, refl, arith, all_below, all_below_lem, some, List, [], ◌∷◌,
  true, not, inl, inr, ◌==◌, ==_iff, Bool-cases, if◌then◌else◌, length, replicate, set, get_or,
}
use linux.Tasks.{max_pid, in_use}
use linux.Sched.Pick.{IsRunnable, Picked}
use linux.Paging.Translate.{IsLayout}
use linux.Paging.{directory_addr}
use linux.Pcb.{Pcb, file_driver, closed, descriptor, fd_max, minus_one, get_pcb}
use linux.Kernel.{Kernel, pcb}
use linux.Kernel.Calls.{
  World, block, syscall_read, syscall_write, syscall_close, syscall_getargs, syscall_vidmap,
}
use linux.Kernel.Guards.{unusable_descriptor}
use linux.Kernel.Descriptors.{Closed, close_open}
use linux.Kernel.Arguments.{HoldsArgs, Answered, Mapped, getargs_lem, vidmap_lem}
use linux.Kernel.Programs.{resumes, syscall_halt}
use linux.Kernel.Execute.{IsRunning}
use linux.Kernel.Halt.{HasParent, Resumed, halt_lem}
use linux.Kernel.Tick.{scheduler_tick}
use linux.Kernel.Switching.{IsScheduled, Switched, tick_lem}
use linux.Kernel.Machine.{frame, env, process, shell}

-- The clock does not tick, and the uninitialised pointer leads to the block of the pid 2.
abbrev world : World
world = record { ticks = []; stray_word = 0; stray_pcb = block (get_pcb 2) }

unusable_descriptor_example :
    (syscall_read world env frame shell minus_one 100 4 ≡ some (shell, minus_one))
    × (syscall_write shell minus_one 100 4 ≡ some (shell, minus_one))
    × (syscall_close world shell minus_one ≡ some (shell, minus_one))
unusable_descriptor_example =
    unusable_descriptor world env frame shell minus_one 100 4 (omega arith) (omega arith)
      (inl (omega arith))

-- The shell with the arguments "hi", and a file as descriptor 3.
abbrev busy_pcb : Pcb
busy_pcb = record (process 1 0) {
  args = b'h' ∷ b'i' ∷ replicate 98 0;
  elements = set (replicate fd_max closed) 3 (record {
    file_operation_jmp_tbl = file_driver;
    inode_ptr = 0;
    file_position = 0;
    flags = 1;
  });
}

abbrev busy : Kernel
busy = record shell { pcbs = λ a. if a == get_pcb 2 then process 2 0 else busy_pcb }

busy_block : pcb busy ≡ busy_pcb
unfolding get_pcb
busy_block = refl

hi_chars : (k : ℕ) → k < 2 → get_or busy_pcb.args k 0 ≢ 0
hi_chars zero h = λ z. absurd (omega arith)
hi_chars (suc zero) h = λ z. absurd (omega arith)
hi_chars (suc (suc k)) h = absurd (omega arith)

hi-HoldsArgs : HoldsArgs (pcb busy).args 2
unfolding get_pcb
hi-HoldsArgs = record { end = refl; before = hi_chars }

getargs_lem_example : Answered busy 0x9000000 1 2 (syscall_getargs env busy 0x9000000 1)
getargs_lem_example =
    getargs_lem env busy 0x9000000 1 2 hi-HoldsArgs (omega arith) (omega arith) (omega arith)
      (omega arith)

shell_small : (pcb shell).pid < max_pid
unfolding get_pcb
shell_small = omega arith

env-IsLayout : IsLayout env.layout
env-IsLayout = record {
  user_aligned = refl;
  kernel_aligned = refl;
  video_aligned = refl;
  user_fits = omega arith;
  kernel_fits = omega arith;
  video_fits = omega arith;
  tables_apart = omega arith;
  kernel_apart = omega arith;
  user_apart = omega arith;
}

vidmap_lem_example :
    let (k', result) = syscall_vidmap env shell 0x8000100 in Mapped env shell k' 0x8000100 result
vidmap_lem_example =
    vidmap_lem env shell 0x8000100 env-IsLayout shell_small (omega arith) (omega arith)

close_open_example :
    (k' : Kernel) × (syscall_close world busy 3 ≡ some (k', 0))
    × Closed (block (get_pcb 2)) busy k' 3
unfolding get_pcb
close_open_example =
    close_open world busy 3 (omega arith) (omega arith) refl (omega arith)
      (inr (refl, inl (get_pcb 2, refl)))

-- The shell has started the process of the pid 2, which runs.
abbrev both_pids : List ℕ
both_pids = set (set (replicate max_pid 0) 1 in_use) 2 in_use

abbrev child : Kernel
child = record shell {
  pids = both_pids;
  sched = record { flags = set (replicate max_pid 0) 2 1; beyond = 0 };
  paging = record (shell.paging) { cr3 = directory_addr env.layout 2 };
  pcbs = λ a.
      if a == get_pcb 2
      then process 2 (get_pcb 1)
      else record (process 1 0) { esp_reg = 0x7fdf00; ebp_reg = 0x7fdf40 };
  current = get_pcb 2;
}

child-IsRunning : IsRunning env child
unfolding get_pcb
child-IsRunning = record {
  pids_size = refl;
  flags_size = refl;
  small = omega arith;
  in_table = omega arith;
  block = refl;
  directory = refl;
}

child-HasParent : HasParent child (get_pcb 1)
unfolding get_pcb
child-HasParent = record {
  named = refl;
  not_null = omega arith;
  parent_small = omega arith;
  parent_block = refl;
  parent_alive = omega arith;
  not_self = omega arith;
}

none_open_check : all_below 8 (λ q. (descriptor (pcb child) q).flags == 0) ≡ true
unfolding get_pcb all_below
none_open_check = refl

none_open : (q : ℕ) → q < 8 → (descriptor (pcb child) q).flags ≡ 0
unfolding get_pcb
none_open q h = (==_iff _ 0).0 (all_below_lem 8 _ q none_open_check h)

child_size : length (pcb child).elements ≡ fd_max
unfolding get_pcb
child_size = refl

halt_lem_example :
    (k' : Kernel) × (syscall_halt world env frame child 0x102 0
      ≡ some (k', resumes (child.pcbs (get_pcb 1)).esp_reg (child.pcbs (get_pcb 1)).ebp_reg 0))
    × Resumed env child k' (get_pcb 1)
halt_lem_example =
    halt_lem world env frame child (get_pcb 1) 0x102 0 child-IsRunning child-HasParent child_size
      (λ q lo hi. inl (none_open q hi))

-- Both are scheduled, and the shell runs.
abbrev two : Kernel
two = record shell {
  pids = both_pids;
  sched = record { flags = set (set (replicate max_pid 0) 1 1) 2 1; beyond = 0 };
}

two-IsRunning : IsRunning env two
unfolding get_pcb
two-IsRunning = record {
  pids_size = refl;
  flags_size = refl;
  small = omega arith;
  in_table = omega arith;
  block = refl;
  directory = refl;
}

shell-IsScheduled : IsScheduled two 1
unfolding get_pcb
shell-IsScheduled = record { below = omega arith; alive = omega arith; own = refl }

child-IsScheduled : IsScheduled two 2
unfolding get_pcb
child-IsScheduled = record { below = omega arith; alive = omega arith; own = refl }

only_two :
    all_below max_pid (λ p. not (get_or two.sched.flags p 0 == 1) || ((p == 1) || (p == 2))) ≡ true
unfolding all_below
only_two = refl

two-IsScheduled : (p : ℕ) → p < max_pid → IsRunnable two.sched p → IsScheduled two p
two-IsScheduled p h ready = elim (Bool-cases (p == 1)) [
  | inl first ↦ rw ((==_iff p 1).0 first) shell-IsScheduled
  | inr other ↦
      let second : p ≡ 2 = ground (arith, all_below_lem max_pid _ p only_two h, ready, other) in
      rw second child-IsScheduled
]

tick_lem_example :
    (p : ℕ) × (k' : Kernel) × (esp' : ℕ) × (ebp' : ℕ) × Picked two.sched (pcb two).pid 1 p
    × (scheduler_tick env 0 two 100 200 ≡ some (k', esp', ebp'))
    × Switched env two k' p 100 200 esp' ebp'
tick_lem_example = tick_lem env 0 two 100 200 1 two-IsRunning two-IsScheduled (omega arith) refl

apart : 2 ≢ (pcb two).pid
unfolding get_pcb
apart = omega arith
