-- ===== src/Kernel/Shells.antt =====
-- syscall_init_shell of kernel/syscall.c: the start of a shell on a terminal.
use linux.Base.{
  ℕ, ◌+◌, ◌-◌, ◌^◌, ◌%◌, ◌<◌, ◌≡◌, ◌≢◌, refl, sym, ap, ◌∙◌, arith, true, false, List, some,
  ltb-true, ◌==◌, ==_false, ==_true, ◌>>=◌, set, length, get_or-set_self, get_or-set_ne, length-set,
}
use linux.Tasks.{max_pid, free, in_use, no_pid}
use linux.Tasks.Alloc.{usage}
use linux.Sched.{Sched, runnable, schedule_task}
use linux.Pcb.{Pcb, get_pcb, kernel_stack_size}
use linux.Line.{Terminals, terminal_open}
use linux.Kernel.{Kernel, Env, Frame, pcb}
use linux.Kernel.Programs.{
  starts, enter_pages, fill_args, new_pcb, launch, shell_prepared, syscall_init_shell,
}
use linux.Kernel.Execute.{Steps, succeeds, IsRunning, prepare_lem, taken_lem, enter_cr3}
use linux.Kernel.Started.{prepared_loaded}

-- The flags after one task is scheduled.
scheduled_lem :
    (s : Sched) (p : ℕ)
    → length s.flags ≡ max_pid
    → p < max_pid
    → (runnable (schedule_task s p) p ≡ true)
      × ((r : ℕ) → r ≢ p → runnable (schedule_task s p) r ≡ runnable s r)
unfolding schedule_task
scheduled_lem s p len hp = rw (ltb-true p max_pid hp) (
  rw (get_or-set_self s.flags p 1 0 (omega arith)) refl,
  λ r np. rw (get_or-set_ne s.flags p r 1 0 (λ e. np (sym e))) refl,
)

scheduled-length :
    (s : Sched) (p : ℕ) → p < max_pid → length (schedule_task s p).flags ≡ length s.flags
unfolding schedule_task
scheduled-length s p hp = rw (ltb-true p max_pid hp) (length-set s.flags p 1)

-- The state `k'` runs a shell under `pid` on the terminal `term_num`; it has no parent.
pub record ShellStarted (e : Env) (k k' : Kernel) (opened : Terminals) (pid term_num : ℕ)
    (args : List ℕ) (esp ebp : ℕ) : Type 0 where
  pub running : IsRunning e k'
  pub was_free : usage k.pids pid ≡ free
  pub marked : k'.pids ≡ set k.pids pid in_use
  pub current_block : k'.current ≡ get_pcb pid
  pub child : pcb k' ≡ new_pcb k pid term_num 0 args
  pub caller : k'.pcbs k.current ≡ record (pcb k) { ebp_reg = ebp; esp_reg = esp }
  pub others : (a : ℕ) → a ≢ k.current → a ≢ get_pcb pid → k'.pcbs a ≡ k.pcbs a
  pub shell_runs : runnable k'.sched pid ≡ true
  pub same_tasks : (q : ℕ) → q ≢ pid → runnable k'.sched q ≡ runnable k.sched q
  pub terminal : k'.terminals ≡ opened
  pub stack : k'.esp0 ≡ (get_pcb pid + kernel_stack_size - 4) % 2 ^ 32

-- The terminals once the program is loaded and the terminal of the shell opened.
abbrev pub opened : (e : Env) (l : Frame) (k : Kernel) → Steps e l k e.shell_name → ℕ → Terminals
opened e l k s term_num = terminal_open (record (k.terminals) { mem = s.load.0 }) term_num

module _ (e : Env) (l : Frame) (k : Kernel) (s : Steps e l k e.shell_name)
    (term_num esp ebp : ℕ) where
  shell_state : List ℕ → Kernel
  shell_state args =
      launch
        (record k {
          pids = s.pids;
          paging = enter_pages e.layout k.paging s.pid;
          terminals = (opened e l k s term_num);
          sched = schedule_task k.sched s.pid;
        })
        (get_pcb s.pid) (new_pcb k s.pid term_num 0 args) esp ebp

  init_shell_loaded :
      (args : List ℕ)
      → succeeds s ≡ true
      → fill_args e.fuel (opened e l k s term_num).mem l.fargs 0 (k.pcbs (get_pcb s.pid)).args
        ≡ some args
      → syscall_init_shell e l k term_num esp ebp ≡ some (shell_state args, starts s.load.1)
  unfolding syscall_init_shell shell_prepared shell_state
  init_shell_loaded args h fills =
      rw (prepare_lem e l k e.shell_name s, prepared_loaded e l k e.shell_name s esp ebp h)
        (ap (λ o. o >>= (λ args. some (shell_state args, starts s.load.1))) fills)

  shell_blocks_lem :
      (args : List ℕ)
      → get_pcb s.pid ≢ k.current
      → ((shell_state args).pcbs (get_pcb s.pid) ≡ new_pcb k s.pid term_num 0 args)
        × ((shell_state args).pcbs k.current ≡ record (pcb k) { ebp_reg = ebp; esp_reg = esp })
        × ((a : ℕ) → a ≢ k.current → a ≢ get_pcb s.pid → (shell_state args).pcbs a ≡ k.pcbs a)
  unfolding shell_state launch
  shell_blocks_lem args ne =
      let apart : (get_pcb s.pid == k.current) ≡ false = ==_false _ _ ne in
      let apart' : (k.current == get_pcb s.pid) ≡ false = ==_false _ _ (λ q. ne (sym q)) in
      (
        rw (apart, ==_true (get_pcb s.pid) (get_pcb s.pid) refl) refl,
        rw (==_true k.current k.current refl, apart') refl,
        λ a na nb. rw (==_false _ _ na, ==_false _ _ nb) refl,
      )

  shell_lem :
      (args : List ℕ)
      → length k.pids ≡ max_pid
      → length k.sched.flags ≡ max_pid
      → get_pcb s.pid ≢ k.current
      → succeeds s ≡ true
      → ShellStarted e k (shell_state args) (opened e l k s term_num) s.pid term_num args esp ebp
  unfolding shell_state launch
  shell_lem args pids_size flags_size apart h =
      let taken : (s.pid == no_pid) ≡ false = ground (arith, h) in
      let (lo, hi, was, marked) =
        taken_lem k.pids s.pids s.pid s.takes (λ q. cc (==_true s.pid no_pid q, taken)) in
      let (new, old, rest) = shell_blocks_lem args apart in
      let (runs, same) = scheduled_lem k.sched s.pid flags_size hi in
      let pid' : (pcb (shell_state args)).pid ≡ s.pid = ap (λ (p : Pcb). p.pid) new in
      record {
        running = record {
          pids_size = rw marked (length-set k.pids s.pid in_use ∙ pids_size);
          flags_size = scheduled-length k.sched s.pid hi ∙ flags_size;
          small = rw pid' hi;
          in_table = λ z.
              let one : usage (set k.pids s.pid in_use) s.pid ≡ in_use =
                get_or-set_self k.pids s.pid in_use free (omega (arith, pids_size)) in
              let z' : usage (set k.pids s.pid in_use) s.pid ≡ free = rw (pid', marked) at z in
              omega (arith, one, z');
          block = rw pid' refl;
          directory = rw pid' (enter_cr3 e.layout k.paging s.pid hi);
        };
        was_free = was;
        marked = marked;
        current_block = refl;
        child = new;
        caller = old;
        others = rest;
        shell_runs = runs;
        same_tasks = same;
        terminal = refl;
        stack = refl;
      }

  -- For full tables of pids and flags, where each step of the call ends and the new control block is
  -- not the caller's: if all steps succeed, `syscall_init_shell` opens the terminal and enters the
  -- shell at the entry point of its file. The shell has a pid that was free and is now marked, runs
  -- with its own page directory and kernel stack, and has no parent; it is scheduled, and so is every
  -- task that was. The caller's pointers are kept, and no other control block changes.
  pub syscall_init_shell-ShellStarted :
      (args : List ℕ)
      → length k.pids ≡ max_pid
      → length k.sched.flags ≡ max_pid
      → get_pcb s.pid ≢ k.current
      → succeeds s ≡ true
      → fill_args e.fuel (opened e l k s term_num).mem l.fargs 0 (k.pcbs (get_pcb s.pid)).args
        ≡ some args
      → (k' : Kernel) × (syscall_init_shell e l k term_num esp ebp ≡ some (k', starts s.load.1))
        × ShellStarted e k k' (opened e l k s term_num) s.pid term_num args esp ebp
  syscall_init_shell-ShellStarted args pids_size flags_size apart h fills = (
    shell_state args,
    init_shell_loaded args h fills,
    shell_lem args pids_size flags_size apart h,
  )
