-- ===== src/Kernel/Started.antt =====
-- syscall_execute of kernel/syscall.c as a whole: failure, and the start of a program.
use linux.Base.{
  ℕ, ◌+◌, ◌-◌, ◌^◌, ◌%◌, ◌≤◌, ◌<◌, ◌≡◌, ◌≢◌, refl, sym, ap, ◌∙◌, arith, true, false, List, some,
  ltb-true, ◌==◌, ==_false, ==_true, ◌>>=◌, get_or, set, length, get_or-set_self, get_or-set_ne,
  length-set,
}
use native.Mathlib.Decide.{dec_lt}
use linux.Tasks.{max_pid, free, in_use, no_pid}
use linux.Tasks.Alloc.{usage}
use linux.Sched.{Sched, runnable, schedule_task, unschedule_task}
use linux.Pcb.{Pcb, minus_one, get_pcb, kernel_stack_size}
use linux.Pcb.Address.{get_pcb-apart}
use linux.Kernel.{Kernel, Env, Frame, set_memory, pcb}
use linux.Kernel.Programs.{
  returns, starts, Prepared, failed, loaded, enter_pages, loader_result, new_pcb, launch,
  execute_prepared, syscall_execute,
}
use linux.Kernel.Execute.{
  Steps, succeeds, IsRunning, Untouched, prepared, after_loader, prepare_lem, prepared_failed,
  taken_lem, enter_cr3,
}

-- Different pids have control blocks at different addresses.
pub get_pcb-injective : (p q : ℕ) → p < max_pid → q < max_pid → p ≢ q → get_pcb p ≢ get_pcb q
get_pcb-injective p q hp hq ne same = elim (dec_lt p q) [
  | yes less ↦ omega (arith, get_pcb-apart p q less (omega arith), same)
  | no more ↦ omega (arith, get_pcb-apart q p (omega arith) (omega arith), same)
]

-- The flags after one task is scheduled and another is taken off.
pub swapped_lem :
    (s : Sched) (p q : ℕ)
    → length s.flags ≡ max_pid
    → p < max_pid
    → q < max_pid
    → p ≢ q
    → (runnable (unschedule_task (schedule_task s p) q) p ≡ true)
      × (runnable (unschedule_task (schedule_task s p) q) q ≡ false)
      × ((r : ℕ)
          → r ≢ p
          → r ≢ q
          → runnable (unschedule_task (schedule_task s p) q) r ≡ runnable s r)
unfolding schedule_task unschedule_task
swapped_lem s p q len hp hq ne =
    let kept : (r : ℕ)
        → r ≢ q
        → get_or (set (set s.flags p 1) q 0) r 0 ≡ get_or (set s.flags p 1) r 0 =
      λ r other. get_or-set_ne (set s.flags p 1) q r 0 0 (λ e. other (sym e)) in
    rw (ltb-true p max_pid hp, ltb-true q max_pid hq)
      (
        rw (kept p ne, get_or-set_self s.flags p 1 0 (omega arith)) refl,
        rw (get_or-set_self (set s.flags p 1) q 0 0 (omega (arith, length-set s.flags p 1))) refl,
        λ r np nq. rw (kept r nq, get_or-set_ne s.flags p r 1 0 (λ e. np (sym e))) refl,
      )

pub swapped-length :
    (s : Sched) (p q : ℕ)
    → p < max_pid
    → q < max_pid
    → length (unschedule_task (schedule_task s p) q).flags ≡ length s.flags
unfolding schedule_task unschedule_task
swapped-length s p q hp hq =
    rw (ltb-true p max_pid hp, ltb-true q max_pid hq)
      (length-set (set s.flags p 1) q 0 ∙ length-set s.flags p 1)

-- The state `k'` runs a new process under `pid`, which the process of the state `k` has started with
-- the stack and base pointers `esp` and `ebp`.
pub record Started (e : Env) (k k' : Kernel) (pid : ℕ) (args : List ℕ) (esp ebp : ℕ) : Type 0 where
  pub running : IsRunning e k'
  pub is_pid : (1 ≤ pid) × (pid < max_pid)
  pub was_free : usage k.pids pid ≡ free
  pub marked : k'.pids ≡ set k.pids pid in_use
  pub current_block : k'.current ≡ get_pcb pid
  pub child : pcb k' ≡ new_pcb k pid (pcb k).term k.current args
  pub caller : k'.pcbs k.current ≡ record (pcb k) { ebp_reg = ebp; esp_reg = esp }
  pub others : (a : ℕ) → a ≢ k.current → a ≢ get_pcb pid → k'.pcbs a ≡ k.pcbs a
  pub child_runs : runnable k'.sched pid ≡ true
  pub caller_waits : runnable k'.sched (pcb k).pid ≡ false
  pub stack : k'.esp0 ≡ (get_pcb pid + kernel_stack_size - 4) % 2 ^ 32

module _ (e : Env) (l : Frame) (k : Kernel) (command : ℕ) (s : Steps e l k command)
    (esp ebp : ℕ) where
  execute_lem :
      (r : Kernel × Prepared)
      → command ≢ 0
      → prepared e l k command s ≡ r
      → syscall_execute e l k command esp ebp ≡ execute_prepared e l esp ebp r.0 r.1
  unfolding syscall_execute
  execute_lem r nonnull h = rw (==_false command 0 nonnull, prepare_lem e l k command s, h) refl

  -- For a command that is not null, on a running process, where each step of the call ends: if no
  -- program is found or loaded, `syscall_execute` returns -1, and pids, scheduler, control blocks and
  -- the page directory in use are what they were.
  pub execute_failed :
      IsRunning e k
      → command ≢ 0
      → succeeds s ≡ false
      → (k' : Kernel) × (syscall_execute e l k command esp ebp ≡ some (k', returns minus_one))
        × Untouched k k'
  unfolding execute_prepared
  execute_failed w nonnull h =
      let (k', p, u) = prepared_failed e l k command s w h in
      (k', execute_lem (k', failed) nonnull p ∙ refl, u)

  pub prepared_loaded :
      succeeds s ≡ true
      → prepared e l k command s ≡ (
        set_memory
            (record k { pids = s.pids; paging = enter_pages e.layout k.paging s.pid })
            s.load.0,
        loaded s.pid s.load.1,
      )
  unfolding prepared after_loader loader_result
  prepared_loaded h =
      let found : (s.found.1 == 0) ≡ true = ground (arith, h) in
      let checked : (s.checked.1 == 0) ≡ true = ground (arith, h) in
      let taken : (s.pid == no_pid) ≡ false = ground (arith, h) in
      let good : (s.load.1 == minus_one) ≡ false = ground (arith, h) in
      rw (found, checked, taken, good) refl

  child_state : Kernel
  child_state =
      let k1 =
        set_memory (record k { pids = s.pids; paging = enter_pages e.layout k.paging s.pid })
          s.load.0 in
      launch (record k1 { sched = unschedule_task (schedule_task k.sched s.pid) (pcb k).pid })
        (get_pcb s.pid) (new_pcb k s.pid (pcb k).term k.current s.args) esp ebp

  execute_loaded :
      command ≢ 0
      → succeeds s ≡ true
      → syscall_execute e l k command esp ebp ≡ some (child_state, starts s.load.1)
  unfolding execute_prepared child_state
  execute_loaded nonnull h =
      execute_lem _ nonnull (prepared_loaded h)
      ∙ ap
          (λ o. o >>= (λ args. some (
            launch
                (record (set_memory
                  (record k { pids = s.pids; paging = enter_pages e.layout k.paging s.pid })
                  s.load.0) { sched = unschedule_task (schedule_task k.sched s.pid) (pcb k).pid })
                (get_pcb s.pid) (new_pcb k s.pid (pcb k).term k.current args) esp ebp,
            starts s.load.1,
          )))
          s.fills

  -- The control blocks of the child and of its parent, and any other.
  blocks_lem :
      get_pcb s.pid ≢ k.current
      → (child_state.pcbs (get_pcb s.pid) ≡ new_pcb k s.pid (pcb k).term k.current s.args)
        × (child_state.pcbs k.current ≡ record (pcb k) { ebp_reg = ebp; esp_reg = esp })
        × ((a : ℕ) → a ≢ k.current → a ≢ get_pcb s.pid → child_state.pcbs a ≡ k.pcbs a)
  unfolding child_state launch
  blocks_lem ne =
      let apart : (get_pcb s.pid == k.current) ≡ false = ==_false _ _ ne in
      let apart' : (k.current == get_pcb s.pid) ≡ false = ==_false _ _ (λ q. ne (sym q)) in
      (
        rw (apart, ==_true (get_pcb s.pid) (get_pcb s.pid) refl) refl,
        rw (==_true k.current k.current refl, apart') refl,
        λ a na nb. rw (==_false _ _ na, ==_false _ _ nb) refl,
      )

  child_lem : IsRunning e k → succeeds s ≡ true → Started e k child_state s.pid s.args esp ebp
  unfolding child_state launch
  child_lem w h =
      let taken : (s.pid == no_pid) ≡ false = ground (arith, h) in
      let (lo, hi, was, marked) =
        taken_lem k.pids s.pids s.pid s.takes (λ q. cc (==_true s.pid no_pid q, taken)) in
      let other : s.pid ≢ (pcb k).pid = λ q. w.in_table (ap (λ p. usage k.pids p) (sym q) ∙ was) in
      let apart : get_pcb s.pid ≢ k.current =
        λ q. get_pcb-injective s.pid (pcb k).pid hi w.small other (q ∙ w.block) in
      let (new, old, rest) = blocks_lem apart in
      let (runs, waits, same) =
        swapped_lem k.sched s.pid (pcb k).pid w.flags_size hi w.small other in
      let pid' : (pcb child_state).pid ≡ s.pid = ap (λ (p : Pcb). p.pid) new in
      record {
        running = record {
          pids_size = rw marked (length-set k.pids s.pid in_use ∙ w.pids_size);
          flags_size = swapped-length k.sched s.pid (pcb k).pid hi w.small ∙ w.flags_size;
          small = rw pid' hi;
          in_table = λ z.
              let one : usage (set k.pids s.pid in_use) s.pid ≡ in_use =
                get_or-set_self k.pids s.pid in_use free (omega (arith, w.pids_size)) in
              let z' : usage (set k.pids s.pid in_use) s.pid ≡ free = rw (pid', marked) at z in
              omega (arith, one, z');
          block = rw pid' refl;
          directory = rw pid' (enter_cr3 e.layout k.paging s.pid hi);
        };
        is_pid = (lo, hi);
        was_free = was;
        marked = marked;
        current_block = refl;
        child = new;
        caller = old;
        others = rest;
        child_runs = runs;
        caller_waits = waits;
        stack = refl;
      }

  -- For a command that is not null, on a running process, where each step of the call ends: if all of
  -- them succeed, `syscall_execute` enters the program at the entry point of its file. The new process
  -- has a pid that was free and is now marked, runs with its own page directory and kernel stack, and
  -- has the caller for its parent; the caller's stack and base pointers are kept, and the scheduler has
  -- the child in its place. No other control block changes.
  pub execute_started :
      IsRunning e k
      → command ≢ 0
      → succeeds s ≡ true
      → (k' : Kernel) × (syscall_execute e l k command esp ebp ≡ some (k', starts s.load.1))
        × Started e k k' s.pid s.args esp ebp
  execute_started w nonnull h = (child_state, execute_loaded nonnull h, child_lem w h)
