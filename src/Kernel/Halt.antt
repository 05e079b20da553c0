-- ===== src/Kernel/Halt.antt =====
-- syscall_halt of kernel/syscall.c: the return to the parent.
use linux.Base.{
  ℕ, ◌≤◌, ◌<◌, ◌≡◌, ◌≢◌, refl, sym, ap, ◌∙◌, arith, true, false, some, ltb-true, ◌==◌, ==_false,
  ==_true, if◌then◌else◌, length,
}
use linux.Tasks.{max_pid, free, tasks_pid_free}
use linux.Tasks.Alloc.{usage, usage-free_ne, length-pid_free}
use linux.Sched.{runnable, schedule_task, unschedule_task}
use linux.Paging.{paging_update_control, directory_addr}
use linux.Pcb.{fd_max, get_pcb, kernel_stack}
use linux.Kernel.{Kernel, Env, Frame, pcb}
use linux.Kernel.Calls.{World}
use linux.Kernel.Programs.{resumes, close_from, enter_parent, resume_parent, syscall_halt}
use linux.Kernel.Execute.{IsRunning}
use linux.Kernel.Started.{swapped_lem, swapped-length, get_pcb-injective}
use linux.Kernel.Closing.{Closing, IsClosable, close_from_lem}

-- The state `k'` is back in the process whose control block is at `parent`, after the running process
-- of the state `k` has ended.
pub record Resumed (e : Env) (k k' : Kernel) (parent : ℕ) : Type 0 where
  pub running : IsRunning e k'
  pub current_block : k'.current ≡ parent
  pub freed : k'.pids ≡ tasks_pid_free k.pids (pcb k).pid
  pub parent_block : pcb k' ≡ record (k.pcbs parent) { child = 0 }
  pub others : (a : ℕ) → a ≢ k.current → a ≢ parent → k'.pcbs a ≡ k.pcbs a
  pub parent_runs : runnable k'.sched (k.pcbs parent).pid ≡ true
  pub child_stopped : runnable k'.sched (pcb k).pid ≡ false
  pub stack : k'.esp0 ≡ kernel_stack (k.pcbs parent).pid

-- The running process has a parent, another process that still has its pid.
pub record HasParent (k : Kernel) (parent : ℕ) : Type 0 where
  pub named : (pcb k).parent_pcb ≡ parent
  pub not_null : parent ≢ 0
  pub parent_small : (k.pcbs parent).pid < max_pid
  pub parent_block : parent ≡ get_pcb (k.pcbs parent).pid
  pub parent_alive : usage k.pids (k.pcbs parent).pid ≢ free
  pub not_self : (k.pcbs parent).pid ≢ (pcb k).pid

-- The state from which the parent goes on.
parent_state : Env → Kernel → ℕ → Kernel
parent_state e k parent = record k {
  pcbs = λ a. if a == parent then record (k.pcbs parent) { child = 0 } else k.pcbs a;
  pids = tasks_pid_free k.pids (pcb k).pid;
  sched = unschedule_task (schedule_task k.sched (k.pcbs parent).pid) (pcb k).pid;
  paging = record (k.paging) { cr3 = directory_addr e.layout (k.pcbs parent).pid };
  esp0 = kernel_stack (k.pcbs parent).pid;
  current = parent;
}

parent_state_lem :
    (e : Env) (k : Kernel) (parent : ℕ)
    → (k.pcbs parent).pid < max_pid
    → parent ≢ k.current
    → resume_parent e k parent
      ≡ (parent_state e k parent, resumes (k.pcbs parent).esp_reg (k.pcbs parent).ebp_reg 0)
unfolding resume_parent enter_parent paging_update_control parent_state
parent_state_lem e k parent h ne =
    rw
      (
        ==_true parent parent refl,
        ==_false k.current parent (λ q. ne (sym q)),
        ltb-true (k.pcbs parent).pid max_pid h,
        ==_true parent parent refl,
      )
      refl

-- The state from which the parent goes on, against the state before the call.
module _ (e : Env) (k k1 : Kernel) (parent : ℕ) (w : IsRunning e k) (h : HasParent k parent)
    (c : Closing k k1) where
  not_current : parent ≢ k.current
  not_current q =
      get_pcb-injective (k.pcbs parent).pid (pcb k).pid h.parent_small w.small h.not_self
        (sym h.parent_block ∙ q ∙ w.block)

  parent_same : k1.pcbs parent ≡ k.pcbs parent
  parent_same = c.same_others parent not_current

  Resumed-parent : Resumed e k (parent_state e k1 parent) parent
  unfolding parent_state
  Resumed-parent =
      let same : (parent == parent) ≡ true = ==_true parent parent refl in
      let (runs, stopped, others) =
        swapped_lem k.sched (k.pcbs parent).pid (pcb k).pid w.flags_size h.parent_small w.small
          h.not_self in
      record {
        running = record {
          pids_size = rw (c.same_pids) (length-pid_free k.pids (pcb k1).pid ∙ w.pids_size);
          flags_size =
              rw (c.same_sched, parent_same, c.same_pid)
                (swapped-length k.sched (k.pcbs parent).pid (pcb k).pid h.parent_small w.small
                  ∙ w.flags_size);
          small = rw (same, parent_same) h.parent_small;
          in_table =
              rw (same, parent_same, c.same_pids, c.same_pid)
                (λ z. h.parent_alive (
                  sym
                    (usage-free_ne k.pids (pcb k).pid (k.pcbs parent).pid (λ q. h.not_self (sym q)))
                  ∙ z));
          block = rw (same, parent_same) h.parent_block;
          directory = rw (same, parent_same) refl;
        };
        current_block = refl;
        freed = rw (c.same_pids, c.same_pid) refl;
        parent_block = rw (same, parent_same) refl;
        others = λ a na nb. rw (==_false _ _ nb) (c.same_others a na);
        parent_runs = rw (c.same_sched, parent_same, c.same_pid) runs;
        child_stopped = rw (c.same_sched, parent_same, c.same_pid) stopped;
        stack = rw parent_same refl;
      }

halt_steps :
    (world : World) (e : Env) (l : Frame) (k k1 : Kernel) (parent status ebp : ℕ)
    → (pcb k).parent_pcb ≡ parent
    → parent ≢ 0
    → close_from 6 2 world k ≡ some k1
    → syscall_halt world e l k status ebp ≡ some (resume_parent e k1 parent)
unfolding syscall_halt
halt_steps world e l k k1 parent status ebp named nonnull q =
    rw (named, ==_false parent 0 nonnull, q) refl

-- For a running process with a parent, whose open descriptors from 2 to 7 lead to directories or the
-- clock: `syscall_halt` ends in the parent, with its stack and base pointers and with 0 as the value
-- there, whatever the status. The pid is free again, the scheduler has the parent in the place of its
-- child, and the parent runs with its own page directory and kernel stack; no other process changes.
pub halt_lem :
    (world : World) (e : Env) (l : Frame) (k : Kernel) (parent status ebp : ℕ)
    → IsRunning e k
    → HasParent k parent
    → length (pcb k).elements ≡ fd_max
    → ((q : ℕ) → 2 ≤ q → q < fd_max → IsClosable k q)
    → (k' : Kernel) × (syscall_halt world e l k status ebp
        ≡ some (k', resumes (k.pcbs parent).esp_reg (k.pcbs parent).ebp_reg 0))
      × Resumed e k k' parent
halt_lem world e l k parent status ebp w h size closable =
    let (k1, q, c) = close_from_lem 6 2 world k refl (omega arith) size closable in
    let ne = not_current e k k1 parent w h c in
    let same = parent_same e k k1 parent w h c in
    (
      parent_state e k1 parent,
      halt_steps world e l k k1 parent status ebp h.named h.not_null q
          ∙ ap some (
              parent_state_lem e k1 parent (rw same h.parent_small) (λ z. ne (z ∙ c.same_current))
              ∙ rw same refl),
      Resumed-parent e k k1 parent w h c,
    )
