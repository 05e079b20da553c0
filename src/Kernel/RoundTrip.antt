-- ===== src/Kernel/RoundTrip.antt =====
-- A program that is started by syscall_execute and then ends by syscall_halt.
use linux.Base.{
  ℕ, ◌≤◌, ◌<◌, ◌≡◌, ◌≢◌, refl, sym, ap, ◌∙◌, arith, true, false, some, inl, List, ltb-false, length,
  set, get_or-set_ne,
}
use linux.Tasks.{free, in_use, tasks_pid_free}
use linux.Tasks.Alloc.{usage}
use linux.Sched.{runnable}
use linux.Pcb.{Pcb, fd_max, get_pcb, descriptor}
use linux.Pcb.Address.{get_pcb_lem}
use linux.Pcb.Files.{pcb_init_lem, length-pcb_init}
use linux.Kernel.{Kernel, Env, Frame, pcb}
use linux.Kernel.Calls.{World}
use linux.Kernel.Programs.{resumes, syscall_halt}
use linux.Kernel.Execute.{IsRunning, set_back}
use linux.Kernel.Started.{Started}
use linux.Kernel.Closing.{IsClosable}
use linux.Kernel.Halt.{HasParent, Resumed, halt_lem}

-- The state `k2` is back in the caller of the state `k`, after its child under `pid` has ended.
pub record Returned (e : Env) (k k2 : Kernel) (pid esp ebp : ℕ) : Type 0 where
  pub running : IsRunning e k2
  pub same_current : k2.current ≡ k.current
  pub same_pids : k2.pids ≡ k.pids
  pub caller : pcb k2 ≡ record (pcb k) { ebp_reg = ebp; esp_reg = esp; child = 0 }
  pub others : (a : ℕ) → a ≢ k.current → a ≢ get_pcb pid → k2.pcbs a ≡ k.pcbs a
  pub caller_runs : runnable k2.sched (pcb k).pid ≡ true
  pub child_stopped : runnable k2.sched pid ≡ false

module _ (e : Env) (k k1 : Kernel) (pid : ℕ) (args : List ℕ) (esp ebp : ℕ) (w : IsRunning e k)
    (s : Started e k k1 pid args esp ebp) where
  child_pid : (pcb k1).pid ≡ pid
  child_pid = ap (λ (p : Pcb). p.pid) s.child

  caller_pid : (k1.pcbs k.current).pid ≡ (pcb k).pid
  caller_pid = ap (λ (p : Pcb). p.pid) s.caller

  pids_apart : (pcb k).pid ≢ pid
  pids_apart q = w.in_table (ap (λ p. usage k.pids p) q ∙ s.was_free)

  Started-HasParent : HasParent k1 k.current
  Started-HasParent = record {
    named = ap (λ (p : Pcb). p.parent_pcb) s.child;
    not_null =
        λ z. omega (arith, get_pcb_lem (pcb k).pid (omega (arith, w.small)), w.block, z, w.small);
    parent_small = rw caller_pid w.small;
    parent_block = rw caller_pid w.block;
    parent_alive = λ z. w.in_table (
        sym (get_or-set_ne k.pids pid (pcb k).pid in_use free (λ q. pids_apart (sym q)))
        ∙ sym (ap (λ t. usage t (pcb k).pid) s.marked)
        ∙ sym (ap (λ p. usage k1.pids p) caller_pid)
        ∙ z);
    not_self = λ q. pids_apart (sym caller_pid ∙ q ∙ child_pid);
  }

  closable :
      length (k.pcbs (get_pcb pid)).elements ≡ fd_max
      → (q : ℕ) → 2 ≤ q
      → q < fd_max
      → IsClosable k1 q
  closable size q lo hi = inl (
      ap (λ (p : Pcb). (descriptor p q).flags) s.child
      ∙ ap (λ d. d.flags) (pcb_init_lem (k.pcbs (get_pcb pid)) q size hi)
      ∙ rw (ltb-false q 2 lo) refl)

  eight : length (k.pcbs (get_pcb pid)).elements ≡ fd_max → length (pcb k1).elements ≡ fd_max
  eight size =
      ap (λ (p : Pcb). length p.elements) s.child ∙ length-pcb_init (k.pcbs (get_pcb pid)) ∙ size

  Resumed-Returned : (k2 : Kernel) → Resumed e k1 k2 k.current → Returned e k k2 pid esp ebp
  unfolding tasks_pid_free
  Resumed-Returned k2 r = record {
    running = r.running;
    same_current = r.current_block;
    same_pids =
        r.freed
        ∙ ap (λ p. tasks_pid_free k1.pids p) child_pid
        ∙ ap (λ t. set t pid free) s.marked
        ∙ set_back k.pids pid in_use free s.was_free;
    caller = r.parent_block ∙ ap (λ (p : Pcb). record p { child = 0 }) s.caller;
    others = λ a na nb. r.others a (λ q. nb (q ∙ s.current_block)) na ∙ s.others a na nb;
    caller_runs = ap (λ p. runnable k2.sched p) (sym caller_pid) ∙ r.parent_runs;
    child_stopped = ap (λ p. runnable k2.sched p) (sym child_pid) ∙ r.child_stopped;
  }

  -- For a running process that has started a child, whose control block has eight descriptors: when
  -- the child calls `syscall_halt` at once, its parent goes on with the stack and base pointers that it
  -- had, and with 0 as the value of the call, whatever the status. The table of pids is the one from
  -- before the start, the caller is scheduled and its child is not, and no control block but the
  -- child's and, in the saved pointers and the child field, the caller's has changed.
  pub execute_halt :
      (world : World) (l : Frame) (status top : ℕ)
      → length (k.pcbs (get_pcb pid)).elements ≡ fd_max
      → (k2 : Kernel) × (syscall_halt world e l k1 status top ≡ some (k2, resumes esp ebp 0))
        × Returned e k k2 pid esp ebp
  execute_halt world l status top size =
      let (k2, q, r) =
        halt_lem world e l k1 k.current status top s.running Started-HasParent (eight size)
          (closable size) in
      (
        k2,
        q ∙ ap (λ (p : Pcb). some (k2, resumes p.esp_reg p.ebp_reg 0)) s.caller,
        Resumed-Returned k2 r,
      )
