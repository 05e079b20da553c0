-- ===== src/Kernel/Booted.antt =====
-- The state that the init functions of kernel.c leave.
use linux.Base.{
  ℕ, ◌≤◌, ◌<◌, ◌≡◌, ◌∷◌, refl, ap, ◌∙◌, arith, Bool, false, ◌||◌, some, ◌==◌, if◌then◌else◌, length,
  ◌>>=◌,
}
use linux.Interrupts.{Masks, Ports, nr_irqs, enable_irq, i8259_init, pit_init}
use linux.Interrupts.Lines.{
  IsByteMasks, masked, enable_irq_lem, i8259_init_lem, i8259_init-IsByteMasks,
}
use linux.Idt.{num_vec}
use linux.Idt.Gates.{Fits, Holds, expected, idt_lem}
use linux.Tasks.{max_pid, free, init_tasks}
use linux.Tasks.Alloc.{usage, init_tasks_frees, length-init_tasks}
use linux.Sched.{runnable}
use linux.Sched.Start.{scheduling_init-beyond, length-scheduling_init}
use linux.Paging.{directory_addr, paging_init}
use Prim.Native.Nat.{bit_or}
use linux.Line.{terminal_init}
use linux.Rtc.{rtc_irq_num, rtc_cmos, rtc_port}
use linux.Rtc.Rate.{divided}
use linux.Rtc.Wait.{rtc_init_lem}
use linux.Kernel.{Env}
use linux.Kernel.Boot.{
  Machine, Image, keyboard_init, clear_screen, init_tables, init_devices, init_processes,
  init_kernel,
}

-- The lines that have a driver: the timer, the keyboard, the second controller and the clock.
abbrev pub has_driver : ℕ → Bool
has_driver k = (k == 0) || ((k == 1) || ((k == 2) || (k == 8)))

-- The gates of all vectors and the masks of all lines are set, no pid is taken, no task is scheduled,
-- and the page directory in use is the one that `paging_init` fills.
pub record IsBooted (e : Env) (i : Image) (m : Machine) : Type 0 where
  pub gates : (k : ℕ) → k < num_vec → Holds (m.idt k) (expected i.handlers k)
  pub lines : (k : ℕ) → k < nr_irqs → masked m.masks k ≡ (if has_driver k then 0 else 1)
  pub pids_size : length (m.kernel).pids ≡ max_pid
  pub no_process : (p : ℕ) → 1 ≤ p → p < max_pid → usage (m.kernel).pids p ≡ free
  pub flags_size : length (m.kernel).sched.flags ≡ max_pid
  pub idle : (p : ℕ) → p < max_pid → runnable (m.kernel).sched p ≡ false
  pub directory : (m.kernel).paging.cr3 ≡ directory_addr e.layout 0

-- The masks after the second controller's line, the clock's, the keyboard's and the timer's.
masks_lem :
    (m : Masks) (ports p2 p3 p4 : Ports) (k : ℕ)
    → IsByteMasks m
    → k < nr_irqs
    → masked
        ((enable_irq 0 ((enable_irq 1 ((enable_irq 8 ((i8259_init m ports).0) p2).0) p3).0) p4).0)
        k
      ≡ (if has_driver k then 0 else 1)
masks_lem m ports p2 p3 p4 k w h =
    let m1 = (i8259_init m ports).0 in
    let m2 = (enable_irq 8 m1 p2).0 in
    let m3 = (enable_irq 1 m2 p3).0 in
    let w1 = i8259_init-IsByteMasks m ports w in
    let (w2, c2) = enable_irq_lem m1 8 p2 w1 (omega arith) in
    let (w3, c3) = enable_irq_lem m2 1 p3 w2 (omega arith) in
    let (w4, c4) = enable_irq_lem m3 0 p4 w3 (omega arith) in
    ground (arith, c4 k h, c3 k h, c2 k h, i8259_init_lem m ports k w h)

-- The state after `rtc_init`.
devices : Image → Machine → Machine
devices i m =
    let (masks', ports') = i8259_init m.masks m.ports in
    let k = m.kernel in
    let k' = record k {
      terminals = terminal_init i.screen_buffers k.terminals.mem k.terminals.ports;
      pids = init_tasks k.pids;
    } in
    let (masks2, ports2) = enable_irq rtc_irq_num masks' k'.rtc.ports in
    let prepared = record (k'.rtc) {
      ports =
          (rtc_cmos, bit_or (k'.rtc).register_b 0x40)
          ∷ (rtc_port, 0x8b)
          ∷ (rtc_port, 0x8b)
          ∷ ports2;
      rtc_flag = false;
    } in
    record m { masks = masks2; ports = ports'; kernel = record k' { rtc = divided prepared 15 } }

devices_lem : (i : Image) (m : Machine) → init_devices i m ≡ some (devices i m)
unfolding init_devices devices
devices_lem i m =
    ap
      (λ o. o >>= (λ r. some (record m {
        masks = r.1;
        ports = (i8259_init m.masks m.ports).1;
        kernel = record (m.kernel) {
          terminals =
              terminal_init i.screen_buffers (m.kernel).terminals.mem (m.kernel).terminals.ports;
          pids = init_tasks (m.kernel).pids;
          rtc = r.0;
        };
      })))
      (rtc_init_lem (m.kernel).rtc (i8259_init m.masks m.ports).0)

-- For handlers with addresses of 32 bits, masks of one byte, and arrays of 16 pids and 16 flags,
-- whatever they hold: the init functions end; each vector of the descriptor table then has its gate,
-- of the 16 interrupt lines exactly those with a driver are let through, no pid is taken and no task
-- is scheduled, and the page directory in use is that of the kernel.
pub init_kernel-IsBooted :
    (e : Env) (i : Image) (m : Machine)
    → Fits i.handlers
    → IsByteMasks m.masks
    → length (m.kernel).pids ≡ max_pid
    → length (m.kernel).sched.flags ≡ max_pid
    → (m' : Machine) × (init_kernel e i m ≡ some m') × IsBooted e i m'
unfolding init_kernel init_processes init_tables devices keyboard_init clear_screen pit_init
    paging_init
init_kernel-IsBooted e i m fits w pids flags =
    let t = m.kernel.pids in
    let once = length-init_tasks t ∙ pids in
    let p2 = (m.kernel).rtc.ports in
    let p3 = (i8259_init m.masks m.ports).1 in
    let clocked = (enable_irq 8 ((i8259_init m.masks m.ports).0) p2).0 in
    let p4 = (0x40, 0x2e) ∷ (0x40, 0x9c) ∷ (0x43, 0x34) ∷ (enable_irq 1 clocked p3).1 in
    let twice = length-init_tasks (init_tasks t) ∙ once in
    (
      init_processes (devices i (init_tables e i m)),
      ap (λ o. o >>= (λ m'. some (init_processes m'))) (devices_lem i (init_tables e i m)),
      record {
        gates = λ k h. idt_lem i.handlers m.idt k fits h;
        lines = λ k h. masks_lem m.masks m.ports p2 p3 p4 k w h;
        pids_size = twice;
        no_process = λ p lo hi. init_tasks_frees (init_tasks t) p once lo hi;
        flags_size = length-scheduling_init (m.kernel).sched flags;
        idle = λ p h. rw ((scheduling_init-beyond (m.kernel).sched p flags h).0) refl;
        directory = refl;
      },
    )
