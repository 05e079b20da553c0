-- ===== src/Kernel/Boot.antt =====
-- The init functions that `entry` of kernel.c calls, up to the first shell, and keyboard_init of
-- drivers/keyboard.c.
use linux.Base.{ℕ, List, [], ◌∷◌, Option, some, ◌>>=◌}
use linux.Interrupts.{Masks, Ports, enable_irq, i8259_init, pit_init}
use linux.Idt.{Idt, Handlers, init_idt, install_exceptions}
use linux.Console.{Console, clear}
use linux.Tasks.{init_tasks}
use linux.Sched.{scheduling_init}
use linux.Paging.{paging_init}
use linux.Fs.{Fs, fs_init}
use linux.Line.{terminal_init, terminal_open}
use linux.Rtc.{rtc_init}
use linux.Kernel.{Kernel, Env, Frame, memory, set_memory}
use linux.Kernel.Programs.{Outcome, syscall_init_shell}

-- The kernel, and the state of the processor and the controllers that only the boot code sets. The
-- memory of the console is the one of the kernel.
pub record Machine : Type 0 where
  pub idt : Idt
  pub masks : Masks
  pub ports : Ports
  pub screen : Console
  pub shell_active : List ℕ
  pub fs : Fs
  pub kernel : Kernel

-- What the linker and the boot loader choose: the handlers, the array of screen buffers, and the
-- bounds of the module.
pub record Image : Type 0 where
  pub handlers : Handlers
  pub screen_buffers : ℕ
  pub mod_start : ℕ
  pub mod_end : ℕ

abbrev pub keyboard_irq_num : ℕ
keyboard_irq_num = 1

unfoldable pub keyboard_init : Machine → Machine
keyboard_init m =
    let (masks', ports') = enable_irq keyboard_irq_num m.masks m.ports in
    record m { masks = masks'; ports = ports'; shell_active = 1 ∷ 0 ∷ 0 ∷ 0 ∷ [] }

-- `clear` on the memory of the kernel.
unfoldable pub clear_screen : Machine → Machine
clear_screen m =
    let screen' = clear (record (m.screen) { mem = memory m.kernel }) in
    record m { screen = screen'; kernel = set_memory m.kernel screen'.mem }

-- From `init_idt` to `paging_init`.
unfoldable pub init_tables : Env → Image → Machine → Machine
init_tables e i m = record m {
  idt = install_exceptions i.handlers (init_idt i.handlers m.idt);
  fs = fs_init (memory m.kernel) i.mod_start i.mod_end;
  kernel = record (m.kernel) { paging = paging_init e.layout (m.kernel).paging };
}

-- From `i8259_init` to `rtc_init`.
unfoldable pub init_devices : Image → Machine → Option Machine
init_devices i m =
    let (masks', ports') = i8259_init m.masks m.ports in
    let k = m.kernel in
    let k' = record k {
      terminals = terminal_init i.screen_buffers (memory k) k.terminals.ports;
      pids = init_tasks k.pids;
    } in
    do
      r ← rtc_init k'.rtc masks'
      some (record m { masks = r.1; ports = ports'; kernel = record k' { rtc = r.0 } })

-- From the second `init_tasks` to `clear`.
unfoldable pub init_processes : Machine → Machine
init_processes m0 =
    let m1 =
      keyboard_init
        (record m0 { kernel = record (m0.kernel) { pids = init_tasks (m0.kernel).pids } }) in
    let k = m1.kernel in
    let (masks', ports') = pit_init m1.masks m1.ports in
    clear_screen (record m1 {
      masks = masks';
      ports = ports';
      kernel = record k {
        terminals = terminal_open k.terminals 0;
        sched = scheduling_init k.sched;
      };
    })

unfoldable pub init_kernel : Env → Image → Machine → Option Machine
init_kernel e i m = do m' ← init_devices i (init_tables e i m); some (init_processes m')

-- The end of `entry`: the first shell, on the first terminal.
unfoldable pub entry : Env → Image → Frame → Machine → ℕ → ℕ → Option (Kernel × Outcome)
entry e i l m esp ebp = do
  m' ← init_kernel e i m
  syscall_init_shell (record e { fs = m'.fs }) l m'.kernel 0 esp ebp
