-- ===== src/Kernel.antt =====
-- kernel/syscall.c and the switch of kernel/scheduling.c, on the state of the whole kernel.
pub mod Command
pub mod Parsing
pub mod Splitting
pub mod Calls
pub mod Guards
pub mod Descriptors
pub mod Arguments
pub mod Programs
pub mod Tick
pub mod Boot
pub mod System
pub mod Checks
pub mod Multiboot
pub mod Booted
pub mod Execute
pub mod Started
pub mod Closing
pub mod Halt
pub mod RoundTrip
pub mod Shells
pub mod Switching
mod Machine
mod Tests
mod CallTests
mod BootTests
mod CheckTests
use linux.Base.{ℕ, ◌+◌, ◌-◌, ◌^◌, Bool, List, Option, ◌==◌, if◌then◌else◌}
use linux.Memory.{Mem}
use linux.Tasks.{PidTable}
use linux.Sched.{Sched}
use linux.Paging.{Layout, Paging}
use linux.Pcb.{Pcb}
use linux.Line.{Terminals}
use linux.Rtc.{Rtc}
use linux.Fs.{Fs}

-- All that a system call works on. The memory is the one of the terminals. The control blocks are
-- apart from it, each at its address; `current` is what `pcb_process` returns, and `esp0` the stack
-- pointer in the task segment.
pub record Kernel : Type 0 where
  pub pids : PidTable
  pub sched : Sched
  pub paging : Paging
  pub terminals : Terminals
  pub rtc : Rtc
  pub pcbs : ℕ → Pcb
  pub current : ℕ
  pub esp0 : ℕ

-- What does not change: where the linker puts the page tables, the file system, the address of the
-- strings "rtc" and "shell", and the fuel of the loops over strings.
pub record Env : Type 0 where
  pub layout : Layout
  pub fs : Fs
  pub rtc_name : ℕ
  pub shell_name : ℕ
  pub fuel : ℕ

-- The addresses of the local variables of a call.
pub record Frame : Type 0 where
  pub fname : ℕ
  pub fargs : ℕ
  pub dentry : ℕ
  pub magic_buf : ℕ
  pub entry_point : ℕ

abbrev pub memory : Kernel → Mem
memory k = k.terminals.mem

abbrev pub set_memory : Kernel → Mem → Kernel
set_memory k m = record k { terminals = record (k.terminals) { mem = m } }

abbrev pub pcb : Kernel → Pcb
pcb k = k.pcbs k.current

-- A store to the control block at an address.
abbrev pub set_pcb : Kernel → ℕ → Pcb → Kernel
set_pcb k at p = record k { pcbs = λ a. if a == at then p else k.pcbs a }
