-- ===== src/Kernel/System.antt =====
-- The kernel as what the user programs run on: `ece391_execute` until the child halts, and the checks of
-- the call number in kernel/asm_linkage.S.
use Prim.Native.String.{String}
use linux.Base.{ℕ, ◌||◌, Option, none, some, if◌then◌else◌}
use linux.CString.{slt}
use linux.User.{Program, System}
use linux.Pcb.{minus_one}
use linux.Kernel.{Kernel, Env, Frame, memory, set_memory}
use linux.Kernel.Calls.{
  World, syscall_read, syscall_write, syscall_open, syscall_close, syscall_getargs, syscall_vidmap,
  syscall_set_handler,
}
use linux.Kernel.Programs.{Outcome, returns, starts, resumes, syscall_execute, syscall_halt}

-- The comparison of `eax` as an `int`, and the call of the table's function.
unfoldable pub syscall_entry : (ℕ → Program Kernel ℕ) → ℕ → Program Kernel ℕ
syscall_entry table eax k = if slt eax 1 || slt 11 eax then some (k, minus_one) else table eax k

-- The frame of the kernel's calls, the registers of the caller, and the program of a child: it runs
-- from an entry point to its `halt`, with the status that it gives.
pub record Host : Type 0 where
  pub world : World
  pub env : Env
  pub frame : Frame
  pub esp : ℕ
  pub ebp : ℕ
  pub child : ℕ → Program Kernel ℕ
  pub literal : String → ℕ

-- A call that goes on in the parent returns its value there.
unfoldable pub returned : Kernel → Outcome → Option (Kernel × ℕ)
returned k (returns v) = some (k, v)
returned k (starts entry) = none
returned k (resumes esp ebp v) = some (k, v)

-- The end of `syscall_execute`: the child runs until it halts.
unfoldable pub run_child : Host → Kernel → Outcome → Option (Kernel × ℕ)
run_child m k (returns v) = some (k, v)
run_child m k (resumes esp ebp v) = none
run_child m k (starts entry) = elim (m.child entry k) [
  | none ↦ none
  | some (k1, status) ↦ elim (syscall_halt m.world m.env m.frame k1 status m.ebp) [
    | none ↦ none
    | some (k2, o) ↦ returned k2 o
  ]
]

unfoldable pub run_command : Host → ℕ → Program Kernel ℕ
run_command m command k = elim (syscall_execute m.env m.frame k command m.esp m.ebp) [
  | none ↦ none
  | some (k1, o) ↦ run_child m k1 o
]

abbrev pub kernel_system : Host → System Kernel
kernel_system m = record {
  memory = λ k. memory k;
  set_memory = λ k mem. set_memory k mem;
  ece391_read = λ fd buf nbytes k. syscall_read m.world m.env m.frame k fd buf nbytes;
  ece391_write = λ fd buf nbytes k. syscall_write k fd buf nbytes;
  ece391_open = λ filename k. syscall_open m.world m.env m.frame k filename;
  ece391_close = λ fd k. syscall_close m.world k fd;
  ece391_getargs = λ buf nbytes k. syscall_getargs m.env k buf nbytes;
  ece391_vidmap = λ screen_start k. some (syscall_vidmap m.env k screen_start);
  ece391_execute = λ command k. run_command m command k;
  ece391_set_handler = λ signum handler k. some (k, syscall_set_handler signum handler);
  literal = m.literal;
  fuel = m.env.fuel;
}
