-- ===== src/Pcb.antt =====
-- kernel/pcb.c and kernel/pcb.h: process control blocks, their file descriptors and where they lie.
pub mod Files
pub mod Address
mod Tests
use Prim.Native.Nat.{bit_and}
use linux.Base.{
  ℕ, zero, suc, ◌+◌, ◌-◌, ◌*◌, ◌%◌, ◌^◌, List, [], ◌∷◌, leb, ◌==◌, if◌then◌else◌, get_or, set,
}

-- `file_operation_jmp_tbl`: null, a pointer that was never assigned, or one of the four tables.
pub data Driver : Type 0 where
  null unassigned rtc_driver file_driver dir_driver terminal_driver : Driver

-- `file_descriptor_element_t`.
pub record FileDescriptor : Type 0 where
  pub file_operation_jmp_tbl : Driver
  pub inode_ptr : ℕ
  pub file_position : ℕ
  pub flags : ℕ

-- `pcb_t`. Pointers are addresses, and numbers the bit patterns of their C type.
pub record Pcb : Type 0 where
  pub elements : List FileDescriptor
  pub parent_pcb : ℕ
  pub child : ℕ
  pub esp_reg : ℕ
  pub ebp_reg : ℕ
  pub pid : ℕ
  pub args : List ℕ
  pub vidmap : ℕ
  pub term : ℕ
  pub rtc_fd : ℕ
  pub rtc : ℕ
  pub rtc_rate : ℕ

abbrev pub fd_max : ℕ
fd_max = 8

-- The `int` -1.
abbrev pub minus_one : ℕ
minus_one = 2 ^ 32 - 1

abbrev pub closed : FileDescriptor
closed = record { file_operation_jmp_tbl = null; inode_ptr = 0; file_position = 0; flags = 0 }

abbrev pub descriptor : Pcb → ℕ → FileDescriptor
descriptor p fd = get_or p.elements fd closed

abbrev pub set_descriptor : Pcb → ℕ → FileDescriptor → Pcb
set_descriptor p fd d = record p { elements = set p.elements fd d }

-- The loop of `pcb_init` over the descriptors, with the rounds left and its index.
pub clear_from : ℕ → ℕ → List FileDescriptor → List FileDescriptor
clear_from zero i ds = ds
clear_from (suc r) i ds = clear_from r (i + 1) (set ds i closed)

-- Standard input and output.
abbrev pub stdio : List FileDescriptor → ℕ → List FileDescriptor
stdio ds fd =
    set ds fd (record (get_or ds fd closed) { file_operation_jmp_tbl = terminal_driver; flags = 1 })

unfoldable pub pcb_init : Pcb → Pcb
unfolding clear_from
pcb_init p = record p { term = 0; elements = stdio (stdio (clear_from fd_max 0 p.elements) 0) 1 }

-- The loop of `pcb_open`, with the rounds left and its index.
pub open_from : ℕ → ℕ → Driver → Pcb → Pcb × ℕ
open_from zero i table p = (p, minus_one)
open_from (suc r) i table p =
    let rest = open_from r (i + 1) table p in
    if (descriptor p i).flags == 0 then (set_descriptor p i opened, i) else rest
  where
    opened : FileDescriptor
    opened = record { file_operation_jmp_tbl = table; inode_ptr = 0; file_position = 0; flags = 1 }

unfoldable pub pcb_open : Pcb → Driver → Pcb × ℕ
unfolding open_from
pcb_open p table = open_from (fd_max - 2) 2 table p

-- `fd` is a `uint8_t`.
unfoldable pub pcb_close : Pcb → ℕ → Pcb × ℕ
pcb_close p fd =
    if leb fd_max fd
    then (p, minus_one)
    else (set_descriptor p fd (record (descriptor p fd) { flags = 0 }), 0)

abbrev pub kernel_mem_end : ℕ
kernel_mem_end = 0x800000

abbrev pub kernel_stack_size : ℕ
kernel_stack_size = 0x2000

abbrev pub pcb_mask : ℕ
pcb_mask = 0xffffe000

-- The mask that `pcb_process` applies to the stack pointer.
unfoldable pub pcb_process : ℕ → ℕ
pcb_process esp = bit_and esp pcb_mask

-- `~KERNEL_STACK_SIZE + 1` is the negation of the size.
unfoldable pub get_pcb : ℕ → ℕ
get_pcb pid =
    bit_and ((kernel_mem_end - 1 + 2 ^ 32 - kernel_stack_size * pid % 2 ^ 32) % 2 ^ 32)
      ((2 ^ 32 - 1 - kernel_stack_size + 1) % 2 ^ 32)

-- The KERNEL_STACK macro of kernel/tasks.h.
unfoldable pub kernel_stack : ℕ → ℕ
kernel_stack pid = (0x800000 + 2 ^ 32 - 0x2000 * pid % 2 ^ 32 + 2 ^ 32 - 4) % 2 ^ 32
