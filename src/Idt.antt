-- ===== src/Idt.antt =====
-- kernel/irq.c, install_exceptions of kernel/exception.c and the descriptor of x86_desc.h.
pub mod Gates
mod Tests
use linux.Base.{ℕ, zero, suc, ◌+◌, ◌*◌, ◌/◌, ◌%◌, ◌^◌, ◌==◌, if◌then◌else◌}

-- `idt_desc_t`.
pub record IdtDesc : Type 0 where
  pub offset_15_00 : ℕ
  pub seg_selector : ℕ
  pub reserved4 : ℕ
  pub reserved3 : ℕ
  pub reserved2 : ℕ
  pub reserved1 : ℕ
  pub size : ℕ
  pub reserved0 : ℕ
  pub dpl : ℕ
  pub present : ℕ
  pub offset_31_16 : ℕ

-- The array `idt`.
abbrev pub Idt : Type 0
Idt = ℕ → IdtDesc

abbrev pub num_vec : ℕ
num_vec = 256

abbrev pub kernel_cs : ℕ
kernel_cs = 0x10

-- The addresses of the handlers.
pub record Handlers : Type 0 where
  pub null_handler : ℕ
  pub pit_linkage : ℕ
  pub keyboard_linkage : ℕ
  pub rtc_linkage : ℕ
  pub syscall_linkage : ℕ
  pub exception : ℕ → ℕ

-- `SET_IDT_ENTRY`.
abbrev pub set_idt_entry : IdtDesc → ℕ → IdtDesc
set_idt_entry d handler = record d {
  offset_31_16 = handler / 2 ^ 16 % 2 ^ 16;
  offset_15_00 = handler % 2 ^ 16;
}

abbrev pub write_gate : Idt → ℕ → IdtDesc → Idt
write_gate idt n d k = if k == n then d else idt k

unfoldable pub write_int_gate : Idt → ℕ → ℕ → Idt
write_int_gate idt n handler = write_gate idt n (record (set_idt_entry (idt n) handler) {
  present = 1;
  dpl = 0;
  reserved0 = 0;
  size = 1;
  reserved1 = 1;
  reserved2 = 1;
  reserved3 = 0;
  reserved4 = 0;
  seg_selector = kernel_cs;
})

unfoldable pub write_sys_gate : Idt → ℕ → ℕ → Idt
write_sys_gate idt n handler = write_gate idt n (record (set_idt_entry (idt n) handler) {
  present = 1;
  dpl = 3;
  reserved0 = 0;
  size = 1;
  reserved1 = 1;
  reserved2 = 1;
  reserved3 = 1;
  reserved4 = 0;
  seg_selector = kernel_cs;
})

unfoldable pub write_trap_gate : Idt → ℕ → ℕ → Idt
write_trap_gate idt n handler = write_gate idt n (record (set_idt_entry (idt n) handler) {
  present = 1;
  dpl = 0;
  reserved0 = 0;
  size = 1;
  reserved1 = 1;
  reserved2 = 1;
  reserved3 = 1;
  reserved4 = 0;
  seg_selector = kernel_cs;
})

-- The loop of `init_idt`, with the rounds left.
unfoldable pub null_gates : ℕ → Idt → ℕ → ℕ → Idt
unfolding write_trap_gate
null_gates zero idt i handler = idt
null_gates (suc r) idt i handler = null_gates r (write_trap_gate idt i handler) (i + 1) handler

unfoldable pub init_idt : Handlers → Idt → Idt
unfolding null_gates write_int_gate write_sys_gate
init_idt h idt =
    let idt0 = null_gates num_vec idt 0 h.null_handler in
    let idt1 = write_int_gate idt0 0x20 h.pit_linkage in
    let idt2 = write_int_gate idt1 0x21 h.keyboard_linkage in
    let idt3 = write_int_gate idt2 0x28 h.rtc_linkage in write_sys_gate idt3 0x80 h.syscall_linkage

-- The gates 0 to 8 and 10 to 14, each with the handler of its exception.
unfoldable pub install_exceptions : Handlers → Idt → Idt
unfolding write_int_gate
install_exceptions h idt0 =
    let idt1 = write_int_gate idt0 0 (h.exception 0) in
    let idt2 = write_int_gate idt1 1 (h.exception 1) in
    let idt3 = write_int_gate idt2 2 (h.exception 2) in
    let idt4 = write_int_gate idt3 3 (h.exception 3) in
    let idt5 = write_int_gate idt4 4 (h.exception 4) in
    let idt6 = write_int_gate idt5 5 (h.exception 5) in
    let idt7 = write_int_gate idt6 6 (h.exception 6) in
    let idt8 = write_int_gate idt7 7 (h.exception 7) in
    let idt9 = write_int_gate idt8 8 (h.exception 8) in
    let idt10 = write_int_gate idt9 10 (h.exception 10) in
    let idt11 = write_int_gate idt10 11 (h.exception 11) in
    let idt12 = write_int_gate idt11 12 (h.exception 12) in
    let idt13 = write_int_gate idt12 13 (h.exception 13) in write_int_gate idt13 14 (h.exception 14)
