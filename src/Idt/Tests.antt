-- ===== src/Idt/Tests.antt =====
-- kernel/irq.c on concrete handlers.
use linux.Base.{arith}
use linux.Idt.{Idt, Handlers, init_idt, install_exceptions}
use linux.Idt.Gates.{Fits, Holds, expected, idt_lem}

abbrev handlers : Handlers
handlers = record {
  null_handler = 0x400100;
  pit_linkage = 0x400200;
  keyboard_linkage = 0x400300;
  rtc_linkage = 0x400400;
  syscall_linkage = 0x400500;
  exception = λ k. 0x400600;
}

handlers-Fits : Fits handlers
handlers-Fits = record {
  null_fits = omega arith;
  pit_fits = omega arith;
  keyboard_fits = omega arith;
  rtc_fits = omega arith;
  syscall_fits = omega arith;
  exception_fits = λ k. omega arith;
}

-- All fields 0.
abbrev zeroed : Idt
zeroed k = record {
  offset_15_00 = 0;
  seg_selector = 0;
  reserved4 = 0;
  reserved3 = 0;
  reserved2 = 0;
  reserved1 = 0;
  size = 0;
  reserved0 = 0;
  dpl = 0;
  present = 0;
  offset_31_16 = 0;
}

idt_lem_example :
    Holds (install_exceptions handlers (init_idt handlers zeroed) 0x80) (expected handlers 0x80)
idt_lem_example = idt_lem handlers zeroed 0x80 handlers-Fits (omega arith)
