-- ===== src/Kernel/BootTests.antt =====
-- The init functions of kernel.c on a concrete machine.
use linux.Base.{◌≡◌, arith, refl, [], some, replicate}
use linux.Tasks.{max_pid}
use linux.Idt.Gates.{Fits}
use linux.Kernel.Boot.{Machine, Image, init_kernel}
use linux.Kernel.Booted.{IsBooted, init_kernel-IsBooted}
use linux.Kernel.Machine.{machine, env, shell}

abbrev image : Image
image = record {
  handlers = record {
    null_handler = 0x400100;
    pit_linkage = 0x400200;
    keyboard_linkage = 0x400300;
    rtc_linkage = 0x400400;
    syscall_linkage = 0x400500;
    exception = λ k. 0x400600;
  };
  screen_buffers = 0x700000;
  mod_start = 0x10000;
  mod_end = 0x13000;
}

image-Fits : Fits image.handlers
image-Fits = record {
  null_fits = omega arith;
  pit_fits = omega arith;
  keyboard_fits = omega arith;
  rtc_fits = omega arith;
  syscall_fits = omega arith;
  exception_fits = λ k. omega arith;
}

-- At power on: no line is masked, and the tables hold whatever was in memory.
abbrev power_on : Machine
power_on = record {
  idt = λ k. record {
    offset_15_00 = 0;
    seg_selector = 0;
    reserved4 = 0;
    reserved3 = 0;
    reserved2 = 0;
    reserved1 = 0;
    size = 0;
    reserved0 = 0;
    dpl = 0;
    present = 0;
    offset_31_16 = 0;
  };
  masks = record { master = 0; slave = 0 };
  ports = [];
  screen = record { screen_x = 7; screen_y = 3; mem = machine; ports = [] };
  shell_active = replicate 4 9;
  fs = env.fs;
  kernel = record shell {
    pids = replicate max_pid 5;
    sched = record { flags = replicate max_pid 5; beyond = 5 };
  };
}

init_kernel-IsBooted_example :
    (m' : Machine) × (init_kernel env image power_on ≡ some m') × IsBooted env image m'
init_kernel-IsBooted_example =
    init_kernel-IsBooted env image power_on image-Fits
      (record { master_byte = omega arith; slave_byte = omega arith }) refl refl
