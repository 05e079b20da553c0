-- ===== src/Kernel/Machine.antt =====
-- A concrete machine for the tests of kernel/syscall.c.
use linux.Base.{ℕ, ◌||◌, refl, arith, [], false, ◌==◌, if◌then◌else◌, replicate, set}
use linux.Memory.{Mem, within}
use linux.Tasks.{max_pid, in_use}
use linux.Paging.{pde, pte, directory_addr}
use linux.Pcb.{Pcb, closed, fd_max, get_pcb}
use linux.Line.{no_data}
use linux.Kernel.{Kernel, Env, Frame}
use linux.Kernel.Execute.{IsRunning}

-- A file system at 0x10000 with one program, "p", of 28 bytes, and the command lines "p x" and "q".
abbrev pub machine : Mem
machine a =
    if within 0x40 4 a
    then (if a == 0x40 then b'p' else (if a == 0x41 then b' ' else (if a == 0x42 then b'x' else 0)))
    else (if a == 0x48
        then b'q'
        else (if a == 0x10000 || (a == 0x10004 || a == 0x10008)
            then 1
            else (if a == 0x10040
                then b'p'
                else (if a == 0x10060
                    then 2
                    else (if a == 0x11000
                        then 28
                        else (if a == 0x12000
                            then 0x7f
                            else (if a == 0x12001
                                then 0x45
                                else (if a == 0x12002
                                    then 0x4c
                                    else (if a == 0x12003
                                        then 0x46
                                        else (if a == 0x1201a
                                            then 4
                                            else (if a == 0x1201b then 8 else 0)))))))))))

abbrev pub frame : Frame
frame = record {
  fname = 0x200;
  fargs = 0x300;
  dentry = 0x400;
  magic_buf = 0x500;
  entry_point = 0x510;
}

abbrev pub env : Env
env = record {
  layout = record {
    page_dir_at = 0x500000;
    page_table_at = 0x600000;
    user_page_table_at = 0x601000;
    user_video_at = 0x602000;
  };
  fs = record { boot_block = 0x10000; fs_end = 0x13000; num_directories = 1; num_inodes = 1 };
  rtc_name = 0x600;
  shell_name = 0x610;
  fuel = 200;
}

-- A process with no open files but the terminal.
abbrev pub process : ℕ → ℕ → Pcb
process pid parent = record {
  elements = replicate fd_max closed;
  parent_pcb = parent;
  child = 0;
  esp_reg = 0;
  ebp_reg = 0;
  pid = pid;
  args = replicate 100 0;
  vidmap = 0;
  term = 0;
  rtc_fd = 0;
  rtc = 0;
  rtc_rate = 0;
}

-- The shell of the first terminal runs, under the pid 1.
abbrev pub shell : Kernel
shell = record {
  pids = set (replicate max_pid 0) 1 in_use;
  sched = record { flags = set (replicate max_pid 0) 1 1; beyond = 0 };
  paging = record {
    page_dir_table = λ q i. pde 0 0 0 0 0 0;
    page_table = λ i. pte 0 0 0 0;
    user_page_table = λ i. pte 0 0 0 0;
    user_video_page = λ q i. pte 0 0 0 0;
    cr3 = directory_addr env.layout 1;
  };
  terminals = record {
    term_data_array = replicate 4 no_data;
    active_term = 0;
    mem = machine;
    ports = [];
  };
  rtc = record { ports = []; register_a = 0x26; register_b = 2; rtc_flag = false };
  pcbs = λ a. if a == get_pcb 2 then process 2 0 else process 1 0;
  current = get_pcb 1;
  esp0 = 0;
}

pub shell-IsRunning : IsRunning env shell
unfolding get_pcb
shell-IsRunning = record {
  pids_size = refl;
  flags_size = refl;
  small = omega arith;
  in_table = omega arith;
  block = refl;
  directory = refl;
}
