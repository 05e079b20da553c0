-- ===== src/Kernel/CheckTests.antt =====
-- The checks of syscalls/ece391syserr.c on a concrete machine.
use linux.Base.{ℕ, ◌≡◌, ◌<◌, ◌≤◌, refl, arith, zero, suc, some, [], ◌∷◌, replicate}
use linux.Pcb.{terminal_driver, closed, descriptor, get_pcb}
use linux.User.{pure}
use linux.User.Syserr.{
  err_neg_fd, err_big_fd, err_unopened, err_vidmap, err_stdin_out, err_syscall_num,
}
use linux.Kernel.{Kernel, pcb}
use linux.Kernel.Calls.{block}
use linux.Kernel.System.{Host, kernel_system, syscall_entry}
use linux.Kernel.Checks.{CanSay, IsReady, Passes, checks_pass}
use linux.Kernel.Machine.{frame, env, process, shell}

-- The clock does not tick, a child ends with 0, and every literal is the text "q" of the machine.
abbrev host : Host
host = record {
  world = record { ticks = []; stray_word = 0; stray_pcb = block (get_pcb 2) };
  env = env;
  frame = frame;
  esp = 0x83ffff0;
  ebp = 0;
  child = λ entry k. some (k, 0);
  literal = λ text. 0x48;
}

-- The shell with its standard input and output.
abbrev talking : Kernel
talking = record shell {
  pcbs = λ a. record (process 1 0) {
    elements =
        record closed { file_operation_jmp_tbl = terminal_driver; flags = 1 }
        ∷ (record closed { file_operation_jmp_tbl = terminal_driver; flags = 1 }
            ∷ replicate 6 closed);
  };
}

q-CanSay : CanSay env talking 0x48 1
q-CanSay = record {
  nonnull = λ z. absurd (omega arith);
  string = record { end = refl; before = λ k h. ground arith };
  some_chars = λ z. absurd (omega arith);
  short = omega arith;
  enough = omega arith;
  open_stdout = λ z. absurd (omega arith);
  terminal = refl;
}

rest_shut : (fd : ℕ) → 2 ≤ fd → fd < 8 → (descriptor (pcb talking) fd).flags ≡ 0
rest_shut zero from below = absurd (omega arith)
rest_shut (suc zero) from below = absurd (omega arith)
rest_shut (suc (suc zero)) from below = refl
rest_shut (suc (suc (suc zero))) from below = refl
rest_shut (suc (suc (suc (suc zero)))) from below = refl
rest_shut (suc (suc (suc (suc (suc zero))))) from below = refl
rest_shut (suc (suc (suc (suc (suc (suc zero)))))) from below = refl
rest_shut (suc (suc (suc (suc (suc (suc (suc zero))))))) from below = refl
rest_shut (suc (suc (suc (suc (suc (suc (suc (suc k)))))))) from below = absurd (omega arith)

talking-IsReady : IsReady host talking
talking-IsReady = record {
  shut = rest_shut;
  neg_fd_report = (1, q-CanSay);
  big_fd_report = (1, q-CanSay);
  unopened_report = (1, q-CanSay);
  vidmap_report = (1, q-CanSay);
  stdin_out_report = (1, q-CanSay);
  syscall_num_report = (1, q-CanSay);
}

checks_pass_example :
    Passes host talking (err_neg_fd (kernel_system host) 100) "err_neg_fd: PASS\n"
    × Passes host talking (err_big_fd (kernel_system host) 100) "err_big_fd: PASS\n"
    × Passes host talking (err_unopened (kernel_system host) 100) "err_unopened: PASS\n"
    × Passes host talking (err_vidmap (kernel_system host)) "err_vidmap: PASS\n"
    × Passes host talking (err_stdin_out (kernel_system host) 100) "err_stdin_out: PASS\n"
    × Passes host talking
        (err_syscall_num (kernel_system host) (syscall_entry (λ n. pure 0)))
        "err_syscall_num: PASS\n"
checks_pass_example = checks_pass host talking 100 (λ n. pure 0) talking-IsReady
