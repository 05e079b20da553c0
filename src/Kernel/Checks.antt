-- ===== src/Kernel/Checks.antt =====
-- The checks of syscalls/ece391syserr.c on the kernel.
use Prim.Native.String.{String}
use linux.Base.{
  ℕ, ◌^◌, ◌≤◌, ◌<◌, ◌≡◌, ◌≢◌, refl, ◌∙◌, arith, true, not, ◌||◌, some, inl, inr, ◌==◌, ==_false,
  ==_true, Bool-cases,
}
use native.Mathlib.Decide.{dec_lt}
use linux.CString.{IsString, strlen, slt}
use linux.CString.Length.{strlen_lem}
use linux.Pcb.{terminal_driver, descriptor, fd_max}
use linux.User.{◌>>◌, pure, Program, say, ece391_strlen}
use linux.User.Steps.{bind_lem, fdputs_lem}
use linux.User.Syserr.{
  neg_fd, big_fd, err_neg_fd, err_big_fd, err_unopened, err_vidmap, err_stdin_out, err_syscall_num,
}
use linux.User.Syserr.Refusals.{
  Refuses, neg_fd_refused, big_fd_refused, unopened_refused, vidmap_refused, stdin_out_refused,
  syscall_num_refused,
}
use linux.Kernel.{Kernel, Env, memory, pcb}
use linux.Kernel.Calls.{syscall_read, syscall_write, syscall_close, syscall_vidmap, driver_write}
use linux.Kernel.Guards.{unusable_descriptor, read_refused, write_refused, close_refused}
use linux.Kernel.System.{Host, kernel_system, syscall_entry}

-- A text of `n` characters stands at `a`, and descriptor 1 leads to the terminal.
pub record CanSay (e : Env) (k : Kernel) (a n : ℕ) : Type 0 where
  pub nonnull : a ≢ 0
  pub string : IsString (memory k) a n
  pub some_chars : n ≢ 0
  pub short : n < 2 ^ 32
  pub enough : n < e.fuel
  pub open_stdout : (descriptor (pcb k) 1).flags ≢ 0
  pub terminal : (descriptor (pcb k) 1).file_operation_jmp_tbl ≡ terminal_driver

write_ends :
    (e : Env) (k : Kernel) (a n : ℕ)
    → CanSay e k a n
    → (k' : Kernel) × (r : ℕ) × (syscall_write k 1 a n ≡ some (k', r))
unfolding syscall_write driver_write
write_ends e k a n w =
    rw (==_false n 0 w.some_chars, ==_false a 0 w.nonnull, ==_false _ 0 w.open_stdout)
      (elim (Bool-cases (1 == (pcb k).rtc_fd)) [
        | inl rtc ↦ rw (rtc, ==_true k.current k.current refl, w.terminal) (_, _, refl)
        | inr other ↦ rw (other, w.terminal) (_, _, refl)
      ])

module _ (m : Host) (k : Kernel) where
  -- The text that is said is written to the end, and the program ends with 0.
  abbrev pub Passes : Program Kernel ℕ → String → Type 0
  Passes check text =
      (k' : Kernel) × (say (kernel_system m) text k ≡ some (k', tt)) × (check k ≡ some (k', 0))

  say_ends :
      (text : String) (n : ℕ)
      → CanSay m.env k (m.literal text) n
      → (k' : Kernel) × (say (kernel_system m) text k ≡ some (k', tt))
  unfolding ece391_strlen strlen
  say_ends text n w =
      let (k', r, q) = write_ends m.env k (m.literal text) n w in
      let len = strlen_lem m.env.fuel (memory k) (m.literal text) n w.string w.short w.enough in
      (k', fdputs_lem (kernel_system m) k k' 1 (m.literal text) n r len q)

  abbrev pub CanReport : String → Type 0
  CanReport text = (n : ℕ) × CanSay m.env k (m.literal text) n

  check_lem :
      (check : Program Kernel ℕ) (text : String)
      → CanReport text
      → check k ≡ (say (kernel_system m) text >> pure 0) k
      → Passes check text
  check_lem check text (n, w) e =
      let (k', q) = say_ends text n w in
      (k', q, e ∙ bind_lem (say (kernel_system m) text) (λ done. pure 0) k k' tt q)

  -- The kernel on which the checks are run: the descriptors from 2 are closed, and each report can be
  -- said.
  pub record IsReady : Type 0 where
    pub shut : (fd : ℕ) → 2 ≤ fd → fd < fd_max → (descriptor (pcb k) fd).flags ≡ 0
    pub neg_fd_report : CanReport "err_neg_fd: PASS\n"
    pub big_fd_report : CanReport "err_big_fd: PASS\n"
    pub unopened_report : CanReport "err_unopened: PASS\n"
    pub vidmap_report : CanReport "err_vidmap: PASS\n"
    pub stdin_out_report : CanReport "err_stdin_out: PASS\n"
    pub syscall_num_report : CanReport "err_syscall_num: PASS\n"

  fd_lem :
      (fd buf : ℕ)
      → fd < 2 ^ 32
      → fd_max ≤ fd
      → Refuses ((kernel_system m).ece391_read fd buf 31) k
        × Refuses ((kernel_system m).ece391_write fd buf 31) k
        × Refuses ((kernel_system m).ece391_close fd) k
  fd_lem fd buf h high =
      unusable_descriptor m.world m.env m.frame k fd buf 31 h (omega arith) (inl high)

  neg_fd-Passes :
      (buf : ℕ) → IsReady → Passes (err_neg_fd (kernel_system m) buf) "err_neg_fd: PASS\n"
  neg_fd-Passes buf ready =
      let (r, w, c) = fd_lem neg_fd buf (omega arith) (omega arith) in
      check_lem (err_neg_fd (kernel_system m) buf) _ ready.neg_fd_report
        (neg_fd_refused (kernel_system m) k buf r w c)

  big_fd-Passes :
      (buf : ℕ) → IsReady → Passes (err_big_fd (kernel_system m) buf) "err_big_fd: PASS\n"
  big_fd-Passes buf ready =
      let (r, w, c) = fd_lem big_fd buf (omega arith) (omega arith) in
      check_lem (err_big_fd (kernel_system m) buf) _ ready.big_fd_report
        (big_fd_refused (kernel_system m) k buf r w c)

  close_low : IsReady → (fd : ℕ) → fd < 8 → Refuses ((kernel_system m).ece391_close fd) k
  unfolding syscall_close
  close_low ready fd below = elim (dec_lt fd 2) [
    | yes low ↦ let out : (not (slt fd fd_max) || slt fd 2) ≡ true = ground arith in rw out refl
    | no high ↦ close_refused m.world k fd (omega arith) (inr (ready.shut fd (omega arith) below))
  ]

  unopened-Passes :
      (buf : ℕ) → IsReady → Passes (err_unopened (kernel_system m) buf) "err_unopened: PASS\n"
  unopened-Passes buf ready =
      check_lem (err_unopened (kernel_system m) buf) _ ready.unopened_report (
        unopened_refused (kernel_system m) k buf (close_low ready)
          (λ fd from below.
            read_refused m.world m.env m.frame k fd buf 31 (omega arith) (omega arith)
              (inr (ready.shut fd from below)))
          (λ fd from below.
            write_refused k fd buf 31 (omega arith) (inr (ready.shut fd from below))))

  vidmap-Passes : IsReady → Passes (err_vidmap (kernel_system m)) "err_vidmap: PASS\n"
  unfolding syscall_vidmap
  vidmap-Passes ready =
      check_lem (err_vidmap (kernel_system m)) _ ready.vidmap_report
        (vidmap_refused (kernel_system m) k refl refl)

  stdin_out-Passes :
      (buf : ℕ) → IsReady → Passes (err_stdin_out (kernel_system m) buf) "err_stdin_out: PASS\n"
  unfolding syscall_read syscall_write
  stdin_out-Passes buf ready =
      check_lem (err_stdin_out (kernel_system m) buf) _ ready.stdin_out_report
        (stdin_out_refused (kernel_system m) k buf refl refl)

  syscall_num-Passes :
      (table : ℕ → Program Kernel ℕ)
      → IsReady
      → Passes (err_syscall_num (kernel_system m) (syscall_entry table)) "err_syscall_num: PASS\n"
  unfolding syscall_entry
  syscall_num-Passes table ready =
      check_lem (err_syscall_num (kernel_system m) (syscall_entry table)) _ ready.syscall_num_report
        (syscall_num_refused (kernel_system m) k (syscall_entry table) refl refl refl)

-- On a kernel whose running process has the descriptors from 2 to 7 closed and that can write each
-- report to the terminal: the checks of descriptors below and above the table, of closed ones, of bad
-- addresses for `vidmap`, of the wrong direction on 0 and 1, and of call numbers that do not exist,
-- each ends with 0, in the state after its `PASS` report alone, whatever the table of calls holds.
pub checks_pass :
    (m : Host) (k : Kernel) (buf : ℕ) (table : ℕ → Program Kernel ℕ)
    → IsReady m k
    → Passes m k (err_neg_fd (kernel_system m) buf) "err_neg_fd: PASS\n"
      × Passes m k (err_big_fd (kernel_system m) buf) "err_big_fd: PASS\n"
      × Passes m k (err_unopened (kernel_system m) buf) "err_unopened: PASS\n"
      × Passes m k (err_vidmap (kernel_system m)) "err_vidmap: PASS\n"
      × Passes m k (err_stdin_out (kernel_system m) buf) "err_stdin_out: PASS\n"
      × Passes m k
          (err_syscall_num (kernel_system m) (syscall_entry table))
          "err_syscall_num: PASS\n"
checks_pass m k buf table ready = (
  neg_fd-Passes m k buf ready,
  big_fd-Passes m k buf ready,
  unopened-Passes m k buf ready,
  vidmap-Passes m k ready,
  stdin_out-Passes m k buf ready,
  syscall_num-Passes m k table ready,
)
