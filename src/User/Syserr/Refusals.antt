-- ===== src/User/Syserr/Refusals.antt =====
-- ece391syserr.c of syscalls/: the checks when the calls refuse what they are given, on any system.
use Prim.Native.String.{String}
use linux.Base.{ℕ, zero, suc, ◌+◌, ◌<◌, ◌≤◌, ◌≡◌, refl, ◌∙◌, arith, some}
use linux.User.{Program, System, ◌>>=◌, ◌>>◌, pure, say, minus_one}
use linux.User.Steps.{bind_lem}
use linux.User.Syserr.{
  neg_fd, big_fd, expect_error, check_fd, err_neg_fd, err_big_fd, err_unopened, err_vidmap,
  err_stdin_out, err_syscall_num, close_unopened, read_unopened, write_unopened,
}

-- A call that returns -1 and changes nothing.
abbrev pub Refuses : {S : Type 0} → Program S ℕ → S → Type 0
Refuses call s = call s ≡ some (s, minus_one)

module _ {S : Type 0} (sys : System S) (s : S) where
  refusal :
      (call : Program S ℕ) (text : String) (fail : ℕ)
      → Refuses call s
      → expect_error sys call text fail s ≡ some (s, fail)
  unfolding expect_error
  refusal call text fail e = bind_lem call _ s s minus_one e

  -- The check goes on with the same state and the same `fail`.
  goes_on :
      (call : Program S ℕ) (text : String) (fail : ℕ) (f : ℕ → Program S ℕ)
      → Refuses call s
      → (expect_error sys call text fail >>= f) s ≡ f fail s
  goes_on call text fail f e =
      bind_lem (expect_error sys call text fail) f s s fail (refusal call text fail e)

  check_fd_lem :
      (fd buf : ℕ)
      → Refuses (sys.ece391_read fd buf 31) s
      → Refuses (sys.ece391_write fd buf 31) s
      → Refuses (sys.ece391_close fd) s
      → check_fd sys fd buf s ≡ some (s, 0)
  unfolding check_fd
  check_fd_lem fd buf r w c = goes_on _ _ _ _ r ∙ (goes_on _ _ _ _ w ∙ refusal _ _ _ c)

  pub neg_fd_refused :
      (buf : ℕ)
      → Refuses (sys.ece391_read neg_fd buf 31) s
      → Refuses (sys.ece391_write neg_fd buf 31) s
      → Refuses (sys.ece391_close neg_fd) s
      → err_neg_fd sys buf s ≡ (say sys "err_neg_fd: PASS\n" >> pure 0) s
  unfolding err_neg_fd
  neg_fd_refused buf r w c =
      bind_lem (check_fd sys neg_fd buf) _ s s 0 (check_fd_lem neg_fd buf r w c)

  pub big_fd_refused :
      (buf : ℕ)
      → Refuses (sys.ece391_read big_fd buf 31) s
      → Refuses (sys.ece391_write big_fd buf 31) s
      → Refuses (sys.ece391_close big_fd) s
      → err_big_fd sys buf s ≡ (say sys "err_big_fd: PASS\n" >> pure 0) s
  unfolding err_big_fd
  big_fd_refused buf r w c =
      bind_lem (check_fd sys big_fd buf) _ s s 0 (check_fd_lem big_fd buf r w c)

  pub vidmap_refused :
      Refuses (sys.ece391_vidmap 0) s
      → Refuses (sys.ece391_vidmap 0x400000) s
      → err_vidmap sys s ≡ (say sys "err_vidmap: PASS\n" >> pure 0) s
  unfolding err_vidmap
  vidmap_refused a b = goes_on _ _ _ _ a ∙ goes_on _ _ _ _ b

  pub stdin_out_refused :
      (buf : ℕ)
      → Refuses (sys.ece391_write 0 buf 31) s
      → Refuses (sys.ece391_read 1 buf 31) s
      → err_stdin_out sys buf s ≡ (say sys "err_stdin_out: PASS\n" >> pure 0) s
  unfolding err_stdin_out
  stdin_out_refused buf a b = goes_on _ _ _ _ a ∙ goes_on _ _ _ _ b

  pub syscall_num_refused :
      (call_sys : ℕ → Program S ℕ)
      → Refuses (call_sys big_fd) s
      → Refuses (call_sys neg_fd) s
      → Refuses (call_sys 0) s
      → err_syscall_num sys call_sys s ≡ (say sys "err_syscall_num: PASS\n" >> pure 0) s
  unfolding err_syscall_num
  syscall_num_refused call_sys a b c = goes_on _ _ _ _ a ∙ (goes_on _ _ _ _ b ∙ goes_on _ _ _ _ c)

  close_loop :
      (r i : ℕ)
      → ((fd : ℕ) → fd < i + r → Refuses (sys.ece391_close fd) s)
      → close_unopened sys r i 0 s ≡ some (s, 0)
  unfolding close_unopened
  close_loop zero i each = refl
  close_loop (suc r) i each =
      goes_on _ _ _ _ (each i (omega arith))
      ∙ close_loop r (i + 1) (λ fd below. each fd (omega arith))

  read_loop :
      (r buf i : ℕ)
      → ((fd : ℕ) → i ≤ fd → fd < i + r → Refuses (sys.ece391_read fd buf 31) s)
      → read_unopened sys r buf i 0 s ≡ some (s, 0)
  unfolding read_unopened
  read_loop zero buf i each = refl
  read_loop (suc r) buf i each =
      goes_on _ _ _ _ (each i (omega arith) (omega arith))
      ∙ read_loop r buf (i + 1) (λ fd from below. each fd (omega arith) (omega arith))

  write_loop :
      (r buf i : ℕ)
      → ((fd : ℕ) → i ≤ fd → fd < i + r → Refuses (sys.ece391_write fd buf 31) s)
      → write_unopened sys r buf i 0 s ≡ some (s, 0)
  unfolding write_unopened
  write_loop zero buf i each = refl
  write_loop (suc r) buf i each =
      goes_on _ _ _ _ (each i (omega arith) (omega arith))
      ∙ write_loop r buf (i + 1) (λ fd from below. each fd (omega arith) (omega arith))

  pub unopened_refused :
      (buf : ℕ)
      → ((fd : ℕ) → fd < 8 → Refuses (sys.ece391_close fd) s)
      → ((fd : ℕ) → 2 ≤ fd → fd < 8 → Refuses (sys.ece391_read fd buf 31) s)
      → ((fd : ℕ) → 2 ≤ fd → fd < 8 → Refuses (sys.ece391_write fd buf 31) s)
      → err_unopened sys buf s ≡ (say sys "err_unopened: PASS\n" >> pure 0) s
  unfolding err_unopened
  unopened_refused buf c r w =
      bind_lem (close_unopened sys 8 0 0) _ s s 0 (close_loop 8 0 c)
      ∙ (bind_lem (read_unopened sys 6 buf 2 0) _ s s 0 (read_loop 6 buf 2 r)
          ∙ bind_lem (write_unopened sys 6 buf 2 0) _ s s 0 (write_loop 6 buf 2 w))
