-- ===== src/User/Syserr.antt =====
-- ece391syserr.c of syscalls/: the checks of the calls' error returns. Each returns 0 when the calls
-- return what they should, and 2 otherwise.
pub mod Refusals
use Prim.Native.String.{String}
use linux.Base.{ℕ, zero, suc, ◌+◌, ◌-◌, ◌%◌, ◌^◌, not, ◌==◌, if◌then◌else◌}
use linux.Memory.{◌⊕◌}
use linux.User.{Program, System, ◌>>=◌, ◌>>◌, pure, load, say, minus_one}

abbrev pub neg_fd : ℕ
neg_fd = 2 ^ 32 - 1073741823

abbrev pub big_fd : ℕ
big_fd = 1073741823

module _ {S : Type 0} (sys : System S) where
  -- `if (-1 != call) { fail = 2; print; }`, with the old value of `fail` and the new.
  unfoldable pub expect_error : Program S ℕ → String → ℕ → Program S ℕ
  expect_error call text fail = do
    r ← call
    if not (r == minus_one) then (do say sys text; pure 2) else pure fail

  -- The report at the end of a check.
  abbrev pub verdict : String → String → ℕ → Program S ℕ
  verdict fails passes fail =
      if not (fail == 0) then (do say sys fails; pure fail) else (do say sys passes; pure fail)

  -- The three calls on one descriptor.
  unfoldable pub check_fd : ℕ → ℕ → Program S ℕ
  check_fd fd buf = do
    a ← expect_error (sys.ece391_read fd buf 31) "read fail\n" 0
    b ← expect_error (sys.ece391_write fd buf 31) "write fail\n" a
    expect_error (sys.ece391_close fd) "close fail\n" b

  unfoldable pub err_neg_fd : ℕ → Program S ℕ
  err_neg_fd buf = do
    fail ← check_fd neg_fd buf
    verdict "err_neg_fd: FAIL\n" "err_neg_fd: PASS\n" fail

  unfoldable pub err_big_fd : ℕ → Program S ℕ
  err_big_fd buf = do
    fail ← check_fd big_fd buf
    verdict "err_big_fd: FAIL\n" "err_big_fd: PASS\n" fail

  -- The loops of `err_open_lots`, with the rounds left: the failures of `open`, and the closing.
  unfoldable pub open_lots : ℕ → ℕ → Program S ℕ
  open_lots zero cnt = pure cnt
  open_lots (suc r) cnt = do
    fd ← sys.ece391_open (sys.literal ".")
    open_lots r (if fd == minus_one then cnt + 1 else cnt)

  unfoldable pub close_lots : ℕ → ℕ → Program S (Unit {0})
  close_lots zero i = pure tt
  close_lots (suc r) i = do sys.ece391_close i; close_lots r (i + 1)

  unfoldable pub err_open_lots : Program S ℕ
  err_open_lots = do
    cnt ← open_lots 7 0
    close_lots 6 2
    if cnt == 1
        then (do say sys "err_open_lots: PASS\n"; pure 0)
        else (do say sys "err_open_lots: FAIL\n"; pure 2)

  unfoldable pub err_open : Program S ℕ
  err_open = do
    a ← expect_error (sys.ece391_open (sys.literal "helloo")) "'helloo' fail\n" 0
    b ← expect_error (sys.ece391_open (sys.literal "shel")) "'shel' fail\n" a
    fail ← expect_error (sys.ece391_open (sys.literal "")) "empty string fail\n" b
    verdict "err_open: FAIL\n" "err_open: PASS\n" fail

  -- The loops of `err_unopened`, with the rounds left, the descriptor and `fail`.
  unfoldable pub close_unopened : ℕ → ℕ → ℕ → Program S ℕ
  close_unopened zero i fail = pure fail
  close_unopened (suc r) i fail = do
    fail' ← expect_error (sys.ece391_close i) "close unopened or invalid fd fail\n" fail
    close_unopened r (i + 1) fail'

  unfoldable pub read_unopened : ℕ → ℕ → ℕ → ℕ → Program S ℕ
  read_unopened zero buf i fail = pure fail
  read_unopened (suc r) buf i fail = do
    fail' ← expect_error (sys.ece391_read i buf 31) "read from unopened fd fail\n" fail
    read_unopened r buf (i + 1) fail'

  unfoldable pub write_unopened : ℕ → ℕ → ℕ → ℕ → Program S ℕ
  write_unopened zero buf i fail = pure fail
  write_unopened (suc r) buf i fail = do
    fail' ← expect_error (sys.ece391_write i buf 31) "write to unopened fd fail\n" fail
    write_unopened r buf (i + 1) fail'

  unfoldable pub err_unopened : ℕ → Program S ℕ
  err_unopened buf = do
    a ← close_unopened 8 0 0
    b ← read_unopened 6 buf 2 a
    fail ← write_unopened 6 buf 2 b
    verdict "err_unopened: FAIL\n" "err_unopened: PASS\n" fail

  unfoldable pub err_vidmap : Program S ℕ
  err_vidmap = do
    a ← expect_error (sys.ece391_vidmap 0) "Null pointer fail\n" 0
    fail ← expect_error (sys.ece391_vidmap 0x400000) "Kernel pointer fail fail\n" a
    verdict "err_vidmap: FAIL\n" "err_vidmap: PASS\n" fail

  unfoldable pub err_stdin_out : ℕ → Program S ℕ
  err_stdin_out buf = do
    a ← expect_error (sys.ece391_write 0 buf 31) "write to stdin fail\n" 0
    fail ← expect_error (sys.ece391_read 1 buf 31) "read from stdout fail\n" a
    verdict "err_stdin_out: FAIL\n" "err_stdin_out: PASS\n" fail

  -- With `call_sys`, which makes the call of a number.
  unfoldable pub err_syscall_num : (ℕ → Program S ℕ) → Program S ℕ
  err_syscall_num call_sys = do
    a ← expect_error (call_sys big_fd) "syscall 0 fail\n" 0
    b ← expect_error (call_sys neg_fd) "big num syscall fail\n" a
    fail ← expect_error (call_sys 0) "neg num syscall fail\n" b
    verdict "err_syscall_num: FAIL\n" "err_syscall_num: PASS\n" fail

  -- The case 0 of `main`; `tests_at` is the address of the arrays of the checks.
  unfoldable pub all_tests : (ℕ → Program S ℕ) → ℕ → Program S ℕ
  all_tests call_sys tests_at = do
    a ← err_neg_fd tests_at
    b ← err_big_fd tests_at
    c ← err_open_lots
    d ← err_open
    e ← err_unopened tests_at
    g ← err_vidmap
    h ← err_stdin_out tests_at
    i ← err_syscall_num call_sys
    let fail = a + b + c + d + e + g + h + i
    if not (fail == 0)
        then (do say sys "\nOverall Tests: FAIL\n"; pure fail)
        else (do say sys "\nOverall Tests: PASS\n"; pure fail)

  -- The switch of `main` for one check.
  unfoldable pub one_test : (ℕ → Program S ℕ) → ℕ → ℕ → Program S ℕ
  one_test call_sys tests_at select =
      if select == 1
      then err_neg_fd tests_at
      else (if select == 2
          then err_big_fd tests_at
          else (if select == 3
              then err_open_lots
              else (if select == 4
                  then err_open
                  else (if select == 5
                      then err_unopened tests_at
                      else (if select == 6
                          then err_vidmap
                          else (if select == 7
                              then err_stdin_out tests_at
                              else (if select == 8 then err_syscall_num call_sys else (do
                                say sys "Invalid test number. Choose from tests 1-8 or 0"
                                pure 0))))))))

  unfoldable pub syserr : (ℕ → Program S ℕ) → ℕ → ℕ → Program S ℕ
  syserr call_sys buf tests_at = do
    say sys "Choose from tests 1-8. 0 to run all: "
    cnt ← sys.ece391_read 0 buf 127
    first ← load sys buf
    let select = (first + 2 ^ 32 - b'0') % 2 ^ 32
    if cnt == minus_one
        then (do say sys "Can't read test #\n"; pure 2)
        else (if select == 0
            then all_tests call_sys tests_at
            else one_test call_sys tests_at select)
