-- ===== src/User/Pingpong.antt =====
-- ece391pingpong.c of syscalls/: a letter that bounces between two walls.
pub mod Lines
use linux.Base.{ℕ, zero, suc, ◌+◌, ◌-◌, ◌%◌, ◌^◌, ltb, some, ◌==◌, if◌then◌else◌}
use linux.Memory.{Mem, ◌⊕◌, write, write4}
use linux.User.{
  Program, System, ◌>>=◌, ◌>>◌, pure, diverge, store, get_memory, put_memory, say, ece391_fdputs,
}

-- `BUFMAX` is `SCREENWIDTH+ENDING` without parentheses, and `LOOPMAX` is `BUFMAX-ENDING-1`.
abbrev pub buf_max : ℕ
buf_max = 79 + 2

abbrev pub start_loop : ℕ
start_loop = 1 + 1

abbrev pub loop_max : ℕ
loop_max = 79 + 2 - 2 - 1

-- `buf[i] = ' '` for `r` values of `i` from `i` on.
unfoldable pub blank_from : ℕ → Mem → ℕ → ℕ → Mem
blank_from zero m buf i = m
blank_from (suc r) m buf i = blank_from r (write m (buf ⊕ i) b' ') buf (i + 1)

-- The buffer with its walls.
unfoldable pub walls : Mem → ℕ → Mem
walls m buf =
    let m1 = write (blank_from buf_max m buf 0) (buf ⊕ (buf_max - 1)) 0 in
    let m2 = write m1 (buf ⊕ (buf_max - 2)) b'\n' in
    write (write m2 (buf ⊕ (buf_max - 3)) b'|') (buf ⊕ 1) b'|'

-- The inner portion is cleared, and the letter stands at `j`.
unfoldable pub draw : Mem → ℕ → ℕ → ℕ → Mem
draw m buf j curchar = write (blank_from (loop_max - start_loop) m buf start_loop) (buf ⊕ j) curchar

unfoldable pub next_char : ℕ → ℕ
next_char curchar = if curchar == b'Z' then b'A' else (curchar + 1) % 2 ^ 8

module _ {S : Type 0} (sys : System S) where
  -- One round of either loop, with the addresses of `buf` and `garbage`.
  unfoldable pub show : ℕ → ℕ → ℕ → ℕ → ℕ → Program S ℕ
  show buf garbage rtc_fd curchar j = do
    m ← get_memory sys
    put_memory sys (some (draw m buf j curchar))
    ece391_fdputs sys 1 buf
    sys.ece391_read rtc_fd garbage 4

  -- For `r` values of `j`, from `j` up.
  unfoldable pub move_out : ℕ → ℕ → ℕ → ℕ → ℕ → ℕ → Program S (Unit {0})
  move_out zero buf garbage rtc_fd curchar j = pure tt
  move_out (suc r) buf garbage rtc_fd curchar j = do
    show buf garbage rtc_fd curchar j
    move_out r buf garbage rtc_fd curchar (j + 1)

  -- For `r` values of `j`, from `start_loop + r - 1` down.
  unfoldable pub bounce_back : ℕ → ℕ → ℕ → ℕ → ℕ → Program S (Unit {0})
  bounce_back zero buf garbage rtc_fd curchar = pure tt
  bounce_back (suc r) buf garbage rtc_fd curchar = do
    show buf garbage rtc_fd curchar (start_loop + r)
    bounce_back r buf garbage rtc_fd curchar

  -- The endless loop, for the given rounds; the result is the letter that comes next.
  unfoldable pub bounce : ℕ → ℕ → ℕ → ℕ → ℕ → Program S ℕ
  bounce zero buf garbage rtc_fd curchar = pure curchar
  bounce (suc r) buf garbage rtc_fd curchar = do
    move_out (loop_max - start_loop) buf garbage rtc_fd curchar start_loop
    bounce_back (loop_max - start_loop) buf garbage rtc_fd curchar
    bounce r buf garbage rtc_fd (next_char curchar)

  -- With the address of `ret_val`, which is then set to what the write returns.
  unfoldable pub set_rate : ℕ → ℕ → Program S ℕ
  set_rate rtc_fd ret_val = do
    m ← get_memory sys
    put_memory sys (some (write4 m ret_val 32 0 0 0))
    sys.ece391_write rtc_fd ret_val 4

  unfoldable pub pingpong : ℕ → ℕ → ℕ → ℕ → Program S ℕ
  pingpong rounds buf garbage ret_val = do
    m ← get_memory sys
    put_memory sys (some (walls m buf))
    rtc_fd ← sys.ece391_open (sys.literal "rtc")
    set_rate rtc_fd ret_val
    bounce rounds buf garbage rtc_fd b'A'
