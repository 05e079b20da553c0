-- ===== src/User/Fish.antt =====
-- fish/fish.c: two pictures read from files, and shown in turn by the blinking of fish/blink.S, which is
-- a parameter.
use linux.Base.{ℕ, zero, suc, ◌+◌, ◌*◌, ◌/◌, ◌%◌, ◌^◌, not, ◌&&◌, ◌||◌, ◌==◌, some, if◌then◌else◌}
use linux.Memory.{Mem, ◌⊕◌, write, write4}
use linux.CString.{slt}
use linux.User.{
  Program, System, ◌>>=◌, ◌>>◌, pure, diverge, load, store, get_memory, put_memory, minus_one,
}

-- The size of `struct mp1_blink_struct`, which is packed.
abbrev pub blink_size : ℕ
blink_size = 16

abbrev pub blink_count : ℕ
blink_count = 80 * 25

-- For `n` values of `i` from `i` on; a count that is not positive does nothing.
unfoldable pub memset_from : ℕ → Mem → ℕ → ℕ → ℕ → Mem
memset_from zero m memory c i = m
memset_from (suc r) m memory c i = memset_from r (write m (memory ⊕ i) c) memory c (i + 1)

unfoldable pub ece391_memset : Mem → ℕ → ℕ → ℕ → Mem
ece391_memset m memory c n = if slt 0 n then memset_from n m memory c 0 else m

unfoldable pub memcpy_from : ℕ → Mem → ℕ → ℕ → ℕ → Mem
memcpy_from zero m dest src i = m
memcpy_from (suc r) m dest src i = memcpy_from r (write m (dest ⊕ i) (m (src ⊕ i))) dest src (i + 1)

-- The result of `ece391_memcpy` is always 0.
unfoldable pub ece391_memcpy : Mem → ℕ → ℕ → ℕ → Mem
ece391_memcpy m dest src n = if slt 0 n then memcpy_from n m dest src 0 else m

-- The field `location` of the structure at `a`.
abbrev pub location : Mem → ℕ → ℕ
location m a = m a + 0x100 * m (a ⊕ 1)

-- The first structure of the array from the index `i` on, of `r`, that is not in use; 0 is null.
unfoldable pub malloc_from : ℕ → Mem → ℕ → ℕ → ℕ
malloc_from zero m blink_array i = 0
malloc_from (suc r) m blink_array i =
    let a = blink_array ⊕ blink_size * i in
    let rest = malloc_from r m blink_array (i + 1) in if location m a == 0 then a else rest

unfoldable pub mp1_malloc : Mem → ℕ → ℕ
mp1_malloc m blink_array = malloc_from blink_count m blink_array 0

unfoldable pub mp1_free : Mem → ℕ → Mem
mp1_free m memory = ece391_memset m memory 0 blink_size

-- The functions of blink.S.
pub record Blink (S : Type 0) : Type 0 where
  pub mp1_ioctl : ℕ → ℕ → Program S ℕ
  pub mp1_rtc_tasklet : ℕ → Program S (Unit {0})

-- The addresses of the variables. The two local `blink_struct`s, which are never in use at the same
-- time, share an address.
pub record Variables : Type 0 where
  pub vmem_base_addr : ℕ
  pub blink_array : ℕ
  pub blink_struct : ℕ
  pub garbage : ℕ
  pub ret_val : ℕ
  pub c0 : ℕ
  pub c1 : ℕ
  pub file0 : ℕ
  pub file1 : ℕ

-- A 16-bit field.
abbrev pub write2 : Mem → ℕ → ℕ → Mem
write2 m a v = write (write m a (v % 0x100)) (a ⊕ 1) (v / 0x100 % 0x100)

-- The fields of a structure that the program sets, from `location` on.
abbrev pub blink_fields : Mem → ℕ → ℕ → ℕ → ℕ → ℕ → ℕ → Mem
blink_fields m a at on_char off_char on_length off_length =
    let m1 = write2 m a at in
    let m2 = write (write m1 (a ⊕ 2) on_char) (a ⊕ 3) off_char in
    write2 (write2 m2 (a ⊕ 4) on_length) (a ⊕ 6) off_length

module _ {S : Type 0} (sys : System S) (blink : Blink S) (v : Variables) where
  -- 0 is null.
  unfoldable pub mp1_set_video_mode : Program S ℕ
  mp1_set_video_mode = do
    r ← sys.ece391_vidmap v.vmem_base_addr
    m ← get_memory sys
    if r == minus_one
        then pure 0
        else pure (
            m v.vmem_base_addr
            + 0x100 * m (v.vmem_base_addr ⊕ 1)
            + 0x10000 * m (v.vmem_base_addr ⊕ 2)
            + 0x1000000 * m (v.vmem_base_addr ⊕ 3))

  -- The next character of a picture, unless its row or the file is at its end; the result is whether
  -- the file is.
  unfoldable pub read_char : ℕ → ℕ → ℕ → Program S ℕ
  read_char fd c eof = do
    old ← load sys c
    if old == b'\n' then pure eof else (do
      num_bytes ← sys.ece391_read fd c 1
      if num_bytes == 0 then (do store sys c b'\n'; pure 1) else pure eof)

  abbrev pub visible : ℕ → ℕ → ℕ
  visible c0 c1 =
      if not (c0 == b' ') && not (c0 == b'\n') || not (c1 == b' ') && not (c1 == b'\n')
      then 1
      else 0

  abbrev pub shown : ℕ → ℕ
  shown c = if c == b'\n' then b' ' else c

  -- A place of the picture is handed to the blinking. The offset is 40.
  unfoldable pub add_place : ℕ → ℕ → ℕ → ℕ → Program S ℕ
  add_place row col a b = do
    m ← get_memory sys
    put_memory sys (
        some (
          blink_fields m v.blink_struct ((row * 80 + col + 40) % 2 ^ 16) (shown a) (shown b) 15 15))
    blink.mp1_ioctl v.blink_struct 0

  -- The loop over a row; the result is whether each file is at its end.
  unfoldable pub add_row : ℕ → ℕ → ℕ → ℕ → ℕ → ℕ → ℕ → Program S (ℕ × ℕ)
  add_row zero fd0 fd1 row col eof0 eof1 = diverge
  add_row (suc f) fd0 fd1 row col eof0 eof1 =
      let rest = add_row f fd0 fd1 row (col + 1) in
      do
        eof0' ← read_char fd0 v.c0 eof0
        eof1' ← read_char fd1 v.c1 eof1
        a ← load sys v.c0
        b ← load sys v.c1
        if (a == b'\n') && (b == b'\n')
            then pure (eof0', eof1')
            else (do if visible a b == 1 then add_place row col a b else pure 0; rest eof0' eof1')

  -- At the end of a row.
  unfoldable pub end_row : ℕ → ℕ → ℕ → Program S (Unit {0})
  end_row fd c eof =
      if not (eof == 0)
      then (do store sys c b'\n'; sys.ece391_close fd; pure tt)
      else store sys c b'0'

  unfoldable pub add_rows : ℕ → ℕ → ℕ → ℕ → ℕ → ℕ → Program S (Unit {0})
  add_rows zero fd0 fd1 row eof0 eof1 = diverge
  add_rows (suc f) fd0 fd1 row eof0 eof1 =
      let rest = add_rows f fd0 fd1 (row + 1) in
      if (eof0 == 0) || (eof1 == 0)
      then (do
        ends ← add_row sys.fuel fd0 fd1 row 0 eof0 eof1
        end_row fd0 v.c0 (ends.0)
        end_row fd1 v.c1 (ends.1)
        rest (ends.0) (ends.1))
      else pure tt

  -- Where a file cannot be opened the program halts, which is `none` here.
  unfoldable pub add_frames : ℕ → Program S (Unit {0})
  add_frames f = do
    store sys v.c0 b'0'
    store sys v.c1 b'0'
    fd0 ← sys.ece391_open v.file0
    fd1 ← sys.ece391_open v.file1
    if slt fd0 0 || slt fd1 0 then diverge else add_rows f fd0 fd1 0 0 0

  -- The loops that wait for the clock.
  unfoldable pub wait : ℕ → ℕ → Program S (Unit {0})
  wait zero rtc_fd = pure tt
  wait (suc r) rtc_fd = do
    sys.ece391_read rtc_fd v.garbage 4
    m ← get_memory sys
    blink.mp1_rtc_tasklet (
        m v.garbage
        + 0x100 * m (v.garbage ⊕ 1)
        + 0x10000 * m (v.garbage ⊕ 2)
        + 0x1000000 * m (v.garbage ⊕ 3))
    wait r rtc_fd

  unfoldable pub fish : ℕ → Program S ℕ
  fish f = do
    m ← get_memory sys
    put_memory sys (some (ece391_memset m v.blink_array 0 (blink_size * blink_count)))
    video ← mp1_set_video_mode
    if video == 0 then pure minus_one else (do
      rtc_fd ← sys.ece391_open (sys.literal "rtc")
      add_frames f
      m1 ← get_memory sys
      put_memory sys (some (write4 m1 v.ret_val 32 0 0 0))
      sys.ece391_write rtc_fd v.ret_val 4
      wait 200 rtc_fd
      m2 ← get_memory sys
      put_memory sys (some (blink_fields m2 v.blink_struct (6 * 80 + 60) b'I' b'M' 7 6))
      blink.mp1_ioctl v.blink_struct 0
      wait 200 rtc_fd
      blink.mp1_ioctl (40 * 2 ^ 16 + (6 * 80 + 60)) 3
      wait 200 rtc_fd
      m3 ← get_memory sys
      put_memory sys (some (write2 m3 v.blink_struct 60))
      blink.mp1_ioctl 200 1
      wait blink_count rtc_fd
      sys.ece391_close rtc_fd
      pure 0)
