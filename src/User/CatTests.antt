-- ===== src/User/CatTests.antt =====
-- ece391cat.c of syscalls/ on a concrete Linux, under the emulation of the system calls.
use linux.Base.{
  ℕ, suc, ◌+◌, ◌-◌, ◌^◌, ◌<◌, ◌≡◌, refl, ap, ◌∙◌, arith, some, List, [], ◌∷◌, ◌++◌, length, take,
  drop, get_or, ltb, ltb-true, if◌then◌else◌, ◌==◌,
}
use linux.Memory.{Mem, ◌⊕◌, write, load32}
use linux.CString.{strlen_from, strcpy, strcpy_from}
use linux.User.{pure, minus_one, ece391_strlen, ece391_strcpy, ece391_strcmp, strcmp_from}
use linux.User.Programs.{cat}
use linux.User.Programs.Cat.{bytes, length-take_le}
use linux.User.Emulate.{Linux, Emulated, ece391_open, ece391_getargs, args_from, end_args}
use linux.User.Emulate.Execute.{emulated_system}
use linux.User.Emulate.Copying.{cat-emulated_system, HostFeeds}

-- A Linux with its memory, a file behind descriptor 3, and the output.
record Piped : Type 0 where
  contents : Mem
  unread : List ℕ
  printed : List ℕ

abbrev put : List ℕ → ℕ → Mem → Mem
put xs buf m a = if ltb (a - buf) (length xs) then get_or xs (a - buf) 0 else m a

abbrev pipe : Linux Piped
pipe = record {
  host_memory = λ s. s.contents;
  host_set_memory = λ s m. record s { contents = m };
  host_read = λ fd buf n s. some (
    record s { contents = put (take n s.unread) buf s.contents; unread = drop n s.unread },
    length (take n s.unread),
  );
  host_write = λ fd buf n s. some (record s { printed = s.printed ++ bytes s.contents buf n }, n);
  host_open = λ filename. pure 3;
  host_close = λ fd. pure 0;
  open_null = pure 4;
  open_mem = pure 5;
  map_low_memory = λ fd. pure 0x100000;
  opendir = pure 0x5000;
  readdir = λ dir. pure 0;
  closedir = λ dir. pure 0;
  run = λ buf args. pure 0;
  host_literal = λ text. 0x200;
  host_fuel = 5;
}

bytes_lem :
    (xs : List ℕ) (m : Mem) (a : ℕ)
    → a + length xs < 2 ^ 32
    → ((k : ℕ) → k < length xs → m (a + k) ≡ get_or xs k 0)
    → bytes m a (length xs) ≡ xs
bytes_lem [] m a h each = refl
bytes_lem (x ∷ xs) m a h each =
    let first : m a ≡ x = ap m (let e : a ≡ a + 0 = omega arith in e) ∙ each 0 (omega arith) in
    let next : a ⊕ 1 ≡ a + 1 = omega arith in
    rw (first, next)
      (ap (λ ys. x ∷ ys)
        (bytes_lem xs m (a + 1) (omega arith) (λ k below.
          ap m (let e : a + 1 + k ≡ a + suc k = omega arith in e) ∙ each (suc k) (omega arith))))

abbrev pipe_feeds : HostFeeds pipe 3 0x1000
pipe_feeds = record {
  valid = λ s. Unit {0};
  rest = λ s. s.unread;
  output = λ s. s.printed;
  read_lem = λ s ok. (
    record s { contents = put (take 1024 s.unread) 0x1000 s.contents; unread = drop 1024 s.unread },
    refl,
    tt,
    refl,
    refl,
    bytes_lem (take 1024 s.unread) _ 0x1000 (omega (arith, length-take_le 1024 s.unread))
        (λ k below.
          let at : 0x1000 + k - 0x1000 ≡ k = omega arith in
          rw (at, ltb-true k (length (take 1024 s.unread)) below) refl),
  );
  write_lem = λ s n ok some_bytes few. (
    record s { printed = s.printed ++ bytes s.contents 0x1000 n },
    n,
    refl,
    λ e. absurd (omega arith),
    tt,
    refl,
    refl,
  );
}

-- The arguments of the program "cat f" on the stack, and the string "." at 0x200.
abbrev started : Mem
started a =
    if a == 0x7000
    then 2
    else (if a == 0x7009
        then 1
        else (if a == 0x100 then b'f' else (if a == 0x200 then b'.' else 0)))

abbrev full : Emulated Piped
full = record {
  host = record { contents = started; unread = b'a' ∷ b'b' ∷ []; printed = b'$' ∷ [] };
  start_esp = 0x7000;
  dir_fd = minus_one;
  dir = 0;
  mem_fd = minus_one;
  execute_buf = 0x8000;
  execute_args = 0x9000;
}

-- The argument is copied to 0x1000, with a terminator after it.
abbrev opened : Emulated Piped
opened = record full {
  host = record full.host {
    contents = write (write (write started 0x1000 b'f') 0x1001 0) 0x1001 0;
  };
}

cat-emulated_system_example :
    (e : Emulated Piped) × (cat (emulated_system pipe) 2 0x1000 full ≡ some (e, 0))
    × (e.host.unread ≡ [])
    × (e.host.printed ≡ b'$' ∷ b'a' ∷ b'b' ∷ [])
unfolding ece391_open ece391_getargs args_from end_args ece391_strlen ece391_strcpy ece391_strcmp
    strcmp_from strlen_from strcpy strcpy_from load32
cat-emulated_system_example =
    cat-emulated_system pipe 2 3 0x1000 full opened opened pipe_feeds refl refl
      (λ z. absurd (omega arith)) refl tt (omega arith)
