-- ===== src/User/Emulate/Execute.antt =====
-- ece391emulate.c of syscalls/: ece391_execute, and the whole as what a program runs on.
use linux.Base.{
  ℕ, zero, suc, ◌+◌, ◌*◌, ◌/◌, ◌%◌, ◌&&◌, ◌||◌, Option, none, some, not, ltb, ◌==◌, if◌then◌else◌,
}
use linux.Memory.{Mem, ◌⊕◌, write}
use linux.User.{
  Program, System, ◌>>=◌, ◌>>◌, pure, diverge, minus_one, ece391_strlen, ece391_strcpy,
}
use linux.User.Emulate.{
  Linux, Emulated, store32, host_call, memory_of, keep_memory, take, ece391_read, ece391_write,
  ece391_open, ece391_close, ece391_getargs, ece391_vidmap,
}

-- `while ('\0' != *scan && ' ' != *scan && '\n' != *scan) scan++`. It has fuel.
unfoldable pub skip_word : ℕ → Mem → ℕ → Option ℕ
skip_word zero m scan = none
skip_word (suc f) m scan =
    let rest = skip_word f m (scan ⊕ 1) in
    if not (m scan == 0) && not (m scan == b' ') && not (m scan == b'\n') then rest else some scan

unfoldable pub skip_spaces : ℕ → Mem → ℕ → Option ℕ
skip_spaces zero m scan = none
skip_spaces (suc f) m scan =
    let rest = skip_spaces f m (scan ⊕ 1) in if m scan == b' ' then rest else some scan

module _ {S : Type 0} (linux_host : Linux S) where
  -- The loop over the words of a command, with `scan` and `n_arg`: the null after them. It has fuel.
  unfoldable pub words_from : ℕ → ℕ → ℕ → ℕ → Program (Emulated S) (Unit {0})
  words_from zero args scan n_arg = diverge
  words_from (suc f) args scan n_arg =
      let rest = words_from f args in
      do
        m ← memory_of linux_host
        word ← take linux_host (skip_spaces linux_host.host_fuel m scan)
        if (m word == 0) || (m word == b'\n')
            then keep_memory linux_host (store32 (write m word 0) (args ⊕ 4 * n_arg) 0)
            else (do
              let m1 = store32 m (args ⊕ 4 * n_arg) word
              end ← take linux_host (skip_word linux_host.host_fuel m1 word)
              if not (m1 end == 0)
                  then (do keep_memory linux_host (write m1 end 0); rest (end ⊕ 1) (n_arg + 1))
                  else (do keep_memory linux_host m1; rest end (n_arg + 1)))

  -- The status that `wait` stores, as the macros of Linux read it.
  unfoldable pub child_status : ℕ → ℕ
  child_status status =
      if status % 0x80 == 0
      then status / 0x100 % 0x100
      else (if status % 0x80 == 9 then minus_one else 256)

  unfoldable pub ece391_execute : ℕ → Program (Emulated S) ℕ
  ece391_execute command e =
      let buf = e.execute_buf in
      let args = e.execute_args in
      (do
        m0 ← memory_of linux_host
        len ← take linux_host (ece391_strlen linux_host.host_fuel m0 command)
        if ltb 1023 len then pure minus_one else (do
          let m1 = write (write m0 buf b'.') (buf ⊕ 1) b'/'
          m2 ← take linux_host (ece391_strcpy linux_host.host_fuel m1 (buf ⊕ 2) command)
          scan ← take linux_host (skip_word linux_host.host_fuel m2 (buf ⊕ 2))
          let m3 = store32 m2 args buf
          if not (m3 scan == 0)
              then (do
                keep_memory linux_host (write m3 scan 0)
                words_from linux_host.host_fuel args (scan ⊕ 1) 1)
              else keep_memory linux_host (store32 m3 (args ⊕ 4) 0)
          status ← host_call linux_host (linux_host.run buf args)
          pure (child_status status)))
        e

  -- What a program runs on when it runs on Linux. The file has no `ece391_set_handler`.
  abbrev pub emulated_system : System (Emulated S)
  emulated_system = record {
    memory = λ e. linux_host.host_memory e.host;
    set_memory = λ e m. record e { host = linux_host.host_set_memory e.host m };
    ece391_read = ece391_read linux_host;
    ece391_write = ece391_write linux_host;
    ece391_open = ece391_open linux_host;
    ece391_close = ece391_close linux_host;
    ece391_getargs = ece391_getargs linux_host;
    ece391_vidmap = ece391_vidmap linux_host;
    ece391_execute = ece391_execute;
    ece391_set_handler = λ signum handler. diverge;
    literal = linux_host.host_literal;
    fuel = linux_host.host_fuel;
  }
