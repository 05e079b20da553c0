-- ===== src/User/Programs.antt =====
-- The programs hello, testprint, cat, ls, counter and shell of syscalls/. Each takes the address of
-- its array `buf`. A loop that a program leaves by itself has fuel.
pub mod Cat
use linux.Base.{ℕ, zero, suc, ◌+◌, ◌-◌, ◌^◌, ◌||◌, ◌&&◌, not, ltb, ◌==◌, if◌then◌else◌}
use linux.Memory.{◌⊕◌}
use linux.CString.{slt}
use linux.User.{
  Program, System, ◌>>=◌, ◌>>◌, pure, diverge, load, store, get_memory, put_memory, result, say,
  ece391_fdputs, ece391_strlen, ece391_strcmp, ece391_itoa, minus_one,
}

module _ {S : Type 0} (sys : System S) where
  -- ece391testprint.c.
  unfoldable pub testprint : Program S ℕ
  testprint = do say sys "Hello, if this ran, the program was correct. Yay!\n"; pure 0

  -- ece391hello.c.
  unfoldable pub hello : ℕ → Program S ℕ
  hello buf = do
    say sys "Hi, what's your name? "
    cnt ← sys.ece391_read 0 buf 1023
    if cnt == minus_one
        then (do say sys "Can't read name from keyboard.\n"; pure 3)
        else (do store sys (buf ⊕ cnt) 0; say sys "Hello, "; ece391_fdputs sys 1 buf; pure 0)

  -- The loop of ece391cat.c.
  unfoldable pub copy_file : ℕ → ℕ → ℕ → Program S ℕ
  copy_file zero fd buf = diverge
  copy_file (suc f) fd buf =
      let rest = copy_file f fd buf in
      do
        cnt ← sys.ece391_read fd buf 1024
        if cnt == 0
            then pure 0
            else (if cnt == minus_one then (do say sys "file read failed\n"; pure 3) else (do
              written ← sys.ece391_write 1 buf cnt
              if written == minus_one then pure 3 else rest))

  unfoldable pub cat : ℕ → ℕ → Program S ℕ
  cat f buf = do
    args ← sys.ece391_getargs buf 1024
    if not (args == 0) then (do say sys "could not read arguments\n"; pure 3) else (do
      fd ← sys.ece391_open buf
      if fd == minus_one then (do say sys "file not found\n"; pure 2) else copy_file f fd buf)

  -- The loop of ece391ls.c.
  unfoldable pub list_names : ℕ → ℕ → ℕ → Program S ℕ
  list_names zero fd buf = diverge
  list_names (suc f) fd buf =
      let rest = list_names f fd buf in
      do
        cnt ← sys.ece391_read fd buf 32
        if cnt == 0
            then pure 0
            else (if cnt == minus_one
                then (do say sys "directory entry read failed\n"; pure 3)
                else (do
                  store sys (buf ⊕ cnt) b'\n'
                  written ← sys.ece391_write 1 buf (cnt ⊕ 1)
                  if written == minus_one then pure 3 else rest))

  unfoldable pub ls : ℕ → ℕ → Program S ℕ
  ls f buf = do
    fd ← sys.ece391_open (sys.literal ".")
    if fd == minus_one then (do say sys "directory open failed\n"; pure 2) else list_names f fd buf

  -- The last loop of ece391counter.c, with the rounds left.
  unfoldable pub count_from : ℕ → ℕ → ℕ → Program S ℕ
  count_from zero i buf = pure 0
  count_from (suc r) i buf = do
    m ← get_memory sys
    put_memory sys (ece391_itoa sys.fuel m (i ⊕ 1) buf 10)
    ece391_fdputs sys 1 buf
    say sys "\n"
    count_from r (i + 1) buf

  -- The switch. `max` is 0 for no choice.
  abbrev pub chosen : ℕ → ℕ
  chosen c =
      if c == b'0' then 100 else (if c == b'1' then 10000 else (if c == b'2' then 100000 else 0))

  unfoldable pub counter : ℕ → Program S ℕ
  counter buf = do
    say sys "Enter the Test Number: (0): 100, (1): 10000, (2): 100000\n"
    cnt ← sys.ece391_read 0 buf 1023
    if cnt == minus_one then (do say sys "Can't read the number from keyboard.\n"; pure 3) else (do
      store sys (buf ⊕ cnt) 0
      m ← get_memory sys
      len ← result sys (ece391_strlen sys.fuel m buf)
      c ← load sys buf
      if ltb 1 len || (len == 1) && (ltb c b'0' || ltb b'2' c)
          then (do say sys "Wrong Choice!\n"; pure 0)
          else count_from (chosen c) 0 buf)

  -- What the shell says of the result of a command.
  abbrev pub report : ℕ → Program S (Unit {0})
  report rval =
      if rval == minus_one
      then say sys "no such command\n"
      else (if rval == 256
          then say sys "program terminated by exception\n"
          else (if not (rval == 0) then say sys "program terminated abnormally\n" else pure tt))

  -- `if (cnt > 0 && '\n' == buf[cnt - 1]) cnt--; buf[cnt] = '\0';`
  abbrev pub cut_line : ℕ → ℕ → Program S (Unit {0})
  cut_line buf cnt = do
    last ← load sys (buf ⊕ (cnt ⊕ (2 ^ 32 - 1)))
    store sys (buf ⊕ (if slt 0 cnt && (last == b'\n') then cnt ⊕ (2 ^ 32 - 1) else cnt)) 0

  -- The loop of ece391shell.c.
  unfoldable pub shell_loop : ℕ → ℕ → Program S ℕ
  shell_loop zero buf = diverge
  shell_loop (suc f) buf =
      let rest = shell_loop f buf in
      do
        say sys "391OS> "
        cnt ← sys.ece391_read 0 buf 1023
        if cnt == minus_one then (do say sys "read from keyboard failed\n"; pure 3) else (do
          cut_line buf cnt
          m ← get_memory sys
          same ← result sys (ece391_strcmp sys.fuel m buf (sys.literal "exit"))
          first ← load sys buf
          if same == 0
              then pure 0
              else (if first == 0
                  then rest
                  else (do rval ← sys.ece391_execute buf; report rval; rest)))

  unfoldable pub shell : ℕ → ℕ → Program S ℕ
  shell f buf = do say sys "Starting 391 Shell\n"; shell_loop f buf
