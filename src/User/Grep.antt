-- ===== src/User/Grep.antt =====
-- ece391grep.c of syscalls/: the lines of all files that have a string. Each loop has fuel, and the
-- variables of a loop are its arguments.
use linux.Base.{ℕ, zero, suc, ◌-◌, ◌^◌, ◌&&◌, not, ◌==◌, if◌then◌else◌}
use linux.Memory.{Mem, ◌⊕◌}
use linux.CString.{slt, sign_extend}
use linux.User.{
  Program, System, ◌>>=◌, ◌>>◌, pure, diverge, load, store, get_memory, put_memory, result, say,
  ece391_fdputs, ece391_strlen, ece391_strcpy, ece391_strncmp, minus_one,
}

-- `while (line_end < last && '\n' != data[line_end]) line_end++`.
unfoldable pub find_line_end : ℕ → Mem → ℕ → ℕ → ℕ → ℕ
find_line_end zero m data_at last line_end = line_end
find_line_end (suc r) m data_at last line_end =
    let rest = find_line_end r m data_at last (line_end ⊕ 1) in
    if slt line_end last && not (m (data_at ⊕ line_end) == b'\n') then rest else line_end

module _ {S : Type 0} (sys : System S) where
  -- The search of a line: the first place where the string stands prints it. `s[0]` is a `char`, and
  -- `data[check]` an `uint8_t`.
  unfoldable pub search_line : ℕ → ℕ → ℕ → ℕ → ℕ → ℕ → ℕ → ℕ → Program S (Unit {0})
  search_line zero s fname s_len data_at line_start line_end check = pure tt
  search_line (suc r) s fname s_len data_at line_start line_end check =
      let rest = search_line r s fname s_len data_at line_start line_end (check ⊕ 1) in
      if not (slt check line_end) then pure tt else (do
        m ← get_memory sys
        if (sign_extend (m s) == m (data_at ⊕ check))
              && (ece391_strncmp m (data_at ⊕ check) s s_len == 0)
            then (do
              ece391_fdputs sys 1 fname
              say sys ":"
              ece391_fdputs sys 1 (data_at ⊕ line_start)
              say sys "\n")
            else rest)

  -- The lines of the buffer; the result is the new `last`.
  unfoldable pub search_lines : ℕ → ℕ → ℕ → ℕ → ℕ → ℕ → ℕ → ℕ → Program S ℕ
  search_lines zero s fname s_len data_at cnt last line_start = diverge
  search_lines (suc f) s fname s_len data_at cnt last line_start = do
    m ← get_memory sys
    let line_end = find_line_end (last - line_start) m data_at last line_start
    let rest = search_lines f s fname s_len data_at cnt last (line_end ⊕ 1)
    if not (m (data_at ⊕ line_end) == b'\n') && not (cnt == 0) && not (line_start == 0)
        then (do
          store sys (data_at ⊕ line_end) 0
          m' ← get_memory sys
          put_memory sys (ece391_strcpy sys.fuel m' data_at (data_at ⊕ line_start))
          pure (last ⊕ (2 ^ 32 - line_start)))
        else (do
          store sys (data_at ⊕ line_end) 0
          search_line (line_end - line_start) s fname s_len data_at line_start line_end line_start
          if not (slt (line_end ⊕ 1) last) then pure 0 else rest)

  -- The loop over the file, with what follows it; -1 when a read or the close fails.
  unfoldable pub search_file : ℕ → ℕ → ℕ → ℕ → ℕ → ℕ → ℕ → Program S ℕ
  search_file zero fd s fname s_len data_at last = diverge
  search_file (suc f) fd s fname s_len data_at last =
      let rest = search_file f fd s fname s_len data_at in
      do
        cnt ← sys.ece391_read fd (data_at ⊕ last) (1024 ⊕ (2 ^ 32 - last))
        if cnt == minus_one then (do say sys "file read failed\n"; pure minus_one) else (do
          last' ← search_lines sys.fuel s fname s_len data_at cnt (last ⊕ cnt) 0
          if cnt == 0
              then (do
                closed ← sys.ece391_close fd
                if closed == minus_one
                    then (do say sys "file close failed\n"; pure minus_one)
                    else pure 0)
              else rest last')

  unfoldable pub do_one_file : ℕ → ℕ → ℕ → ℕ → Program S ℕ
  do_one_file f data_at s fname = do
    m ← get_memory sys
    s_len ← result sys (ece391_strlen sys.fuel m s)
    fd ← sys.ece391_open fname
    if fd == minus_one
        then (do say sys "file open failed\n"; pure minus_one)
        else search_file f fd s fname s_len data_at 0

  -- The loop over the directory, with the addresses of `data`, `search` and `buf`.
  unfoldable pub search_all : ℕ → ℕ → ℕ → ℕ → ℕ → Program S ℕ
  search_all zero fd data_at search_at buf = diverge
  search_all (suc f) fd data_at search_at buf =
      let rest = search_all f fd data_at search_at buf in
      do
        cnt ← sys.ece391_read fd buf 32
        first ← load sys buf
        if cnt == 0
            then pure 0
            else (if cnt == minus_one
                then (do say sys "directory entry read failed\n"; pure 3)
                else (if first == b'.' then rest else (do
                  store sys (buf ⊕ cnt) 0
                  done ← do_one_file sys.fuel data_at search_at buf
                  if not (done == 0) then pure 3 else rest)))

  unfoldable pub grep : ℕ → ℕ → ℕ → ℕ → Program S ℕ
  grep f data_at search_at buf = do
    args ← sys.ece391_getargs search_at 1024
    if not (args == 0) then (do say sys "could not read argument\n"; pure 3) else (do
      fd ← sys.ece391_open (sys.literal ".")
      if fd == minus_one
          then (do say sys "directory open failed\n"; pure 2)
          else search_all f fd data_at search_at buf)
