-- ===== src/Kernel/Command.antt =====
-- The command line of syscall_execute and syscall_init_shell in kernel/syscall.c.
use linux.Base.{
  ℕ, zero, suc, ◌+◌, ◌-◌, ◌%◌, ◌^◌, Option, none, some, ◌&&◌, leb, ◌==◌, if◌then◌else◌, ◌>>=◌,
}
use linux.Memory.{Mem, ◌⊕◌, write}
use linux.Kernel.{Frame}

-- The name is longer than its buffer, or the memory, `i`, `fname_length` and `file_flag` at the end.
pub data Parse : Type 0 where
  too_long : Parse
  parsed : Mem → ℕ → ℕ → ℕ → Parse

abbrev pub buffer_length : ℕ
buffer_length = 32

-- The index `i - fname_length - 1`.
abbrev pub arg_index : ℕ → ℕ → ℕ
arg_index i fname_length = (i + 2 ^ 32 - fname_length + 2 ^ 32 - 1) % 2 ^ 32

-- The loop over the characters, with fuel. The branch for a space once the flag is set comes after
-- the one for the flag, so nothing reaches it.
unfoldable pub parse_from : ℕ → Frame → Mem → ℕ → ℕ → ℕ → ℕ → Option Parse
parse_from zero l m command i fname_length file_flag = none
parse_from (suc f) l m command i fname_length file_flag =
    let c = m (command ⊕ i) in
    let named = parse_from f l (write m (l.fname ⊕ i) 0) command (i ⊕ 1) i 1 in
    let argument =
      parse_from f l (write m (l.fargs ⊕ arg_index i fname_length) c) command (i ⊕ 1) fname_length
        file_flag in
    let letter = parse_from f l (write m (l.fname ⊕ i) c) command (i ⊕ 1) fname_length file_flag in
    if c == 0
    then some (parsed m i fname_length file_flag)
    else (if (c == b' ') && (file_flag == 0)
        then named
        else (if file_flag == 1
            then argument
            else (if (file_flag == 1) && (c == b' ')
                then letter
                else (if leb buffer_length i && (file_flag == 0) then some too_long else letter))))

-- After the loop: the two terminators.
abbrev pub terminate : Frame → Mem → ℕ → ℕ → ℕ → Mem
terminate l m i fname_length file_flag =
    let m' = write m (l.fargs ⊕ arg_index i fname_length) 0 in
    if file_flag == 0 then write m' (l.fname ⊕ i) 0 else m'

-- The memory with the name and the arguments in their buffers, or a name that is too long.
abbrev pub finish : Frame → Parse → Option Mem
finish l too_long = none
finish l (parsed m i fname_length file_flag) = some (terminate l m i fname_length file_flag)

unfoldable pub parse : ℕ → Frame → Mem → ℕ → Option (Option Mem)
unfolding parse_from
parse f l m command = do p ← parse_from f l m command 0 0 0; some (finish l p)
