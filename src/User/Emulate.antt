-- ===== src/User/Emulate.antt =====
-- ece391emulate.c of syscalls/: the system calls for programs that run on Linux, whose own calls are a
-- parameter. The listing of a directory is made from the entries that Linux gives.
pub mod Execute
pub mod Copying
pub mod Names
use Prim.Native.String.{String}
use linux.Base.{
  ℕ, zero, suc, ◌+◌, ◌-◌, ◌*◌, ◌/◌, ◌%◌, ◌^◌, ◌&&◌, ◌||◌, Option, none, some, not, ltb, ◌==◌,
  if◌then◌else◌,
}
use linux.Memory.{Mem, ◌⊕◌, write, write4, load32}
use linux.CString.{slt}
use linux.User.{
  Program, System, ◌>>=◌, ◌>>◌, pure, diverge, minus_one, ece391_strlen, ece391_strcpy,
  ece391_strcmp,
}

-- What the file calls of Linux. A pointer is an address, and 0 is null. `readdir` gives the address of
-- the name of an entry, and `run` is `fork`, `execv` and `wait`, with the status of the child.
pub record Linux (S : Type 0) : Type 0 where
  pub host_memory : S → Mem
  pub host_set_memory : S → Mem → S
  pub host_read : ℕ → ℕ → ℕ → Program S ℕ
  pub host_write : ℕ → ℕ → ℕ → Program S ℕ
  pub host_open : ℕ → Program S ℕ
  pub host_close : ℕ → Program S ℕ
  pub open_null : Program S ℕ
  pub open_mem : Program S ℕ
  pub map_low_memory : ℕ → Program S ℕ
  pub opendir : Program S ℕ
  pub readdir : ℕ → Program S ℕ
  pub closedir : ℕ → Program S ℕ
  pub run : ℕ → ℕ → Program S ℕ
  pub host_literal : String → ℕ
  pub host_fuel : ℕ

-- The static variables, and the addresses of the local arrays `buf` and `args` of `ece391_execute`.
pub record Emulated (S : Type 0) : Type 0 where
  pub host : S
  pub start_esp : ℕ
  pub dir_fd : ℕ
  pub dir : ℕ
  pub mem_fd : ℕ
  pub execute_buf : ℕ
  pub execute_args : ℕ

-- The end of the copy of a name: zeros up to `nbytes`, and to 32.
unfoldable pub pad_name : ℕ → Mem → ℕ → ℕ → ℕ → Mem × ℕ
pad_name zero m to nbytes copied = (m, copied)
pad_name (suc r) m to nbytes copied =
    let rest = pad_name r (write m (to ⊕ copied) 0) to nbytes (copied + 1) in
    if slt copied nbytes && slt copied 32 then rest else (m, copied)

-- The loop over a name, which ends after 32 rounds at the latest, and the result.
unfoldable pub copy_name : ℕ → Mem → ℕ → ℕ → ℕ → ℕ → Mem × ℕ
copy_name zero m from to nbytes copied = (m, copied)
copy_name (suc r) m from to nbytes copied =
    let m1 = write m (to ⊕ copied) (m (from ⊕ copied)) in
    let rest = copy_name r m1 from to nbytes (copied + 1) in
    if m (from ⊕ copied) == 0
    then pad_name (suc r) m to nbytes copied
    else (if copied + 1 == nbytes
        then (m1, nbytes)
        else (if 32 == copied + 1 then (m1, 32) else rest))

-- The store of an address.
abbrev pub store32 : Mem → ℕ → ℕ → Mem
store32 m a v =
    write4 m a (v % 0x100) (v / 0x100 % 0x100) (v / 0x10000 % 0x100) (v / 0x1000000 % 0x100)

module _ {S : Type 0} (linux_host : Linux S) where
  abbrev pub host_call : {A : Type 0} → Program S A → Program (Emulated S) A
  host_call call e = elim (call e.host) [
    | none ↦ none
    | some (s, a) ↦ some (record e { host = s }, a)
  ]

  abbrev pub memory_of : Program (Emulated S) Mem
  memory_of e = some (e, linux_host.host_memory e.host)

  abbrev pub keep_memory : Mem → Program (Emulated S) (Unit {0})
  keep_memory m e = some (record e { host = linux_host.host_set_memory e.host m }, tt)

  abbrev pub take : {A : Type 0} → Option A → Program (Emulated S) A
  take none e = none
  take (some a) e = some (e, a)

  -- `NULL == dir || dir_fd != fd`.
  abbrev pub not_listing :
      Emulated S → ℕ → Program (Emulated S) ℕ → Program (Emulated S) ℕ → Option (Emulated S × ℕ)
  not_listing e fd direct listing =
      if (e.dir == 0) || not (e.dir_fd == fd) then direct e else listing e

  unfoldable pub ece391_open : ℕ → Program (Emulated S) ℕ
  ece391_open filename = do
    m ← memory_of
    same ← take (ece391_strcmp linux_host.host_fuel m filename (linux_host.host_literal "."))
    if same == 0
        then (do
          dir' ← host_call linux_host.opendir
          fd ← host_call linux_host.open_null
          λ e. some (record e { dir = dir'; dir_fd = fd }, fd))
        else (do
          rval ← host_call (linux_host.host_open filename)
          pure (if ltb 0xffffc000 rval then minus_one else rval))

  -- The entry whose name stands at `from`.
  unfoldable pub read_entry : ℕ → ℕ → ℕ → Program (Emulated S) ℕ
  read_entry from buf nbytes = if from == 0 then pure 0 else (do
    m ← memory_of
    keep_memory (copy_name 32 m from buf nbytes 0).0
    pure (copy_name 32 m from buf nbytes 0).1)

  unfoldable pub ece391_read : ℕ → ℕ → ℕ → Program (Emulated S) ℕ
  ece391_read fd buf nbytes e =
      not_listing e fd (host_call (linux_host.host_read fd buf nbytes))
        (do from ← host_call (linux_host.readdir e.dir); read_entry from buf nbytes)

  unfoldable pub ece391_write : ℕ → ℕ → ℕ → Program (Emulated S) ℕ
  ece391_write fd buf nbytes e =
      not_listing e fd (host_call (linux_host.host_write fd buf nbytes)) (pure minus_one)

  unfoldable pub ece391_close : ℕ → Program (Emulated S) ℕ
  ece391_close fd e = not_listing e fd (host_call (linux_host.host_close fd)) (do
    host_call (linux_host.closedir e.dir)
    host_call (linux_host.host_close e.dir_fd)
    λ e'. some (record e' { dir = 0; dir_fd = minus_one }, 0))

  -- The terminator after the arguments.
  unfoldable pub end_args : ℕ → ℕ → Program (Emulated S) ℕ
  end_args buf nbytes =
      if slt nbytes 1
      then pure minus_one
      else (do m ← memory_of; keep_memory (write m buf 0); pure 0)

  -- The loop over the arguments, with what follows it. It has fuel.
  unfoldable pub args_from : ℕ → ℕ → ℕ → ℕ → ℕ → ℕ → Program (Emulated S) ℕ
  args_from zero argc argv idx buf nbytes = diverge
  args_from (suc f) argc argv idx buf nbytes =
      let rest = args_from f argc argv (idx + 1) in
      do
        m ← memory_of
        let arg = load32 m (argv ⊕ 4 * idx)
        len ← take (ece391_strlen linux_host.host_fuel m arg)
        if slt nbytes len then pure minus_one else (do
          m1 ← take (ece391_strcpy linux_host.host_fuel m buf arg)
          keep_memory m1
          let buf' = buf ⊕ len
          let nbytes' = nbytes ⊕ (2 ^ 32 - len)
          if not (slt (idx + 1) argc)
              then end_args buf' nbytes'
              else (if slt nbytes' 1 then pure minus_one else (do
                keep_memory (write m1 buf' b' ')
                rest (buf' ⊕ 1) (nbytes' ⊕ (2 ^ 32 - 1)))))

  unfoldable pub ece391_getargs : ℕ → ℕ → Program (Emulated S) ℕ
  ece391_getargs buf nbytes e =
      let m = linux_host.host_memory e.host in
      let argc = load32 m e.start_esp in
      let argv = e.start_esp ⊕ 4 in
      if slt 1 argc
      then args_from linux_host.host_fuel argc argv 1 buf nbytes e
      else end_args buf nbytes e

  -- `mmap` of the first megabyte.
  unfoldable pub map_screen : ℕ → ℕ → Program (Emulated S) ℕ
  map_screen mem_fd' screen_start = do
    mem_image ← host_call (linux_host.map_low_memory mem_fd')
    if mem_image == minus_one
        then pure minus_one
        else (do m ← memory_of; keep_memory (store32 m screen_start (mem_image ⊕ 0xb8000)); pure 0)

  unfoldable pub ece391_vidmap : ℕ → Program (Emulated S) ℕ
  ece391_vidmap screen_start e =
      if e.mem_fd == minus_one
      then (do
        fd ← host_call linux_host.open_mem
        λ e1. map_screen fd screen_start (record e1 { mem_fd = fd }))
          e
      else map_screen e.mem_fd screen_start e
