-- ===== src/Fs/Loading.antt =====
-- file_open, file_close, loader and executable_check of drivers/fs.c.
use linux.Base.{
  ℕ, ◌+◌, ◌-◌, ◌*◌, ◌%◌, ◌^◌, ◌≡◌, ◌↔◌, ◌≢◌, ◌≤◌, ◌<◌, ◌⊎◌, refl, arith, Bool, inl, inr, Option,
  some, not, ◌&&◌, ◌||◌, ◌==◌, if◌then◌else◌, ◌>>=◌,
}
use linux.Memory.{Mem, ◌⊕◌, load32}
use linux.CString.{slt}
use linux.Pcb.{
  Pcb, unassigned, rtc_driver, file_driver, dir_driver, descriptor, set_descriptor, minus_one,
  fd_max, pcb_open, pcb_close,
}
use linux.Fs.{Fs, filetype_at, inode_index_at, read_dentry_by_name, read_data}
use linux.Fs.Read.{read_data-Loaded}
use linux.Fs.Image.{file_length}
use linux.Fs.Files.{ClearOf, contents}

abbrev pub rtc_type : ℕ
rtc_type = 0

abbrev pub directory_type : ℕ
directory_type = 1

abbrev pub file_type : ℕ
file_type = 2

-- The switch of `file_open`: the table of the new descriptor, for a type in the directory. No other
-- type has a table.
pub set_driver : Pcb → ℕ → ℕ → Pcb
set_driver p fd filetype =
    if filetype == file_type
    then set_descriptor p fd (record (descriptor p fd) { file_operation_jmp_tbl = file_driver })
    else (if filetype == directory_type
        then set_descriptor p fd (record (descriptor p fd) { file_operation_jmp_tbl = dir_driver })
        else (if filetype == rtc_type
            then record (set_descriptor p fd
                (record (descriptor p fd) { file_operation_jmp_tbl = rtc_driver })) { rtc = 1 }
            else p))

-- With the address of its local entry: the memory, the control block and the descriptor.
unfoldable pub file_open : ℕ → Fs → Mem → ℕ → Pcb → ℕ → Option (Mem × Pcb × ℕ)
unfolding set_driver
file_open f fs m dentry p filename = do
  found ← read_dentry_by_name f fs m filename dentry
  if not (found.1 == 0)
      then some (found.0, p, minus_one)
      else (let opened = pcb_open p unassigned in
          let fd = opened.1 in
          if fd == minus_one
          then some (found.0, opened.0, minus_one)
          else (let filetype = load32 (found.0) (dentry ⊕ filetype_at) in
              let p' = set_driver (opened.0) fd filetype in
              let p'' =
                if filetype == file_type
                then set_descriptor p' fd (record (descriptor p' fd) {
                  inode_ptr = load32 (found.0) (dentry ⊕ inode_index_at);
                })
                else p' in
              some (found.0, p'', fd)))

-- On the control block that the uninitialised `curr_pcb` happens to point to.
unfoldable pub file_close : Pcb → ℕ → Pcb × ℕ
file_close p fd =
    if not (slt fd fd_max) || slt fd 0 then (p, minus_one) else pcb_close p (fd % 2 ^ 8)

abbrev pub program_start_ptr : ℕ
program_start_ptr = 0x8000000 + 0x48000

-- The four bytes of the entry point do not overlap, so that `|=` adds them.
abbrev pub entry_value : Mem → ℕ → ℕ
entry_value m a = (m a + 0x100 * m (a ⊕ 1) + 0x10000 * m (a ⊕ 2) + 0x1000000 * m (a ⊕ 3)) % 2 ^ 32

-- With the addresses of its local entry and of the array `entry_point`: the memory, and the result.
unfoldable pub loader : ℕ → Fs → Mem → ℕ → ℕ → ℕ → Option (Mem × ℕ)
loader f fs m dentry entry_point filename = do
  found ← read_dentry_by_name f fs m filename dentry
  if not (found.1 == 0)
      then some (found.0, minus_one)
      else (let loaded =
            read_data fs (found.0) (load32 (found.0) (dentry ⊕ inode_index_at)) 0 program_start_ptr
              (0x400000 - 0x48000) in
          let entry =
            read_data fs (loaded.0) (load32 (loaded.0) (dentry ⊕ inode_index_at)) 24 entry_point
              4 in
          some (entry.0, entry_value (entry.0) entry_point))

-- The four bytes at `a` are the magic number of an executable.
abbrev pub is_magic : Mem → ℕ → Bool
is_magic m a = (m a == 0x7f) && (m (a ⊕ 1) == 0x45) && (m (a ⊕ 2) == 0x4c) && (m (a ⊕ 3) == 0x46)

-- With the inode of the entry and the address of the array `magic_buf`: the memory, and 0 for a valid
-- program.
unfoldable pub executable_check : Fs → Mem → ℕ → ℕ → Mem × ℕ
executable_check fs m inode magic_buf =
    let r = read_data fs m inode 0 magic_buf 4 in
    if r.1 == 0 then (r.0, 0) else (r.0, if is_magic (r.0) magic_buf then 0 else 1)

-- The file starts with the magic number.
abbrev pub StartsMagic : Fs → Mem → ℕ → Type 0
StartsMagic fs m inode =
    (contents fs m inode 0 ≡ 0x7f)
    × (contents fs m inode 1 ≡ 0x45)
    × (contents fs m inode 2 ≡ 0x4c)
    × (contents fs m inode 3 ≡ 0x46)

-- The test on the bytes that were read.
abbrev checked : Mem × ℕ → ℕ → Mem × ℕ
checked r buf = if r.1 == 0 then (r.0, 0) else (r.0, if is_magic (r.0) buf then 0 else 1)

checked_lem :
    (r : Mem × ℕ) (buf c0 c1 c2 c3 : ℕ)
    → buf + 4 < 2 ^ 32
    → r.1 ≡ 4
    → r.0 (buf + 0) ≡ c0
    → r.0 (buf + 1) ≡ c1
    → r.0 (buf + 2) ≡ c2
    → r.0 (buf + 3) ≡ c3
    → ((checked r buf).1 ≡ 0) ↔ ((c0 ≡ 0x7f) × (c1 ≡ 0x45) × (c2 ≡ 0x4c) × (c3 ≡ 0x46))
checked_lem (m, n) buf c0 c1 c2 c3 h e b0 b1 b2 b3 =
    let a0 : m buf ≡ c0 = (let z : buf + 0 ≡ buf = omega arith in rw z at b0) in
    let a1 : m (buf ⊕ 1) ≡ c1 = (let z : buf ⊕ 1 ≡ buf + 1 = omega arith in rw z b1) in
    let a2 : m (buf ⊕ 2) ≡ c2 = (let z : buf ⊕ 2 ≡ buf + 2 = omega arith in rw z b2) in
    let a3 : m (buf ⊕ 3) ≡ c3 = (let z : buf ⊕ 3 ≡ buf + 3 = omega arith in rw z b3) in
    rw (e, a0, a1, a2, a3) (magic_lem c0 c1 c2 c3)
  where
    verdict : ℕ → ℕ → ℕ → ℕ → ℕ
    verdict c0 c1 c2 c3 =
        if (c0 == 0x7f) && (c1 == 0x45) && (c2 == 0x4c) && (c3 == 0x46) then 0 else 1

    magic_lem :
        (c0 c1 c2 c3 : ℕ)
        → (verdict c0 c1 c2 c3 ≡ 0) ↔ ((c0 ≡ 0x7f) × (c1 ≡ 0x45) × (c2 ≡ 0x4c) × (c3 ≡ 0x46))
    magic_lem c0 c1 c2 c3 = (
      (λ z. (ground (arith, z), ground (arith, z), ground (arith, z), ground (arith, z))),
      (λ z. ground (arith, z.0, z.1, z.2, z.3)),
    )

-- For a buffer of 4 bytes that is not null, ends below 2^32 and overlaps neither the inode nor the
-- bytes of the file, of at most 1023 blocks, and a file that is empty or of 4 bytes or more:
-- `executable_check` accepts it exactly when it is empty or starts with the magic number.
pub executable_check_lem :
    (fs : Fs) (m : Mem) (inode buf : ℕ)
    → buf ≢ 0
    → ClearOf fs m inode buf 4
    → (file_length fs m inode ≡ 0) ⊎ (4 ≤ file_length fs m inode)
    → ((executable_check fs m inode buf).1 ≡ 0)
      ↔ ((file_length fs m inode ≡ 0) ⊎ StartsMagic fs m inode)
unfolding executable_check
executable_check_lem fs m inode buf nonnull c size =
    let l = read_data-Loaded fs m inode 0 buf 4 c nonnull (omega arith) in
    elim size [
      | inl empty ↦
          let none_read : (read_data fs m inode 0 buf 4).1 ≡ 0 = omega (arith, l.counted) in
          rw none_read ((λ z. inl empty), (λ z. refl))
      | inr long ↦
          let (forth, back) =
            checked_lem (read_data fs m inode 0 buf 4) buf _ _ _ _ c.fits (omega (arith, l.counted))
              (l.loaded 0 (omega arith)) (l.loaded 1 (omega arith)) (l.loaded 2 (omega arith))
              (l.loaded 3 (omega arith)) in
          ((λ z. inr (forth z)), (λ o. elim o [ inl z ↦ absurd (omega arith) | inr z ↦ back z ]))
    ]
