-- ===== src/Fs.antt =====
-- drivers/fs.c: the read-only file system in the boot module, as bytes of memory.
pub mod Lookup
pub mod Names
pub mod Read
pub mod Image
pub mod Files
pub mod Loading
mod Tests
use linux.Base.{
  ℕ, zero, suc, ◌+◌, ◌-◌, ◌*◌, ◌/◌, ◌%◌, ◌^◌, Option, none, some, not, ◌&&◌, ltb, leb, ◌==◌,
  if◌then◌else◌, ◌>>=◌,
}
use linux.Memory.{Mem, ◌⊕◌, write, load32, memcpy}
use linux.CString.{strlen, strncmp, strcpy}
use linux.Pcb.{Pcb, FileDescriptor, descriptor, set_descriptor, minus_one}

-- The static variables of the driver.
pub record Fs : Type 0 where
  pub boot_block : ℕ
  pub fs_end : ℕ
  pub num_directories : ℕ
  pub num_inodes : ℕ

abbrev pub four_kb : ℕ
four_kb = 0x1000

-- `sizeof(dentry_t)`, and the offsets of its fields.
abbrev pub dentry_size : ℕ
dentry_size = 64

abbrev pub filetype_at : ℕ
filetype_at = 32

abbrev pub inode_index_at : ℕ
inode_index_at = 36

-- `fs_init`, with the fields of the module; what it prints is left out.
unfoldable pub fs_init : Mem → ℕ → ℕ → Fs
fs_init m mod_start mod_end = record {
  boot_block = mod_start;
  fs_end = mod_end;
  num_directories = load32 m mod_start;
  num_inodes = load32 m (mod_start ⊕ 4);
}

-- `&boot_block->dentry_directory[i]`; the name is the first field of the entry.
abbrev pub entry : Fs → ℕ → ℕ
entry fs i = (fs.boot_block + 64 + dentry_size * i) % 2 ^ 32

-- The loop of `read_dentry_by_name`, with the rounds left and its index; `f` is the fuel of each
-- `strlen`. The result is the memory and the status.
unfoldable pub find_from : ℕ → ℕ → Fs → Mem → ℕ → ℕ → ℕ → Option (Mem × ℕ)
find_from f zero fs m fname dentry i = some (m, minus_one)
find_from f (suc r) fs m fname dentry i =
    let rest = find_from f r fs m fname dentry (i + 1) in
    do
      wanted ← strlen f m fname
      found ← strlen f m (entry fs i)
      if not (wanted == found)
          then rest
          else (if strncmp m fname (entry fs i) wanted == 0
              then some (memcpy m dentry (entry fs i) dentry_size, 0)
              else rest)

unfoldable pub read_dentry_by_name : ℕ → Fs → Mem → ℕ → ℕ → Option (Mem × ℕ)
unfolding find_from
read_dentry_by_name f fs m fname dentry =
    if dentry == 0 then some (m, minus_one) else find_from f fs.num_directories fs m fname dentry 0

unfoldable pub read_dentry_by_index : Fs → Mem → ℕ → ℕ → Mem × ℕ
read_dentry_by_index fs m index dentry =
    if ltb index fs.num_directories && not (dentry == 0)
    then (memcpy m dentry (entry fs index) dentry_size, 0)
    else (m, minus_one)

-- The address of an inode, and that of the first data block.
abbrev pub inode_addr : Fs → ℕ → ℕ
inode_addr fs inode = (fs.boot_block + (inode + 1) * four_kb) % 2 ^ 32

abbrev pub data_block_addr : Fs → Mem → ℕ
data_block_addr fs m = (fs.boot_block + (load32 m (fs.boot_block ⊕ 4) + 1) * four_kb) % 2 ^ 32

-- `data_block_addr + (inode_addr->data[offset/FOUR_KB] * FOUR_KB)`.
abbrev pub block_at : Mem → ℕ → ℕ → ℕ → ℕ
block_at m base ia offset = (base + load32 m (ia ⊕ (4 + 4 * (offset / four_kb))) * four_kb) % 2 ^ 32

-- The loop of `read_data`, with the rounds left: the memory, and `bytes_in_block_read`.
module _ (base ia file_length buf : ℕ) where
  unfoldable pub read_from : ℕ → Mem → ℕ → ℕ → ℕ → ℕ → Mem × ℕ
  read_from zero m i offset block count = (m, count)
  read_from (suc r) m i offset block count =
      let m' = write m (buf ⊕ i) (m (block ⊕ (offset % four_kb))) in
      let block' =
        if (offset ⊕ 1) % four_kb == 0 then block_at m' base ia (offset ⊕ 1) else block in
      let rest = read_from r m' (i + 1) (offset ⊕ 1) block' (count + 1) in
      if ltb file_length (offset ⊕ 1) then (m', count) else rest

unfoldable pub read_data : Fs → Mem → ℕ → ℕ → ℕ → ℕ → Mem × ℕ
unfolding read_from
read_data fs m inode offset buf length =
    let ia = inode_addr fs inode in
    let base = data_block_addr fs m in
    let file_length = load32 m ia in
    let block = block_at m base ia offset in
    if buf == 0
    then (m, minus_one)
    else (if ltb file_length offset
        then (m, 0)
        else read_from base ia file_length buf length m 0 offset block 0)

-- `file_read` on the running process's control block.
unfoldable pub file_read : Fs → Mem → Pcb → ℕ → ℕ → ℕ → Mem × Pcb × ℕ
file_read fs m p fd buf bytes =
    if (descriptor p fd).flags == 0
    then (m, p, minus_one)
    else (let (m', n) =
          read_data fs m (descriptor p fd).inode_ptr (descriptor p fd).file_position buf bytes in
        (
          m',
          set_descriptor p fd
              (record (descriptor p fd) { file_position = (descriptor p fd).file_position ⊕ n }),
          n,
        ))

-- `file_write` and `dir_write` refuse everything; `dir_open` and `dir_close` do nothing.
unfoldable pub file_write : ℕ → ℕ → ℕ → ℕ
file_write inode buf bytes = minus_one

unfoldable pub dir_write : ℕ → ℕ → ℕ → ℕ
dir_write fd buf bytes = minus_one

unfoldable pub dir_open : ℕ → ℕ
dir_open dir_name = 0

unfoldable pub dir_close : ℕ
dir_close = 0

-- `dir_read`, with the address of its local entry. The number of bytes asked for is not used.
unfoldable pub dir_read : ℕ → Fs → Mem → ℕ → Pcb → ℕ → ℕ → Option (Mem × Pcb × ℕ)
dir_read f fs m test p fd buf =
    let position = (descriptor p fd).file_position in
    if leb fs.num_directories position then some (m, p, 0) else (do
      copied ← strcpy f (read_dentry_by_index fs m position test).0 buf test
      n ← strlen f copied buf
      some (
        copied,
        set_descriptor p fd (record (descriptor p fd) { file_position = position ⊕ 1 }),
        n,
      ))
