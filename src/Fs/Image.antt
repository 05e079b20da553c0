-- ===== src/Fs/Image.antt =====
-- A well-formed image of drivers/fs.c, and the addresses that read_data uses.
use linux.Base.{ℕ, ◌+◌, ◌*◌, ◌/◌, ◌^◌, ◌≤◌, ◌<◌, ◌⊎◌, arith}
use linux.Memory.{Mem, ◌⊕◌, load32}
use linux.Fs.{Fs, four_kb, inode_addr, data_block_addr}
use linux.Fs.Read.{Clear, byte_addr, max_file}

abbrev pub inode_count : Fs → Mem → ℕ
inode_count fs m = load32 m (fs.boot_block ⊕ 4)

abbrev pub block_count : Fs → Mem → ℕ
block_count fs m = load32 m (fs.boot_block ⊕ 8)

abbrev pub file_length : Fs → Mem → ℕ → ℕ
file_length fs m inode = load32 m (inode_addr fs inode)

abbrev pub block_number : Fs → Mem → ℕ → ℕ → ℕ
block_number fs m inode q = load32 m (inode_addr fs inode ⊕ (4 + 4 * (q / four_kb)))

-- The boot block, the inodes and the data blocks fit the address space.
abbrev pub image_size : Fs → Mem → ℕ
image_size fs m = (1 + inode_count fs m + block_count fs m) * four_kb

-- An inode of the image whose file uses data blocks of the image only.
pub record IsFile (fs : Fs) (m : Mem) (inode : ℕ) : Type 0 where
  pub fits : fs.boot_block + image_size fs m ≤ 2 ^ 32
  pub listed : inode < inode_count fs m
  pub short : file_length fs m inode ≤ max_file
  pub mapped : (q : ℕ) → q < file_length fs m inode → block_number fs m inode q < block_count fs m

-- For a file of an image that fits the address space, whose blocks are data blocks of the image:
-- every byte of the file lies in the data blocks of the image.
pub byte_addr-in_image :
    (fs : Fs) (m : Mem) (inode q : ℕ)
    → IsFile fs m inode
    → q < file_length fs m inode
    → let a = byte_addr m (data_block_addr fs m) (inode_addr fs inode) (file_length fs m inode) q in
      (fs.boot_block + (1 + inode_count fs m) * four_kb ≤ a) × (a < fs.boot_block + image_size fs m)
byte_addr-in_image fs m inode q w h = omega (arith, w.mapped q h)

-- So a buffer outside the image is clear of the file.
pub IsFile-Clear :
    (fs : Fs) (m : Mem) (inode buf n : ℕ)
    → IsFile fs m inode
    → (buf + n ≤ fs.boot_block) ⊎ (fs.boot_block + image_size fs m ≤ buf)
    → buf + n < 2 ^ 32
    → Clear m (data_block_addr fs m) (inode_addr fs inode) (file_length fs m inode) buf n
IsFile-Clear fs m inode buf n w apart h = record {
  fits = h;
  small = w.short;
  table_fits = omega arith;
  table = λ a lo hi. omega arith;
  bytes = λ q k. omega (arith, byte_addr-in_image fs m inode q w k);
}
