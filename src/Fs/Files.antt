-- ===== src/Fs/Files.antt =====
-- Reading an open file piece by piece, by file_read of drivers/fs.c.
use linux.Base.{
  ℕ, ◌+◌, ◌-◌, ◌≤◌, ◌<◌, ◌≡◌, ◌≢◌, ◌⊎◌, ap, ◌∙◌, ◌↔◌, arith, min, ==_false, length, get_or-set_self,
}
use linux.Memory.{Mem, SameOutside, ◌⊕◌}
use linux.Pcb.{Pcb, descriptor, closed}
use linux.Fs.{Fs, inode_addr, data_block_addr, read_data, file_read}
use linux.Fs.Read.{byte_addr, Clear, Loaded, read_data-Loaded}
use linux.Fs.Image.{file_length}

abbrev pub ClearOf : Fs → Mem → ℕ → ℕ → ℕ → Type 0
ClearOf fs m inode buf n =
    Clear m (data_block_addr fs m) (inode_addr fs inode) (file_length fs m inode) buf n

-- The byte of the file at an offset.
abbrev pub contents : Fs → Mem → ℕ → ℕ → ℕ
contents fs m inode q =
    m (byte_addr m (data_block_addr fs m) (inode_addr fs inode) (file_length fs m inode) q)

-- One `file_read`: the next piece of the file, and the position moved past it.
pub record Advanced (fs : Fs) (m : Mem) (p : Pcb) (fd buf n : ℕ) (out : Mem × Pcb × ℕ)
    : Type 0 where
  pub returned :
      out.2 ≡ min n (file_length fs m (descriptor p fd).inode_ptr - (descriptor p fd).file_position)
  pub moved :
      descriptor out.1 fd
      ≡ record (descriptor p fd) { file_position = (descriptor p fd).file_position + out.2 }
  pub filled :
      (k : ℕ)
      → k < out.2
      → out.0 (buf + k)
        ≡ contents fs m (descriptor p fd).inode_ptr ((descriptor p fd).file_position + k)
  pub kept : SameOutside m out.0 buf n

-- For an open descriptor whose position is within its file, and a buffer that is not null, ends
-- below 2^32 and overlaps neither the inode nor the bytes of the file, of at most 1023 blocks:
-- `file_read` returns the bytes that follow the position, as many as were asked for or as are left,
-- moves the position past them, and changes no memory outside the buffer.
pub file_read-Advanced :
    (fs : Fs) (m : Mem) (p : Pcb) (fd buf n : ℕ)
    → (descriptor p fd).flags ≢ 0
    → fd < length p.elements
    → (descriptor p fd).file_position ≤ file_length fs m (descriptor p fd).inode_ptr
    → buf ≢ 0
    → ClearOf fs m (descriptor p fd).inode_ptr buf n
    → Advanced fs m p fd buf n (file_read fs m p fd buf n)
unfolding file_read
file_read-Advanced fs m p fd buf n active h within nonnull c = rw (==_false _ _ active) (record {
  returned = omega (arith, l.counted);
  moved =
      get_or-set_self p.elements fd _ closed h
      ∙ ap (λ (x : ℕ). record (descriptor p fd) { file_position = x }) no_wrap;
  filled = λ k less. l.loaded k (omega (arith, l.counted));
  kept = l.kept;
})
  where
    inode : ℕ
    inode = (descriptor p fd).inode_ptr

    l :
        Loaded m
          (data_block_addr fs m)
          (inode_addr fs inode)
          (file_length fs m inode)
          m
          buf
          (descriptor p fd).file_position
          n
          0
          (read_data fs m inode (descriptor p fd).file_position buf n)
    l = read_data-Loaded fs m inode (descriptor p fd).file_position buf n c nonnull within

    no_wrap :
        (descriptor p fd).file_position
          ⊕ (read_data fs m inode (descriptor p fd).file_position buf n).1
        ≡ (descriptor p fd).file_position
          + (read_data fs m inode (descriptor p fd).file_position buf n).1
    no_wrap = omega (arith, l.counted, c.small)

-- For such a descriptor and buffer (open, within its file of at most 1023 blocks; not null, below
-- 2^32, apart from inode and file): `file_read` returns 0 exactly when it is asked for 0 bytes or
-- the position is at the end of the file.
pub file_read_end :
    (fs : Fs) (m : Mem) (p : Pcb) (fd buf n : ℕ)
    → (descriptor p fd).flags ≢ 0
    → fd < length p.elements
    → (descriptor p fd).file_position ≤ file_length fs m (descriptor p fd).inode_ptr
    → buf ≢ 0
    → ClearOf fs m (descriptor p fd).inode_ptr buf n
    → ((file_read fs m p fd buf n).2 ≡ 0)
      ↔ ((n ≡ 0) ⊎ ((descriptor p fd).file_position ≡ file_length fs m (descriptor p fd).inode_ptr))
file_read_end fs m p fd buf n active h within nonnull c =
    let a = file_read-Advanced fs m p fd buf n active h within nonnull c in
    ((λ z. omega (arith, a.returned)), (λ s. omega (arith, a.returned)))
