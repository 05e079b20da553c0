-- ===== src/Fs/Tests.antt =====
-- drivers/fs.c on a concrete image.
use linux.Base.{
  ℕ, ◌/◌, ◌<◌, ◌≡◌, ◌⊎◌, inl, inr, refl, arith, ◌==◌, ◌||◌, some, if◌then◌else◌, set, replicate, [],
}
use linux.Memory.{Mem, load32, within}
use linux.CString.{IsString}
use linux.Pcb.{Pcb, file_driver, closed, fd_max}
use linux.Fs.{
  Fs, fs_init, entry, inode_addr, data_block_addr, read_data, file_read, read_dentry_by_name,
  minus_one, four_kb,
}
use linux.Fs.Read.{Loaded, read_data-Loaded}
use linux.Fs.Image.{IsFile, IsFile-Clear}
use linux.Fs.Lookup.{Names, Found, read_dentry_by_name-Found}
use linux.Fs.Names.{IsFull, name_size, full_name_lost}
use linux.Fs.Files.{Advanced, ClearOf, file_read-Advanced}

-- At 0x10000 one entry, named "a", one inode and one data block; the file holds 5 times 'x'. The
-- name "a" stands at 16 as well.
abbrev image : Mem
image a =
    if a == 16 || a == 0x10040
    then b'a'
    else (if a == 0x10000 || (a == 0x10004 || a == 0x10008)
        then 1
        else (if a == 0x11000 then 5 else (if within 0x12000 5 a then b'x' else 0)))

abbrev disk : Fs
disk = record { boot_block = 0x10000; fs_end = 0x13000; num_directories = 1; num_inodes = 1 }

fs_init-disk : fs_init image 0x10000 0x13000 ≡ disk
unfolding fs_init load32
fs_init-disk = refl

image-IsFile : IsFile disk image 0
unfolding load32
image-IsFile = record {
  fits = omega arith;
  listed = omega arith;
  short = omega arith;
  mapped = λ q h. let e : q / four_kb ≡ 0 = omega arith in rw e (omega arith);
}

buffer : ClearOf disk image 0 100 64
buffer = IsFile-Clear disk image 0 100 64 image-IsFile (inl (omega arith)) (omega arith)

read_data-Loaded_example :
    Loaded image
      (data_block_addr disk image)
      (inode_addr disk 0)
      (load32 image (inode_addr disk 0))
      image
      100
      2
      64
      0
      (read_data disk image 0 2 100 64)
unfolding load32
read_data-Loaded_example = read_data-Loaded disk image 0 2 100 64 buffer (omega arith) (omega arith)

-- A process with the file open as descriptor 2, at position 3.
abbrev reader : Pcb
reader = record {
  elements = set (replicate fd_max closed) 2 (record {
    file_operation_jmp_tbl = file_driver;
    inode_ptr = 0;
    file_position = 3;
    flags = 1;
  });
  parent_pcb = 0;
  child = 0;
  esp_reg = 0;
  ebp_reg = 0;
  pid = 1;
  args = [];
  vidmap = 0;
  term = 0;
  rtc_fd = 0;
  rtc = 0;
  rtc_rate = 0;
}

file_read-Advanced_example :
    Advanced disk image reader 2 100 64 (file_read disk image reader 2 100 64)
unfolding load32
file_read-Advanced_example =
    file_read-Advanced disk image reader 2 100 64 (omega arith) (omega arith) (omega arith)
      (omega arith) buffer

only_entry : (i : ℕ) → i < 1 → IsString image (entry disk i) 1
only_entry i h =
    let e : i ≡ 0 = omega arith in rw e (record { end = refl; before = λ k l. ground arith })

image-Names : Names 9 disk image 16 1 (λ i. 1)
image-Names = record {
  bytes = λ a. ground arith;
  wanted = record { end = refl; before = λ k h. ground arith };
  wanted_fuel = omega arith;
  named = only_entry;
  named_fuel = λ i h. omega arith;
  fuel_small = omega arith;
}

read_dentry_by_name-Found_example :
    Found disk image 16 1 (λ i. 1) 200 0 1 (read_dentry_by_name 9 disk image 16 200)
read_dentry_by_name-Found_example =
    read_dentry_by_name-Found 9 disk image 16 1 (λ i. 1) 200 image-Names (omega arith)

-- The same directory with a name of 32 times 'x', of a regular file.
abbrev long : Mem
long a = if within 16 32 a || within 0x10040 32 a then b'x' else (if a == 0x10060 then 2 else 0)

long-IsFull : IsFull long 0x10040
long-IsFull = record { chars = λ q h. ground arith; kind = refl; kind_high = refl }

long-entry : (i : ℕ) → i < 1 → IsString long (entry disk i) 33
long-entry i h =
    let e : i ≡ 0 = omega arith in rw e (record { end = refl; before = λ k l. ground arith })

long_shape : (i : ℕ) → i < 1 → (33 < name_size) ⊎ IsFull long (entry disk i)
long_shape i h = let e : i ≡ 0 = omega arith in inr (rw e long-IsFull)

long-Names : Names 40 disk long 16 name_size (λ i. 33)
long-Names = record {
  bytes = λ a. ground arith;
  wanted = record { end = refl; before = λ k h. ground arith };
  wanted_fuel = omega arith;
  named = long-entry;
  named_fuel = λ i h. omega arith;
  fuel_small = omega arith;
}

full_name_lost_example : read_dentry_by_name 40 disk long 16 200 ≡ some (long, minus_one)
full_name_lost_example =
    full_name_lost 40 disk long 16 (λ i. 33) 200 long-Names long_shape (omega arith)
