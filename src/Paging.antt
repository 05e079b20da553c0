-- ===== src/Paging.antt =====
-- kernel/paging.c: the page directories and tables of the processes.
pub mod Translate
pub mod Programs
pub mod Video
mod Tests
use Prim.Native.Nat.{bit_and}
use linux.Base.{
  ℕ, ◌+◌, ◌-◌, ◌*◌, ◌/◌, ◌%◌, ◌^◌, Bool, true, false, not, ◌&&◌, Option, none, some, ltb, ◌==◌,
  if◌then◌else◌,
}
use linux.Tasks.{max_pid}

-- `pde_t`.
pub record Pde : Type 0 where
  pub present : ℕ
  pub read_write : ℕ
  pub user_supervisor : ℕ
  pub write_through : ℕ
  pub cache_disabled : ℕ
  pub accessed : ℕ
  pub zero_bit : ℕ
  pub page_size : ℕ
  pub global : ℕ
  pub avail : ℕ
  pub page_table_addr : ℕ

-- `pte_t`.
pub record Pte : Type 0 where
  pub present : ℕ
  pub read_write : ℕ
  pub user_supervisor : ℕ
  pub write_through : ℕ
  pub cache_disabled : ℕ
  pub accessed : ℕ
  pub dirty : ℕ
  pub zero_bit : ℕ
  pub global : ℕ
  pub avail : ℕ
  pub physical_page_addr : ℕ

-- The addresses that the linker gives to the four arrays.
pub record Layout : Type 0 where
  pub page_dir_at : ℕ
  pub page_table_at : ℕ
  pub user_page_table_at : ℕ
  pub user_video_at : ℕ

pub record Paging : Type 0 where
  pub page_dir_table : ℕ → ℕ → Pde
  pub page_table : ℕ → Pte
  pub user_page_table : ℕ → Pte
  pub user_video_page : ℕ → ℕ → Pte
  pub cr3 : ℕ

abbrev pub entries : ℕ
entries = 1024

abbrev pub video_mem_start : ℕ
video_mem_start = 0xb8

abbrev pub kernal_start : ℕ
kernal_start = 0x400

abbrev pub p_img : ℕ
p_img = 0x20

abbrev pub video_mem_load : ℕ
video_mem_load = 31

abbrev pub program_start : ℕ
program_start = 0x8000000

abbrev pub four_mb : ℕ
four_mb = 0x400000

abbrev pub four_kb : ℕ
four_kb = 0x1000

-- A directory entry of which the code sets these fields, and the others to 0.
abbrev pub pde : ℕ → ℕ → ℕ → ℕ → ℕ → ℕ → Pde
pde p rw_bit user size glob addr = record {
  present = p;
  read_write = rw_bit;
  user_supervisor = user;
  write_through = 0;
  cache_disabled = 0;
  accessed = 0;
  zero_bit = 0;
  page_size = size;
  global = glob;
  avail = 0;
  page_table_addr = addr % 2 ^ 20;
}

abbrev pub pte : ℕ → ℕ → ℕ → ℕ → Pte
pte p rw_bit user addr = record {
  present = p;
  read_write = rw_bit;
  user_supervisor = user;
  write_through = 0;
  cache_disabled = 0;
  accessed = 0;
  dirty = 0;
  zero_bit = 0;
  global = 0;
  avail = 0;
  physical_page_addr = addr % 2 ^ 20;
}

abbrev pub set_pde : Paging → ℕ → ℕ → Pde → Paging
set_pde s pid i e = record s {
  page_dir_table = λ q j. if q == pid && (j == i) then e else s.page_dir_table q j;
}

-- `&page_dir_table[pid]`, with the bits that `RELOAD_CR3` clears.
abbrev pub directory_addr : Layout → ℕ → ℕ
directory_addr l pid = bit_and (l.page_dir_at + pid * 4096) 0xffffffe7

-- A loop over all entries of a table fills it by a function of the index.
unfoldable pub paging_init : Layout → Paging → Paging
paging_init l s = record s {
  page_table = λ i. if i == video_mem_start then pte 1 0 0 i else pte 0 0 0 i;
  user_page_table = λ i. if i == video_mem_start then pte 1 1 1 i else pte 0 1 1 i;
  page_dir_table = λ q i.
      if not (q == 0)
      then s.page_dir_table q i
      else (if i == 0
          then pde 1 0 0 0 0 (l.page_table_at / 2 ^ 12)
          else (if i == 1 then pde 1 1 0 1 1 kernal_start else pde 0 1 0 0 0 (i * 2 ^ 10)));
  cr3 = directory_addr l 0;
}

-- None stands for -1.
unfoldable pub paging_allocate : Layout → Paging → ℕ → Option Paging
paging_allocate l s pid =
    if not (ltb pid max_pid)
    then none
    else (let s1 = set_pde s pid 0 (pde 1 1 1 0 0 (l.user_page_table_at / 2 ^ 12)) in
        let s2 = set_pde s1 pid 1 (pde 1 1 0 1 1 kernal_start) in
        some (set_pde s2 pid p_img (pde 1 1 1 1 0 ((pid + 1) * 2 ^ 10))))

unfoldable pub paging_update_control : Layout → Paging → ℕ → Option Paging
paging_update_control l s pid =
    if not (ltb pid max_pid) then none else some (record s { cr3 = directory_addr l pid })

-- The address that it stores through `screen_start` is the second part of the result.
unfoldable pub paging_map_video : Layout → Paging → ℕ → Option (Paging × ℕ)
paging_map_video l s pid =
    if not (ltb pid max_pid)
    then none
    else (let table : ℕ → Pte =
          λ i. if i == video_mem_start then pte 1 1 1 video_mem_start else pte 0 1 0 0 in
        let s1 = record s {
          user_video_page = λ q i. if q == pid then table i else s.user_video_page q i;
        } in
        let addr = (l.user_video_at + pid * 4096) / 2 ^ 12 in
        some (
          record (set_pde s1 pid video_mem_load (pde 1 1 1 0 0 addr)) {
            cr3 = directory_addr l pid;
          },
          program_start - four_mb + video_mem_start * four_kb,
        ))

unfoldable pub update_video_paging : Layout → Paging → ℕ → ℕ → Paging
update_video_paging l s pid addr = record s {
  user_video_page = λ q i.
      if q == pid && (i == video_mem_start)
      then record (s.user_video_page q i) { physical_page_addr = bit_and (addr / 2 ^ 12) 0x3ff }
      else s.user_video_page q i;
  cr3 = directory_addr l pid;
}
