-- ===== src/Paging/Video.antt =====
-- paging_map_video and update_video_paging of kernel/paging.c: the page of the screen.
use linux.Base.{
  ℕ, ◌+◌, ◌-◌, ◌*◌, ◌/◌, ◌%◌, ◌^◌, ◌<◌, ◌≡◌, ◌≢◌, refl, ap, ◌∙◌, arith, true, some, ltb-true,
  leb-true, ◌==◌, ==_true, ==_false, if◌then◌else◌, bit_and_ones,
}
use linux.Tasks.{max_pid}
use linux.Paging.{
  Pte, Layout, Paging, pde, pte, set_pde, video_mem_load, video_mem_start, program_start, four_mb,
  four_kb, paging_map_video, update_video_paging, directory_addr,
}
use linux.Paging.Translate.{IsLayout, table_on, small_page, restrict, translate}
use linux.Paging.Programs.{entry_self}

-- The address that a program gets for the screen.
abbrev pub screen_start : ℕ
screen_start = program_start - four_mb + video_mem_start * four_kb

-- The number of the page on which the video table of a process lies.
abbrev video_table : Layout → ℕ → ℕ
video_table l pid = (l.user_video_at + pid * 4096) / 2 ^ 12

table_on_video :
    (l : Layout) (s : Paging) (pid : ℕ)
    → IsLayout l
    → pid < max_pid
    → table_on l s (video_table l pid % 2 ^ 20) ≡ some (s.user_video_page pid)
unfolding table_on
table_on_video l s pid w h =
    let f = w.video_fits in
    let g = w.video_aligned in
    let e : video_table l pid % 2 ^ 20 ≡ l.user_video_at / 2 ^ 12 + pid = omega arith in
    let k : l.user_video_at / 2 ^ 12 + pid ≢ l.page_table_at / 2 ^ 12 =
      ground (arith, w.kernel_apart, w.kernel_aligned) in
    let u : l.user_video_at / 2 ^ 12 + pid ≢ l.user_page_table_at / 2 ^ 12 =
      ground (arith, w.user_apart, w.user_aligned) in
    let d : l.user_video_at / 2 ^ 12 + pid - l.user_video_at / 2 ^ 12 ≡ pid = omega arith in
    rw
      (
        e,
        ==_false _ _ k,
        ==_false _ _ u,
        d,
        leb-true (l.user_video_at / 2 ^ 12) (l.user_video_at / 2 ^ 12 + pid) (omega arith),
        ltb-true (l.user_video_at / 2 ^ 12 + pid) (l.user_video_at / 2 ^ 12 + max_pid)
            (omega arith),
      )
      refl

screen_page :
    (l : Layout) (s : Paging) (pid off p : ℕ)
    → IsLayout l
    → pid < max_pid
    → off < four_kb
    → s.page_dir_table pid video_mem_load ≡ pde 1 1 1 0 0 (video_table l pid)
    → s.user_video_page pid video_mem_start ≡ record (pte 1 1 1 0) { physical_page_addr = p }
    → translate l s pid (screen_start + off) ≡ some (p * 2 ^ 12 + off, true)
unfolding translate small_page restrict
screen_page l s pid off p w h k e f =
    let a : (screen_start + off) / 2 ^ 22 ≡ video_mem_load = omega arith in
    let b : (screen_start + off) / 2 ^ 12 % 2 ^ 10 ≡ video_mem_start = omega arith in
    let c : (screen_start + off) % 2 ^ 12 ≡ off = omega arith in
    rw (a, e, table_on_video l s pid w h, b, c, f) refl

-- What the mapping leaves.
mapped : Layout → Paging → ℕ → Paging
mapped l s pid =
    let table : ℕ → Pte =
      λ i. if i == video_mem_start then pte 1 1 1 video_mem_start else pte 0 1 0 0 in
    let s1 = record s {
      user_video_page = λ q i. if q == pid then table i else s.user_video_page q i;
    } in
    record (set_pde s1 pid video_mem_load (pde 1 1 1 0 0 (video_table l pid))) {
      cr3 = directory_addr l pid;
    }

map_video-mapped :
    (l : Layout) (s : Paging) (pid : ℕ)
    → pid < max_pid
    → paging_map_video l s pid ≡ some (mapped l s pid, screen_start)
unfolding paging_map_video mapped
map_video-mapped l s pid h = rw (ltb-true pid max_pid h) refl

mapped_directory :
    (l : Layout) (s : Paging) (pid : ℕ)
    → (mapped l s pid).page_dir_table pid video_mem_load ≡ pde 1 1 1 0 0 (video_table l pid)
unfolding mapped
mapped_directory l s pid = entry_self s pid video_mem_load (pde 1 1 1 0 0 (video_table l pid))

mapped_page :
    (l : Layout) (s : Paging) (pid : ℕ)
    → (mapped l s pid).user_video_page pid video_mem_start ≡ pte 1 1 1 video_mem_start
unfolding mapped
mapped_page l s pid = rw (==_true pid pid refl) refl

updated_page :
    (l : Layout) (s : Paging) (pid addr p : ℕ)
    → s.user_video_page pid video_mem_start ≡ pte 1 1 1 p
    → (update_video_paging l s pid addr).user_video_page pid video_mem_start
      ≡ record (pte 1 1 1 0) { physical_page_addr = addr / 2 ^ 12 % 2 ^ 10 }
unfolding update_video_paging
updated_page l s pid addr p e =
    rw (==_true pid pid refl, e)
      (ap (λ a. record (pte 1 1 1 0) { physical_page_addr = a }) (bit_and_ones 10 (addr / 2 ^ 12)))

updated_directory :
    (l : Layout) (s : Paging) (pid addr i : ℕ)
    → (update_video_paging l s pid addr).page_dir_table pid i ≡ s.page_dir_table pid i
unfolding update_video_paging
updated_directory l s pid addr i = refl

-- The tables after the mapping, and every byte of the page.
pub map_video_page :
    (l : Layout) (s : Paging) (pid : ℕ)
    → IsLayout l
    → pid < max_pid
    → (s' : Paging) × (paging_map_video l s pid ≡ some (s', screen_start))
      × ((off : ℕ)
          → off < four_kb
          → translate l s' pid (screen_start + off) ≡ some (0xb8000 + off, true))
map_video_page l s pid w h = (
  mapped l s pid,
  map_video-mapped l s pid h,
  λ off k.
      screen_page l (mapped l s pid) pid off video_mem_start w h k (mapped_directory l s pid)
        (mapped_page l s pid),
)

-- For a process number below 16, where the linker lays the tables out on pages of their own: the
-- program gets the address 0x7cb8000, and each byte of the 4 KB there is the same byte from 0xb8000
-- on, which the program may use.
pub paging_map_video-translate :
    (l : Layout) (s : Paging) (pid off : ℕ)
    → IsLayout l
    → pid < max_pid
    → off < four_kb
    → (s' : Paging) × (paging_map_video l s pid ≡ some (s', screen_start))
      × (translate l s' pid (screen_start + off) ≡ some (0xb8000 + off, true))
paging_map_video-translate l s pid off w h k =
    let (s', q, page) = map_video_page l s pid w h in (s', q, page off k)

-- For a process number below 16, where the linker lays the tables out on pages of their own, when
-- the screen is mapped and then moved to another address: the program's
-- page is the page of that address modulo 4 MB.
pub update_video_paging-translate :
    (l : Layout) (s : Paging) (pid off addr : ℕ)
    → IsLayout l
    → pid < max_pid
    → off < four_kb
    → (s' : Paging) × (paging_map_video l s pid ≡ some (s', screen_start))
      × (translate l (update_video_paging l s' pid addr) pid (screen_start + off)
          ≡ some (addr / 2 ^ 12 % 2 ^ 10 * 2 ^ 12 + off, true))
update_video_paging-translate l s pid off addr w h k =
    let m = mapped l s pid in
    (
      m,
      map_video-mapped l s pid h,
      screen_page l (update_video_paging l m pid addr) pid off (addr / 2 ^ 12 % 2 ^ 10) w h k
          (updated_directory l m pid addr video_mem_load ∙ mapped_directory l s pid)
          (updated_page l m pid addr video_mem_start (mapped_page l s pid)),
    )
