-- ===== src/Paging/Tests.antt =====
-- kernel/paging.c with tables at concrete addresses.
use linux.Base.{◌+◌, ◌≡◌, refl, arith, some, true}
use linux.Paging.{Layout, Paging, pde, pte, paging_init, paging_allocate, paging_map_video}
use linux.Paging.Translate.{IsLayout, translate}
use linux.Paging.Programs.{Programmed, paging_allocate-Programmed}
use linux.Paging.Video.{screen_start, paging_map_video-translate}

abbrev linked : Layout
linked = record {
  page_dir_at = 0x420000;
  page_table_at = 0x440000;
  user_page_table_at = 0x441000;
  user_video_at = 0x450000;
}

linked-IsLayout : IsLayout linked
linked-IsLayout = record {
  user_aligned = refl;
  kernel_aligned = refl;
  video_aligned = refl;
  user_fits = omega arith;
  kernel_fits = omega arith;
  video_fits = omega arith;
  tables_apart = omega arith;
  kernel_apart = omega arith;
  user_apart = omega arith;
}

abbrev off : Paging
off = record {
  page_dir_table = λ pid i. pde 0 0 0 0 0 0;
  page_table = λ i. pte 0 0 0 0;
  user_page_table = λ i. pte 0 0 0 0;
  user_video_page = λ pid i. pte 0 0 0 0;
  cr3 = 0;
}

paging_allocate-Programmed_example :
    (s' : Paging) × (paging_allocate linked (paging_init linked off) 2 ≡ some s')
    × Programmed linked s' 2
    × (s'.page_dir_table 1 32 ≡ (paging_init linked off).page_dir_table 1 32)
paging_allocate-Programmed_example =
    paging_allocate-Programmed linked (paging_init linked off) 2 1 32 (omega arith) (omega arith)

paging_map_video-translate_example :
    (s' : Paging) × (paging_map_video linked (paging_init linked off) 2 ≡ some (s', screen_start))
    × (translate linked s' 2 (screen_start + 160) ≡ some (0xb8000 + 160, true))
paging_map_video-translate_example =
    paging_map_video-translate linked (paging_init linked off) 2 160 linked-IsLayout (omega arith)
      (omega arith)
