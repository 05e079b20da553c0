-- ===== src/Paging/Translate.antt =====
-- What the processor makes of the tables of kernel/paging.c: the physical address of a virtual one.
use linux.Base.{
  ℕ, ◌+◌, ◌-◌, ◌*◌, ◌/◌, ◌%◌, ◌^◌, ◌≤◌, ◌<◌, ◌≡◌, ◌≢◌, ◌⊎◌, Bool, not, ◌&&◌, Option, none, some,
  leb, ltb, ◌==◌, if◌then◌else◌,
}
use linux.Tasks.{max_pid}
use linux.Paging.{Pte, Layout, Paging}

-- The four arrays are aligned to pages, the tables of user programs are other pages than the
-- kernel's, and all lie in the address space.
pub record IsLayout (l : Layout) : Type 0 where
  pub user_aligned : l.user_page_table_at % 4096 ≡ 0
  pub kernel_aligned : l.page_table_at % 4096 ≡ 0
  pub video_aligned : l.user_video_at % 4096 ≡ 0
  pub user_fits : l.user_page_table_at < 2 ^ 32
  pub kernel_fits : l.page_table_at < 2 ^ 32
  pub video_fits : l.user_video_at + max_pid * 4096 ≤ 2 ^ 32
  pub tables_apart : l.page_table_at ≢ l.user_page_table_at
  pub kernel_apart :
      (l.page_table_at < l.user_video_at) ⊎ (l.user_video_at + max_pid * 4096 ≤ l.page_table_at)
  pub user_apart :
      (l.user_page_table_at < l.user_video_at)
      ⊎ (l.user_video_at + max_pid * 4096 ≤ l.user_page_table_at)

-- The table that lies on a physical page.
unfoldable pub table_on : Layout → Paging → ℕ → Option (ℕ → Pte)
table_on l s page =
    if page == l.page_table_at / 2 ^ 12
    then some s.page_table
    else (if page == l.user_page_table_at / 2 ^ 12
        then some s.user_page_table
        else (let first = l.user_video_at / 2 ^ 12 in
            if leb first page && ltb page (first + max_pid)
            then some (s.user_video_page (page - first))
            else none))

unfoldable pub small_page : Option (ℕ → Pte) → ℕ → Option (ℕ × Bool)
small_page none a = none
small_page (some t) a =
    let e = t (a / 2 ^ 12 % 2 ^ 10) in
    if e.present == 0
    then none
    else some (e.physical_page_addr * 2 ^ 12 + a % 2 ^ 12, not (e.user_supervisor == 0))

-- A page is for user programs only where its directory entry is too.
unfoldable pub restrict : Bool → Option (ℕ × Bool) → Option (ℕ × Bool)
restrict user none = none
restrict user (some r) = some (r.0, user && r.1)

-- The translation of `a` in the directory of `pid`, with the right of user programs to use the
-- page. A directory entry maps 4 MB, or points to a table of pages of 4 KB.
unfoldable pub translate : Layout → Paging → ℕ → ℕ → Option (ℕ × Bool)
translate l s pid a =
    let d = s.page_dir_table pid (a / 2 ^ 22) in
    let user = not (d.user_supervisor == 0) in
    if d.present == 0
    then none
    else (if not (d.page_size == 0)
        then some (d.page_table_addr / 2 ^ 10 * 2 ^ 22 + a % 2 ^ 22, user)
        else restrict user (small_page (table_on l s d.page_table_addr) a))
