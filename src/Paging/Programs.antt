-- ===== src/Paging/Programs.antt =====
-- kernel/paging.c: where the addresses of a user program lie in physical memory.
use linux.Base.{
  ℕ, ◌+◌, ◌*◌, ◌/◌, ◌%◌, ◌^◌, ◌<◌, ◌≡◌, ◌≢◌, refl, ap, ◌∙◌, arith, true, false, not, ◌&&◌, some,
  ltb-true, ◌==◌, ==_true, if_intro,
}
use linux.Tasks.{max_pid}
use linux.Paging.{
  Pde, Layout, Paging, pde, set_pde, p_img, kernal_start, program_start, four_mb, paging_allocate,
}
use linux.Paging.Translate.{translate}

-- A directory entry for 4 MB.
large_page :
    (l : Layout) (s : Paging) (pid a base rw_bit user glob : ℕ)
    → s.page_dir_table pid (a / 2 ^ 22) ≡ pde 1 rw_bit user 1 glob (base * 2 ^ 10)
    → base < 2 ^ 10
    → translate l s pid a ≡ some (base * 2 ^ 22 + a % 2 ^ 22, not (user == 0))
unfolding translate
large_page l s pid a base rw_bit user glob e h =
    let b : base * 2 ^ 10 % 2 ^ 20 / 2 ^ 10 ≡ base = omega arith in rw (e, b) refl

pub entry_self : (s : Paging) (pid i : ℕ) (e : Pde) → (set_pde s pid i e).page_dir_table pid i ≡ e
entry_self s pid i e = rw (==_true pid pid refl, ==_true i i refl) refl

pub entry_other :
    (s : Paging) (pid q i j : ℕ) (e : Pde)
    → j ≢ i
    → (set_pde s pid i e).page_dir_table q j ≡ s.page_dir_table q j
entry_other s pid q i j e ne =
    if_intro (λ x. x ≡ s.page_dir_table q j) (q == pid && (j == i)) _ _
      (λ hit. absurd (ne (grind (arith, hit)))) (λ miss. refl)

entry_elsewhere :
    (s : Paging) (pid q i j : ℕ) (e : Pde)
    → q ≢ pid
    → (set_pde s pid i e).page_dir_table q j ≡ s.page_dir_table q j
entry_elsewhere s pid q i j e ne =
    if_intro (λ x. x ≡ s.page_dir_table q j) (q == pid && (j == i)) _ _
      (λ hit. absurd (ne (grind (arith, hit)))) (λ miss. refl)

-- What is promised to the program of process `pid`: its 4 MB image lies at its own 4 MB of
-- physical memory and is its to use, and the kernel's 4 MB lie where they lie and are not.
pub record Programmed (l : Layout) (s : Paging) (pid : ℕ) : Type 0 where
  pub image :
      (off : ℕ)
      → off < four_mb
      → translate l s pid (program_start + off) ≡ some ((pid + 1) * four_mb + off, true)
  pub kernel :
      (off : ℕ) → off < four_mb → translate l s pid (four_mb + off) ≡ some (four_mb + off, false)

-- For a process number below 16 and any other process: the allocation succeeds; the 4 MB from
-- 0x8000000 on are then the process's to use and lie at its number plus one times 4 MB; the 4 MB
-- from 4 MB on lie there and are not its to use; and the directory of the other process keeps its
-- entries.
pub paging_allocate-Programmed :
    (l : Layout) (s : Paging) (pid q i : ℕ)
    → pid < max_pid
    → q ≢ pid
    → (s' : Paging) × (paging_allocate l s pid ≡ some s')
      × Programmed l s' pid
      × (s'.page_dir_table q i ≡ s.page_dir_table q i)
unfolding paging_allocate
paging_allocate-Programmed l s pid q i h ne =
    let e0 = pde 1 1 1 0 0 (l.user_page_table_at / 2 ^ 12) in
    let e1 = pde 1 1 0 1 1 kernal_start in
    let e2 = pde 1 1 1 1 0 ((pid + 1) * 2 ^ 10) in
    let s1 = set_pde s pid 0 e0 in
    let s2 = set_pde s1 pid 1 e1 in
    let s3 = set_pde s2 pid p_img e2 in
    (
      s3,
      rw (ltb-true pid max_pid h) refl,
      record {
        image = λ off k.
            let a : (program_start + off) / 2 ^ 22 ≡ p_img = omega arith in
            let r : (program_start + off) % 2 ^ 22 ≡ off = omega arith in
            rw
              (
                large_page l s3 pid (program_start + off) (pid + 1) 1 1 0
                    (ap (s3.page_dir_table pid) a ∙ entry_self s2 pid p_img e2) (omega arith),
                r,
              )
              refl;
        kernel = λ off k.
            let a : (four_mb + off) / 2 ^ 22 ≡ 1 = omega arith in
            let r : (four_mb + off) % 2 ^ 22 ≡ off = omega arith in
            rw
              (
                large_page l s3 pid (four_mb + off) 1 1 0 1
                    (ap (s3.page_dir_table pid) a
                      ∙ entry_other s2 pid pid p_img 1 e2 (omega arith)
                      ∙ entry_self s1 pid 1 e1)
                    (omega arith),
                r,
              )
              refl;
      },
      entry_elsewhere s2 pid q p_img i e2 ne
          ∙ entry_elsewhere s1 pid q 1 i e1 ne
          ∙ entry_elsewhere s pid q 0 i e0 ne,
    )
