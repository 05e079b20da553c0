-- ===== src/Kernel/Descriptors.antt =====
-- syscall_close of kernel/syscall.c, on an open descriptor of any driver.
use linux.Base.{
  ℕ, ◌+◌, ◌^◌, ◌%◌, ◌≤◌, ◌<◌, ◌≡◌, ◌≢◌, ◌⊎◌, refl, ap, sym, ◌∙◌, arith, false, some, inl, inr,
  leb-false, ◌==◌, ==_iff, ==_false, ==_true, Bool-cases, length, get_or-set_self, get_or-set_ne,
  length-set,
}
use linux.Memory.{Mem, SameOutside, write4}
use linux.Pcb.{Driver, rtc_driver, dir_driver, file_driver, closed, descriptor, fd_max, pcb_close}
use linux.Rtc.{rtc_close}
use linux.Fs.Loading.{file_close}
use linux.Kernel.{Kernel, memory, set_memory, pcb, set_pcb}
use linux.Kernel.Calls.{
  World, Stray, block, bytes, flags_at, close_through, driver_close, syscall_close, out_of_range,
}
use linux.Kernel.Guards.{shut_at, close_lem}

abbrev pub driver_of : Kernel → ℕ → Driver
driver_of k fd = (descriptor (pcb k) fd).file_operation_jmp_tbl

-- From the state `k` to the state `k'` the descriptor `fd` of the running process is closed. The
-- uninitialised pointer of `file_close` leads to `stray`: when the descriptor is a file, the
-- descriptor of that number is closed there too, in the control block of another process or as four
-- bytes of memory that become 0.
pub record Closed (stray : Stray) (k k' : Kernel) (fd : ℕ) : Type 0 where
  pub now_closed : (descriptor (pcb k') fd).flags ≡ 0
  pub other_descriptors : (q : ℕ) → q ≢ fd → descriptor (pcb k') q ≡ descriptor (pcb k) q
  pub same_current : k'.current ≡ k.current
  pub same_pids : k'.pids ≡ k.pids
  pub other_blocks :
      (a : ℕ)
      → a ≢ k.current
      → (k'.pcbs a ≡ k.pcbs a)
        ⊎ ((driver_of k fd ≡ file_driver) × (stray ≡ block a) × (k'.pcbs a ≡ shut_at (k.pcbs a) fd))
  pub same_memory :
      (memory k' ≡ memory k)
      ⊎ ((driver_of k fd ≡ file_driver)
          × ((a : ℕ) × (stray ≡ bytes a) × SameOutside (memory k) (memory k') (flags_at a fd) 4))
  pub stray_block :
      (a : ℕ)
      → driver_of k fd ≡ file_driver
      → stray ≡ block a
      → a ≢ k.current
      → k'.pcbs a ≡ shut_at (k.pcbs a) fd
  pub stray_bytes :
      (a i : ℕ)
      → driver_of k fd ≡ file_driver
      → stray ≡ bytes a
      → i < 4
      → memory k' (flags_at a fd + i) ≡ 0

block-injective : (a b : ℕ) → block a ≡ block b → a ≡ b
block-injective a b e = cc

bytes-injective : (a b : ℕ) → bytes a ≡ bytes b → a ≡ b
bytes-injective a b e = cc

zeros_lem : (m : Mem) (a i : ℕ) → a + 4 ≤ 2 ^ 32 → i < 4 → write4 m a 0 0 0 0 (a + i) ≡ 0
zeros_lem m a i room few = ground arith

-- The descriptor is closed before its driver is called.
module _ (stray : Stray) (k : Kernel) (fd : ℕ) (within : fd < length (pcb k).elements) where
  shut : Kernel
  shut = set_pcb k k.current (shut_at (pcb k) fd)

  shut_pcb : pcb shut ≡ shut_at (pcb k) fd
  unfolding shut
  shut_pcb = rw (==_true k.current k.current refl) refl

  shut_flags : (descriptor (shut_at (pcb k) fd) fd).flags ≡ 0
  shut_flags =
      ap (λ d. d.flags)
        (get_or-set_self (pcb k).elements fd (record (descriptor (pcb k) fd) { flags = 0 }) closed
          within)

  shut_others : (q : ℕ) → q ≢ fd → descriptor (shut_at (pcb k) fd) q ≡ descriptor (pcb k) q
  shut_others q other =
      get_or-set_ne (pcb k).elements fd q (record (descriptor (pcb k) fd) { flags = 0 }) closed
        (λ e. other (sym e))

  Closed-shut : driver_of k fd ≢ file_driver → Closed stray k shut fd
  unfolding shut
  Closed-shut not_file = record {
    now_closed = ap (λ p. (descriptor p fd).flags) shut_pcb ∙ shut_flags;
    other_descriptors = λ q other. ap (λ p. descriptor p q) shut_pcb ∙ shut_others q other;
    same_current = refl;
    same_pids = refl;
    other_blocks = λ a other. inl (rw (==_false a k.current other) refl);
    same_memory = inl refl;
    stray_block = λ a file e away. absurd (not_file file);
    stray_bytes = λ a i file e few. absurd (not_file file);
  }

  -- Closed twice, in the same control block.
  shut_twice : (descriptor (shut_at (shut_at (pcb k) fd) fd) fd).flags ≡ 0
  shut_twice =
      ap (λ d. d.flags)
        (get_or-set_self (shut_at (pcb k) fd).elements fd
          (record (descriptor (shut_at (pcb k) fd) fd) { flags = 0 }) closed
          (omega (
            arith,
            length-set (pcb k).elements fd (record (descriptor (pcb k) fd) { flags = 0 }),
            within,
          )))

  twice_others :
      (q : ℕ) → q ≢ fd → descriptor (shut_at (shut_at (pcb k) fd) fd) q ≡ descriptor (pcb k) q
  twice_others q other =
      get_or-set_ne (shut_at (pcb k) fd).elements fd q
        (record (descriptor (shut_at (pcb k) fd) fd) { flags = 0 }) closed (λ e. other (sym e))
      ∙ shut_others q other

  Closed-own :
      Closed (block k.current) k (set_pcb shut k.current (shut_at (shut.pcbs k.current) fd)) fd
  unfolding shut
  Closed-own =
      let here = ==_true k.current k.current refl in
      record {
        now_closed = rw here shut_twice;
        other_descriptors = λ q other. rw here (twice_others q other);
        same_current = refl;
        same_pids = refl;
        other_blocks = λ b other. inl (rw (==_false b k.current other) refl);
        same_memory = inl refl;
        stray_block = λ a file e away. absurd (away (sym (block-injective k.current a e)));
        stray_bytes = λ a i file e few. absurd (cc e);
      }

  Closed-block :
      (a : ℕ)
      → driver_of k fd ≡ file_driver
      → a ≢ k.current
      → Closed (block a) k (set_pcb shut a (shut_at (shut.pcbs a) fd)) fd
  unfolding shut
  Closed-block a file away =
      let here = ==_true k.current k.current refl in
      let not_there = ==_false k.current a (λ e. away (sym e)) in
      record {
        now_closed = rw (not_there, here) shut_flags;
        other_descriptors = λ q other. rw (not_there, here) (shut_others q other);
        same_current = refl;
        same_pids = refl;
        other_blocks = λ b other. elim (Bool-cases (b == a)) [
          | inl there ↦
              let e = (==_iff b a).0 there in
              inr (
                file,
                ap (λ c. block c) (sym e),
                rw (there, ==_false a k.current away) (ap (λ c. shut_at (k.pcbs c) fd) (sym e)),
              )
          | inr elsewhere ↦ inl (rw (elsewhere, ==_false b k.current other) refl)
        ];
        same_memory = inl refl;
        stray_block = λ b f e b_away.
            let there : b ≡ a = sym (block-injective a b e) in
            rw (==_true b a there, ==_false a k.current away)
              (ap (λ c. shut_at (k.pcbs c) fd) (sym there));
        stray_bytes = λ b i f e few. absurd (cc e);
      }

  Closed-bytes :
      (a : ℕ)
      → driver_of k fd ≡ file_driver
      → flags_at a fd + 4 ≤ 2 ^ 32
      → Closed (bytes a) k (set_memory shut (write4 (memory shut) (flags_at a fd) 0 0 0 0)) fd
  unfolding shut
  Closed-bytes a file room = record {
    now_closed = ap (λ p. (descriptor p fd).flags) shut_pcb ∙ shut_flags;
    other_descriptors = λ q other. ap (λ p. descriptor p q) shut_pcb ∙ shut_others q other;
    same_current = refl;
    same_pids = refl;
    other_blocks = λ b other. inl (rw (==_false b k.current other) refl);
    same_memory = inr (file, (a, refl, λ q out. ground arith));
    stray_block = λ b f e away. absurd (cc e);
    stray_bytes = λ b i f e few.
        let here : b ≡ a = sym (bytes-injective a b e) in
        ap (λ c. write4 (memory k) (flags_at a fd) 0 0 0 0 (flags_at c fd + i)) here
        ∙ zeros_lem (memory k) (flags_at a fd) i room few;
  }

-- The pointer does not lead to unmapped memory, nor over the end of it.
abbrev pub IsReachable : Stray → ℕ → Type 0
IsReachable stray fd =
    ((a : ℕ) × (stray ≡ block a)) ⊎ ((a : ℕ) × (stray ≡ bytes a) × (flags_at a fd + 4 ≤ 2 ^ 32))

-- A driver whose `close` returns.
abbrev pub CanClose : World → Kernel → ℕ → Type 0
CanClose world k fd =
    ((driver_of k fd ≡ dir_driver) ⊎ (driver_of k fd ≡ rtc_driver))
    ⊎ ((driver_of k fd ≡ file_driver) × IsReachable world.stray_pcb fd)

file_through :
    (a : ℕ) (k : Kernel) (fd : ℕ)
    → fd < fd_max
    → close_through (block a) k fd ≡ some (set_pcb k a (shut_at (k.pcbs a) fd), 0)
unfolding close_through file_close pcb_close
file_through a k fd hi =
    let within : out_of_range fd ≡ false = ground arith in
    let byte : fd % 2 ^ 8 ≡ fd = omega arith in rw (within, byte, leb-false fd_max fd hi) refl

bytes_through :
    (a : ℕ) (k : Kernel) (fd : ℕ)
    → fd < fd_max
    → close_through (bytes a) k fd
      ≡ some (set_memory k (write4 (memory k) (flags_at a fd) 0 0 0 0), 0)
unfolding close_through
bytes_through a k fd hi = let within : out_of_range fd ≡ false = ground arith in rw within refl

-- What the driver adds, once the descriptor is closed.
driver_lem :
    (world : World) (k : Kernel) (fd : ℕ)
    → fd < fd_max
    → fd < length (pcb k).elements
    → CanClose world k fd
    → (k' : Kernel) × (driver_close
          (driver_of k fd)
          world
          (set_pcb k k.current (shut_at (pcb k) fd))
          fd
        ≡ some (k', 0))
      × Closed world.stray_pcb k k' fd
unfolding driver_close rtc_close shut
driver_lem world k fd hi within (inl (inl dir)) = (
  set_pcb k k.current (shut_at (pcb k) fd),
  rw dir refl,
  Closed-shut world.stray_pcb k fd within (λ file. absurd (cc (dir, file))),
)
driver_lem world k fd hi within (inl (inr rtc)) = (
  set_pcb k k.current (shut_at (pcb k) fd),
  rw rtc refl,
  Closed-shut world.stray_pcb k fd within (λ file. absurd (cc (rtc, file))),
)
driver_lem world k fd hi within (inr (file, inl (a, e))) =
    let k1 = set_pcb k k.current (shut_at (pcb k) fd) in
    elim (Bool-cases (a == k.current)) [
      | inl own ↦
          let c : world.stray_pcb ≡ block k.current =
            e ∙ ap (λ b. block b) ((==_iff a k.current).0 own) in
          (
            set_pcb k1 k.current (shut_at (k1.pcbs k.current) fd),
            ap (λ d. driver_close d world k1 fd) file
                ∙ (ap (λ b. close_through b k1 fd) c ∙ file_through k.current k1 fd hi),
            rw c (Closed-own world.stray_pcb k fd within),
          )
      | inr away ↦
          let away' : a ≢ k.current = grind arith in
          (
            set_pcb k1 a (shut_at (k1.pcbs a) fd),
            ap (λ d. driver_close d world k1 fd) file
                ∙ (ap (λ b. close_through b k1 fd) e ∙ file_through a k1 fd hi),
            rw e (Closed-block world.stray_pcb k fd within a file away'),
          )
    ]
driver_lem world k fd hi within (inr (file, inr (a, e, room))) =
    let k1 = set_pcb k k.current (shut_at (pcb k) fd) in
    (
      set_memory k1 (write4 (memory k1) (flags_at a fd) 0 0 0 0),
      ap (λ d. driver_close d world k1 fd) file
          ∙ (ap (λ b. close_through b k1 fd) e ∙ bytes_through a k1 fd hi),
      rw e (Closed-bytes world.stray_pcb k fd within a file room),
    )

-- For an open descriptor from 2 to 7 of a block of eight, of a directory, the clock or a file, where
-- for a file the uninitialised pointer of `file_close` leads to mapped memory: `close` returns 0, and
-- the running process has that descriptor closed and the others as they were. For a directory or the
-- clock no other control block and no memory changes. For a file, the descriptor of the same number is
-- closed in the control block that the pointer leads to, also in that of another process, or its four
-- bytes of memory become 0, and all other blocks and bytes stay as they were.
pub close_open :
    (world : World) (k : Kernel) (fd : ℕ)
    → 2 ≤ fd
    → fd < fd_max
    → length (pcb k).elements ≡ fd_max
    → (descriptor (pcb k) fd).flags ≢ 0
    → CanClose world k fd
    → (k' : Kernel) × (syscall_close world k fd ≡ some (k', 0)) × Closed world.stray_pcb k k' fd
close_open world k fd lo hi size active driver =
    let (k', q, c) = driver_lem world k fd hi (omega arith) driver in
    (k', close_lem world k fd lo hi size active ∙ q, c)
