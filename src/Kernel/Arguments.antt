-- ===== src/Kernel/Arguments.antt =====
-- syscall_getargs and syscall_vidmap of kernel/syscall.c.
use linux.Base.{
  ℕ, zero, suc, ◌+◌, ◌-◌, ◌^◌, ◌≤◌, ◌<◌, ◌≡◌, ◌≢◌, ◌⊎◌, refl, ap, arith, List, true, false, Option,
  some, ◌||◌, ltb, ltb-true, ltb-false, ◌==◌, ==_false, ==_true, Bool-cases, inl, inr,
  if◌then◌else◌, get_or,
}
use native.Mathlib.Decide.{dec_lt}
use linux.Memory.{Mem, ◌⊕◌, write, within, load32, Outside, SameOutside}
use linux.Tasks.{max_pid}
use linux.Pcb.{minus_one, kernel_mem_end}
use linux.Paging.Translate.{IsLayout, translate}
use linux.Paging.Video.{map_video_page}
use linux.Kernel.{Kernel, Env, memory, set_memory, pcb}
use linux.Kernel.Calls.{
  args_length, copy_args, syscall_getargs, store32, vidmap_mapped, syscall_vidmap,
}

-- The array `args` holds a string of `n` characters.
pub record HoldsArgs (args : List ℕ) (n : ℕ) : Type 0 where
  pub end : get_or args n 0 ≡ 0
  pub before : (k : ℕ) → k < n → get_or args k 0 ≢ 0

args_length_lem :
    (args : List ℕ) (f i n r : ℕ)
    → HoldsArgs args n
    → i + r ≡ n
    → r < f
    → args_length args f i ≡ some n
unfolding args_length
args_length_lem args zero i n r w e h = absurd (omega arith)
args_length_lem args (suc f) i n zero w e h =
    let here : i ≡ n = omega arith in rw (here, w.end) refl
args_length_lem args (suc f) i n (suc r) w e h =
    rw (==_false _ 0 (w.before i (omega arith)))
      (args_length_lem args f (i + 1) n r w (omega arith) (omega arith))

-- `m'` is `m` with the characters from the index `i` on and the terminator at their places after `buf`.
abbrev pub HasArgs : Mem → Mem → List ℕ → ℕ → ℕ → ℕ → Type 0
HasArgs m m' args buf i n =
    (a : ℕ) → m' a ≡ (if within (buf + i) (n + 1 - i) a then get_or args (a - buf) 0 else m a)

HasArgs-suc :
    (m m' : Mem) (args : List ℕ) (buf i n : ℕ)
    → i ≤ n
    → buf + n < 2 ^ 32
    → HasArgs (write m (buf ⊕ i) (get_or args i 0)) m' args buf (i + 1) n
    → HasArgs m m' args buf i n
HasArgs-suc m m' args buf i n h k c a = elim (Bool-cases (a == buf + i)) [
  | inl same ↦
      let e : a - buf ≡ i = grind (arith, same) in
      let g = ap (λ x. get_or args x 0) e in ground (arith, c a, g, same)
  | inr other ↦ ground (arith, c a, other)
]

HasArgs-last :
    (m : Mem) (args : List ℕ) (buf n : ℕ)
    → HoldsArgs args n
    → buf + n < 2 ^ 32
    → HasArgs m (write m (buf ⊕ n) 0) args buf n n
HasArgs-last m args buf n w k a = elim (Bool-cases (a == buf + n)) [
  | inl same ↦
      let e : a - buf ≡ n = grind (arith, same) in
      let g = ap (λ x. get_or args x 0) e in ground (arith, g, same, w.end)
  | inr other ↦ ground (arith, other)
]

copy_args_lem :
    (args : List ℕ) (f i n r : ℕ) (m : Mem) (buf : ℕ)
    → HoldsArgs args n
    → i + r ≡ n
    → r < f
    → buf + n < 2 ^ 32
    → (m' : Mem) × (copy_args args f m buf i ≡ some m') × HasArgs m m' args buf i n
unfolding copy_args
copy_args_lem args zero i n r m buf w e h k = absurd (omega arith)
copy_args_lem args (suc f) i n zero m buf w e h k =
    let here : i ≡ n = omega arith in
    (write m (buf ⊕ n) 0, rw (here, w.end) refl, rw here (HasArgs-last m args buf n w k))
copy_args_lem args (suc f) i n (suc r) m buf w e h k =
    let m1 = write m (buf ⊕ i) (get_or args i 0) in
    let (m', q, c) = copy_args_lem args f (i + 1) n r m1 buf w (omega arith) (omega arith) k in
    (
      m',
      rw (==_false _ 0 (w.before i (omega arith))) q,
      HasArgs-suc m m' args buf i n (omega arith) k c,
    )

-- The result `r` of `getargs` with room for `nbytes` bytes at `buf`, on arguments of `n` characters:
-- refused, or copied with the terminator.
abbrev pub Answered : Kernel → ℕ → ℕ → ℕ → Option (Kernel × ℕ) → Type 0
Answered k buf nbytes n r =
    ((nbytes < n) × (r ≡ some (k, minus_one)))
    ⊎ ((n ≤ nbytes)
        × ((m' : Mem) × (r ≡ some (set_memory k m', 0))
            × HasArgs (memory k) m' (pcb k).args buf 0 n))

-- For arguments of `n` characters, a buffer below 2^32 that is not null, a count other than 0 and
-- fuel above `n`: `getargs` returns -1 and changes nothing when the count is below `n`; otherwise it
-- copies the `n` characters and the terminator to the buffer and returns 0. These are `n` + 1 bytes,
-- one more than the count when that is `n`.
pub getargs_lem :
    (e : Env) (k : Kernel) (buf nbytes n : ℕ)
    → HoldsArgs (pcb k).args n
    → buf ≢ 0
    → nbytes ≢ 0
    → buf + n < 2 ^ 32
    → n < e.fuel
    → Answered k buf nbytes n (syscall_getargs e k buf nbytes)
unfolding syscall_getargs
getargs_lem e k buf nbytes n w b c room fuel =
    let given : ((buf == 0) || (nbytes == 0)) ≡ false = ground arith in
    let len = args_length_lem (pcb k).args e.fuel 0 n n w (omega arith) fuel in
    let (m', q, h) =
      copy_args_lem (pcb k).args e.fuel 0 n n (memory k) buf w (omega arith) fuel room in
    elim (dec_lt nbytes n) [
      | yes short ↦ inl (short, rw (given, len, ltb-true nbytes n short) refl)
      | no enough ↦
          let enough' : n ≤ nbytes = omega arith in
          inr (enough', (m', rw (given, len, ltb-false nbytes n enough', q) refl, h))
    ]

stored_outside :
    (m : Mem) (a q : ℕ) → a + 3 < 2 ^ 32 → Outside a 4 q → store32 m a 0x7cb8000 q ≡ m q
stored_outside m a q h out = ground arith

stored_lem : (m : Mem) (a : ℕ) → a + 3 < 2 ^ 32 → load32 (store32 m a 0x7cb8000) a ≡ 0x7cb8000
unfolding load32
stored_lem m a h = ground arith

-- The outcome of `vidmap` in the state `k'`, with its result: the page at 0x7cb8000 is the video page
-- for the process, its address is stored at the place, and the process is marked.
pub record Mapped (e : Env) (k k' : Kernel) (screen_start result : ℕ) : Type 0 where
  pub page :
      (off : ℕ)
      → off < 4096
      → translate e.layout k'.paging (pcb k).pid (0x7cb8000 + off) ≡ some (0xb8000 + off, true)
  pub stored : load32 (memory k') screen_start ≡ 0x7cb8000
  pub kept_memory : SameOutside (memory k) (memory k') screen_start 4
  pub marked : pcb k' ≡ record (pcb k) { vidmap = 1 }
  pub result_lem : result ≡ 0x7fcb8000

-- For a process with a pid below 16, a place above the kernel, below 2^32, and tables that the linker
-- lays out on pages of their own: after `vidmap`, each byte of the 4 KB at 0x7cb8000 is for the process
-- the same byte from 0xb8000 on, which it may use; 0x7cb8000 is stored in the place, no other memory
-- changes, and the process is marked. The call returns another number, 0x7fcb8000.
pub vidmap_lem :
    (e : Env) (k : Kernel) (screen_start : ℕ)
    → IsLayout e.layout
    → (pcb k).pid < max_pid
    → kernel_mem_end ≤ screen_start
    → screen_start + 3 < 2 ^ 32
    → let (k', result) = syscall_vidmap e k screen_start in Mapped e k k' screen_start result
unfolding syscall_vidmap vidmap_mapped
vidmap_lem e k screen_start layout small high room =
    let place : ((screen_start == 0) || ltb screen_start kernel_mem_end) ≡ false = ground arith in
    let (s', q, page) = map_video_page e.layout k.paging (pcb k).pid layout small in
    rw (place, q)
      (record {
        page = λ off below. page off below;
        stored = stored_lem (memory k) screen_start room;
        kept_memory = λ a out. stored_outside (memory k) screen_start a room out;
        marked = rw (==_true k.current k.current refl) refl;
        result_lem = refl;
      })
