-- ===== src/Memory.antt =====
-- Byte-addressed 32-bit memory, and the block operations of lib/lib.c on it.
pub mod Fill
pub mod Copy
pub mod Move
mod Tests
use Prim.Native.Nat.{bit_and}
use linux.Base.{
  ℕ, zero, suc, ◌+◌, ◌-◌, ◌*◌, ◌/◌, ◌%◌, ◌^◌, ◌≤◌, ◌<◌, ◌≡◌, ◌⊎◌, Bool, true, false, leb, ltb, ◌==◌,
  ◌&&◌, if◌then◌else◌,
}

-- The byte at each address below 2 ^ 32.
abbrev pub Mem : Type 0
Mem = ℕ → ℕ

-- Address arithmetic wraps.
infixl 65 ◌⊕◌
abbrev pub ◌⊕◌ : ℕ → ℕ → ℕ
a ⊕ k = (a + k) % 2 ^ 32

abbrev pub write : Mem → ℕ → ℕ → Mem
write m a v q = if q == a then v else m q

-- A little-endian 32-bit load, and the store of the same width.
unfoldable pub load32 : Mem → ℕ → ℕ
load32 m a = m a + 0x100 * m (a ⊕ 1) + 0x10000 * m (a ⊕ 2) + 0x1000000 * m (a ⊕ 3)

-- A store of four bytes, least address first.
abbrev pub write4 : Mem → ℕ → ℕ → ℕ → ℕ → ℕ → Mem
write4 m a b0 b1 b2 b3 = write (write (write (write m a b0) (a ⊕ 1) b1) (a ⊕ 2) b2) (a ⊕ 3) b3

-- The address `a` is not among the `n` bytes from `d` on.
abbrev pub Outside : ℕ → ℕ → ℕ → Type 0
Outside d n a = (a < d) ⊎ (d + n ≤ a)

-- Two memories agree except on the `n` bytes from `d` on.
abbrev pub SameOutside : Mem → Mem → ℕ → ℕ → Type 0
SameOutside m m' d n = (a : ℕ) → Outside d n a → m' a ≡ m a

abbrev pub within : ℕ → ℕ → ℕ → Bool
within d n a = leb d a && ltb a (d + n)

-- `memset`. `al` holds `c & 0xFF`, and `eax` that byte four times.

-- `.memset_bottom`: `movb %al, (%edi)` while `edx` is not 0.
pub fill_bytes : ℕ → Mem → ℕ → ℕ → Mem
fill_bytes zero m edi al = m
fill_bytes (suc edx) m edi al = fill_bytes edx (write m edi al) (edi ⊕ 1) al

-- `rep stosl`.
pub fill_words : ℕ → Mem → ℕ → ℕ → Mem
fill_words zero m edi al = m
fill_words (suc ecx) m edi al = fill_words ecx (write4 m edi al al al al) (edi ⊕ 4) al

-- `.memset_aligned`.
pub fill_aligned : ℕ → Mem → ℕ → ℕ → Mem
unfolding fill_bytes fill_words
fill_aligned ecx m edi al =
    fill_bytes (ecx % 4) (fill_words (ecx / 4) m edi al) (edi ⊕ (4 * (ecx / 4))) al

-- `.memset_top`: bytes until `edi` is a multiple of 4.
pub fill_top : ℕ → Mem → ℕ → ℕ → Mem
fill_top zero m edi al = m
fill_top (suc ecx) m edi al =
    let rest = fill_top ecx (write m edi al) (edi ⊕ 1) al in
    if edi % 4 == 0 then fill_aligned (suc ecx) m edi al else rest

unfoldable pub memset : Mem → ℕ → ℕ → ℕ → Mem
unfolding fill_top fill_aligned
memset m s c n = fill_top n m s (c % 0x100)

-- `memcpy`.

-- `.memcpy_bottom`.
unfoldable pub copy_bytes : ℕ → Mem → ℕ → ℕ → Mem
copy_bytes zero m edi esi = m
copy_bytes (suc edx) m edi esi = copy_bytes edx (write m edi (m esi)) (edi ⊕ 1) (esi ⊕ 1)

-- `rep movsl`.
unfoldable pub copy_words : ℕ → Mem → ℕ → ℕ → Mem
copy_words zero m edi esi = m
copy_words (suc ecx) m edi esi =
    copy_words ecx (write4 m edi (m esi) (m (esi ⊕ 1)) (m (esi ⊕ 2)) (m (esi ⊕ 3))) (edi ⊕ 4)
      (esi ⊕ 4)

-- `.memcpy_aligned`.
unfoldable pub copy_aligned : ℕ → Mem → ℕ → ℕ → Mem
unfolding copy_bytes copy_words
copy_aligned ecx m edi esi =
    copy_bytes (ecx % 4) (copy_words (ecx / 4) m edi esi) (edi ⊕ (4 * (ecx / 4)))
      (esi ⊕ (4 * (ecx / 4)))

-- `.memcpy_top`.
unfoldable pub copy_top : ℕ → Mem → ℕ → ℕ → Mem
copy_top zero m edi esi = m
copy_top (suc ecx) m edi esi =
    let rest = copy_top ecx (write m edi (m esi)) (edi ⊕ 1) (esi ⊕ 1) in
    if edi % 4 == 0 then copy_aligned (suc ecx) m edi esi else rest

unfoldable pub memcpy : Mem → ℕ → ℕ → ℕ → Mem
unfolding copy_top copy_aligned
memcpy m dest src n = copy_top n m dest src

-- The byte `k` of a register.
abbrev pub byte_of : ℕ → ℕ → ℕ
byte_of c k = c / 2 ^ (8 * k) % 0x100

-- `memset_word` and `memset_dword`: `rep stosw` and `rep stosl` on `n` units of 2 and 4 bytes.
pub fill_halves : ℕ → Mem → ℕ → ℕ → Mem
fill_halves zero m edi c = m
fill_halves (suc n) m edi c =
    fill_halves n (write (write m edi (byte_of c 0)) (edi ⊕ 1) (byte_of c 1)) (edi ⊕ 2) c

unfoldable pub memset_word : Mem → ℕ → ℕ → ℕ → Mem
unfolding fill_halves
memset_word m s c n = fill_halves n m s c

pub fill_dwords : ℕ → Mem → ℕ → ℕ → Mem
fill_dwords zero m edi c = m
fill_dwords (suc n) m edi c =
    fill_dwords n (write4 m edi (byte_of c 0) (byte_of c 1) (byte_of c 2) (byte_of c 3)) (edi ⊕ 4) c

unfoldable pub memset_dword : Mem → ℕ → ℕ → ℕ → Mem
unfolding fill_dwords
memset_dword m s c n = fill_dwords n m s c

-- `memmove`: `rep movsb` upwards, or, once `std` has set the direction flag, downwards.
pub move_up : ℕ → Mem → ℕ → ℕ → Mem
move_up zero m edi esi = m
move_up (suc ecx) m edi esi = move_up ecx (write m edi (m esi)) (edi ⊕ 1) (esi ⊕ 1)

pub move_down : ℕ → Mem → ℕ → ℕ → Mem
move_down zero m edi esi = m
move_down (suc ecx) m edi esi =
    move_down ecx (write m edi (m esi)) (edi ⊕ (2 ^ 32 - 1)) (esi ⊕ (2 ^ 32 - 1))

-- The memory, and the direction flag that the function leaves: `cld` cleared it at its start.
unfoldable pub memmove : Mem → ℕ → ℕ → ℕ → Mem × Bool
unfolding move_up move_down
memmove m dest src n =
    if leb dest src
    then (move_up n m dest src, false)
    else (move_down n m (dest ⊕ n ⊕ (2 ^ 32 - 1)) (src ⊕ n ⊕ (2 ^ 32 - 1)), true)
