-- ===== src/Memory/Fill.antt =====
-- memset of lib/lib.c, an assembly loop on bytes and aligned words, against its plain description.
use linux.Base.{
  ℕ, zero, suc, ◌+◌, ◌*◌, ◌/◌, ◌%◌, ◌^◌, ◌<◌, ◌≡◌, inl, inr, arith, ◌==◌, Bool-cases, if◌then◌else◌,
}
use linux.Memory.{
  Mem, ◌⊕◌, write, write4, within, fill_bytes, fill_words, fill_aligned, fill_top, memset,
}

-- `m'` is `m` with the `n` bytes from `d` on set to `v`.
abbrev pub Filled : Mem → Mem → ℕ → ℕ → ℕ → Type 0
Filled m m' d v n = (a : ℕ) → m' a ≡ (if within d n a then v else m a)

pub Filled-zero : (m : Mem) (d v : ℕ) → Filled m m d v 0
Filled-zero m d v a = ground arith

pub Filled-trans :
    (m m1 m2 : Mem) (d e v k n total : ℕ)
    → e ≡ d + k
    → total ≡ k + n
    → Filled m m1 d v k
    → Filled m1 m2 e v n
    → Filled m m2 d v total
Filled-trans m m1 m2 d e v k n total he ht f g a = ground (arith, f a, g a)

pub write-Filled : (m : Mem) (d v : ℕ) → Filled m (write m d v) d v 1
write-Filled m d v a = ground arith

write4-Filled : (m : Mem) (d v : ℕ) → d + 4 < 2 ^ 32 → Filled m (write4 m d v v v v) d v 4
write4-Filled m d v h a = ground arith

fill_bytes-Filled :
    (n : ℕ) (m : Mem) (d v : ℕ) → d + n < 2 ^ 32 → Filled m (fill_bytes n m d v) d v n
unfolding fill_bytes
fill_bytes-Filled zero m d v h = Filled-zero m d v
fill_bytes-Filled (suc n) m d v h =
    Filled-trans m (write m d v) _ d (d ⊕ 1) v 1 n (suc n) (omega arith) (omega arith)
      (write-Filled m d v) (fill_bytes-Filled n (write m d v) (d ⊕ 1) v (omega arith))

fill_words-Filled :
    (n : ℕ) (m : Mem) (d v : ℕ) → d + 4 * n < 2 ^ 32 → Filled m (fill_words n m d v) d v (4 * n)
unfolding fill_words
fill_words-Filled zero m d v h = Filled-zero m d v
fill_words-Filled (suc n) m d v h =
    Filled-trans m (write4 m d v v v v) _ d (d ⊕ 4) v 4 (4 * n) (4 * suc n) (omega arith)
      (omega arith) (write4-Filled m d v (omega arith))
      (fill_words-Filled n (write4 m d v v v v) (d ⊕ 4) v (omega arith))

fill_aligned-Filled :
    (n : ℕ) (m : Mem) (d v : ℕ) → d + n < 2 ^ 32 → Filled m (fill_aligned n m d v) d v n
unfolding fill_aligned
fill_aligned-Filled n m d v h =
    Filled-trans m (fill_words (n / 4) m d v) _ d (d ⊕ (4 * (n / 4))) v (4 * (n / 4)) (n % 4) n
      (omega arith) (omega arith) (fill_words-Filled (n / 4) m d v (omega arith))
      (fill_bytes-Filled (n % 4) (fill_words (n / 4) m d v) (d ⊕ (4 * (n / 4))) v (omega arith))

fill_top-Filled : (n : ℕ) (m : Mem) (d v : ℕ) → d + n < 2 ^ 32 → Filled m (fill_top n m d v) d v n
unfolding fill_top
fill_top-Filled zero m d v h = Filled-zero m d v
fill_top-Filled (suc n) m d v h = elim (Bool-cases (d % 4 == 0)) [
  | inl here ↦ rw here (fill_aligned-Filled (suc n) m d v h)
  | inr on ↦ rw on (
      Filled-trans m (write m d v) _ d (d ⊕ 1) v 1 n (suc n) (omega arith) (omega arith)
        (write-Filled m d v) (fill_top-Filled n (write m d v) (d ⊕ 1) v (omega arith)))
]

-- `memset` sets exactly the `n` bytes from `s` on, to the low byte of `c`, whatever the alignment
-- of `s`, if the block does not reach the end of the address space.
pub memset-Filled :
    (m : Mem) (s c n : ℕ) → s + n < 2 ^ 32 → Filled m (memset m s c n) s (c % 0x100) n
unfolding memset
memset-Filled m s c n h = fill_top-Filled n m s (c % 0x100) h
