-- ===== src/Memory/Copy.antt =====
-- memcpy of lib/lib.c, an assembly loop on bytes and aligned words, against its plain description.
use linux.Base.{
  ℕ, zero, suc, ◌+◌, ◌-◌, ◌*◌, ◌/◌, ◌%◌, ◌^◌, ◌≤◌, ◌<◌, ◌≡◌, ◌⊎◌, inl, inr, arith, ◌==◌, Bool-cases,
  if◌then◌else◌,
}
use linux.Memory.{
  Mem, ◌⊕◌, write, write4, within, copy_bytes, copy_words, copy_aligned, copy_top, memcpy,
}

-- `m'` is `m` with the `n` bytes from `d` on replaced by those that `m` has from `s` on.
abbrev pub Copied : Mem → Mem → ℕ → ℕ → ℕ → Type 0
Copied m m' d s n = (a : ℕ) → m' a ≡ (if within d n a then m (s + (a - d)) else m a)

-- The blocks of `n` bytes at `d` and `s` do not overlap and lie in the address space.
pub record Apart (d s n : ℕ) : Type 0 where
  pub apart : (d + n ≤ s) ⊎ (s + n ≤ d)
  pub to_fits : d + n < 2 ^ 32
  pub from_fits : s + n < 2 ^ 32

pub Copied-zero : (m : Mem) (d s : ℕ) → Copied m m d s 0
Copied-zero m d s a = ground arith

pub Copied-trans :
    (m m1 m2 : Mem) (d s e t k n total : ℕ)
    → e ≡ d + k
    → t ≡ s + k
    → total ≡ k + n
    → Apart d s total
    → Copied m m1 d s k
    → Copied m1 m2 e t n
    → Copied m m2 d s total
Copied-trans m m1 m2 d s e t k n total he ht hn w f g a =
    ground (arith, f a, g a, f (s + (a - d)), f (t + (a - e)))

pub write-Copied : (m : Mem) (d s : ℕ) → Copied m (write m d (m s)) d s 1
write-Copied m d s a = ground arith

write4-Copied :
    (m : Mem) (d s : ℕ)
    → d + 4 < 2 ^ 32
    → s + 4 < 2 ^ 32
    → Copied m (write4 m d (m s) (m (s ⊕ 1)) (m (s ⊕ 2)) (m (s ⊕ 3))) d s 4
write4-Copied m d s h k a = ground arith

copy_bytes-Copied : (n : ℕ) (m : Mem) (d s : ℕ) → Apart d s n → Copied m (copy_bytes n m d s) d s n
unfolding copy_bytes
copy_bytes-Copied zero m d s w = Copied-zero m d s
copy_bytes-Copied (suc n) m d s w =
    Copied-trans m (write m d (m s)) _ d s (d ⊕ 1) (s ⊕ 1) 1 n (suc n) (grind arith) (grind arith)
      (omega arith) w (write-Copied m d s)
      (copy_bytes-Copied n (write m d (m s)) (d ⊕ 1) (s ⊕ 1) (grind arith))

copy_words-Copied :
    (n : ℕ) (m : Mem) (d s : ℕ) → Apart d s (4 * n) → Copied m (copy_words n m d s) d s (4 * n)
unfolding copy_words
copy_words-Copied zero m d s w = Copied-zero m d s
copy_words-Copied (suc n) m d s w =
    Copied-trans m _ _ d s (d ⊕ 4) (s ⊕ 4) 4 (4 * n) (4 * suc n) (omega arith) (omega arith)
      (omega arith) w (write4-Copied m d s (omega arith) (omega arith))
      (copy_words-Copied n _ (d ⊕ 4) (s ⊕ 4) (omega arith))

copy_aligned-Copied :
    (n : ℕ) (m : Mem) (d s : ℕ) → Apart d s n → Copied m (copy_aligned n m d s) d s n
unfolding copy_aligned
copy_aligned-Copied n m d s w =
    Copied-trans m (copy_words (n / 4) m d s) _ d s (d ⊕ (4 * (n / 4))) (s ⊕ (4 * (n / 4)))
      (4 * (n / 4)) (n % 4) n (omega arith) (omega arith) (omega arith) w
      (copy_words-Copied (n / 4) m d s (omega arith))
      (copy_bytes-Copied (n % 4) _ (d ⊕ (4 * (n / 4))) (s ⊕ (4 * (n / 4))) (omega arith))

copy_top-Copied : (n : ℕ) (m : Mem) (d s : ℕ) → Apart d s n → Copied m (copy_top n m d s) d s n
unfolding copy_top
copy_top-Copied zero m d s w = Copied-zero m d s
copy_top-Copied (suc n) m d s w = elim (Bool-cases (d % 4 == 0)) [
  | inl here ↦ rw here (copy_aligned-Copied (suc n) m d s w)
  | inr on ↦ rw on (
      Copied-trans m (write m d (m s)) _ d s (d ⊕ 1) (s ⊕ 1) 1 n (suc n) (omega arith) (omega arith)
        (omega arith) w (write-Copied m d s)
        (copy_top-Copied n (write m d (m s)) (d ⊕ 1) (s ⊕ 1) (omega arith)))
]

-- `memcpy` copies exactly `n` bytes from `src` to `dest`, whatever the alignment of `dest`, and
-- changes nothing else, if the two blocks do not overlap.
pub memcpy-Copied :
    (m : Mem) (dest src n : ℕ) → Apart dest src n → Copied m (memcpy m dest src n) dest src n
unfolding memcpy
memcpy-Copied m dest src n w = copy_top-Copied n m dest src w
