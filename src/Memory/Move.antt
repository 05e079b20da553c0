-- ===== src/Memory/Move.antt =====
-- memmove of lib/lib.c: overlapping blocks, and the direction flag.
use linux.Base.{
  ℕ, zero, suc, ◌+◌, ◌-◌, ◌^◌, ◌≤◌, ◌<◌, ◌≡◌, inl, inr, arith, true, leb, leb-false, Bool-cases,
}
use linux.Memory.{Mem, ◌⊕◌, write, move_up, move_down, memmove}
use linux.Memory.Copy.{Copied, Copied-zero}

move_up-Copied :
    (n : ℕ) (m : Mem) (d s : ℕ) → d ≤ s → s + n < 2 ^ 32 → Copied m (move_up n m d s) d s n
unfolding move_up
move_up-Copied zero m d s le h a = Copied-zero m d s a
move_up-Copied (suc n) m d s le h a =
    ground (arith, move_up-Copied n (write m d (m s)) (d ⊕ 1) (s ⊕ 1) (omega arith) (omega arith) a)

move_down-Copied :
    (n : ℕ) (m : Mem) (d s : ℕ)
    → s < d
    → d + n < 2 ^ 32
    → Copied m (move_down n m (d ⊕ n ⊕ (2 ^ 32 - 1)) (s ⊕ n ⊕ (2 ^ 32 - 1))) d s n
unfolding move_down
move_down-Copied zero m d s lt h a = Copied-zero m d s a
move_down-Copied (suc n) m d s lt h a =
    rw (last d (omega arith), last s (omega arith))
      (ground (
        arith,
        move_down-Copied n (write m (d + n) (m (s + n))) d s lt (omega arith) a,
        at d (omega arith),
        at s (omega arith),
      ))
  where
    last : (x : ℕ) → x + suc n < 2 ^ 32 → x ⊕ suc n ⊕ (2 ^ 32 - 1) ≡ x ⊕ n
    last x k = omega arith

    at : (x : ℕ) → x + suc n < 2 ^ 32 → x ⊕ n ≡ x + n
    at x k = omega arith

-- When neither block reaches the end of the address space, `memmove` moves `n` bytes from `src` to
-- `dest` as they were before the call, overlapping or not, and changes nothing else.
pub memmove-Copied :
    (m : Mem) (dest src n : ℕ)
    → dest + n < 2 ^ 32
    → src + n < 2 ^ 32
    → Copied m (memmove m dest src n).0 dest src n
unfolding memmove
memmove-Copied m dest src n h k a = elim (Bool-cases (leb dest src)) [
  | inl up ↦ rw up (move_up-Copied n m dest src (grind arith) k a)
  | inr down ↦ rw down (move_down-Copied n m dest src (grind arith) h a)
]

-- A move to a higher address returns with the direction flag set; nothing clears it.
pub memmove_leaves_std : (m : Mem) (dest src n : ℕ) → src < dest → (memmove m dest src n).1 ≡ true
unfolding memmove
memmove_leaves_std m dest src n h = rw (leb-false dest src h)
