-- ===== src/Console/Increment.antt =====
-- test_interrupts of lib/lib.c, which marks the whole screen.
use linux.Base.{
  ℕ, zero, suc, ◌+◌, ◌*◌, ◌%◌, ◌≡◌, arith, ap, inl, inr, ==_iff, Bool-cases, if◌then◌else◌, ◌&&◌,
  ◌==◌,
}
use linux.Memory.{Mem, write, within}
use linux.Console.{Console, video_mem, num_cols, num_rows}

-- The loop, with the rounds left: the bytes of `video_mem` are `char`s, and wrap around.
unfoldable pub increment_from : ℕ → Mem → ℕ → Mem
increment_from zero m i = m
increment_from (suc r) m i =
    increment_from r (write m (video_mem + 2 * i) ((m (video_mem + 2 * i) + 1) % 0x100)) (i + 1)

unfoldable pub test_interrupts : Console → Console
test_interrupts c = record c { mem = increment_from (num_rows * num_cols) c.mem 0 }

-- `m'` is `m` with the characters of the `r` cells from the cell `i` on one higher.
abbrev pub Raised : Mem → Mem → ℕ → ℕ → Type 0
Raised m m' i r =
    (a : ℕ)
    → m' a
      ≡ (if within (video_mem + 2 * i) (2 * r) a && (a % 2 == 0) then (m a + 1) % 0x100 else m a)

increment_from-Raised : (r : ℕ) (m : Mem) (i : ℕ) → Raised m (increment_from r m i) i r
unfolding increment_from
increment_from-Raised zero m i a = ground arith
increment_from-Raised (suc r) m i a =
    let here = video_mem + 2 * i in
    let m1 = write m here ((m here + 1) % 0x100) in
    let h = increment_from-Raised r m1 (i + 1) a in
    elim (Bool-cases (a == here)) [
      | inl at ↦ let e : a ≡ here = (==_iff a here).0 at in ground (arith, h, ap m e)
      | inr off ↦ ground (arith, h)
    ]

-- `test_interrupts` raises the character of every cell of the screen by one, as a byte, and leaves
-- the attributes and all memory outside the screen as they are.
pub test_interrupts-Raised : (c : Console) → Raised c.mem (test_interrupts c).mem 0 2000
unfolding test_interrupts
test_interrupts-Raised c a = increment_from-Raised (num_rows * num_cols) c.mem 0 a
