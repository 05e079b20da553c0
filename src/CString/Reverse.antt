-- ===== src/CString/Reverse.antt =====
-- strrev of lib/lib.c.
use linux.Base.{
  ℕ, zero, suc, ◌+◌, ◌-◌, ◌*◌, ◌%◌, ◌^◌, ◌<◌, ◌≡◌, arith, some, true, false, if◌then◌else◌,
}
use linux.Memory.{Mem, ◌⊕◌, write, within}
use linux.CString.{slt, strrev_from, strrev, IsString}
use linux.CString.Length.{strlen_lem}

-- `m'` is `m` with the `n` bytes from `d` on in reverse order.
abbrev pub Reversed : Mem → Mem → ℕ → ℕ → Type 0
Reversed m m' d n = (a : ℕ) → m' a ≡ (if within d n a then m (d + (n - 1 - (a - d))) else m a)

-- The loop reverses what lies from index `beg` to index `end`.
strrev_from-Reversed :
    (f : ℕ) (m : Mem) (s beg n end : ℕ)
    → s + beg + n < 2 ^ 31
    → n < 2 * f
    → end ≡ (beg + n + (2 ^ 32 - 1)) % 2 ^ 32
    → (m' : Mem) × (strrev_from f m s beg end ≡ some m') × Reversed m m' (s + beg) n
unfolding strrev_from
strrev_from-Reversed zero m s beg n end h k e = absurd (omega arith)
strrev_from-Reversed (suc f) m s beg zero end h k e =
    let stop : slt beg end ≡ false = ground arith in (m, rw stop, λ a. ground arith)
strrev_from-Reversed (suc f) m s beg (suc zero) end h k e =
    let stop : slt beg end ≡ false = ground arith in (m, rw stop, λ a. ground arith)
strrev_from-Reversed (suc f) m s beg (suc (suc n)) end h k e =
    let on : slt beg end ≡ true = ground arith in
    let (m', r, c) =
      strrev_from-Reversed f (write (write m (s ⊕ end) (m (s ⊕ beg))) (s ⊕ beg) (m (s ⊕ end))) s
        (beg ⊕ 1) n (end ⊕ (2 ^ 32 - 1)) (omega arith) (omega arith) (omega arith) in
    (m', rw on r, λ a. ground (arith, c a))

-- For a string that ends below 2^31, with fuel above its length: `strrev` ends, reverses its
-- characters in place and changes nothing else.
pub strrev-Reversed :
    (f : ℕ) (m : Mem) (s n : ℕ)
    → IsString m s n
    → s + n < 2 ^ 31
    → n < f
    → (m' : Mem) × (strrev f m s ≡ some m') × Reversed m m' s n
unfolding strrev
strrev-Reversed f m s n w h k =
    let (m', r, c) =
      strrev_from-Reversed f m s 0 n (n ⊕ (2 ^ 32 - 1)) (omega arith) (omega arith) (omega arith) in
    (m', rw (strlen_lem f m s n w (omega arith) k, strrev) r, λ a. ground (arith, c a))
