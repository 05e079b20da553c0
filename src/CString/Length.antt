-- ===== src/CString/Length.antt =====
-- strlen of lib/lib.c.
use linux.Base.{
  ℕ, zero, suc, ◌+◌, ◌^◌, ◌≤◌, ◌<◌, ◌≡◌, inl, inr, arith, some, ◌==◌, ==_iff, ==_false, Bool-cases,
}
use native.Mathlib.Decide.{dec_lt}
use linux.Memory.{Mem, ◌⊕◌}
use linux.CString.{strlen_from, strlen, IsString}

strlen_from_lem :
    (f : ℕ) (m : Mem) (s n len : ℕ)
    → IsString m s n
    → n < 2 ^ 32
    → len ≤ n
    → n < len + f
    → strlen_from f m s len ≡ some n
unfolding strlen_from
strlen_from_lem zero m s n len w h lo hi = absurd (omega arith)
strlen_from_lem (suc f) m s n len w h lo hi = elim (Bool-cases (len == n)) [
  | inl last ↦ rw ((==_iff len n).0 last, w.end)
  | inr on ↦
      rw (==_false _ _ (w.before len (grind arith)))
        (strlen_from_lem f m s n (len ⊕ 1) w h (grind arith) (grind arith))
]

-- For a string shorter than 2^32, with fuel above its length: `strlen` ends and returns the length.
pub strlen_lem :
    (f : ℕ) (m : Mem) (s n : ℕ) → IsString m s n → n < 2 ^ 32 → n < f → strlen f m s ≡ some n
unfolding strlen
strlen_lem f m s n w h k = strlen_from_lem f m s n 0 w h (omega arith) (omega arith)

-- A string has one length.
pub IsString-unique : (m : Mem) (s j k : ℕ) → IsString m s j → IsString m s k → j ≡ k
IsString-unique m s j k v w = elim (dec_lt j k) [
  | yes less ↦ absurd (w.before j less v.end)
  | no more ↦ elim (dec_lt k j) [
    | yes less ↦ absurd (v.before k less w.end)
    | no equal ↦ omega arith
  ]
]
