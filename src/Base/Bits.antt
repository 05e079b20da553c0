-- ===== src/Base/Bits.antt =====
-- `&` with a mask, as arithmetic: the native operation has no laws at variables but its digits.
use Prim.Native.Nat.{
  ℕ, zero, suc, ◌+◌, ◌-◌, ◌*◌, ◌/◌, ◌%◌, ◌^◌, ◌≤◌, min, bit_and, digits, bit_and-bitwise,
}
use mathlib.Core.Path.{◌≡◌, refl, ap, ◌∙◌, sym}
use native.Mathlib.Nat.{
  pow-suc, one-le-pow, mul_comm, div-div-eq-div-mul, mod-eq-sub-div-mul, div-mul-le_self,
}
use native.Mathlib.Omega.{arith}

-- The digits of the two numbers, with fuel `n` for those of the first.
abbrev and_digits : ℕ → ℕ → ℕ → ℕ
and_digits n a b = digits (λ _. zero) min n a b

-- More fuel than the first number needs changes nothing.
and_digits-suc : (n a b : ℕ) → a ≤ n → and_digits (suc n) a b ≡ and_digits n a b
and_digits-suc zero zero b h = refl
and_digits-suc zero (suc a) b h = absurd (omega arith)
and_digits-suc (suc n) zero b h = refl
and_digits-suc (suc n) (suc a) b h =
    ap (λ k. k * 2 + min (suc a % 2) (b % 2)) (and_digits-suc n (suc a / 2) (b / 2) (omega arith))

and_digits_enough : (k n a b : ℕ) → n ≡ a + k → and_digits n a b ≡ bit_and a b
and_digits_enough zero n a b e =
    ap (λ m. and_digits m a b) (let e' : n ≡ a = omega arith in e') ∙ sym (bit_and-bitwise a b)
and_digits_enough (suc k) zero a b e = absurd (omega arith)
and_digits_enough (suc k) (suc n) a b e =
    and_digits-suc n a b (omega arith) ∙ and_digits_enough k n a b (omega arith)

-- One binary digit of `&`.
pub bit_and_digit : (a b : ℕ) → bit_and a b ≡ bit_and (a / 2) (b / 2) * 2 + min (a % 2) (b % 2)
bit_and_digit zero b = omega (arith, bit_and-bitwise 0 b, bit_and-bitwise 0 (b / 2))
bit_and_digit (suc a) b =
    bit_and-bitwise (suc a) b
    ∙ ap (λ k. k * 2 + min (suc a % 2) (b % 2))
        (and_digits_enough (a - suc a / 2) a (suc a / 2) (b / 2) (omega arith))

div_double : (a p : ℕ) → a / (p * 2) ≡ a / 2 / p
div_double a p = ap (λ k. a / k) (mul_comm p 2) ∙ sym (div-div-eq-div-mul a 2 p)

mod_double : (a p : ℕ) → a % (p * 2) ≡ a / 2 % p * 2 + a % 2
mod_double a p = omega (
  arith,
  div_double a p,
  ap (λ (x : ℕ). x * (p * 2)) (div_double a p),
  mod-eq-sub-div-mul a (p * 2),
  mod-eq-sub-div-mul (a / 2) p,
  div-mul-le_self a (p * 2),
  div-mul-le_self (a / 2) p,
)

-- A mask whose `k` low bits are clear drops the `k` low bits.
pub bit_and_shifted : (k a m : ℕ) → bit_and a (m * 2 ^ k) ≡ bit_and (a / 2 ^ k) m * 2 ^ k
bit_and_shifted zero a m =
    let e : m * 1 ≡ m = omega arith in let d : a / 1 ≡ a = omega arith in rw (e, d) (omega arith)
bit_and_shifted (suc k) a m =
    rw (pow-suc 2 k, div_double a (2 ^ k), bit_and_digit a (m * (2 ^ k * 2)))
      (rw (half, even)
        (omega (
          arith,
          bit_and_shifted k (a / 2) m,
          ap (λ (x : ℕ). x * 2) (bit_and_shifted k (a / 2) m),
        )))
  where
    half : m * (2 ^ k * 2) / 2 ≡ m * 2 ^ k
    half = omega arith

    even : m * (2 ^ k * 2) % 2 ≡ 0
    even = omega arith

bit_and-zero : (n a : ℕ) → a ≤ n → bit_and a 0 ≡ 0
bit_and-zero n zero h = refl
bit_and-zero zero (suc a) h = absurd (omega arith)
bit_and-zero (suc n) (suc a) h =
    omega (arith, bit_and_digit (suc a) 0, bit_and-zero n (suc a / 2) (omega arith))

-- A mask of `k` ones is the remainder by `2 ^ k`.
pub bit_and_ones : (k a : ℕ) → bit_and a (2 ^ k - 1) ≡ a % 2 ^ k
bit_and_ones zero a = rw (bit_and-zero a a (omega arith)) (omega arith)
bit_and_ones (suc k) a =
    rw (pow-suc 2 k, mod_double a (2 ^ k), bit_and_digit a (2 ^ k * 2 - 1))
      (rw (half, odd) (omega (arith, bit_and_ones k (a / 2))))
  where
    half : (2 ^ k * 2 - 1) / 2 ≡ 2 ^ k - 1
    half = omega (arith, one-le-pow k 2)

    odd : (2 ^ k * 2 - 1) % 2 ≡ 1
    odd = omega (arith, one-le-pow k 2)
