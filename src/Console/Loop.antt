-- ===== src/Console/Loop.antt =====
-- The loop of itoa of lib/lib.c: the digits it writes, least significant first.
use linux.Base.{
  ℕ, zero, suc, ◌+◌, ◌-◌, ◌*◌, ◌/◌, ◌%◌, ◌^◌, ◌≤◌, ◌<◌, ◌≡◌, ◌≢◌, refl, sym, ◌∙◌, ap, arith, some,
  inl, inr, ltb, ◌==◌, ==_iff, Bool-cases, if◌then◌else◌,
}
use native.Mathlib.Nat.{mod-eq-sub-div-mul, div-mul-le_self, mul-le-mul_left, mod-lt, pow-suc}
use linux.Memory.{Mem, ◌⊕◌, write, SameOutside}
use linux.Console.{lookup, itoa_from}

-- The digit that a character stands for.
abbrev pub digit : ℕ → ℕ
digit c = if ltb c b'A' then c - b'0' else c - b'A' + 10

-- The number that `n` digits from `s` on stand for, most significant first.
unfoldable pub value_of : Mem → ℕ → ℕ → ℕ → ℕ
value_of m s zero radix = 0
value_of m s (suc n) radix = value_of m s n radix * radix + digit (m (s + n))

-- Least significant first.
unfoldable pub low_first : Mem → ℕ → ℕ → ℕ → ℕ
low_first m s zero radix = 0
low_first m s (suc n) radix = low_first m (s + 1) n radix * radix + digit (m s)

-- The characters are digits of the radix.
abbrev pub AreDigits : Mem → ℕ → ℕ → ℕ → Type 0
AreDigits m s n radix =
    (k : ℕ) → k < n → (digit (m (s + k)) < radix) × (m (s + k) ≡ lookup (digit (m (s + k))))

-- What the loop leaves behind from `s` on.
pub record Written (m m' : Mem) (s n v radix : ℕ) : Type 0 where
  pub value : low_first m' s n radix ≡ v
  pub digits : AreDigits m' s n radix
  pub top : 0 < n → digit (m' (s + (n - 1))) ≢ 0
  pub end : m' (s + n) ≡ 0
  pub same : SameOutside m m' s (suc n)

pub digit-lookup : (i : ℕ) → i < 36 → (digit (lookup i) ≡ i) × (lookup i ≢ 0)
digit-lookup i h = (ground arith, ground arith)

pub quotient_lem : (v radix : ℕ) → v / radix * radix + v % radix ≡ v
quotient_lem v radix = omega (arith, mod-eq-sub-div-mul v radix, div-mul-le_self v radix)

half_lem : (k v radix : ℕ) → 2 ≤ radix → v < 2 ^ suc k → v / radix < 2 ^ k
half_lem k v radix lo h =
    omega (arith, mul-le-mul_left (v / radix) lo, quotient_lem v radix, pow-suc 2 k)

AreDigits-suc :
    (m : Mem) (s n radix : ℕ)
    → (digit (m s) < radix) × (m s ≡ lookup (digit (m s)))
    → AreDigits m (s + 1) n radix
    → AreDigits m s (suc n) radix
AreDigits-suc m s n radix first rest zero h = let e : s + 0 ≡ s = omega arith in rw e first
AreDigits-suc m s n radix first rest (suc k) h =
    let e : s + suc k ≡ s + 1 + k = omega arith in rw e (rest k (omega arith))

top_suc :
    (m : Mem) (s n v radix : ℕ)
    → 0 < v
    → digit (m s) ≡ v % radix
    → low_first m (s + 1) n radix ≡ v / radix
    → (0 < n → digit (m (s + 1 + (n - 1))) ≢ 0)
    → digit (m (s + (suc n - 1))) ≢ 0
unfolding low_first
top_suc m s zero v radix pos d value top z =
    let quot : v / radix ≡ 0 = sym value in
    let e : s + (suc zero - 1) ≡ s = omega arith in
    let rem : v % radix ≡ 0 = sym d ∙ sym (ap (λ a. digit (m a)) e) ∙ z in
    let q = rw (quot, rem) at (quotient_lem v radix) in absurd (omega (arith, q))
top_suc m s (suc n) v radix pos d value top z =
    let e : s + (suc (suc n) - 1) ≡ s + 1 + (suc n - 1) = omega arith in
    top (omega arith) (ap (λ a. digit (m a)) (sym e) ∙ z)

-- A digit more, below those that the rest of the loop writes.
Written-suc :
    (m m' : Mem) (s n v radix : ℕ)
    → 2 ≤ radix
    → radix ≤ 36
    → 0 < v
    → Written (write m s (lookup (v % radix))) m' (s + 1) n (v / radix) radix
    → Written m m' s (suc n) v radix
unfolding low_first
Written-suc m m' s n v radix lo hi pos w =
    let some_radix : 0 < radix = omega arith in
    let low = mod-lt v some_radix in
    let (d, nz) = digit-lookup (v % radix) (omega arith) in
    let here : m' s ≡ lookup (v % radix) = grind (arith, w.same s) in
    record {
      value = rw (here, d, w.value) (quotient_lem v radix);
      digits = AreDigits-suc m' s n radix (rw (here, d) (low, refl)) w.digits;
      top = λ h. top_suc m' s n v radix pos (rw here d) w.value w.top;
      end = grind (arith, w.end);
      same = λ a out. grind (arith, w.same a);
    }

Written-zero : (m : Mem) (p radix : ℕ) → Written m (write m p 0) p 0 0 radix
unfolding low_first
Written-zero m p radix = record {
  value = refl;
  digits = λ k h. absurd (omega arith);
  top = λ h. absurd (omega arith);
  end = ground arith;
  same = λ a out. ground arith;
}

pub itoa_from_lem :
    (f k : ℕ) (m : Mem) (p v radix : ℕ)
    → 2 ≤ radix
    → radix ≤ 36
    → v < 2 ^ k
    → k < f
    → p + k + 1 < 2 ^ 32
    → (m' : Mem) × (n : ℕ) × (itoa_from f m p v radix ≡ some m')
      × Written m m' p n v radix
      × (n ≤ k)
unfolding itoa_from low_first
itoa_from_lem zero k m p v radix lo hi h fuel room = absurd (omega arith)
itoa_from_lem (suc f) zero m p v radix lo hi h fuel room =
    let e : v ≡ 0 = omega arith in rw e (write m p 0, 0, refl, Written-zero m p radix, omega arith)
itoa_from_lem (suc f) (suc k) m p v radix lo hi h fuel room = elim (Bool-cases (v == 0)) [
  | inl e ↦ rw ((==_iff v 0).0 e) (write m p 0, 0, refl, Written-zero m p radix, omega arith)
  | inr ne ↦
      let (m', n, r, w, short) =
        itoa_from_lem f k (write m p (lookup (v % radix))) (p ⊕ 1) (v / radix) radix lo hi
          (half_lem k v radix lo h) (omega arith) (omega arith) in
      (
        m',
        suc n,
        rw (ne) r,
        Written-suc m m' p n v radix lo hi (grind (arith, ne))
            (let e : p ⊕ 1 ≡ p + 1 = omega arith in rw e at w),
        omega arith,
      )
]

-- Digits in the reverse order, read from the other end.
