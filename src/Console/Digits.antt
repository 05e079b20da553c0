-- ===== src/Console/Digits.antt =====
-- itoa of lib/lib.c: the numeral it writes.
use linux.Base.{
  ℕ, zero, suc, ◌+◌, ◌-◌, ◌^◌, ◌≤◌, ◌<◌, ◌≡◌, ◌≢◌, refl, sym, ◌∙◌, ap, arith, some, false, inl, inr,
  ◌==◌, ==_iff, Bool-cases,
}
use linux.Memory.{Mem, ◌⊕◌, write, SameOutside}
use linux.CString.{IsString, strrev}
use linux.CString.Reverse.{Reversed, strrev-Reversed}
use linux.Console.{itoa_from, itoa}
use linux.Console.Loop.{digit, value_of, low_first, AreDigits, Written, digit-lookup, itoa_from_lem}

value_of-low_first :
    (m m' : Mem) (s t n radix : ℕ)
    → ((k : ℕ) → k < n → m' (s + k) ≡ m (t + (n - 1 - k)))
    → value_of m' s n radix ≡ low_first m t n radix
unfolding value_of low_first
value_of-low_first m m' s t zero radix h = refl
value_of-low_first m m' s t (suc n) radix h =
    let start : t + (suc n - 1 - n) ≡ t = omega arith in
    let last : m' (s + n) ≡ m t = h n (omega arith) ∙ ap m start in
    rw
      (
        last,
        value_of-low_first m m' s (t + 1) n radix (λ k less.
            let e : t + (suc n - 1 - k) ≡ t + 1 + (n - 1 - k) = omega arith in
            h k (omega arith) ∙ ap m e),
      )
      refl

low_first_pos : (m : Mem) (s n v radix : ℕ) → low_first m s n radix ≡ v → 0 < v → 0 < n
unfolding low_first
low_first_pos m s zero v radix e pos = absurd (omega arith)
low_first_pos m s (suc n) v radix e pos = omega arith

-- A number as text: the digits of `v` in the radix, most significant first, without leading zeros,
-- then the terminator.
pub record Numeral (m : Mem) (s n v radix : ℕ) : Type 0 where
  pub string : IsString m s n
  pub digits : AreDigits m s n radix
  pub value : value_of m s n radix ≡ v
  pub leading : 0 < v → digit (m s) ≢ 0

Written-IsString :
    (m m' : Mem) (s n v radix : ℕ)
    → s + n < 2 ^ 32
    → radix ≤ 36
    → Written m m' s n v radix
    → IsString m' s n
Written-IsString m m' s n v radix room hi w = record {
  end = let e : s ⊕ n ≡ s + n = omega arith in rw e w.end;
  before = λ k less z.
      let e : s ⊕ k ≡ s + k = omega arith in
      let z' : m' (s + k) ≡ 0 = rw e at z in
      let (small, is) = w.digits k less in
      (digit-lookup (digit (m' (s + k))) (omega arith)).1 (sym is ∙ z');
}

-- The string that the loop leaves, reversed.
Reversed-Numeral :
    (m m1 m2 : Mem) (s n v radix : ℕ)
    → s + n < 2 ^ 31
    → radix ≤ 36
    → Written m m1 s n v radix
    → Reversed m1 m2 s n
    → Numeral m2 s n v radix
Reversed-Numeral m m1 m2 s n v radix room hi w c = record {
  string = record {
    end = let e : s ⊕ n ≡ s + n = omega arith in rw e (ground (arith, c (s + n), w.end));
    before = λ k less z.
        let e1 : s ⊕ (n - 1 - k) ≡ s + (n - 1 - k) = omega arith in
        let e2 : s ⊕ k ≡ s + k = omega arith in
        (Written-IsString m m1 s n v radix (omega arith) hi w).before (n - 1 - k) (omega arith)
          (ap m1 e1 ∙ sym (at_place k less) ∙ sym (ap m2 e2) ∙ z);
  };
  digits = λ k less. rw (at_place k less) (w.digits (n - 1 - k) (omega arith));
  value = value_of-low_first m1 m2 s s n radix at_place ∙ w.value;
  leading = λ pos z.
      let some_digit = low_first_pos m1 s n v radix w.value pos in
      w.top some_digit (top_place some_digit z);
}
  where
    at_place : (k : ℕ) → k < n → m2 (s + k) ≡ m1 (s + (n - 1 - k))
    at_place k h = let e : s + k - s ≡ k = omega arith in ground (arith, c (s + k), e)

    top_place : 0 < n → digit (m2 s) ≡ 0 → digit (m1 (s + (n - 1))) ≡ 0
    top_place h z =
        let e : s + 0 ≡ s = omega arith in
        let e' : s + (n - 1 - 0) ≡ s + (n - 1) = omega arith in
        ap digit (ap m1 (sym e') ∙ sym (at_place 0 h) ∙ ap m2 e) ∙ z

Numeral-zero :
    (m : Mem) (s radix : ℕ)
    → 2 ≤ radix
    → s + 1 < 2 ^ 32
    → Numeral (write (write m s b'0') (s ⊕ 1) 0) s 1 0 radix
unfolding value_of
Numeral-zero m s radix lo h = record {
  string = record { end = ground arith; before = λ k less. ground arith };
  digits = λ k less. (ground arith, ground arith);
  value = ground arith;
  leading = λ pos. absurd (omega arith);
}

itoa_lem :
    (f : ℕ) (m m1 m2 : Mem) (v buf radix : ℕ)
    → (v == 0) ≡ false
    → itoa_from f m buf v radix ≡ some m1
    → strrev f m1 buf ≡ some m2
    → itoa f m v buf radix ≡ some m2
unfolding itoa
itoa_lem f m m1 m2 v buf radix ne r r2 = rw (ne, r, r2) refl

outside_lem :
    (m m1 m2 : Mem) (s n v radix : ℕ)
    → n ≤ 32
    → Written m m1 s n v radix
    → Reversed m1 m2 s n
    → SameOutside m m2 s 33
outside_lem m m1 m2 s n v radix short w c a (inl h) = ground (arith, c a, w.same a (inl h))
outside_lem m m1 m2 s n v radix short w c a (inr h) =
    let h' : s + suc n ≤ a = omega arith in ground (arith, c a, w.same a (inr h'))

-- For a radix from 2 to 36, a value of 32 bits and a buffer of 33 bytes below 2^31, with 34 rounds
-- of fuel: `itoa` ends, the buffer holds the numeral of the value, and no byte outside it changes.
pub itoa-Numeral :
    (f : ℕ) (m : Mem) (v buf radix : ℕ)
    → 2 ≤ radix
    → radix ≤ 36
    → v < 2 ^ 32
    → buf + 33 < 2 ^ 31
    → 33 < f
    → (m' : Mem) × (n : ℕ) × (itoa f m v buf radix ≡ some m')
      × Numeral m' buf n v radix
      × (n ≤ 32)
      × SameOutside m m' buf 33
unfolding itoa
itoa-Numeral f m v buf radix lo hi h room fuel = elim (Bool-cases (v == 0)) [
  | inl e ↦ rw ((==_iff v 0).0 e) (
    write (write m buf b'0') (buf ⊕ 1) 0,
    1,
    refl,
    Numeral-zero m buf radix lo (omega arith),
    omega arith,
    λ a out. ground arith,
  )
  | inr ne ↦
      let (m1, n, r, w, short) =
        itoa_from_lem f 32 m buf v radix lo hi h (omega arith) (omega arith) in
      let str = Written-IsString m m1 buf n v radix (omega arith) hi w in
      let (m2, r2, c) = strrev-Reversed f m1 buf n str (omega arith) (omega arith) in
      (
        m2,
        n,
        itoa_lem f m m1 m2 v buf radix ne r r2,
        Reversed-Numeral m m1 m2 buf n v radix (omega arith) hi w c,
        short,
        outside_lem m m1 m2 buf n v radix short w c,
      )
]
