-- ===== src/Rtc/Rate.antt =====
-- rtc_write of drivers/rtc.c: the rates it takes, and what it writes to the clock.
use Prim.Native.Nat.{bit_and, bit_or}
use linux.Base.{
  all_below, all_below_lem, ℕ, zero, suc, ◌-◌, ◌^◌, ◌≤◌, ◌<◌, ◌≡◌, ◌≢◌, ◌⊎◌, inl, inr, refl, sym,
  ap, ◌∙◌, arith, Bool, true, false, not, ◌&&◌, ◌||◌, ◌∷◌, Option, some, none, ltb, ◌==◌, ==_iff,
  ==_true, ==_false, Bool-cases, if◌then◌else◌,
}
use linux.CString.{slt}
use linux.Rtc.{Rtc, rtc_port, rtc_cmos, rtc_reg_a_m, is_power, find_divider, rtc_write}

-- The rates from 2 to 1024 that are powers of 2, by their exponent.
pub record RateIs (rate k : ℕ) : Type 0 where
  pub low : 1 ≤ k
  pub high : k ≤ 10
  pub power : rate ≡ 2 ^ k

-- The clock after its divider is set: the other four bits of register A are kept.
abbrev pub divided : Rtc → ℕ → Rtc
divided s divider = record s {
  ports =
      (rtc_cmos, bit_or (bit_and s.register_a 0xf0) divider)
      ∷ (rtc_port, rtc_reg_a_m)
      ∷ (rtc_port, rtc_reg_a_m)
      ∷ s.ports;
}

-- The exponent of a rate, 0 for a number that is none.
exponent_from : ℕ → ℕ → ℕ
exponent_from zero rate = 0
exponent_from (suc k) rate =
    let rest = exponent_from k rate in if rate == 2 ^ suc k then suc k else rest

exponent_from-RateIs :
    (k rate : ℕ) → k ≤ 10 → (exponent_from k rate ≡ 0) ⊎ RateIs rate (exponent_from k rate)
unfolding exponent_from
exponent_from-RateIs zero rate h = inl refl
exponent_from-RateIs (suc k) rate h = elim (Bool-cases (rate == 2 ^ suc k)) [
  | inl e ↦
      rw e (inr (record { low = omega arith; high = h; power = (==_iff rate (2 ^ suc k)).0 e }))
  | inr ne ↦ rw ne (exponent_from-RateIs k rate (omega arith))
]

exponent_zero : (n rate k : ℕ) → exponent_from n rate ≡ 0 → 1 ≤ k → k ≤ n → rate ≢ 2 ^ k
unfolding exponent_from
exponent_zero zero rate k e low high p = absurd (omega arith)
exponent_zero (suc n) rate k e low high p = elim (Bool-cases (rate == 2 ^ suc n)) [
  | inl same ↦ absurd (ground (arith, e, same))
  | inr other ↦ elim (Bool-cases (k == suc n)) [
    | inl last ↦
        let q : rate ≡ 2 ^ suc n = p ∙ ap (λ j. 2 ^ j) ((==_iff k (suc n)).0 last) in
        absurd (ground (arith, other, ==_true rate (2 ^ suc n) q))
    | inr before ↦ exponent_zero n rate k (ground (arith, e, other)) low (grind (arith, before)) p
  ]
]

-- A rate in range passes the test exactly when it has an exponent.
is_power_check :
    all_below 1025 (λ r. ltb r 2 || not (is_power r) || not (exponent_from 10 r == 0)) ≡ true
unfolding all_below exponent_from
is_power_check = refl

and_both : (a b : Bool) → (a && b) ≡ true → (a ≡ true) × (b ≡ true)
and_both true b h = (refl, h)
and_both false b h = absurd (ground (arith, h))

not-true : (a : Bool) → not a ≡ true → a ≡ false
not-true true h = sym h
not-true false h = refl

power_exponent :
    (rate : ℕ) → 2 ≤ rate → rate < 1025 → exponent_from 10 rate ≡ 0 → is_power rate ≡ false
power_exponent rate low high e =
    let c = all_below_lem 1025 _ rate is_power_check high in ground (arith, c, e)

range_error :
    (s : Rtc) (rate : ℕ)
    → rate < 2 ^ 32
    → (rate < 2) ⊎ (1025 ≤ rate)
    → rtc_write s rate ≡ some (s, false)
unfolding rtc_write
range_error s rate h out = let e : (slt 1024 rate || slt rate 2) ≡ true = ground arith in rw e refl

power_error : (s : Rtc) (rate : ℕ) → is_power rate ≡ false → rtc_write s rate ≡ some (s, false)
unfolding rtc_write
power_error s rate e = elim (Bool-cases (slt 1024 rate || slt rate 2)) [
  | inl out ↦ rw out refl
  | inr within ↦ rw (within, e) refl
]

finds : Option ℕ → ℕ → Bool
finds none d = false
finds (some c) d = c == d

finds_lem : (o : Option ℕ) (d : ℕ) → finds o d ≡ true → o ≡ some d
unfolding finds
finds_lem none d h = absurd (ground (arith, h))
finds_lem (some c) d h = ap some ((==_iff c d).0 h)

in_range : ℕ → Bool
in_range k = not (slt 1024 (2 ^ k) || slt (2 ^ k) 2)

divides : ℕ → Bool
divides k = finds (find_divider 12 (bit_and (2 ^ k) 0xfff) 0 1) (16 - k)

-- The ten exponents.
exponent_check : all_below 11 (λ k. k == 0 || in_range k && (is_power (2 ^ k) && divides k)) ≡ true
unfolding all_below in_range divides finds find_divider
exponent_check = refl

exponent_lem : (k : ℕ) → 1 ≤ k → k ≤ 10 → (in_range k && (is_power (2 ^ k) && divides k)) ≡ true
exponent_lem k low high =
    rw
      (← ap (λ (b : Bool). b || in_range k && (is_power (2 ^ k) && divides k))
        (==_false k 0 (omega arith)))
      (all_below_lem 11 _ k exponent_check (omega arith))

rate_set :
    (s : Rtc) (rate k : ℕ) → RateIs rate k → rtc_write s rate ≡ some (divided s (16 - k), true)
unfolding rtc_write in_range divides
rate_set s rate k w =
    let h = exponent_lem k w.low w.high in
    let a = and_both (in_range k) (is_power (2 ^ k) && divides k) h in
    let b = and_both (is_power (2 ^ k)) (divides k) a.1 in
    rw
      (
        w.power,
        not-true (slt 1024 (2 ^ k) || slt (2 ^ k) 2) a.0,
        b.0,
        finds_lem (find_divider 12 (bit_and (2 ^ k) 0xfff) 0 1) (16 - k) b.1,
      )
      refl

-- For any value of 32 bits: if it is a power of 2 from 2 to 1024, the write sets the divider to 16
-- minus the exponent and reports success; if it is not, the write reports an error and changes
-- nothing.
pub rtc_write_lem :
    (s : Rtc) (rate : ℕ)
    → rate < 2 ^ 32
    → ((k : ℕ) × RateIs rate k × (rtc_write s rate ≡ some (divided s (16 - k), true)))
      ⊎ (¬ ((k : ℕ) × RateIs rate k) × (rtc_write s rate ≡ some (s, false)))
rtc_write_lem s rate h = elim (exponent_from-RateIs 10 rate (omega arith)) [
  | inr w ↦ inl (exponent_from 10 rate, w, rate_set s rate _ w)
  | inl e ↦ inr (
    λ w. exponent_zero 10 rate w.0 e (w.1).low (w.1).high (w.1).power,
    elim (Bool-cases (ltb rate 2 || ltb 1024 rate)) [
      | inl out ↦ range_error s rate h (ground arith)
      | inr within ↦ power_error s rate (power_exponent rate (ground arith) (ground arith) e)
    ],
  )
]
