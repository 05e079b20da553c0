-- ===== src/CString/Compare.antt =====
-- strncmp of lib/lib.c.
use linux.Base.{
  ℕ, zero, suc, ◌+◌, ◌≤◌, ◌<◌, ◌≡◌, ◌≢◌, ◌⊎◌, ◌↔◌, inl, inr, refl, arith, not, ◌||◌, ◌==◌,
  Bool-cases, from_first, true, false,
}
use linux.Memory.{Mem, ◌⊕◌}
use linux.CString.{char_diff, strncmp_from, strncmp}

-- Both strings go on after index `i`: they agree there, and not on the terminator.
abbrev pub GoesOn : Mem → ℕ → ℕ → ℕ → Type 0
GoesOn m s1 s2 i = (m (s1 ⊕ i) ≡ m (s2 ⊕ i)) × (m (s1 ⊕ i) ≢ 0)

-- What the comparison of the indices `lo` to `n - 1` returns: the difference at the first index
-- where the strings do not both go on, or 0.
abbrev pub Compared : Mem → ℕ → ℕ → ℕ → ℕ → ℕ → Type 0
Compared m s1 s2 lo n r =
    ((i : ℕ) × (lo ≤ i)
      × (i < n)
      × ((q : ℕ) → lo ≤ q → q < i → GoesOn m s1 s2 q)
      × (¬ GoesOn m s1 s2 i)
      × (r ≡ char_diff (m (s1 ⊕ i)) (m (s2 ⊕ i))))
    ⊎ (((q : ℕ) → lo ≤ q → q < n → GoesOn m s1 s2 q) × (r ≡ 0))

Compared-extend :
    (m : Mem) (s1 s2 lo n r : ℕ)
    → GoesOn m s1 s2 lo
    → Compared m s1 s2 (lo + 1) n r
    → Compared m s1 s2 lo n r
Compared-extend m s1 s2 lo n r go (inl (i, a, b, c, d, e)) =
    inl (i, omega arith, b, from_first lo i go c, d, e)
Compared-extend m s1 s2 lo n r go (inr (c, e)) = inr (from_first lo n go c, e)

stops : (a b : ℕ) → (not (a == b) || a == 0) ≡ true → ¬ ((a ≡ b) × (a ≢ 0))
stops a b h g = grind arith

goes_on : (a b : ℕ) → (not (a == b) || a == 0) ≡ false → (a ≡ b) × (a ≢ 0)
goes_on a b h = grind arith

strncmp_from-Compared :
    (r : ℕ) (m : Mem) (s1 s2 i n : ℕ) → i + r ≡ n → Compared m s1 s2 i n (strncmp_from r m s1 s2 i)
unfolding strncmp_from
strncmp_from-Compared zero m s1 s2 i n e = inr ((λ q a b. absurd (omega arith)), refl)
strncmp_from-Compared (suc r) m s1 s2 i n e =
    elim (Bool-cases (not (m (s1 ⊕ i) == m (s2 ⊕ i)) || m (s1 ⊕ i) == 0)) [
      | inl stop ↦
          rw stop (
            inl
              (i, omega arith, omega arith, (λ q a b. absurd (omega arith)), stops _ _ stop, refl))
      | inr on ↦ rw on (
          Compared-extend m s1 s2 i n _ (goes_on _ _ on)
            (strncmp_from-Compared r m s1 s2 (i + 1) n (omega arith)))
    ]

-- `strncmp` returns the difference of the two characters, as signed, at the first of `n` indices
-- where the strings differ or both end, and 0 if there is none.
pub strncmp-Compared : (m : Mem) (s1 s2 n : ℕ) → Compared m s1 s2 0 n (strncmp m s1 s2 n)
unfolding strncmp
strncmp-Compared m s1 s2 n = strncmp_from-Compared n m s1 s2 0 n (omega arith)

char_diff-zero : (a b : ℕ) → a < 256 → b < 256 → char_diff a b ≡ 0 → a ≡ b
char_diff-zero a b h k e = ground arith

-- Where memory holds bytes and the first `n` characters at `s1` are not 0: `strncmp` over `n` is 0
-- exactly when `s2` has the same first `n` characters.
pub strncmp_zero_iff :
    (m : Mem) (s1 s2 n : ℕ)
    → ((a : ℕ) → m a < 256)
    → ((q : ℕ) → q < n → m (s1 ⊕ q) ≢ 0)
    → (strncmp m s1 s2 n ≡ 0) ↔ ((q : ℕ) → q < n → m (s1 ⊕ q) ≡ m (s2 ⊕ q))
strncmp_zero_iff m s1 s2 n bytes nonzero = elim (strncmp-Compared m s1 s2 n) [
  | inl (i, _, hi, before, stop, e) ↦ (
    λ z. absurd (stop (char_diff-zero _ _ (bytes (s1 ⊕ i)) (bytes (s2 ⊕ i)) (cc), nonzero i hi)),
    λ same. absurd (stop (same i hi, nonzero i hi)),
  )
  | inr (on, e) ↦ ((λ _ q h. (on q (omega arith) h).0), λ _. e)
]
