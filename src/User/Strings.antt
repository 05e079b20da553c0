-- ===== src/User/Strings.antt =====
-- ece391support.c of syscalls/: what the comparisons of strings find.
use linux.Base.{
  Option, ℕ, zero, suc, ◌+◌, ◌<◌, ◌≤◌, ◌≡◌, ◌≢◌, ◌⊎◌, refl, ap, sym, ◌∙◌, arith, some, inl, inr,
  ◌==◌, ==_iff, Bool-cases,
}
use native.Mathlib.Decide.{dec_lt}
use linux.Memory.{Mem, ◌⊕◌}
use linux.CString.{IsString}
use linux.User.{byte_diff, strcmp_from, ece391_strcmp}

-- The two texts have the same first `n` characters.
abbrev pub Agree : Mem → ℕ → ℕ → ℕ → Type 0
Agree m s1 s2 n = (i : ℕ) → i < n → m (s1 ⊕ i) ≡ m (s2 ⊕ i)

-- The place of the first difference of the strings, of lengths `j` and `k`.
pub record Differ (m : Mem) (s1 s2 j k d : ℕ) : Type 0 where
  pub in_first : d ≤ j
  pub in_second : d ≤ k
  pub agree : Agree m s1 s2 d
  pub differ : m (s1 ⊕ d) ≢ m (s2 ⊕ d)

Agree-next :
    (m : Mem) (s1 s2 i : ℕ) → Agree m s1 s2 i → m (s1 ⊕ i) ≡ m (s2 ⊕ i) → Agree m s1 s2 (i + 1)
Agree-next m s1 s2 i agree same n below = elim (Bool-cases (n == i)) [
  | inl at ↦ rw ((==_iff n i).0 at) same
  | inr before ↦ agree n (grind arith)
]

-- Where the strings agree before `i`: `i` is at most the length of each, and the end of one is the
-- end of the other.
string_end : (m : Mem) (s j i : ℕ) → IsString m s j → i ≤ j → m (s ⊕ i) ≡ 0 → i ≡ j
string_end m s j i w within nul = elim (dec_lt i j) [
  | yes before ↦ absurd (w.before i before nul)
  | no past ↦ omega arith
]

string_on : (m : Mem) (s j i : ℕ) → IsString m s j → i ≤ j → m (s ⊕ i) ≢ 0 → i < j
string_on m s j i w within some_char = elim (dec_lt i j) [
  | yes before ↦ before
  | no past ↦ absurd (some_char (ap (λ n. m (s ⊕ n)) (omega arith) ∙ w.end))
]

-- What a comparison from `i` on comes to.
abbrev pub Compared : Mem → ℕ → ℕ → ℕ → ℕ → Option ℕ → Type 0
Compared m s1 s2 j k result =
    ((j ≡ k) × Agree m s1 s2 j × (result ≡ some 0))
    ⊎ ((d : ℕ) × Differ m s1 s2 j k d × (result ≡ some (byte_diff (m (s1 ⊕ d)) (m (s2 ⊕ d)))))

strcmp_from_lem :
    (f : ℕ) (m : Mem) (s1 s2 j k i : ℕ)
    → IsString m s1 j
    → IsString m s2 k
    → i ≤ j
    → i ≤ k
    → Agree m s1 s2 i
    → j < i + f
    → Compared m s1 s2 j k (strcmp_from f m s1 s2 i)
unfolding strcmp_from
strcmp_from_lem zero m s1 s2 j k i w v first second agree enough = absurd (omega arith)
strcmp_from_lem (suc f) m s1 s2 j k i w v first second agree enough =
    elim (Bool-cases (m (s1 ⊕ i) == m (s2 ⊕ i))) [
      | inr other ↦ rw other (
          inr (
            i,
            record { in_first = first; in_second = second; agree = agree; differ = grind arith },
            refl,
          ))
      | inl same ↦
          let eq = (==_iff _ _).0 same in
          elim (Bool-cases (m (s1 ⊕ i) == 0)) [
            | inl nul ↦
                let end1 = string_end m s1 j i w first ((==_iff _ _).0 nul) in
                let end2 = string_end m s2 k i v second (sym eq ∙ (==_iff _ _).0 nul) in
                rw (same, nul) (inl (sym end1 ∙ end2, rw (sym end1) agree, refl))
            | inr char ↦
                let on1 = string_on m s1 j i w first (grind arith) in
                let on2 = string_on m s2 k i v second (grind arith) in
                rw (same, char)
                  (strcmp_from_lem f m s1 s2 j k (i + 1) w v (omega arith) (omega arith)
                    (Agree-next m s1 s2 i agree eq) (omega arith))
          ]
    ]

-- For two strings and fuel above the length of the first: `ece391_strcmp` ends. Either the strings
-- are the same and it returns 0, or it returns the difference of their characters at the first place
-- where they differ, as an `int32_t`.
pub strcmp_lem :
    (f : ℕ) (m : Mem) (s1 s2 j k : ℕ)
    → IsString m s1 j
    → IsString m s2 k
    → j < f
    → Compared m s1 s2 j k (ece391_strcmp f m s1 s2)
unfolding ece391_strcmp
strcmp_lem f m s1 s2 j k w v enough =
    strcmp_from_lem f m s1 s2 j k 0 w v (omega arith) (omega arith)
      (λ i below. absurd (omega arith)) (omega arith)
