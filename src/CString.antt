-- ===== src/CString.antt =====
-- The string functions of lib/lib.c, on byte-addressed memory.
pub mod Length
pub mod Compare
pub mod Copy
pub mod Pad
pub mod Reverse
use linux.Base.{
  ℕ, zero, suc, ◌+◌, ◌-◌, ◌%◌, ◌^◌, ◌<◌, ◌≡◌, ◌≢◌, Bool, Option, none, some, not, ltb, ◌==◌, ◌||◌,
  if◌then◌else◌,
}
use linux.Memory.{Mem, ◌⊕◌, write}

-- The loop of `strlen`. Each loop that looks for the end of a string has fuel; `none`: it ran out.
unfoldable pub strlen_from : ℕ → Mem → ℕ → ℕ → Option ℕ
strlen_from zero m s len = none
strlen_from (suc f) m s len =
    let rest = strlen_from f m s (len ⊕ 1) in if m (s ⊕ len) == 0 then some len else rest

unfoldable pub strlen : ℕ → Mem → ℕ → Option ℕ
unfolding strlen_from
strlen f m s = strlen_from f m s 0

-- An `int8_t` as an `int`, and the difference of two.
abbrev pub sign_extend : ℕ → ℕ
sign_extend c = if ltb c 0x80 then c else c + (2 ^ 32 - 0x100)

abbrev pub char_diff : ℕ → ℕ → ℕ
char_diff a b = (sign_extend a + 2 ^ 32 - sign_extend b) % 2 ^ 32

-- The loop of `strncmp`, with the rounds left and its index.
unfoldable pub strncmp_from : ℕ → Mem → ℕ → ℕ → ℕ → ℕ
strncmp_from zero m s1 s2 i = 0
strncmp_from (suc r) m s1 s2 i =
    let rest = strncmp_from r m s1 s2 (i + 1) in
    if not (m (s1 ⊕ i) == m (s2 ⊕ i)) || m (s1 ⊕ i) == 0
    then char_diff (m (s1 ⊕ i)) (m (s2 ⊕ i))
    else rest

unfoldable pub strncmp : Mem → ℕ → ℕ → ℕ → ℕ
unfolding strncmp_from
strncmp m s1 s2 n = strncmp_from n m s1 s2 0

-- The loop of `strcpy`.
unfoldable pub strcpy_from : ℕ → Mem → ℕ → ℕ → ℕ → Option Mem
strcpy_from zero m dest src i = none
strcpy_from (suc f) m dest src i =
    let rest = strcpy_from f (write m (dest ⊕ i) (m (src ⊕ i))) dest src (i + 1) in
    if m (src ⊕ i) == 0 then some (write m (dest ⊕ i) 0) else rest

unfoldable pub strcpy : ℕ → Mem → ℕ → ℕ → Option Mem
unfolding strcpy_from
strcpy f m dest src = strcpy_from f m dest src 0

-- The second loop of `strncpy`, with the rounds left and its index.
unfoldable pub pad_from : ℕ → Mem → ℕ → ℕ → Mem
pad_from zero m dest i = m
pad_from (suc r) m dest i = pad_from r (write m (dest ⊕ i) 0) dest (i + 1)

-- The first loop of `strncpy`, with the rounds that `n` allows.
unfoldable pub strncpy_from : ℕ → Mem → ℕ → ℕ → ℕ → Mem
unfolding pad_from
strncpy_from zero m dest src i = m
strncpy_from (suc r) m dest src i =
    let rest = strncpy_from r (write m (dest ⊕ i) (m (src ⊕ i))) dest src (i + 1) in
    if m (src ⊕ i) == 0 then pad_from (suc r) m dest i else rest

unfoldable pub strncpy : Mem → ℕ → ℕ → ℕ → Mem
unfolding strncpy_from
strncpy m dest src n = strncpy_from n m dest src 0

-- `<` on `int`, of two bit patterns.
abbrev pub slt : ℕ → ℕ → Bool
slt a b = ltb ((a + 2 ^ 31) % 2 ^ 32) ((b + 2 ^ 31) % 2 ^ 32)

-- The loop of `strrev`; `end` is -1 for the empty string.
pub strrev_from : ℕ → Mem → ℕ → ℕ → ℕ → Option Mem
strrev_from zero m s beg end = none
strrev_from (suc f) m s beg end =
    let rest = strrev_from f swapped s (beg ⊕ 1) (end ⊕ (2 ^ 32 - 1)) in
    if slt beg end then rest else some m
  where
    swapped : Mem
    swapped = write (write m (s ⊕ end) (m (s ⊕ beg))) (s ⊕ beg) (m (s ⊕ end))

unfoldable pub strrev : ℕ → Mem → ℕ → Option Mem
unfolding strlen strrev_from
strrev f m s = elim (strlen f m s) [
  | none ↦ none
  | some len ↦ strrev_from f m s 0 (len ⊕ (2 ^ 32 - 1))
]

-- A string of `n` characters stands at `s`: its terminator is the first zero byte.
pub record IsString (m : Mem) (s n : ℕ) : Type 0 where
  pub end : m (s ⊕ n) ≡ 0
  pub before : (k : ℕ) → k < n → m (s ⊕ k) ≢ 0
