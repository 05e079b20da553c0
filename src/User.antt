-- ===== src/User.antt =====
-- The user programs of syscalls and fish: the system calls of syscalls/ece391syscall.h, and the
-- library of syscalls/ece391support.c.
pub mod Strings
pub mod Steps
pub mod Programs
pub mod Grep
pub mod Pingpong
pub mod Fish
pub mod Syserr
pub mod Emulate
mod Tests
mod CatTests
use Prim.Native.String.{String}
use linux.Base.{
  ℕ, zero, suc, ◌+◌, ◌-◌, ◌%◌, ◌^◌, Bool, Option, none, some, not, ◌==◌, if◌then◌else◌,
}
use linux.Memory.{Mem, ◌⊕◌, write}
use linux.CString.{strlen, strlen_from, strcpy, strcpy_from, strrev_from, slt}
use linux.Console.{itoa_from}

-- A program, from a state to the state at its end and a result. `none`: it does not end, or its fuel
-- runs out.
abbrev pub Program : Type 0 → Type 0 → Type 0
Program S A = S → Option (S × A)

infixl 5 ◌>>=◌ ◌>>◌
abbrev pub ◌>>=◌ : {S A B : Type 0} → Program S A → (A → Program S B) → Program S B
◌>>=◌ p f s = elim (p s) [ none ↦ none | some (s', a) ↦ f a s' ]

abbrev pub ◌>>◌ : {S A B : Type 0} → Program S A → Program S B → Program S B
◌>>◌ p q s = elim (p s) [ none ↦ none | some (s', a) ↦ q s' ]

abbrev pub pure : {S A : Type 0} → A → Program S A
pure a s = some (s, a)

abbrev pub diverge : {S A : Type 0} → Program S A
diverge s = none

-- What a program runs on: its memory, the calls, the addresses of its string literals, and the fuel
-- of the loops over strings.
pub record System (S : Type 0) : Type 0 where
  pub memory : S → Mem
  pub set_memory : S → Mem → S
  pub ece391_read : ℕ → ℕ → ℕ → Program S ℕ
  pub ece391_write : ℕ → ℕ → ℕ → Program S ℕ
  pub ece391_open : ℕ → Program S ℕ
  pub ece391_close : ℕ → Program S ℕ
  pub ece391_getargs : ℕ → ℕ → Program S ℕ
  pub ece391_vidmap : ℕ → Program S ℕ
  pub ece391_execute : ℕ → Program S ℕ
  pub ece391_set_handler : ℕ → ℕ → Program S ℕ
  pub literal : String → ℕ
  pub fuel : ℕ

abbrev pub minus_one : ℕ
minus_one = 2 ^ 32 - 1

-- The difference of two `uint8_t` as `int32_t`.
abbrev pub byte_diff : ℕ → ℕ → ℕ
byte_diff a b = (a + 2 ^ 32 - b) % 2 ^ 32

unfoldable pub ece391_strlen : ℕ → Mem → ℕ → Option ℕ
unfolding strlen_from
ece391_strlen f m s = strlen_from f m s 0

unfoldable pub ece391_strcpy : ℕ → Mem → ℕ → ℕ → Option Mem
ece391_strcpy f m dst src = strcpy f m dst src

-- The loop of `ece391_strcmp`, at the index `i`.
unfoldable pub strcmp_from : ℕ → Mem → ℕ → ℕ → ℕ → Option ℕ
strcmp_from zero m s1 s2 i = none
strcmp_from (suc f) m s1 s2 i =
    let rest = strcmp_from f m s1 s2 (i + 1) in
    if not (m (s1 ⊕ i) == m (s2 ⊕ i))
    then some (byte_diff (m (s1 ⊕ i)) (m (s2 ⊕ i)))
    else (if m (s1 ⊕ i) == 0 then some 0 else rest)

unfoldable pub ece391_strcmp : ℕ → Mem → ℕ → ℕ → Option ℕ
ece391_strcmp f m s1 s2 = strcmp_from f m s1 s2 0

-- The loop of `ece391_strncmp`, with the characters left.
unfoldable pub strncmp_from : ℕ → Mem → ℕ → ℕ → ℕ → ℕ
strncmp_from zero m s1 s2 i = 0
strncmp_from (suc n) m s1 s2 i =
    let rest = strncmp_from n m s1 s2 (i + 1) in
    if not (m (s1 ⊕ i) == m (s2 ⊕ i))
    then byte_diff (m (s1 ⊕ i)) (m (s2 ⊕ i))
    else (if m (s1 ⊕ i) == 0 then 0 else rest)

unfoldable pub ece391_strncmp : Mem → ℕ → ℕ → ℕ → ℕ
ece391_strncmp m s1 s2 n = strncmp_from n m s1 s2 0

-- In place; the loop is the one of `strrev` in lib/lib.c.
unfoldable pub ece391_strrev : ℕ → Mem → ℕ → Option Mem
ece391_strrev f m s = elim (ece391_strlen f m s) [
  | none ↦ none
  | some len ↦
      let end = len ⊕ (2 ^ 32 - 1) in if not (slt 0 end) then some m else strrev_from f m s 0 end
]

-- The loop is the one of `itoa` in lib/lib.c.
unfoldable pub ece391_itoa : ℕ → Mem → ℕ → ℕ → ℕ → Option Mem
ece391_itoa f m value buf radix =
    if value == 0
    then some (write (write m buf b'0') (buf ⊕ 1) 0)
    else elim (itoa_from f m buf value radix) [ none ↦ none | some m' ↦ ece391_strrev f m' buf ]

-- Memory and strings from within a program.
module _ {S : Type 0} (sys : System S) where
  abbrev pub load : ℕ → Program S ℕ
  load a s = some (s, sys.memory s a)

  abbrev pub store : ℕ → ℕ → Program S (Unit {0})
  store a v s = some (sys.set_memory s (write (sys.memory s) a v), tt)

  abbrev pub put_memory : Option Mem → Program S (Unit {0})
  put_memory none s = none
  put_memory (some m) s = some (sys.set_memory s m, tt)

  abbrev pub result : {A : Type 0} → Option A → Program S A
  result none s = none
  result (some a) s = some (s, a)

  abbrev pub get_memory : Program S Mem
  get_memory s = some (s, sys.memory s)

  unfoldable pub ece391_fdputs : ℕ → ℕ → Program S (Unit {0})
  ece391_fdputs fd str = do
    m ← get_memory
    len ← result (ece391_strlen sys.fuel m str)
    sys.ece391_write fd str len
    pure tt

  -- `ece391_fdputs (1, ...)` of a literal.
  abbrev pub say : String → Program S (Unit {0})
  say text = ece391_fdputs 1 (sys.literal text)
