-- ===== src/Kernel/Parsing.antt =====
-- The command line of kernel/syscall.c, character by character.
use linux.Base.{
  ℕ, zero, suc, ◌+◌, ◌-◌, ◌^◌, ◌≤◌, ◌<◌, ◌≡◌, ◌≢◌, ◌⊎◌, refl, sym, ap, ◌∙◌, arith, Bool, ◌&&◌, true,
  false, ==_false, ◌==◌, leb,
}
use linux.Memory.{Mem, ◌⊕◌, write, Outside}
use linux.Memory.Copy.{Copied}
use linux.CString.{IsString}
use linux.Kernel.{Frame}
use linux.Kernel.Command.{arg_index, parse_from}

-- Neither of two blocks of `x` and `y` bytes reaches into the other.
abbrev pub Disjoint : ℕ → ℕ → ℕ → ℕ → Type 0
Disjoint a x b y = (a + x ≤ b) ⊎ (b + y ≤ a)

-- A command line of `n` characters, and the two buffers, apart from each other and below 2^32.
pub record Fits (l : Frame) (m : Mem) (command n : ℕ) : Type 0 where
  pub line : IsString m command n
  pub line_fits : command + n < 2 ^ 32
  pub name_fits : l.fname + 32 ≤ 2 ^ 32
  pub args_fits : l.fargs + 128 ≤ 2 ^ 32
  pub line_name : Disjoint command (n + 1) l.fname 32
  pub line_args : Disjoint command (n + 1) l.fargs 128
  pub name_args : Disjoint l.fname 32 l.fargs 128

-- Its first `w` characters have no space among them.
abbrev pub OneWord : Mem → ℕ → ℕ → Type 0
OneWord m command w = (k : ℕ) → k < w → m (command ⊕ k) ≢ b' '

-- Outside both buffers a memory has the line still.
pub same_char :
    (l : Frame) (m m1 : Mem) (command n i : ℕ)
    → Fits l m command n
    → i ≤ n
    → ((a : ℕ) → Outside l.fname 32 a → Outside l.fargs 128 a → m1 a ≡ m a)
    → m1 (command ⊕ i) ≡ m (command ⊕ i)
same_char l m m1 command n i w h same =
    let d1 = w.line_name in
    let d2 = w.line_args in let b = w.line_fits in same (command ⊕ i) (omega arith) (omega arith)

letter_step :
    (f : ℕ) (l : Frame) (m : Mem) (command i : ℕ)
    → m (command ⊕ i) ≢ 0
    → m (command ⊕ i) ≢ b' '
    → i < 32
    → parse_from (suc f) l m command i 0 0
      ≡ parse_from f l (write m (l.fname ⊕ i) (m (command ⊕ i))) command (i + 1) 0 0
unfolding parse_from
letter_step f l m command i z s h =
    let next : i ⊕ 1 ≡ i + 1 = omega arith in
    let low : leb 32 i ≡ false = ground arith in rw (==_false _ _ z, ==_false _ _ s, next, low) refl

and_false : (b : Bool) → (b && false) ≡ false
and_false true = refl
and_false false = refl

argument_step :
    (f : ℕ) (l : Frame) (m : Mem) (command i w : ℕ)
    → m (command ⊕ i) ≢ 0
    → w < i
    → i + 1 < 2 ^ 32
    → parse_from (suc f) l m command i w 1
      ≡ parse_from f l (write m (l.fargs ⊕ (i - w - 1)) (m (command ⊕ i))) command (i + 1) w 1
unfolding parse_from
argument_step f l m command i w z h k =
    let next : i ⊕ 1 ≡ i + 1 = omega arith in
    let at : arg_index i w ≡ i - w - 1 = omega arith in
    rw (==_false _ _ z, next, at, and_false (m (command ⊕ i) == b' ')) refl

Copied-snoc :
    (m m' : Mem) (d s k k' at v : ℕ)
    → at ≡ d + k
    → k' ≡ suc k
    → v ≡ m (s + k)
    → Copied m m' d s k
    → Copied m (write m' at v) d s k'
Copied-snoc m m' d s k k' at v e e' ev c a = ground (arith, c a, ev)

-- The characters of the name, from the index `i` on, up to the index `j`.
pub name_lem :
    (f g r : ℕ) (l : Frame) (m m1 : Mem) (command n i j : ℕ)
    → Fits l m command n
    → i + r ≡ j
    → j ≤ n
    → j ≤ 32
    → OneWord m command j
    → f ≡ r + g
    → Copied m m1 l.fname command i
    → (m2 : Mem) × (parse_from f l m1 command i 0 0 ≡ parse_from g l m2 command j 0 0)
      × Copied m m2 l.fname command j
name_lem f g zero l m m1 command n i j w ij short small word e c =
    let same : f ≡ g = omega arith in
    let here : i ≡ j = omega arith in (m1, rw (same, here) refl, rw here at c)
name_lem zero g (suc r) l m m1 command n i j w ij short small word e c = absurd (omega arith)
name_lem (suc f) g (suc r) l m m1 command n i j w ij short small word e c =
    let char = same_char l m m1 command n i w (omega arith) (λ a o p. ground (arith, c a)) in
    let m1' = write m1 (l.fname ⊕ i) (m1 (command ⊕ i)) in
    let b = w.line_fits in
    let b' = w.name_fits in
    let at : command ⊕ i ≡ command + i = omega arith in
    let (m2, q, c2) =
      name_lem f g r l m m1' command n (i + 1) j w (omega arith) short small word (omega arith)
        (Copied-snoc m m1 l.fname command i _ _ _ (omega arith) (omega arith) (char ∙ ap m at) c) in
    (
      m2,
      letter_step f l m1 command i (rw char (w.line.before i (omega arith)))
            (rw char (word i (omega arith))) (omega arith)
          ∙ q,
      c2,
    )

-- The characters of the arguments, from the index `i` on, after a space at `j`. The memory `m1` is
-- the one at the start of the arguments.
pub argument_lem :
    (f g r : ℕ) (l : Frame) (m m1 m2 : Mem) (command n i j : ℕ)
    → Fits l m command n
    → j < i
    → i + r ≡ n
    → n ≤ j + 1 + 127
    → f ≡ r + g
    → ((a : ℕ) → Outside l.fname 32 a → m1 a ≡ m a)
    → Copied m1 m2 l.fargs (command + (j + 1)) (i - j - 1)
    → (m3 : Mem) × (parse_from f l m2 command i j 1 ≡ parse_from g l m3 command n j 1)
      × Copied m1 m3 l.fargs (command + (j + 1)) (n - j - 1)
argument_lem f g zero l m m1 m2 command n i j w ji ir small e same c =
    let e' : f ≡ g = omega arith in
    let here : i ≡ n = omega arith in (m2, rw (e', here) refl, rw here at c)
argument_lem zero g (suc r) l m m1 m2 command n i j w ji ir small e same c = absurd (omega arith)
argument_lem (suc f) g (suc r) l m m1 m2 command n i j w ji ir small e same c =
    let char =
      same_char l m m2 command n i w (omega arith) (λ a o p. ground (arith, c a, same a o)) in
    let m2' = write m2 (l.fargs ⊕ (i - j - 1)) (m2 (command ⊕ i)) in
    let b = w.line_fits in
    let b' = w.args_fits in
    let at : command ⊕ i ≡ command + i = omega arith in
    let from : m1 (command + i) ≡ m2 (command ⊕ i) =
      ap m1 (sym at) ∙ same (command ⊕ i) (let d1 = w.line_name in omega arith) ∙ sym char in
    let (m3, q, c3) =
      argument_lem f g r l m m1 m2' command n (i + 1) j w (omega arith) (omega arith) small
        (omega arith) same
        (Copied-snoc m1 m2 l.fargs (command + (j + 1)) (i - j - 1) _ _ _ (omega arith) (omega arith)
          (sym from ∙ ap m1 (omega arith)) c) in
    (
      m3,
      argument_step f l m2 command i j (rw char (w.line.before i (omega arith))) ji (omega arith)
          ∙ q,
      c3,
    )
