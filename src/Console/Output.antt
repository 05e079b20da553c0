-- ===== src/Console/Output.antt =====
-- puts of lib/lib.c, and numbers printed by printf.
use linux.Base.{
  ℕ, zero, suc, ◌+◌, ◌*◌, ◌^◌, ◌≤◌, ◌<◌, ◌≡◌, refl, ◌∙◌, arith, some, ltb, ==_false, if_intro,
}
use linux.Memory.{Mem, ◌⊕◌, Outside, SameOutside}
use linux.CString.{IsString}
use linux.Console.{
  Console, video_mem, num_cols, num_rows, put_cell, is_new_line, putc, puts_from, puts,
}
use linux.Console.Text.{video_size, scrolled}
use linux.Console.Cursor.{IsOnConsole, putc-Printed, position, next, typed}

put_cell-same :
    (m : Mem) (i char a : ℕ)
    → i < num_rows * num_cols
    → Outside video_mem video_size a
    → put_cell m i char a ≡ m a
put_cell-same m i char a h out = ground arith

scrolled-same : (m : Mem) (a : ℕ) → Outside video_mem video_size a → scrolled m a ≡ m a
scrolled-same m a out = ground arith

typed-same :
    (c : Console) (char a : ℕ)
    → IsOnConsole c
    → Outside video_mem video_size a
    → typed c char a ≡ c.mem a
typed-same c char a w out =
    let x = w.column in
    let y = w.row in
    if_intro (λ (m : Mem). m a ≡ c.mem a) (is_new_line char) _ _ (λ t. refl)
      (λ f. put_cell-same c.mem (position c) char a (omega arith) out)

-- Only video memory changes.
putc-same :
    (c : Console) (char : ℕ)
    → IsOnConsole c
    → SameOutside c.mem (putc c char).mem video_mem video_size
putc-same c char w a out =
    let p = putc-Printed c char w in
    p.shown a
    ∙ if_intro (λ x. x ≡ c.mem a) (ltb (next c char) (num_rows * num_cols)) _ _
        (λ t. typed-same c char a w out)
        (λ f. scrolled-same (typed c char) a out ∙ typed-same c char a w out)

-- `putc` of `r` characters of the string at `s`, from its index `i` on.
unfoldable pub put_all : ℕ → Console → Mem → ℕ → ℕ → Console
put_all zero c m s i = c
put_all (suc r) c m s i = put_all r (putc c (m (s ⊕ i))) m s (i + 1)

-- What a series of `putc` keeps: the cursor on the screen, and all memory outside video memory.
pub record Keeps (c c' : Console) : Type 0 where
  pub on_console : IsOnConsole c'
  pub same : SameOutside c.mem c'.mem video_mem video_size

-- None of the `n` characters or the terminator lies in video memory.
abbrev pub IsApart : ℕ → ℕ → Type 0
IsApart s n = (k : ℕ) → k ≤ n → Outside video_mem video_size (s ⊕ k)

puts_from_lem :
    (f r : ℕ) (c : Console) (m : Mem) (s n i : ℕ)
    → IsOnConsole c
    → SameOutside m c.mem video_mem video_size
    → IsString m s n
    → IsApart s n
    → n < 2 ^ 32
    → i + r ≡ n
    → r < f
    → (puts_from f c s i ≡ some (put_all r c m s i, n)) × Keeps c (put_all r c m s i)
unfolding puts_from put_all
puts_from_lem zero r c m s n i on same w apart h e fuel = absurd (omega arith)
puts_from_lem (suc f) zero c m s n i on same w apart h e fuel =
    let here : i ≡ n = omega arith in
    let end : c.mem (s ⊕ n) ≡ 0 = same (s ⊕ n) (apart n (omega arith)) ∙ w.end in
    (rw (here, end) refl, record { on_console = on; same = λ a out. refl })
puts_from_lem (suc f) (suc r) c m s n i on same w apart h e fuel =
    let here : c.mem (s ⊕ i) ≡ m (s ⊕ i) = same (s ⊕ i) (apart i (omega arith)) in
    let char = m (s ⊕ i) in
    let p = putc-Printed c char on in
    let kept = putc-same c char on in
    let (found, keeps) =
      puts_from_lem f r (putc c char) m s n (i + 1) p.on_console (λ a out. kept a out ∙ same a out)
        w apart h (omega arith) (omega arith) in
    let step : i ⊕ 1 ≡ i + 1 = omega arith in
    (
      rw (here, ==_false _ _ (w.before i (omega arith)), step) found,
      record { on_console = keeps.on_console; same = λ a out. keeps.same a out ∙ kept a out },
    )

-- For a cursor on the screen, a string shorter than 2^32 that does not lie in video memory, and fuel
-- above its length: `puts` ends, is `putc` of each of its characters in order, returns their number,
-- keeps the cursor on the screen and changes video memory only.
pub puts_lem :
    (f : ℕ) (c : Console) (s n : ℕ)
    → IsOnConsole c
    → IsString c.mem s n
    → IsApart s n
    → n < 2 ^ 32
    → n < f
    → (puts f c s ≡ some (put_all n c c.mem s 0, n)) × Keeps c (put_all n c c.mem s 0)
unfolding puts
puts_lem f c s n on w apart h fuel =
    puts_from_lem f n c c.mem s n 0 on (λ a out. refl) w apart h (omega arith) fuel
