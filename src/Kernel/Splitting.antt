-- ===== src/Kernel/Splitting.antt =====
-- The command line of kernel/syscall.c, split at its first space.
use linux.Base.{ℕ, suc, ◌+◌, ◌-◌, ◌^◌, ◌≤◌, ◌<◌, ◌≡◌, ◌≢◌, refl, ap, ◌∙◌, arith, some, ◌>>=◌}
use linux.Memory.{Mem, ◌⊕◌, write, Outside}
use linux.Memory.Copy.{Copied, Copied-zero}
use linux.Kernel.{Frame}
use linux.Kernel.Command.{Parse, finish, parsed, arg_index, parse_from, terminate, parse}
use linux.Kernel.Parsing.{Fits, OneWord, same_char, name_lem, argument_lem}

-- A command with arguments, split: the name, which ends at the first space, is in its buffer, and the
-- rest of the line in the other; both are strings, and nothing else changes.
pub record Split (l : Frame) (m m' : Mem) (command n w : ℕ) : Type 0 where
  pub name : (k : ℕ) → k < w → m' (l.fname + k) ≡ m (command + k)
  pub name_end : m' (l.fname + w) ≡ 0
  pub args : (k : ℕ) → k < n - w - 1 → m' (l.fargs + k) ≡ m (command + (w + 1) + k)
  pub args_end : m' (l.fargs + (n - w - 1)) ≡ 0
  pub kept : (a : ℕ) → Outside l.fname 32 a → Outside l.fargs 128 a → m' a ≡ m a

space_step :
    (f : ℕ) (l : Frame) (m : Mem) (command i : ℕ)
    → m (command ⊕ i) ≡ b' '
    → i + 1 < 2 ^ 32
    → parse_from (suc f) l m command i 0 0
      ≡ parse_from f l (write m (l.fname ⊕ i) 0) command (i + 1) i 1
unfolding parse_from
space_step f l m command i s h = let next : i ⊕ 1 ≡ i + 1 = omega arith in rw (s, next) refl

end_step :
    (f : ℕ) (l : Frame) (m : Mem) (command i w flag : ℕ)
    → m (command ⊕ i) ≡ 0
    → parse_from (suc f) l m command i w flag ≡ some (parsed m i w flag)
unfolding parse_from
end_step f l m command i w flag z = rw z refl

Copied-none : (m : Mem) (d s k : ℕ) → k ≡ 0 → Copied m m d s k
Copied-none m d s k e a = ground arith

-- Between the name and the arguments nothing outside the name's buffer has changed.
between :
    (l : Frame) (m m2 : Mem) (command n w a : ℕ)
    → Fits l m command n
    → w < 32
    → Outside l.fname 32 a
    → Copied m m2 l.fname command w
    → write m2 (l.fname ⊕ w) 0 a ≡ m a
between l m m2 command n w a fit short o c = let b = fit.name_fits in ground (arith, c a)

-- After the arguments, nothing outside both.
after :
    (l : Frame) (m m2 m3 : Mem) (command n w a : ℕ)
    → Fits l m command n
    → w < 32
    → n ≤ w + 1 + 127
    → Outside l.fname 32 a
    → Outside l.fargs 128 a
    → Copied m m2 l.fname command w
    → Copied (write m2 (l.fname ⊕ w) 0) m3 l.fargs (command + (w + 1)) (n - w - 1)
    → m3 a ≡ m a
after l m m2 m3 command n w a fit short small o p c c3 =
    let d = between l m m2 command n w a fit short o c in ground (arith, c3 a, d)

Split-intro :
    (l : Frame) (m m2 m3 : Mem) (command n w : ℕ)
    → Fits l m command n
    → w < n
    → w < 32
    → n ≤ w + 1 + 127
    → Copied m m2 l.fname command w
    → Copied (write m2 (l.fname ⊕ w) 0) m3 l.fargs (command + (w + 1)) (n - w - 1)
    → Split l m (terminate l m3 n w 1) command n w
Split-intro l m m2 m3 command n w fit wn short small c c3 =
    let b = fit.line_fits in
    let b1 = fit.name_fits in
    let b2 = fit.args_fits in
    let d = fit.name_args in
    let d1 = fit.line_name in
    let end : l.fargs ⊕ arg_index n w ≡ l.fargs + (n - w - 1) = omega arith in
    record {
      name = λ k h.
          let e : l.fname + k - l.fname ≡ k = omega arith in
          rw end (ground (arith, c (l.fname + k), c3 (l.fname + k), e));
      name_end = rw end (ground (arith, c3 (l.fname + w)));
      args = λ k h.
          let e : l.fargs + k - l.fargs ≡ k = omega arith in
          let x = command + (w + 1) + k in
          let from : write m2 (l.fname ⊕ w) 0 x ≡ m x =
            between l m m2 command n w x fit short (omega arith) c in
          rw end (ground (arith, c3 (l.fargs + k), from, e));
      args_end = rw end (ground arith);
      kept = λ a o p.
          let d3 = after l m m2 m3 command n w a fit short small o p c c3 in
          rw end (ground (arith, d3));
    }

parse_lem :
    (f : ℕ) (l : Frame) (m : Mem) (command : ℕ) (p : Parse)
    → parse_from f l m command 0 0 0 ≡ some p
    → parse f l m command ≡ some (finish l p)
unfolding parse
parse_lem f l m command p e = ap (λ o. o >>= (λ q. some (finish l q))) e

-- For a line whose first space is at `w`, of at most 31 characters before it and 127 after it, with
-- buffers apart from each other and from the line, and fuel above the line's length: the parser
-- splits the line there.
pub parse-Split :
    (f : ℕ) (l : Frame) (m : Mem) (command n w : ℕ)
    → Fits l m command n
    → w < n
    → w < 32
    → n ≤ w + 1 + 127
    → OneWord m command w
    → m (command ⊕ w) ≡ b' '
    → n < f
    → (m' : Mem) × (parse f l m command ≡ some (some m')) × Split l m m' command n w
parse-Split f l m command n w fit wn short small word sp fuel =
    let b = fit.line_fits in
    let (m2, q, c) =
      name_lem f (suc (f - w - 1)) w l m m command n 0 w fit (omega arith) (omega arith)
        (omega arith) word (omega arith) (Copied-zero m l.fname command) in
    let m2' = write m2 (l.fname ⊕ w) 0 in
    let space = same_char l m m2 command n w fit (omega arith) (λ a o p. ground (arith, c a)) in
    let (m3, q3, c3) =
      argument_lem (f - w - 1) (suc (f - n - 1)) (n - w - 1) l m m2' m2' command n (w + 1) w fit
        (omega arith) (omega arith) small (omega arith)
        (λ a o. between l m m2 command n w a fit short o c)
        (Copied-none m2' l.fargs _ _ (omega arith)) in
    let end =
      same_char l m m3 command n n fit (omega arith)
        (λ a o p. after l m m2 m3 command n w a fit short small o p c c3) in
    let read =
      q
      ∙ space_step (f - w - 1) l m2 command w (space ∙ sp) (omega arith)
      ∙ q3
      ∙ end_step (f - n - 1) l m3 command n w 1 (end ∙ fit.line.end) in
    (
      terminate l m3 n w 1,
      parse_lem f l m command _ read,
      Split-intro l m m2 m3 command n w fit wn short small c c3,
    )

-- A command without arguments: the name is in its buffer; of the buffer for the arguments only the
-- last byte that the line would reach is set, to 0, and the others are what the stack held before.
pub record Alone (l : Frame) (m m' : Mem) (command n : ℕ) : Type 0 where
  pub name : (k : ℕ) → k < n → m' (l.fname + k) ≡ m (command + k)
  pub name_end : m' (l.fname + n) ≡ 0
  pub last_byte : m' (l.fargs + (n - 1)) ≡ 0
  pub kept : (a : ℕ) → Outside l.fname 32 a → a ≢ l.fargs + (n - 1) → m' a ≡ m a

Alone-intro :
    (l : Frame) (m m2 : Mem) (command n : ℕ)
    → Fits l m command n
    → 0 < n
    → n < 32
    → Copied m m2 l.fname command n
    → Alone l m (terminate l m2 n 0 0) command n
Alone-intro l m m2 command n fit pos short c =
    let b = fit.line_fits in
    let b1 = fit.name_fits in
    let b2 = fit.args_fits in
    let d = fit.name_args in
    let end : l.fargs ⊕ arg_index n 0 ≡ l.fargs + (n - 1) = omega arith in
    let end' : l.fname ⊕ n ≡ l.fname + n = omega arith in
    record {
      name = λ k h.
          let e : l.fname + k - l.fname ≡ k = omega arith in
          rw (end, end') (ground (arith, c (l.fname + k), e));
      name_end = rw (end, end') (ground arith);
      last_byte = rw (end, end') (ground arith);
      kept = λ a o p. rw (end, end') (ground (arith, c a));
    }

-- For a line of 1 to 31 characters without a space, with buffers apart from each other and from the
-- line, and fuel above its length: the parser finds the name, and leaves the arguments, but for one
-- byte, to what the stack held before.
pub parse-Alone :
    (f : ℕ) (l : Frame) (m : Mem) (command n : ℕ)
    → Fits l m command n
    → 0 < n
    → n < 32
    → OneWord m command n
    → n < f
    → (m' : Mem) × (parse f l m command ≡ some (some m')) × Alone l m m' command n
parse-Alone f l m command n fit pos short word fuel =
    let b = fit.line_fits in
    let (m2, q, c) =
      name_lem f (suc (f - n - 1)) n l m m command n 0 n fit (omega arith) (omega arith)
        (omega arith) word (omega arith) (Copied-zero m l.fname command) in
    let end = same_char l m m2 command n n fit (omega arith) (λ a o p. ground (arith, c a)) in
    (
      terminate l m2 n 0 0,
      parse_lem f l m command _ (q ∙ end_step (f - n - 1) l m2 command n 0 0 (end ∙ fit.line.end)),
      Alone-intro l m m2 command n fit pos short c,
    )
