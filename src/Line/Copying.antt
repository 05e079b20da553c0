-- ===== src/Line/Copying.antt =====
-- The copy loop of terminal_read in drivers/termios.c.
use linux.Base.{
  ℕ, zero, suc, ◌+◌, ◌-◌, ◌^◌, ◌≤◌, ◌<◌, ◌≡◌, ◌≢◌, refl, ap, ◌∙◌, arith, ◌&&◌, List, [], ◌∷◌, ◌==◌,
  ==_iff, ==_false, if_intro, if◌then◌else◌, get_or, take, drop, length,
}
use linux.Memory.{Mem, ◌⊕◌, write, within}
use linux.CString.{slt}
use linux.Terminal.{TermData, in_buf_size}
use linux.Line.{copy_line}

-- The number of characters up to the first newline, which counts, and at most `len`.
unfoldable pub line_length : List ℕ → ℕ → ℕ
line_length [] len = 0
line_length (c ∷ p) zero = 0
line_length (c ∷ p) (suc len) = if c == b'\n' then 1 else suc (line_length p len)

unfoldable pub newlines : List ℕ → ℕ
newlines [] = 0
newlines (c ∷ p) = if c == b'\n' then suc (newlines p) else newlines p

pub take-drop :
    (b : List ℕ) (i r : ℕ)
    → i < length b
    → take (suc r) (drop i b) ≡ get_or b i 0 ∷ take r (drop (i + 1) b)
take-drop [] i r h = absurd (omega arith)
take-drop (c ∷ b) zero r h = refl
take-drop (c ∷ b) (suc i) r h =
    let e : suc i + 1 ≡ suc (i + 1) = omega arith in take-drop b i r (omega arith) ∙ rw e refl

-- What the copy loop does from `i` on, where the characters left are `q`.
pub record LineCopied (m : Mem) (b : List ℕ) (buf len i : ℕ) (q : List ℕ) (r : Mem × (ℕ × ℕ))
    : Type 0 where
  pub count : r.1.0 ≡ i + line_length q (len - i)
  pub returns : r.1.1 ≡ newlines (take (line_length q (len - i)) q)
  pub bytes :
      (a : ℕ)
      → r.0 a ≡ (if within (buf + i) (line_length q (len - i)) a then get_or b (a - buf) 0 else m a)

stops :
    (m : Mem) (b : List ℕ) (buf len i : ℕ) (q : List ℕ)
    → line_length q (len - i) ≡ 0
    → LineCopied m b buf len i q (m, (i, 0))
unfolding newlines
stops m b buf len i q e = record {
  count = omega arith;
  returns = rw e refl;
  bytes = λ a. ground arith;
}

module _ (m : Mem) (b : List ℕ) (buf len i : ℕ) (q : List ℕ) (hi : i < len)
    (hb : buf + i < 2 ^ 32) where
  line_length-newline : get_or b i 0 ≡ b'\n' → line_length (get_or b i 0 ∷ q) (len - i) ≡ 1
  unfolding line_length
  line_length-newline e = let k : len - i ≡ suc (len - (i + 1)) = omega arith in rw (k, e) refl

  line_length-other :
      get_or b i 0 ≢ b'\n'
      → line_length (get_or b i 0 ∷ q) (len - i) ≡ suc (line_length q (len - (i + 1)))
  unfolding line_length
  line_length-other ne =
      let k : len - i ≡ suc (len - (i + 1)) = omega arith in rw (k, ==_false _ _ ne) refl

  at_newline :
      get_or b i 0 ≡ b'\n'
      → LineCopied m b buf len i (get_or b i 0 ∷ q) (write m (buf ⊕ i) (get_or b i 0), (i + 1, 1))
  unfolding newlines
  at_newline e =
      let n = line_length-newline e in
      record {
        count = rw n refl;
        returns = rw (n, e) refl;
        bytes = λ a. rw n (ground (arith, λ (e : i ≡ a - buf). ap (λ j. get_or b j 0) e));
      }

  goes_on :
      (r : Mem × (ℕ × ℕ))
      → get_or b i 0 ≢ b'\n'
      → LineCopied (write m (buf ⊕ i) (get_or b i 0)) b buf len (i + 1) q r
      → LineCopied m b buf len i (get_or b i 0 ∷ q) r
  unfolding newlines
  goes_on r ne w =
      let n = line_length-other ne in
      record {
        count = w.count ∙ omega (arith, n);
        returns = rw (n, ==_false _ _ ne) w.returns;
        bytes =
            λ a. rw n (w.bytes a ∙ ground (arith, λ (e : i ≡ a - buf). ap (λ j. get_or b j 0) e));
      }

pub copy_line-LineCopied :
    (r : ℕ) (m : Mem) (t : TermData) (buf len i : ℕ)
    → i + r ≡ t.in_dat_end
    → t.in_dat_end ≤ in_buf_size
    → length t.in_buf ≡ in_buf_size
    → len < 2 ^ 31
    → buf + in_buf_size < 2 ^ 32
    → LineCopied m t.in_buf buf len i (take r (drop i t.in_buf)) (copy_line r m t buf len i)
unfolding copy_line line_length
copy_line-LineCopied zero m t buf len i hr he hs hl hb = stops m t.in_buf buf len i [] refl
copy_line-LineCopied (suc r) m t buf len i hr he hs hl hb =
    rw (take-drop t.in_buf i r (omega (arith, hs))) (
      if_intro
        (LineCopied m t.in_buf buf len i (get_or t.in_buf i 0 ∷ take r (drop (i + 1) t.in_buf)))
        (slt i t.in_dat_end && slt i len) _ _
        (λ more.
          if_intro
            (LineCopied m t.in_buf buf len i (get_or t.in_buf i 0 ∷ take r (drop (i + 1) t.in_buf)))
            (get_or t.in_buf i 0 == b'\n') _ _
            (λ ends.
              at_newline m t.in_buf buf len i _ (ground arith) (omega arith) ((==_iff _ _).0 ends))
            (λ other.
              goes_on m t.in_buf buf len i _ (ground arith) (omega arith) _ (grind arith)
                (copy_line-LineCopied r _ t buf len (i + 1) (omega arith) he hs hl hb)))
        (λ full. let e : len - i ≡ 0 = ground arith in stops m t.in_buf buf len i _ (rw e refl)))
