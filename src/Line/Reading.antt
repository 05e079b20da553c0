-- ===== src/Line/Reading.antt =====
-- terminal_read of drivers/termios.c: the line that a process takes out of the input buffer.
use linux.Base.{
  ℕ, zero, suc, ◌+◌, ◌-◌, ◌^◌, ◌≤◌, ◌<◌, ◌≡◌, ◌≢◌, refl, ap, ◌∙◌, arith, List, [], ◌∷◌, some,
  ==_false, if◌then◌else◌, get_or, take, drop, length, get_or-set_self,
}
use linux.Memory.{Mem, ◌⊕◌, within}
use linux.Terminal.{TermData, in_buf_size, rounds}
use linux.Line.{Terminals, term, set_term, no_data, copy_line, move_rest, terminal_read}
use linux.Line.Typing.{IsLine, pending, length-take}
use linux.Line.Copying.{line_length, newlines, LineCopied, copy_line-LineCopied}
use linux.Line.Rest.{take-moved_down, length-moved_down, move_rest-own, move_rest-same, moved_down}

line_length-bound : (p : List ℕ) (len : ℕ) → line_length p len ≤ length p
unfolding line_length
line_length-bound [] len = omega arith
line_length-bound (c ∷ p) zero = omega arith
line_length-bound (c ∷ p) (suc len) = ground (arith, line_length-bound p len)

-- Of terminal `n`, the first `k` pending characters are now in the memory from `buf` on.
pub record LineRead (s : Terminals) (n buf k : ℕ) (s' : Terminals) : Type 0 where
  pub line : IsLine (term s' n)
  pub rest : pending (term s' n) ≡ drop k (pending (term s n))
  pub returns :
      (term s' n).in_dat_nr_ret
      ≡ (term s n).in_dat_nr_ret ⊕ (2 ^ 32 - newlines (take k (pending (term s n))))
  pub bytes :
      (a : ℕ)
      → s'.mem a ≡ (if within buf k a then get_or (term s n).in_buf (a - buf) 0 else s.mem a)

drop-nil : (k : ℕ) → drop {A = ℕ} k [] ≡ []
drop-nil zero = refl
drop-nil (suc k) = refl

take-nil : (k : ℕ) → take {A = ℕ} k [] ≡ []
take-nil zero = refl
take-nil (suc k) = refl

take-drop-drop : (b : List ℕ) (k n : ℕ) → take n (drop k b) ≡ drop k (take (k + n) b)
take-drop-drop b zero n = ap (λ j. take j b) (omega arith)
take-drop-drop [] (suc k) zero = rw (take-nil (suc k + 0)) refl
take-drop-drop [] (suc k) (suc n) = rw (take-nil (suc k + suc n)) refl
take-drop-drop (c ∷ b) (suc k) n =
    let e : suc k + n ≡ suc (k + n) = omega arith in take-drop-drop b k n ∙ rw e refl

-- What `terminal_read` leaves when its copy loop has stored `m`, copied `i` characters and
-- counted `cr` newlines.
abbrev pub after_copy : Terminals → ℕ → Mem → ℕ → ℕ → Terminals
after_copy s n m i cr =
    let j = rounds i (term s n).in_dat_end in
    let s' = move_rest j (record s { mem = m }) n i 0 in
    let t = term s' n in
    set_term s' n (record t {
      in_dat_end = j;
      in_dat_index = t.in_dat_index ⊕ (2 ^ 32 - i);
      in_dat_nr_ret = t.in_dat_nr_ret ⊕ (2 ^ 32 - cr);
    })

pub rounds-line : (i end : ℕ) → i ≤ end → end ≤ in_buf_size → rounds i end ≡ end - i
rounds-line i end h k = ground arith

after_copy-term :
    (s : Terminals) (m : Mem) (i cr : ℕ)
    → s.active_term < length s.term_data_array
    → i ≤ (term s s.active_term).in_dat_end
    → (term s s.active_term).in_dat_end ≤ in_buf_size
    → term (after_copy s s.active_term m i cr) s.active_term ≡ record (term s s.active_term) {
      in_buf = moved_down ((term s s.active_term).in_dat_end - i) (term s s.active_term).in_buf i 0;
      in_dat_end = (term s s.active_term).in_dat_end - i;
      in_dat_index = (term s s.active_term).in_dat_index ⊕ (2 ^ 32 - i);
      in_dat_nr_ret = (term s s.active_term).in_dat_nr_ret ⊕ (2 ^ 32 - cr);
    }
after_copy-term s m i cr hs hi he =
    let a = s.active_term in
    let t = term s a in
    let j = t.in_dat_end - i in
    let s' = move_rest j (record s { mem = m }) a i 0 in
    let size = move_rest-same j (record s { mem = m }) a i 0 in
    rw (rounds-line i t.in_dat_end hi he) (
      get_or-set_self s'.term_data_array a _ no_data (rw size.2 hs)
      ∙ ap
          (λ (u : TermData). record u {
            in_dat_end = j;
            in_dat_index = u.in_dat_index ⊕ (2 ^ 32 - i);
            in_dat_nr_ret = u.in_dat_nr_ret ⊕ (2 ^ 32 - cr);
          })
          (move_rest-own j (record s { mem = m }) i 0 hs))

after_copy-LineRead :
    (s : Terminals) (buf i cr : ℕ) (m : Mem)
    → s.active_term < length s.term_data_array
    → IsLine (term s s.active_term)
    → i ≤ (term s s.active_term).in_dat_end
    → cr ≡ newlines (take i (pending (term s s.active_term)))
    → ((a : ℕ)
        → m a
          ≡ (if within buf i a then get_or (term s s.active_term).in_buf (a - buf) 0 else s.mem a))
    → LineRead s s.active_term buf i (after_copy s s.active_term m i cr)
after_copy-LineRead s buf i cr m hs v hi hc f =
    let a = s.active_term in
    let t = term s a in
    let j = t.in_dat_end - i in
    let e = after_copy-term s m i cr hs hi v.bound in
    let same = move_rest-same (rounds i t.in_dat_end) (record s { mem = m }) a i 0 in
    let k : i + j ≡ t.in_dat_end = omega arith in
    record {
      line = rw e record {
        at_end = grind (arith, v.at_end, v.bound);
        bound = omega (arith, v.bound);
        size = length-moved_down j t.in_buf i 0 ∙ v.size;
      };
      rest = rw e (
          take-moved_down j t.in_buf i (omega (arith, v.size, v.bound))
          ∙ take-drop-drop t.in_buf i j
          ∙ ap (λ l. drop i (take l t.in_buf)) k);
      returns = rw (e, hc) refl;
      bytes = λ b. rw same.0 (f b);
    }

pub terminal_read_count :
    (s : Terminals) (n buf len : ℕ)
    → IsLine (term s n)
    → len < 2 ^ 31
    → buf + in_buf_size < 2 ^ 32
    → LineCopied s.mem
        (term s n).in_buf
        buf
        len
        0
        (pending (term s n))
        (copy_line (term s n).in_dat_end s.mem (term s n) buf len 0)
      × ((copy_line (term s n).in_dat_end s.mem (term s n) buf len 0).1.0
          ≡ line_length (pending (term s n)) len)
      × ((copy_line (term s n).in_dat_end s.mem (term s n) buf len 0).1.0 ≤ (term s n).in_dat_end)
terminal_read_count s n buf len v hl hb =
    let t = term s n in
    let p = pending t in
    let w =
      copy_line-LineCopied t.in_dat_end s.mem t buf len 0 (omega arith) v.bound v.size hl hb in
    let zero_more : len - 0 ≡ len = omega arith in
    let e : (copy_line t.in_dat_end s.mem t buf len 0).1.0 ≡ line_length p len =
      w.count ∙ omega (arith, ap (line_length p) zero_more) in
    (
      w,
      e,
      omega (
        arith,
        e,
        line_length-bound p len,
        length-take t.in_buf t.in_dat_end (omega (arith, v.bound, v.size)),
      ),
    )

-- For the active terminal, when it holds a line with a newline counted, and a buffer of at most
-- 2^31 - 1 bytes that starts at least 128 bytes below the end of memory: the read returns the
-- number of characters up to the first newline that fit, stores those characters in the buffer
-- and nothing elsewhere, takes them out of the pending line, and takes their newlines off the
-- count.
pub terminal_read-LineRead :
    (s : Terminals) (buf len : ℕ)
    → s.active_term < length s.term_data_array
    → IsLine (term s s.active_term)
    → (term s s.active_term).in_dat_nr_ret ≢ 0
    → len < 2 ^ 31
    → buf + in_buf_size < 2 ^ 32
    → (s' : Terminals) × (terminal_read s s.active_term buf len
        ≡ some (s', line_length (pending (term s s.active_term)) len))
      × LineRead s s.active_term buf (line_length (pending (term s s.active_term)) len) s'
unfolding terminal_read
terminal_read-LineRead s buf len hs v ne hl hb =
    let a = s.active_term in
    let t = term s a in
    let copied = copy_line t.in_dat_end s.mem t buf len 0 in
    let p = pending t in
    let c = terminal_read_count s a buf len v hl hb in
    let e' : line_length p (len - 0) ≡ copied.1.0 = omega (arith, c.0.count) in
    (
      after_copy s a copied.0 copied.1.0 copied.1.1,
      rw (==_false _ _ ne) (ap (λ l. some (after_copy s a copied.0 copied.1.0 copied.1.1, l)) c.1),
      rw (← c.1) (
          after_copy-LineRead s buf copied.1.0 copied.1.1 copied.0 hs v c.2
            (c.0.returns ∙ ap (λ l. newlines (take l p)) e')
            (λ b. ground (arith, c.0.bytes b, e'))),
    )
