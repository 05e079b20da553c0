-- ===== src/Line/Background.antt =====
-- terminal_read of drivers/termios.c for a terminal that is not the active one.
use linux.Base.{
  ℕ, zero, suc, ◌+◌, ◌-◌, ◌^◌, ◌≤◌, ◌<◌, ◌≡◌, ◌≢◌, refl, ap, ◌∙◌, arith, List, [], ◌∷◌, some,
  ==_false, take, length, get_or-set_self,
}
use linux.Memory.{Mem}
use linux.Terminal.{TermData, in_buf_size}
use linux.Line.{Terminals, term, no_data, copy_line, move_rest, terminal_read}
use linux.Line.Typing.{IsLine, pending}
use linux.Line.Copying.{line_length}
use linux.Line.Rest.{move_rest-same, move_rest-other}
use linux.Line.Reading.{after_copy, rounds-line, terminal_read_count}

take-take : (b : List ℕ) (k n : ℕ) → k ≤ n → take k b ≡ take k (take n b)
take-take b zero n h = refl
take-take b (suc k) zero h = absurd (omega arith)
take-take [] (suc k) (suc n) h = refl
take-take (c ∷ b) (suc k) (suc n) h = ap (λ l. c ∷ l) (take-take b k n (omega arith))

after_copy-other :
    (s : Terminals) (n : ℕ) (m : Mem) (i cr : ℕ)
    → n ≢ s.active_term
    → n < length s.term_data_array
    → IsLine (term s n)
    → i ≤ (term s n).in_dat_end
    → pending (term (after_copy s n m i cr) n)
      ≡ take ((term s n).in_dat_end - i) (pending (term s n))
after_copy-other s n m i cr ne hs v hi =
    let t = term s n in
    let j = t.in_dat_end - i in
    let s' = move_rest j (record s { mem = m }) n i 0 in
    let size = move_rest-same j (record s { mem = m }) n i 0 in
    rw (rounds-line i t.in_dat_end hi v.bound) (
      ap pending (get_or-set_self s'.term_data_array n _ no_data (rw size.2 hs))
      ∙ ap (λ (u : TermData). take j u.in_buf) (move_rest-other j (record s { mem = m }) n i 0 ne)
      ∙ take-take t.in_buf j t.in_dat_end (omega arith))

-- For a terminal that is not the active one, when it holds a line with a newline counted, and
-- such a buffer (at most 2^31 - 1 bytes, at least 128 bytes below the end of memory): the read
-- returns the number of characters up to the first newline that fit, but those that stay pending
-- are the first ones of the line, as many as were not read.
pub terminal_read_background :
    (s : Terminals) (n buf len : ℕ)
    → n ≢ s.active_term
    → n < length s.term_data_array
    → IsLine (term s n)
    → (term s n).in_dat_nr_ret ≢ 0
    → len < 2 ^ 31
    → buf + in_buf_size < 2 ^ 32
    → (s' : Terminals) × (terminal_read s n buf len
        ≡ some (s', line_length (pending (term s n)) len))
      × (pending (term s' n)
          ≡ take
              ((term s n).in_dat_end - line_length (pending (term s n)) len)
              (pending (term s n)))
unfolding terminal_read
terminal_read_background s n buf len ne hs v nr hl hb =
    let t = term s n in
    let copied = copy_line t.in_dat_end s.mem t buf len 0 in
    let c = terminal_read_count s n buf len v hl hb in
    let s' = after_copy s n copied.0 copied.1.0 copied.1.1 in
    (
      s',
      rw (==_false _ _ nr) (ap (λ l. some (s', l)) c.1),
      rw (← c.1) (after_copy-other s n copied.0 copied.1.0 copied.1.1 ne hs v c.2),
    )
