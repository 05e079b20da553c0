-- ===== src/Line/Keys.antt =====
-- input_process_key of drivers/termios.c: the line and the screen together.
use linux.Base.{
  ℕ, ◌<◌, ◌≡◌, ◌≢◌, sym, ◌∙◌, Bool, true, false, ◌==◌, ==_iff, if_intro, arith, if◌then◌else◌,
  get_or-set_self, length, length-set,
}
use linux.Terminal.{TermData, terminal_handle_key}
use linux.Terminal.Echo.{SameInput, clears, terminal_handle_key-SameInput}
use linux.Line.{Terminals, term, set_term, display, put_display, no_data, edit, input_process_key}
use linux.Line.Typing.{IsLine, pending, typed, edit-typed}

SameInput-IsLine : (t t' : TermData) → SameInput t t' → IsLine t → IsLine t'
SameInput-IsLine t t' w v = record {
  at_end = w.same_index ∙ v.at_end ∙ sym w.same_end;
  bound = rw w.same_end v.bound;
  size = rw w.same_buf v.size;
}

abbrev Edited : TermData → ℕ → TermData → Type 0
Edited t key t' = IsLine t' × (pending t' ≡ typed (pending t) key)

SameInput-Edited : (t t' u : TermData) (key : ℕ) → SameInput t' u → Edited t key t' → Edited t key u
SameInput-Edited t t' u key w e = (SameInput-IsLine t' u w e.0, rw (w.same_buf, w.same_end) e.1)

clears-key :
    (b : Bool) (key control : ℕ)
    → clears key control ≡ false
    → clears (if b then key else 0) control ≡ false
clears-key false key control h = ground arith
clears-key true key control h = h

term-set :
    (s : Terminals) (a : ℕ) (t : TermData)
    → a < length s.term_data_array
    → term (set_term s a t) a ≡ t
term-set s a t h = get_or-set_self s.term_data_array a t no_data h

-- For the terminal that is active, when it is open and holds a line, and a key other than
-- control-L: the terminal holds a line afterwards, and what is pending in it is the pending line
-- as the key edits it.
pub input_process_key-typed :
    (s : Terminals) (key scancode control alt : ℕ)
    → s.active_term < length s.term_data_array
    → (term s s.active_term).is_active ≢ 0
    → IsLine (term s s.active_term)
    → clears key control ≡ false
    → IsLine (term (input_process_key s key scancode control alt) s.active_term)
      × (pending (term (input_process_key s key scancode control alt) s.active_term)
          ≡ typed (pending (term s s.active_term)) key)
unfolding input_process_key
input_process_key-typed s key scancode control alt hs ha v hc =
    let a = s.active_term in
    let t = term s a in
    let r = edit t key in
    let s' = set_term s a r.0 in
    let c = if r.1 then key else 0 in
    let d = terminal_handle_key (display s' a) c scancode control alt in
    let w =
      terminal_handle_key-SameInput (display s' a) c scancode control alt
        (clears-key r.1 key control hc) in
    let e : term s' a ≡ r.0 = term-set s a r.0 hs in
    let f : term (put_display s' a d) a ≡ d.term_data =
      get_or-set_self s'.term_data_array a d.term_data no_data
        (rw (length-set s.term_data_array a r.0) hs) in
    if_intro (λ u. Edited t key (term u a)) (t.is_active == 0) _ _
      (λ closed. absurd (ha ((==_iff _ _).0 closed)))
      (λ opened.
        rw f (SameInput-Edited t (term s' a) d.term_data key w (rw e (edit-typed t key v))))
