-- ===== src/Terminal/Echo.antt =====
-- terminal_handle_key of drivers/termios.c: what it does to the input side of the struct.
use linux.Base.{
  ℕ, zero, suc, ◌+◌, ◌-◌, ◌*◌, ◌^◌, ◌%◌, ◌≡◌, refl, ◌∙◌, arith, Bool, false, not, ◌&&◌, ◌==◌,
  if_intro,
}
use linux.Memory.{◌⊕◌}
use linux.CString.{slt}
use linux.Terminal.{
  TermData, Display, term_width, term_height, space, key_backspace, key_delete, key_enter, key_tab,
  set_cursor_xy, tabs, terminal_putc, terminal_set_cursor, terminal_refresh, shift_row, scroll_row,
  scroll_rows, blank_row, terminal_scroll_up, new_line, print_char, backspace, delete, tab,
  other_key, terminal_handle_key,
}

-- The input side is the same.
pub record SameInput (t t' : TermData) : Type 0 where
  pub same_buf : t'.in_buf ≡ t.in_buf
  pub same_index : t'.in_dat_index ≡ t.in_dat_index
  pub same_end : t'.in_dat_end ≡ t.in_dat_end
  pub same_nr_ret : t'.in_dat_nr_ret ≡ t.in_dat_nr_ret
  pub same_active : t'.is_active ≡ t.is_active

SameInput-refl : (t : TermData) → SameInput t t
SameInput-refl t = record {
  same_buf = refl;
  same_index = refl;
  same_end = refl;
  same_nr_ret = refl;
  same_active = refl;
}

SameInput-eq : {t t' u : TermData} → t' ≡ t → SameInput t' u → SameInput t u
SameInput-eq {t} {t'} {u} e w = rw (← e) w

shift_row-data : (r : ℕ) (d : Display) (i y : ℕ) → (shift_row r d i y).term_data ≡ d.term_data
unfolding shift_row terminal_putc
shift_row-data zero d i y = refl
shift_row-data (suc r) d i y = shift_row-data r _ (i ⊕ 1) y

scroll_row-data : (r : ℕ) (d : Display) (x y : ℕ) → (scroll_row r d x y).term_data ≡ d.term_data
unfolding scroll_row terminal_putc
scroll_row-data zero d x y = refl
scroll_row-data (suc r) d x y = scroll_row-data r _ (x + 1) y

scroll_rows-data : (r : ℕ) (d : Display) (y : ℕ) → (scroll_rows r d y).term_data ≡ d.term_data
unfolding scroll_rows
scroll_rows-data zero d y = refl
scroll_rows-data (suc r) d y = scroll_rows-data r _ (y + 1) ∙ scroll_row-data term_width d 0 y

blank_row-data : (r : ℕ) (d : Display) (x y : ℕ) → (blank_row r d x y).term_data ≡ d.term_data
unfolding blank_row terminal_putc
blank_row-data zero d x y = refl
blank_row-data (suc r) d x y = blank_row-data r _ (x + 1) y

-- A new cursor on a struct whose data are the same.
moved : (t t' : TermData) (x y : ℕ) → t' ≡ t → SameInput t (record t' { cur_x = x; cur_y = y })
moved t t' x y e = rw e record {
  same_buf = refl;
  same_index = refl;
  same_end = refl;
  same_nr_ret = refl;
  same_active = refl;
}

abbrev Input : Display → Display → Type 0
Input d d' = SameInput d.term_data d'.term_data

scroll_up-Input : (d : Display) → Input d (terminal_scroll_up d)
unfolding terminal_scroll_up
scroll_up-Input d = moved _ _ _ _ (blank_row-data term_width _ 0 24 ∙ scroll_rows-data 24 d 0)

SameInput-trans : {t u v : TermData} → SameInput t u → SameInput u v → SameInput t v
SameInput-trans a b = record {
  same_buf = b.same_buf ∙ a.same_buf;
  same_index = b.same_index ∙ a.same_index;
  same_end = b.same_end ∙ a.same_end;
  same_nr_ret = b.same_nr_ret ∙ a.same_nr_ret;
  same_active = b.same_active ∙ a.same_active;
}

new_line-Input : (d : Display) → Input d (new_line d)
unfolding new_line
new_line-Input d =
    if_intro (λ e. Input d (set_cursor_xy e 0 (e.cur_y ⊕ 1))) (d.cur_y == term_height - 1) _ _
      (λ last. SameInput-trans (scroll_up-Input d) (moved _ _ _ _ refl))
      (λ above. moved _ _ _ _ refl)

print_char-Input : (d : Display) (c : ℕ) → Input d (print_char d c)
unfolding print_char terminal_putc
print_char-Input d c =
    if_intro (Input d) (d.cur_x == term_width - 1) _ _ (λ edge. new_line-Input _)
      (λ inside. moved _ _ _ _ refl)

backspace-Input : (d : Display) → Input d (backspace d)
unfolding backspace terminal_putc
backspace-Input d =
    if_intro (Input d) (d.cur_x == 0 && not (d.cur_y == 0)) _ _ (λ wraps. moved _ _ _ _ refl)
      (λ stays.
        SameInput-trans (moved d.term_data _ (d.cur_x ⊕ (2 ^ 32 - 1)) d.cur_y refl)
          (SameInput-eq (shift_row-data _ _ _ d.cur_y) (SameInput-refl _)))

delete-Input : (d : Display) → Input d (delete d)
unfolding delete terminal_putc
delete-Input d = SameInput-eq (shift_row-data _ d d.cur_x d.cur_y) (SameInput-refl _)

tab-Input : (d : Display) → Input d (tab d)
unfolding tab
tab-Input d =
    if_intro (Input d) (not (slt x (term_width - 1))) _ _
      (λ past.
        SameInput-trans (moved d.term_data _ x d.cur_y refl)
          (new_line-Input (set_cursor_xy d x d.cur_y)))
      (λ inside. moved _ _ _ _ refl)
  where
    x : ℕ
    x = (tabs d.cur_x + 1) * 8 % 2 ^ 32

refresh-Input : (d e : Display) → Input d e → Input d (terminal_refresh e)
unfolding terminal_refresh terminal_set_cursor
refresh-Input d e w = if_intro (Input d) e.current _ _ (λ shown. w) (λ hidden. w)

-- Control-L clears the line with the screen.
abbrev pub clears : ℕ → ℕ → Bool
clears key control = not (control == 0) && (key == b'l')

other_key-Input :
    (d : Display) (key scancode control alt : ℕ)
    → clears key control ≡ false
    → Input d (other_key d key scancode control alt)
unfolding other_key
other_key-Input d key scancode control alt h =
    if_intro (Input d) (not (control == 0)) _ _
      (λ controlled.
        if_intro (Input d) (key == b'l') _ _ (λ l. absurd (ground arith))
          (λ other. SameInput-refl d.term_data))
      (λ plain.
        if_intro (Input d) (not (alt == 0)) _ _ (λ alted. SameInput-refl d.term_data)
          (λ bare.
            if_intro (Input d) (not (key == 0)) _ _ (λ printed. print_char-Input d key)
              (λ none.
                if_intro (Input d) (scancode == 0xff) _ _ (λ written. print_char-Input d space)
                  (λ ignored. SameInput-refl d.term_data))))

pub terminal_handle_key-SameInput :
    (d : Display) (key scancode control alt : ℕ)
    → clears key control ≡ false
    → SameInput d.term_data (terminal_handle_key d key scancode control alt).term_data
unfolding terminal_handle_key
terminal_handle_key-SameInput d key scancode control alt h = refresh-Input d _ (
    if_intro (Input d) (key == key_backspace) _ _ (λ b. backspace-Input d)
      (λ b.
        if_intro (Input d) (key == key_delete) _ _ (λ c. delete-Input d)
          (λ c.
            if_intro (Input d) (key == key_enter) _ _ (λ e. new_line-Input d)
              (λ e.
                if_intro (Input d) (key == key_tab) _ _ (λ t. tab-Input d)
                  (λ t. other_key-Input d key scancode control alt h)))))
