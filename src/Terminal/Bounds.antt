-- ===== src/Terminal/Bounds.antt =====
-- The keys of terminal_handle_key in drivers/termios.c: the cursor and the writes of each.
use linux.Base.{
  ℕ, ◌+◌, ◌-◌, ◌*◌, ◌%◌, ◌^◌, ◌<◌, ◌≡◌, ◌≢◌, ◌⊎◌, inl, inr, ◌∙◌, ap, arith, not, ◌&&◌, ◌==◌, ==_iff,
  ==_true, ==_false, Bool-cases, if_intro,
}
use linux.Memory.{◌⊕◌, SameOutside}
use linux.CString.{slt}
use linux.Terminal.{
  TermData, Display, term_width, term_height, space, screen, set_cursor_xy, rounds,
  terminal_scroll_up, new_line, print_char, backspace, delete, tab, tabs, blank_row, scroll_rows,
}
use linux.Terminal.Cells.{
  screen_size, Fits, Within, Within-refl, Within-trans, Fits-same, putc-Within, shift_row-Within,
  scroll_rows-Within, blank_row-Within, screen-same,
}

pub record IsOnScreen (d : Display) : Type 0 where
  pub fits : Fits d
  pub column : d.cur_x < term_width
  pub row : d.cur_y < term_height

-- What an operation keeps: the cursor on the screen, the struct's other display fields, and all
-- memory outside the screen.
pub record Keeps (d d' : Display) : Type 0 where
  pub on_screen : IsOnScreen d'
  pub same_current : d'.current ≡ d.current
  pub same_screen : d'.screen_buf ≡ d.screen_buf
  pub kept : SameOutside d.mem d'.mem (screen d) screen_size

-- Cells of the screen change, and then the cursor moves to a place on it.
Keeps-move :
    {d d' : Display} (x y : ℕ)
    → Fits d
    → Within d d'
    → x < term_width
    → y < term_height
    → Keeps d (set_cursor_xy d' x y)
Keeps-move x y f w hx hy = record {
  on_screen = record { fits = Fits-same w f; column = hx; row = hy };
  same_current = w.same_current;
  same_screen = ap (λ (t : TermData). t.screen_buf) w.same_data;
  kept = w.kept;
}

unfoldable pub scrolled : Display → Display
scrolled d = blank_row term_width (scroll_rows (term_height - 1) d 0) 0 (term_height - 1)

scrolled-Within : (d : Display) → Fits d → Within d (scrolled d)
unfolding scrolled
scrolled-Within d f =
    let w = scroll_rows-Within 24 d 0 f (omega arith) in
    Within-trans w
      (blank_row-Within 80 (scroll_rows 24 d 0) 0 24 (Fits-same w f) (omega arith) (omega arith))

pub scroll_up_lem :
    (d : Display)
    → Fits d
    → terminal_scroll_up d ≡ set_cursor_xy (scrolled d) d.cur_x (d.cur_y ⊕ (2 ^ 32 - 1))
unfolding terminal_scroll_up scrolled
scroll_up_lem d f =
    ap (λ (t : TermData). set_cursor_xy (scrolled d) t.cur_x (t.cur_y ⊕ (2 ^ 32 - 1)))
      (scrolled-Within d f).same_data

-- On the last row the screen scrolls and the cursor goes to the start of that row.
pub new_line_last :
    (d : Display)
    → Fits d
    → d.cur_y ≡ term_height - 1
    → new_line d ≡ set_cursor_xy (scrolled d) 0 d.cur_y
unfolding new_line
new_line_last d f e =
    rw (==_true _ _ e, scroll_up_lem d f) (ap (set_cursor_xy (scrolled d) 0) (omega arith))

-- On any other row it goes to the start of the next.
pub new_line_above :
    (d : Display) → d.cur_y < term_height - 1 → new_line d ≡ set_cursor_xy d 0 (d.cur_y + 1)
unfolding new_line
new_line_above d h = rw (==_false d.cur_y 24 (omega arith)) (ap (set_cursor_xy d 0) (omega arith))

pub new_line-Keeps : (d : Display) → Fits d → d.cur_y < term_height → Keeps d (new_line d)
new_line-Keeps d f h = elim (Bool-cases (d.cur_y == term_height - 1)) [
  | inl last ↦
      rw (new_line_last d f ((==_iff _ _).0 last))
        (Keeps-move 0 d.cur_y f (scrolled-Within d f) (omega arith) h)
  | inr above ↦
      rw (new_line_above d (grind arith))
        (Keeps-move 0 (d.cur_y + 1) f (Within-refl d) (omega arith) (grind arith))
]

Keeps-after : {d e f : Display} → Within d e → Keeps e f → Keeps d f
Keeps-after w k = record {
  on_screen = k.on_screen;
  same_current = k.same_current ∙ w.same_current;
  same_screen = k.same_screen ∙ ap (λ (t : TermData). t.screen_buf) w.same_data;
  kept = λ a h. k.kept a (rw (screen-same w) h) ∙ w.kept a h;
}

Keeps-moved : {d e : Display} (x y : ℕ) → Keeps (set_cursor_xy d x y) e → Keeps d e
Keeps-moved x y k = record {
  on_screen = k.on_screen;
  same_current = k.same_current;
  same_screen = k.same_screen;
  kept = k.kept;
}

-- The cursor moves, and then cells of the screen change.
Keeps-cells :
    {d e : Display} (x y : ℕ)
    → Fits d
    → x < term_width
    → y < term_height
    → Within (set_cursor_xy d x y) e
    → Keeps d e
Keeps-cells x y f hx hy w = record {
  on_screen = record {
    fits = Fits-same w f;
    column = omega (arith, ap (λ (t : TermData). t.cur_x) w.same_data);
    row = omega (arith, ap (λ (t : TermData). t.cur_y) w.same_data);
  };
  same_current = w.same_current;
  same_screen = ap (λ (t : TermData). t.screen_buf) w.same_data;
  kept = w.kept;
}

pub print_char-Keeps : (d : Display) (c : ℕ) → IsOnScreen d → Keeps d (print_char d c)
unfolding print_char
print_char-Keeps d c v =
    let w = putc-Within d c d.cur_x d.cur_y v.fits (omega arith) in
    if_intro (Keeps d) (d.cur_x == term_width - 1) _ _
      (λ edge. Keeps-after w (
        new_line-Keeps _ (Fits-same w v.fits)
          (omega (arith, ap (λ (t : TermData). t.cur_y) w.same_data, v.row))))
      (λ inside. Keeps-move (d.cur_x ⊕ 1) d.cur_y v.fits w (grind arith) v.row)

pub tab-Keeps : (d : Display) → IsOnScreen d → Keeps d (tab d)
unfolding tab
tab-Keeps d v =
    if_intro (Keeps d) (not (slt x (term_width - 1))) _ _
      (λ past. Keeps-moved x d.cur_y (new_line-Keeps (set_cursor_xy d x d.cur_y) v.fits v.row))
      (λ inside. Keeps-move x d.cur_y v.fits (Within-refl d) (ground arith) v.row)
  where
    x : ℕ
    x = (tabs d.cur_x + 1) * 8 % 2 ^ 32

pub backspace-Keeps :
    (d : Display) → IsOnScreen d → (d.cur_x ≢ 0) ⊎ (d.cur_y ≢ 0) → Keeps d (backspace d)
unfolding backspace
backspace-Keeps d v h =
    if_intro (Keeps d) (d.cur_x == 0 && not (d.cur_y == 0)) _ _
      (λ wraps.
        Keeps-cells (term_width - 1) (d.cur_y ⊕ (2 ^ 32 - 1)) v.fits (omega arith) (ground arith) (
          putc-Within (set_cursor_xy d (term_width - 1) (d.cur_y ⊕ (2 ^ 32 - 1))) space 79
            (d.cur_y ⊕ (2 ^ 32 - 1)) v.fits (ground arith)))
      (λ stays.
        let x = d.cur_x ⊕ (2 ^ 32 - 1) in
        let n = rounds x (term_width - 1) in
        let column : x < 79 = ground arith in
        let count : x + n ≡ 79 = ground arith in
        let w =
          shift_row-Within n (set_cursor_xy d x d.cur_y) x d.cur_y v.fits v.row (omega arith) in
        Keeps-cells x d.cur_y v.fits (omega arith) v.row
          (Within-trans w (putc-Within _ space (x ⊕ n) d.cur_y (Fits-same w v.fits) (omega arith))))

pub delete-Keeps :
    (d : Display)
    → IsOnScreen d
    → (d.cur_x ≢ term_width - 1) ⊎ (d.cur_y ≢ term_height - 1)
    → Keeps d (delete d)
unfolding delete
delete-Keeps d v h =
    let n = rounds d.cur_x (term_height - 1) in
    let count : (n ≡ 0) ⊎ (d.cur_x + n ≡ 24) = ground arith in
    let w = shift_row-Within n d d.cur_x d.cur_y v.fits v.row (omega arith) in
    Keeps-cells d.cur_x d.cur_y v.fits v.column v.row (
      Within-trans w
        (putc-Within _ space (d.cur_x ⊕ n ⊕ 1) d.cur_y (Fits-same w v.fits) (grind arith)))
