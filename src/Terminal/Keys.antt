-- ===== src/Terminal/Keys.antt =====
-- terminal_handle_key of drivers/termios.c, over all its cases.
use linux.Memory.{Mem, ◌⊕◌}
use linux.Base.{
  ℕ, zero, suc, ◌+◌, ◌%◌, ◌^◌, ◌&&◌, ◌∙◌, true, inl, inr, Bool-cases, ◌-◌, ◌≡◌, ◌≢◌, ◌⊎◌, refl, ap,
  arith, not, ◌==◌, ==_iff, if_intro,
}
use linux.Terminal.{
  TermData, Display, term_width, term_height, space, terminal_refresh, terminal_set_cursor,
  terminal_clear, other_key, shift_row, terminal_putc, backspace, delete, screen,
  terminal_handle_key, key_backspace, key_delete, key_enter, key_tab,
}
use linux.Terminal.Cells.{Fits, Fits-same, clear_cells-Within}
use linux.Terminal.Bounds.{
  IsOnScreen, Keeps, new_line-Keeps, print_char-Keeps, tab-Keeps, backspace-Keeps, delete-Keeps,
}

refresh-Keeps : {d e : Display} → Keeps d e → Keeps d (terminal_refresh e)
unfolding terminal_refresh terminal_set_cursor
refresh-Keeps {d} {e} k =
    if_intro (Keeps d) e.current _ _
      (λ shown. record {
        on_screen = record {
          fits = k.on_screen.fits;
          column = k.on_screen.column;
          row = k.on_screen.row;
        };
        same_current = k.same_current;
        same_screen = k.same_screen;
        kept = k.kept;
      })
      (λ hidden. k)

-- The loop over the cells, by the place of each in the order of the screen.
clear-Keeps : (d : Display) → Fits d → Keeps d (terminal_clear d)
unfolding terminal_clear
clear-Keeps d f =
    let w = clear_cells-Within 2000 d 0 f (omega arith) in
    refresh-Keeps record {
      on_screen = record { fits = Fits-same w f; column = omega arith; row = omega arith };
      same_current = w.same_current;
      same_screen = ap (λ (t : TermData). t.screen_buf) w.same_data;
      kept = w.kept;
    }

Keeps-refl : (d : Display) → IsOnScreen d → Keeps d d
Keeps-refl d v = record {
  on_screen = v;
  same_current = refl;
  same_screen = refl;
  kept = λ a h. refl;
}

other_key-Keeps :
    (d : Display) (key scancode control alt : ℕ)
    → IsOnScreen d
    → Keeps d (other_key d key scancode control alt)
unfolding other_key
other_key-Keeps d key scancode control alt v =
    if_intro (Keeps d) (not (control == 0)) _ _
      (λ controlled.
        if_intro (Keeps d) (key == b'l') _ _ (λ l. clear-Keeps d v.fits) (λ other. Keeps-refl d v))
      (λ plain.
        if_intro (Keeps d) (not (alt == 0)) _ _ (λ alted. Keeps-refl d v)
          (λ bare.
            if_intro (Keeps d) (not (key == 0)) _ _ (λ printed. print_char-Keeps d key v)
              (λ none.
                if_intro (Keeps d) (scancode == 0xff) _ _ (λ written. print_char-Keeps d space v)
                  (λ ignored. Keeps-refl d v))))

-- Away from the two cells where a key reaches over the edge of the screen.
terminal_handle_key-Keeps :
    (d : Display) (key scancode control alt : ℕ)
    → IsOnScreen d
    → (key ≡ key_backspace → (d.cur_x ≢ 0) ⊎ (d.cur_y ≢ 0))
    → (key ≡ key_delete → (d.cur_x ≢ term_width - 1) ⊎ (d.cur_y ≢ term_height - 1))
    → Keeps d (terminal_handle_key d key scancode control alt)
unfolding terminal_handle_key
terminal_handle_key-Keeps d key scancode control alt v hb hd = refresh-Keeps (
    if_intro (Keeps d) (key == key_backspace) _ _
      (λ b. backspace-Keeps d v (hb ((==_iff key _).0 b)))
      (λ b.
        if_intro (Keeps d) (key == key_delete) _ _ (λ c. delete-Keeps d v (hd ((==_iff key _).0 c)))
          (λ c.
            if_intro (Keeps d) (key == key_enter) _ _ (λ e. new_line-Keeps d v.fits v.row)
              (λ e.
                if_intro (Keeps d) (key == key_tab) _ _ (λ t. tab-Keeps d v)
                  (λ t. other_key-Keeps d key scancode control alt v)))))

shift_row-column : (r : ℕ) (d : Display) (i y : ℕ) → (shift_row r d i y).cur_x ≡ d.cur_x
unfolding shift_row terminal_putc
shift_row-column zero d i y = refl
shift_row-column (suc r) d i y = shift_row-column r _ (i ⊕ 1) y

refresh_display :
    (d : Display)
    → ((terminal_refresh d).term_data ≡ d.term_data) × ((terminal_refresh d).mem ≡ d.mem)
unfolding terminal_refresh terminal_set_cursor
refresh_display d = elim (Bool-cases d.current) [
  | inl shown ↦ rw shown (refl, refl)
  | inr hidden ↦ rw hidden (refl, refl)
]

backspace_over : (d : Display) → d.cur_x ≡ 0 → d.cur_y ≡ 0 → (backspace d).cur_x ≡ 2 ^ 32 - 1
unfolding backspace terminal_putc
backspace_over d x y = rw (x, y) (shift_row-column 80 _ (2 ^ 32 - 1) 0)

delete_over :
    (d : Display)
    → Fits d
    → d.cur_x ≡ term_width - 1
    → d.cur_y ≡ term_height - 1
    → ((delete d).cur_x ≡ term_width - 1)
      × ((delete d).cur_y ≡ term_height - 1)
      × ((delete d).mem ((screen d + 4000) % 2 ^ 32) ≡ space)
unfolding delete shift_row terminal_putc
delete_over d f x y = (rw x refl, rw (x, y) refl, rw (x, y) (ground arith))

first_cell :
    (d : Display) (key scancode control alt : ℕ)
    → (d.cur_x == 0 && d.cur_y == 0 && key == key_backspace) ≡ true
    → (key ≡ key_backspace)
      × (d.cur_x ≡ 0)
      × (d.cur_y ≡ 0)
      × ((terminal_handle_key d key scancode control alt).cur_x ≡ 2 ^ 32 - 1)
unfolding terminal_handle_key
first_cell d key scancode control alt first =
    let k : key ≡ key_backspace = ground (arith, first) in
    let x : d.cur_x ≡ 0 = ground (arith, first) in
    let y : d.cur_y ≡ 0 = ground (arith, first) in
    (
      k,
      x,
      y,
      rw k
          (ap (λ (t : TermData). t.cur_x) (refresh_display (backspace d)).0 ∙ backspace_over d x y),
    )

last_cell :
    (d : Display) (key scancode control alt : ℕ)
    → Fits d
    → (d.cur_x == term_width - 1 && d.cur_y == term_height - 1 && key == key_delete) ≡ true
    → (key ≡ key_delete)
      × (d.cur_x ≡ term_width - 1)
      × (d.cur_y ≡ term_height - 1)
      × ((terminal_handle_key d key scancode control alt).cur_x ≡ term_width - 1)
      × ((terminal_handle_key d key scancode control alt).cur_y ≡ term_height - 1)
      × ((terminal_handle_key d key scancode control alt).mem ((screen d + 4000) % 2 ^ 32) ≡ space)
unfolding terminal_handle_key
last_cell d key scancode control alt f last =
    let k : key ≡ key_delete = ground (arith, last) in
    let x : d.cur_x ≡ term_width - 1 = ground (arith, last) in
    let y : d.cur_y ≡ term_height - 1 = ground (arith, last) in
    let (column, row, past) = delete_over d f x y in
    let (same_data, same_memory) = refresh_display (delete d) in
    (
      k,
      x,
      y,
      rw k (ap (λ (t : TermData). t.cur_x) same_data ∙ column),
      rw k (ap (λ (t : TermData). t.cur_y) same_data ∙ row),
      rw k (ap (λ (m : Mem). m ((screen d + 4000) % 2 ^ 32)) same_memory ∙ past),
    )

-- What a key does to the display: it keeps the screen, or it is a backspace at the first cell, which
-- moves the cursor to the column -1, or a delete at the last cell, which writes a space to the two
-- bytes after the screen.
abbrev pub Handled : Display → Display → ℕ → Type 0
Handled d d' key =
    Keeps d d'
    ⊎ (((key ≡ key_backspace) × (d.cur_x ≡ 0) × (d.cur_y ≡ 0) × (d'.cur_x ≡ 2 ^ 32 - 1))
        ⊎ ((key ≡ key_delete)
            × (d.cur_x ≡ term_width - 1)
            × (d.cur_y ≡ term_height - 1)
            × (d'.cur_x ≡ term_width - 1)
            × (d'.cur_y ≡ term_height - 1)
            × (d'.mem ((screen d + 4000) % 2 ^ 32) ≡ space)))

-- For a terminal whose cursor is on the screen and whose screen ends below 2^32, and any key with any
-- modifiers: the cursor is on the screen afterwards and no byte outside the screen is changed, except
-- that a backspace at the first cell moves the cursor to the column -1, and a delete at the last cell
-- writes a space just after the screen and leaves the cursor.
pub terminal_handle_key-Handled :
    (d : Display) (key scancode control alt : ℕ)
    → IsOnScreen d
    → Handled d (terminal_handle_key d key scancode control alt) key
terminal_handle_key-Handled d key scancode control alt v =
    elim (Bool-cases (d.cur_x == 0 && d.cur_y == 0 && key == key_backspace)) [
      | inl first ↦ inr (inl (first_cell d key scancode control alt first))
      | inr elsewhere ↦
          elim (Bool-cases
            (d.cur_x == term_width - 1 && d.cur_y == term_height - 1 && key == key_delete)) [
              | inl last ↦ inr (inr (last_cell d key scancode control alt v.fits last))
              | inr inside ↦ inl (
                  terminal_handle_key-Keeps d key scancode control alt v
                    (λ b. ground (arith, elsewhere)) (λ c. ground (arith, inside)))
            ]
    ]
