-- ===== src/Terminal/Cells.antt =====
-- The loops of drivers/termios.c that write cells, and which bytes they write.
use linux.Base.{ℕ, zero, suc, ◌+◌, ◌*◌, ◌/◌, ◌%◌, ◌^◌, ◌≤◌, ◌<◌, ◌≡◌, refl, ◌∙◌, arith}
use linux.Memory.{◌⊕◌, SameOutside}
use linux.Terminal.{
  Display, term_width, term_height, space, screen, terminal_putc, terminal_getc, shift_row,
  scroll_row, scroll_rows, blank_row, clear_cells,
}

-- The bytes of a screen.
abbrev pub screen_size : ℕ
screen_size = 4000

abbrev pub Fits : Display → Type 0
Fits d = screen d + screen_size < 2 ^ 32

-- From `d` to `d'` only cells of the screen change.
pub record Within (d d' : Display) : Type 0 where
  pub same_data : d'.term_data ≡ d.term_data
  pub same_current : d'.current ≡ d.current
  pub same_ports : d'.ports ≡ d.ports
  pub kept : SameOutside d.mem d'.mem (screen d) screen_size

pub Within-refl : (d : Display) → Within d d
Within-refl d = record {
  same_data = refl;
  same_current = refl;
  same_ports = refl;
  kept = λ a h. refl;
}

pub screen-same : {d d' : Display} → Within d d' → screen d' ≡ screen d
screen-same w = rw (w.same_current, w.same_data)

pub Within-trans : {d e f : Display} → Within d e → Within e f → Within d f
Within-trans v w = record {
  same_data = w.same_data ∙ v.same_data;
  same_current = w.same_current ∙ v.same_current;
  same_ports = w.same_ports ∙ v.same_ports;
  kept = λ a h. w.kept a (rw (screen-same v) h) ∙ v.kept a h;
}

pub putc-Within :
    (d : Display) (c x y : ℕ)
    → Fits d
    → y * term_width + x < 2000
    → Within d (terminal_putc d c x y)
unfolding terminal_putc
putc-Within d c x y f h = record {
  same_data = refl;
  same_current = refl;
  same_ports = refl;
  kept = λ a k. ground arith;
}

pub Fits-same : {d d' : Display} → Within d d' → Fits d → Fits d'
Fits-same w f = rw (screen-same w) f

pub shift_row-Within :
    (r : ℕ) (d : Display) (i y : ℕ)
    → Fits d
    → y < term_height
    → i + r ≤ term_width
    → Within d (shift_row r d i y)
unfolding shift_row
shift_row-Within zero d i y f hy h = Within-refl d
shift_row-Within (suc r) d i y f hy h =
    let w = putc-Within d (terminal_getc d (i ⊕ 1) y) i y f (omega arith) in
    Within-trans w (shift_row-Within r _ (i ⊕ 1) y (Fits-same w f) hy (omega arith))

pub scroll_row-Within :
    (r : ℕ) (d : Display) (x y : ℕ)
    → Fits d
    → y < term_height
    → x + r ≤ term_width
    → Within d (scroll_row r d x y)
unfolding scroll_row
scroll_row-Within zero d x y f hy h = Within-refl d
scroll_row-Within (suc r) d x y f hy h =
    let w = putc-Within d (terminal_getc d x (y + 1)) x y f (omega arith) in
    Within-trans w (scroll_row-Within r _ (x + 1) y (Fits-same w f) hy (omega arith))

pub scroll_rows-Within :
    (r : ℕ) (d : Display) (y : ℕ) → Fits d → y + r < term_height → Within d (scroll_rows r d y)
unfolding scroll_rows
scroll_rows-Within zero d y f h = Within-refl d
scroll_rows-Within (suc r) d y f h =
    let w = scroll_row-Within term_width d 0 y f (omega arith) (omega arith) in
    Within-trans w (scroll_rows-Within r _ (y + 1) (Fits-same w f) (omega arith))

pub blank_row-Within :
    (r : ℕ) (d : Display) (x y : ℕ)
    → Fits d
    → y < term_height
    → x + r ≤ term_width
    → Within d (blank_row r d x y)
unfolding blank_row
blank_row-Within zero d x y f hy h = Within-refl d
blank_row-Within (suc r) d x y f hy h =
    let w = putc-Within d space x y f (omega arith) in
    Within-trans w (blank_row-Within r _ (x + 1) y (Fits-same w f) hy (omega arith))

pub clear_cells-Within :
    (r : ℕ) (d : Display) (i : ℕ) → Fits d → i + r ≤ 2000 → Within d (clear_cells r d i)
unfolding clear_cells
clear_cells-Within zero d i f h = Within-refl d
clear_cells-Within (suc r) d i f h =
    let w = putc-Within d space (i % term_width) (i / term_width) f (omega arith) in
    Within-trans w (clear_cells-Within r _ (i + 1) (Fits-same w f) (omega arith))
