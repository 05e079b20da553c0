-- ===== src/Terminal.antt =====
-- drivers/termios.c: the text screen of one virtual terminal. The module Line has the input side.
pub mod Cells
pub mod Bounds
pub mod Keys
pub mod Echo
pub mod Scrolling
mod Tests
use linux.Base.{
  ℕ, zero, suc, ◌+◌, ◌-◌, ◌*◌, ◌/◌, ◌%◌, ◌^◌, Bool, true, false, not, ◌&&◌, List, [], ◌∷◌, ltb, leb,
  ◌==◌, if◌then◌else◌, replicate, set,
}
use linux.Memory.{Mem, ◌⊕◌, write}
use linux.CString.{slt}

-- `term_data_t`. The numbers are the bit patterns of their C type.
pub record TermData : Type 0 where
  pub screen_buf : ℕ
  pub cur_x : ℕ
  pub cur_y : ℕ
  pub in_buf : List ℕ
  pub in_dat_index : ℕ
  pub in_dat_end : ℕ
  pub in_dat_nr_ret : ℕ
  pub is_active : ℕ
  pub usr_count : ℕ

-- What a function that is given `term_data` works on: that struct, whether it is the one of
-- `active_term`, the memory, and the `outb` calls made, latest first, as port and byte.
pub record Display : Type 0 where
  pub term_data : TermData
  pub open term_data use *
  pub current : Bool
  pub mem : Mem
  pub ports : List (ℕ × ℕ)

abbrev pub term_width : ℕ
term_width = 80

abbrev pub term_height : ℕ
term_height = 25

abbrev pub in_buf_size : ℕ
in_buf_size = 128

abbrev pub video_mem : ℕ
video_mem = 0xb8000

abbrev pub key_backspace : ℕ
key_backspace = 8

abbrev pub key_delete : ℕ
key_delete = 127

abbrev pub key_enter : ℕ
key_enter = 10

abbrev pub key_tab : ℕ
key_tab = 9

abbrev pub space : ℕ
space = b' '

abbrev pub set_cursor_xy : Display → ℕ → ℕ → Display
set_cursor_xy d x y = record d { term_data = record (d.term_data) { cur_x = x; cur_y = y } }

-- Video memory for the active terminal, and its back buffer for any other.
abbrev pub screen : Display → ℕ
screen d = if d.current then video_mem else d.screen_buf

-- `(uint16_t*)screen + y*TERM_WIDTH + x`.
abbrev pub cell : Display → ℕ → ℕ → ℕ
cell d x y = (screen d + 2 * ((y * term_width + x) % 2 ^ 32)) % 2 ^ 32

-- The high byte of `ATTRIB<<8 | the_char`: a negative `char` is extended by its sign.
abbrev pub attribute : ℕ → ℕ
attribute c = if ltb c 0x80 then 0x07 else 0xff

abbrev pub write_cell : Mem → ℕ → ℕ → Mem
write_cell m a c = write (write m a c) (a ⊕ 1) (attribute c)

unfoldable pub terminal_putc : Display → ℕ → ℕ → ℕ → Display
terminal_putc d c x y = record d { mem = write_cell d.mem (cell d x y) c }

unfoldable pub terminal_getc : Display → ℕ → ℕ → ℕ
terminal_getc d x y = d.mem (cell d x y)

-- `terminal_set_cursor`: the position goes out in two bytes.
unfoldable pub terminal_set_cursor : Display → ℕ → ℕ → Display
terminal_set_cursor d row col =
    let position = (row * term_width + col) % 2 ^ 16 in
    record d {
      ports =
          (0x3d5, position / 0x100 % 0x100)
          ∷ (0x3d4, 0x0e)
          ∷ (0x3d5, position % 0x100)
          ∷ (0x3d4, 0x0f)
          ∷ d.ports;
    }

unfoldable pub terminal_refresh : Display → Display
terminal_refresh d = if d.current then terminal_set_cursor d d.cur_y d.cur_x else d

-- The rounds of `for (i = lo; i < hi; i++)` over `int`.
abbrev pub rounds : ℕ → ℕ → ℕ
rounds lo hi = if slt lo hi then (hi + 2 ^ 32 - lo) % 2 ^ 32 else 0

-- `putc(getc(i + 1, y), i, y)` for `r` values of `i` from `i` on.
pub shift_row : ℕ → Display → ℕ → ℕ → Display
shift_row zero d i y = d
shift_row (suc r) d i y = shift_row r (terminal_putc d (terminal_getc d (i ⊕ 1) y) i y) (i ⊕ 1) y

-- The inner loop of `terminal_scroll_up`: row `y + 1` is copied to row `y`.
pub scroll_row : ℕ → Display → ℕ → ℕ → Display
scroll_row zero d x y = d
scroll_row (suc r) d x y = scroll_row r (terminal_putc d (terminal_getc d x (y + 1)) x y) (x + 1) y

pub scroll_rows : ℕ → Display → ℕ → Display
scroll_rows zero d y = d
scroll_rows (suc r) d y = scroll_rows r (scroll_row term_width d 0 y) (y + 1)

-- `putc(' ', x, y)` for `r` values of `x` from `x` on.
pub blank_row : ℕ → Display → ℕ → ℕ → Display
blank_row zero d x y = d
blank_row (suc r) d x y = blank_row r (terminal_putc d space x y) (x + 1) y

unfoldable pub terminal_scroll_up : Display → Display
terminal_scroll_up d =
    let d' = blank_row term_width (scroll_rows (term_height - 1) d 0) 0 (term_height - 1) in
    set_cursor_xy d' d'.cur_x (d'.cur_y ⊕ (2 ^ 32 - 1))

-- The first loop of `terminal_clear`.
pub clear_cells : ℕ → Display → ℕ → Display
clear_cells zero d i = d
clear_cells (suc r) d i =
    clear_cells r (terminal_putc d space (i % term_width) (i / term_width)) (i + 1)

-- The second: it clears the input buffer.
pub clear_input : ℕ → ℕ → List ℕ → List ℕ
clear_input zero i b = b
clear_input (suc r) i b = clear_input r (i + 1) (set b i 0)

unfoldable pub terminal_clear : Display → Display
terminal_clear d =
    let d' = clear_cells (term_height * term_width) d 0 in
    terminal_refresh (record d' {
      term_data = record (d'.term_data) {
        in_buf = clear_input in_buf_size 0 d'.in_buf;
        in_dat_index = 0;
        in_dat_end = 0;
        in_dat_nr_ret = 0;
        cur_x = 0;
        cur_y = 0;
      };
    })

-- To the start of the next line, after a scroll on the last one.
pub new_line : Display → Display
new_line d =
    let d' = if d.cur_y == term_height - 1 then terminal_scroll_up d else d in
    set_cursor_xy d' 0 (d'.cur_y ⊕ 1)

-- A character at the cursor, which moves on.
pub print_char : Display → ℕ → Display
print_char d c =
    let d' = terminal_putc d c d.cur_x d.cur_y in
    if d.cur_x == term_width - 1 then new_line d' else set_cursor_xy d' (d.cur_x ⊕ 1) d.cur_y

pub backspace : Display → Display
backspace d =
    if d.cur_x == 0 && not (d.cur_y == 0)
    then (let d' = set_cursor_xy d (term_width - 1) (d.cur_y ⊕ (2 ^ 32 - 1)) in
        terminal_putc d' space d'.cur_x d'.cur_y)
    else (let x = d.cur_x ⊕ (2 ^ 32 - 1) in
        let n = rounds x (term_width - 1) in
        terminal_putc (shift_row n (set_cursor_xy d x d.cur_y) x d.cur_y) space (x ⊕ n) d.cur_y)

-- The loop of the delete key stops at TERM_HEIGHT-1.
pub delete : Display → Display
delete d =
    let n = rounds d.cur_x (term_height - 1) in
    terminal_putc (shift_row n d d.cur_x d.cur_y) space (d.cur_x ⊕ n ⊕ 1) d.cur_y

-- `x / TERM_TAB_WIDTH` on `int`, which rounds towards 0.
abbrev pub tabs : ℕ → ℕ
tabs x = if ltb x (2 ^ 31) then x / 8 else (2 ^ 32 - (2 ^ 32 - x) / 8) % 2 ^ 32

pub tab : Display → Display
tab d =
    let x = (tabs d.cur_x + 1) * 8 % 2 ^ 32 in
    let d' = set_cursor_xy d x d.cur_y in if not (slt x (term_width - 1)) then new_line d' else d'

-- A key that is none of the four above.
pub other_key : Display → ℕ → ℕ → ℕ → ℕ → Display
other_key d key scancode control alt =
    if not (control == 0)
    then (if key == b'l' then terminal_clear d else d)
    else (if not (alt == 0)
        then d
        else (if not (key == 0)
            then print_char d key
            else (if scancode == 0xff then print_char d space else d)))

unfoldable pub terminal_handle_key : Display → ℕ → ℕ → ℕ → ℕ → Display
terminal_handle_key d key scancode control alt = terminal_refresh (
    if key == key_backspace
    then backspace d
    else (if key == key_delete
        then delete d
        else (if key == key_enter
            then new_line d
            else (if key == key_tab then tab d else other_key d key scancode control alt))))
