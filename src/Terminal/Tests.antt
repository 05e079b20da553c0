-- ===== src/Terminal/Tests.antt =====
-- terminal_handle_key of drivers/termios.c on a concrete screen.
use linux.Base.{ℕ, ◌-◌, ◌^◌, ◌≡◌, refl, arith, true, [], replicate}
use linux.Memory.{Mem}
use linux.Terminal.{Display, print_char, backspace, shift_row, terminal_putc, terminal_handle_key}
use linux.Terminal.Bounds.{IsOnScreen}
use linux.Terminal.Keys.{Handled, terminal_handle_key-Handled}

abbrev blank : Mem
blank a = 0

-- The active terminal with its cursor at column `x` of row `y`.
abbrev shown : ℕ → ℕ → Display
shown x y = record {
  term_data = record {
    screen_buf = 0x500000;
    cur_x = x;
    cur_y = y;
    in_buf = replicate 128 0;
    in_dat_index = 0;
    in_dat_end = 0;
    in_dat_nr_ret = 0;
    is_active = 1;
    usr_count = 0;
  };
  current = true;
  mem = blank;
  ports = [];
}

corner : IsOnScreen (shown 79 24)
corner = record { fits = omega arith; column = omega arith; row = omega arith }

-- A character in the last cell makes the screen scroll.
terminal_handle_key-Handled_example :
    Handled (shown 79 24) (terminal_handle_key (shown 79 24) b'x' 0 0 0) b'x'
terminal_handle_key-Handled_example = terminal_handle_key-Handled (shown 79 24) b'x' 0 0 0 corner

-- A character at the start of the screen.
prints : (print_char (shown 0 0) b'x').mem 0xb8000 ≡ b'x'
unfolding print_char terminal_putc
prints = refl

-- A backspace at the first cell leaves column -1.
backspace_at_origin : (backspace (shown 0 0)).cur_x ≡ 2 ^ 32 - 1
unfolding backspace terminal_putc shift_row
backspace_at_origin = refl
