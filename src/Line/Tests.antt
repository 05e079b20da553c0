-- ===== src/Line/Tests.antt =====
-- The line discipline of drivers/termios.c on two concrete terminals.
use linux.Base.{◌-◌, ◌≡◌, refl, arith, [], ◌∷◌, some, replicate, take}
use linux.Memory.{Mem, SameOutside}
use linux.Terminal.{TermData}
use linux.Terminal.Cells.{screen_size}
use linux.Line.{Terminals, term, no_data, input_process_key, terminal_read, terminal_switch}
use linux.Line.Typing.{IsLine, pending, typed}
use linux.Line.Keys.{input_process_key-typed}
use linux.Line.Copying.{line_length}
use linux.Line.Reading.{LineRead, terminal_read-LineRead}
use linux.Line.Background.{terminal_read_background}
use linux.Line.Switching.{CanSwitch, Switched, terminal_switch-Switched, terminal_switch_back}

abbrev blank : Mem
blank a = 0

-- "hi", a newline and "x" have been typed.
abbrev greeting : TermData
greeting = record no_data {
  screen_buf = 0x500000;
  in_buf = b'h' ∷ b'i' ∷ b'\n' ∷ b'x' ∷ replicate 124 0;
  in_dat_index = 4;
  in_dat_end = 4;
  in_dat_nr_ret = 1;
  is_active = 1;
}

abbrev both : Terminals
both = record {
  term_data_array = greeting ∷ record greeting { screen_buf = 0x501000; is_active = 0 } ∷ [];
  active_term = 0;
  mem = blank;
  ports = [];
}

greeting-IsLine : IsLine greeting
greeting-IsLine = record { at_end = refl; bound = omega arith; size = refl }

other-IsLine : IsLine (term both 1)
other-IsLine = record { at_end = refl; bound = omega arith; size = refl }

input_process_key-typed_example :
    IsLine (term (input_process_key both b'y' 0 0 0) 0)
    × (pending (term (input_process_key both b'y' 0 0 0) 0) ≡ typed (pending greeting) b'y')
input_process_key-typed_example =
    input_process_key-typed both b'y' 0 0 0 (omega arith) (omega arith) greeting-IsLine refl

terminal_read-LineRead_example :
    (s' : Terminals) × (terminal_read both 0 0x600000 100
      ≡ some (s', line_length (pending greeting) 100))
    × LineRead both 0 0x600000 (line_length (pending greeting) 100) s'
terminal_read-LineRead_example =
    terminal_read-LineRead both 0x600000 100 (omega arith) greeting-IsLine (omega arith)
      (omega arith) (omega arith)

terminal_read_background_example :
    (s' : Terminals) × (terminal_read both 1 0x600000 100
      ≡ some (s', line_length (pending (term both 1)) 100))
    × (pending (term s' 1)
        ≡ take (4 - line_length (pending (term both 1)) 100) (pending (term both 1)))
terminal_read_background_example =
    terminal_read_background both 1 0x600000 100 (omega arith) (omega arith) other-IsLine
      (omega arith) (omega arith) (omega arith)

can_switch : CanSwitch both 1
can_switch = record {
  other = omega arith;
  old_in_range = omega arith;
  new_in_range = omega arith;
  old_screen = record { apart = omega arith; to_fits = omega arith; from_fits = omega arith };
  new_screen = record { apart = omega arith; to_fits = omega arith; from_fits = omega arith };
  screens = record { apart = omega arith; to_fits = omega arith; from_fits = omega arith };
}

terminal_switch-Switched_example : Switched both 1 (terminal_switch both 1)
terminal_switch-Switched_example = terminal_switch-Switched both 1 can_switch

terminal_switch_back_example :
    ((terminal_switch (terminal_switch both 1) 0).active_term ≡ 0)
    × SameOutside blank (terminal_switch (terminal_switch both 1) 0).mem 0x500000 screen_size
terminal_switch_back_example = terminal_switch_back both 1 can_switch
