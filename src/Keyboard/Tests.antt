-- ===== src/Keyboard/Tests.antt =====
-- drivers/keyboard.c on concrete scancodes.
use linux.Base.{ℕ, ◌≡◌, refl, List, [], ◌∷◌}
use linux.Memory.{Mem}
use linux.Line.{terminal_init}
use linux.Keyboard.{font_of}
use linux.Keyboard.Shells.{IsOnce, booted, run, run-IsOnce}

abbrev blank : Mem
blank a = 0

-- The key Q with one shift key down.
types_capital : font_of 0 0 1 0x10 ≡ b'Q'
types_capital = refl

-- Alt, then twice F2.
abbrev switching : List ℕ
switching = 0x38 ∷ 0x3c ∷ 0x3c ∷ []

run-IsOnce_example : IsOnce (run 0 (booted (terminal_init 0x500000 blank [])) switching)
run-IsOnce_example = run-IsOnce 0 (terminal_init 0x500000 blank []) switching
