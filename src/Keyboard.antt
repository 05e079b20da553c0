-- ===== src/Keyboard.antt =====
-- drivers/keyboard.c: the modifier keys, the character of a key, and the keys that switch terminals.
pub mod Font
pub mod Letters
pub mod Shells
mod Tests
use Prim.Native.Nat.{bit_xor}
use linux.Base.{
  ℕ, zero, suc, ◌+◌, ◌-◌, ◌*◌, ◌%◌, ◌^◌, Bool, true, false, not, ◌||◌, List, [], ◌∷◌, ltb, ◌==◌,
  if◌then◌else◌, get_or, set,
}
use linux.Memory.{◌⊕◌}
use linux.CString.{slt}
use linux.Line.{Terminals, input_process_key, terminal_switch}
use linux.Interrupts.{send_eoi}
use Font.{font_data}

-- The static variables, the terminals, and the calls of `syscall_init_shell`, latest first, by
-- their terminal. What that call does is not part of this model.
pub record Keyboard : Type 0 where
  pub caps_lock : ℕ
  pub shift : ℕ
  pub control : ℕ
  pub alt : ℕ
  pub shell_active : List ℕ
  pub terminals : Terminals
  pub shells : List ℕ

abbrev pub key_caps_lock : ℕ
key_caps_lock = 0x3a

abbrev pub key_f1 : ℕ
key_f1 = 0x3b

abbrev pub eoi : Keyboard → Keyboard
eoi s = record s { terminals = record (s.terminals) { ports = send_eoi 1 s.terminals.ports } }

-- `font_data[(caps_lock<<1)|(shift>0)][key_pressed]`, and `beyond` where the index is past the
-- whole table.
abbrev pub font_of : ℕ → ℕ → ℕ → ℕ → ℕ
font_of beyond caps shift key =
    get_or font_data (128 * (2 * caps + (if slt 0 shift then 1 else 0)) + key) beyond

-- Alt with a function key: switch to terminal `n`, and start its shell the first time.
abbrev pub function_key : Keyboard → ℕ → Keyboard
function_key s n =
    let s' = record s { terminals = terminal_switch s.terminals n } in
    if get_or s.shell_active n 0 == 1
    then s'
    else eoi (record s' { shell_active = set s.shell_active n 1; shells = n ∷ s.shells })

-- The function keys while alt is pressed.
abbrev pub alt_key : Keyboard → ℕ → Keyboard
alt_key s key =
    if key == key_f1
    then record s { terminals = terminal_switch s.terminals 0 }
    else (if key == 0x3c
        then function_key s 1
        else (if key == 0x3d
            then function_key s 2
            else (if key == 0x3e then function_key s 3 else s)))

-- The switch on the scancode.
abbrev pub special : Keyboard → ℕ → Keyboard
special s key =
    if key == 0x1d
    then record s { control = (s.control + 1) % 2 ^ 8 }
    else (if key == 0x9d
        then record s { control = (s.control + 255) % 2 ^ 8 }
        else (if key == 0x38
            then record s { alt = (s.alt + 1) % 2 ^ 8 }
            else (if key == 0xb8
                then record s { alt = (s.alt + 255) % 2 ^ 8 }
                else (if s.alt == 0 then s else alt_key s key))))

-- A key that is no caps lock and no shift.
abbrev pub pass_key : ℕ → Keyboard → ℕ → Keyboard
pass_key beyond s key =
    let font = if ltb key 0x81 then font_of beyond s.caps_lock s.shift key else 0 in
    let s' = special s key in
    record s' { terminals = input_process_key s'.terminals font key s'.control s'.alt }

-- What a scancode does before the end of the interrupt.
abbrev pub pressed : ℕ → Keyboard → ℕ → Keyboard
pressed beyond s key =
    if key == key_caps_lock
    then record s { caps_lock = bit_xor s.caps_lock 1 }
    else (if key == 0x2a || key == 0x36
        then record s { shift = s.shift ⊕ 1 }
        else (if key == 0xaa || key == 0xb6
            then record s { shift = s.shift ⊕ (2 ^ 32 - 1) }
            else pass_key beyond s key))

-- `key` is what `inb` reads from the port of the keyboard.
unfoldable pub keyboard_handler : ℕ → Keyboard → ℕ → Keyboard
keyboard_handler beyond s key = eoi (pressed beyond s key)
