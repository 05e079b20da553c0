-- ===== src/Console/Tests.antt =====
-- lib/lib.c, console output, on concrete memories.
use linux.Base.{ℕ, ◌≡◌, ◌≤◌, refl, arith, [], some, ◌==◌, if◌then◌else◌}
use linux.Memory.{Mem, SameOutside}
use linux.CString.{IsString}
use linux.Console.{Console, putc, itoa}
use linux.Console.Digits.{Numeral, itoa-Numeral}
use linux.Console.Cursor.{IsOnConsole, Printed, putc-Printed}

abbrev nothing : Mem
nothing a = 0

-- "Hi" at the address 64.
abbrev hi : Mem
hi a = if a == 64 then b'H' else (if a == 65 then b'i' else 0)

-- The cursor in the last cell of the screen.
abbrev corner : Console
corner = record { screen_x = 79; screen_y = 24; mem = hi; ports = [] }

corner-IsOnConsole : IsOnConsole corner
corner-IsOnConsole = record { column = omega arith; row = omega arith }

hi-IsString : IsString hi 64 2
hi-IsString = record { end = refl; before = λ k h. ground arith }

itoa-Numeral_example :
    (m' : Mem) × (n : ℕ) × (itoa 34 nothing 255 0x1000 16 ≡ some m')
    × Numeral m' 0x1000 n 255 16
    × (n ≤ 32)
    × SameOutside nothing m' 0x1000 33
itoa-Numeral_example =
    itoa-Numeral 34 nothing 255 0x1000 16 (omega arith) (omega arith) (omega arith) (omega arith)
      (omega arith)

putc-Printed_example : Printed corner b'x' (putc corner b'x')
putc-Printed_example = putc-Printed corner b'x' corner-IsOnConsole
