-- ===== src/Keyboard/Font.antt =====
-- The table font_data of drivers/keyboard.c: the character of each scancode.
use linux.Base.{ℕ, List, ◌∷◌, ◌++◌, replicate}

abbrev font_plain : List ℕ
font_plain =
    0
    ∷ 27
    ∷ b'1'
    ∷ b'2'
    ∷ b'3'
    ∷ b'4'
    ∷ b'5'
    ∷ b'6'
    ∷ b'7'
    ∷ b'8'
    ∷ b'9'
    ∷ b'0'
    ∷ 45
    ∷ 61
    ∷ 8
    ∷ 9
    ∷ b'q'
    ∷ b'w'
    ∷ b'e'
    ∷ b'r'
    ∷ b't'
    ∷ b'y'
    ∷ b'u'
    ∷ b'i'
    ∷ b'o'
    ∷ b'p'
    ∷ 91
    ∷ 93
    ∷ 10
    ∷ 0
    ∷ b'a'
    ∷ b's'
    ∷ b'd'
    ∷ b'f'
    ∷ b'g'
    ∷ b'h'
    ∷ b'j'
    ∷ b'k'
    ∷ b'l'
    ∷ 59
    ∷ 39
    ∷ 96
    ∷ 0
    ∷ 92
    ∷ b'z'
    ∷ b'x'
    ∷ b'c'
    ∷ b'v'
    ∷ b'b'
    ∷ b'n'
    ∷ b'm'
    ∷ 44
    ∷ 46
    ∷ 47
    ∷ 0
    ∷ 42
    ∷ 0
    ∷ 32
    ∷ 0
    ∷ 0
    ∷ 0
    ∷ 0
    ∷ 0
    ∷ 0
    ∷ 0
    ∷ 0
    ∷ 0
    ∷ 0
    ∷ 0
    ∷ 0
    ∷ 0
    ∷ 0
    ∷ 0
    ∷ 0
    ∷ 45
    ∷ 0
    ∷ 0
    ∷ 0
    ∷ 43
    ∷ 10
    ∷ 0
    ∷ 0
    ∷ 0
    ∷ 127
    ∷ 0
    ∷ 0
    ∷ 0
    ∷ 0
    ∷ 0
    ∷ 0
    ∷ replicate 38 0

abbrev font_shift : List ℕ
font_shift =
    0
    ∷ 27
    ∷ 33
    ∷ 64
    ∷ 35
    ∷ 36
    ∷ 37
    ∷ 94
    ∷ 38
    ∷ 42
    ∷ 40
    ∷ 41
    ∷ 95
    ∷ 43
    ∷ 8
    ∷ 9
    ∷ b'Q'
    ∷ b'W'
    ∷ b'E'
    ∷ b'R'
    ∷ b'T'
    ∷ b'Y'
    ∷ b'U'
    ∷ b'I'
    ∷ b'O'
    ∷ b'P'
    ∷ 123
    ∷ 125
    ∷ 10
    ∷ 0
    ∷ b'A'
    ∷ b'S'
    ∷ b'D'
    ∷ b'F'
    ∷ b'G'
    ∷ b'H'
    ∷ b'J'
    ∷ b'K'
    ∷ b'L'
    ∷ 58
    ∷ 34
    ∷ 126
    ∷ 0
    ∷ 124
    ∷ b'Z'
    ∷ b'X'
    ∷ b'C'
    ∷ b'V'
    ∷ b'B'
    ∷ b'N'
    ∷ b'M'
    ∷ 60
    ∷ 62
    ∷ 63
    ∷ 0
    ∷ 42
    ∷ 0
    ∷ 32
    ∷ 0
    ∷ 0
    ∷ 0
    ∷ 0
    ∷ 0
    ∷ 0
    ∷ 0
    ∷ 0
    ∷ 0
    ∷ 0
    ∷ 0
    ∷ 0
    ∷ 0
    ∷ 0
    ∷ 0
    ∷ 0
    ∷ 45
    ∷ 0
    ∷ 0
    ∷ 0
    ∷ 43
    ∷ 0
    ∷ 0
    ∷ 0
    ∷ 0
    ∷ 127
    ∷ 0
    ∷ 0
    ∷ 0
    ∷ 0
    ∷ 0
    ∷ 0
    ∷ replicate 38 0

abbrev font_caps : List ℕ
font_caps =
    0
    ∷ 27
    ∷ b'1'
    ∷ b'2'
    ∷ b'3'
    ∷ b'4'
    ∷ b'5'
    ∷ b'6'
    ∷ b'7'
    ∷ b'8'
    ∷ b'9'
    ∷ b'0'
    ∷ 45
    ∷ 61
    ∷ 8
    ∷ 9
    ∷ b'Q'
    ∷ b'W'
    ∷ b'E'
    ∷ b'R'
    ∷ b'T'
    ∷ b'Y'
    ∷ b'U'
    ∷ b'I'
    ∷ b'O'
    ∷ b'P'
    ∷ 91
    ∷ 93
    ∷ 10
    ∷ 0
    ∷ b'A'
    ∷ b'S'
    ∷ b'D'
    ∷ b'F'
    ∷ b'G'
    ∷ b'H'
    ∷ b'J'
    ∷ b'K'
    ∷ b'L'
    ∷ 59
    ∷ 39
    ∷ 96
    ∷ 0
    ∷ 92
    ∷ b'Z'
    ∷ b'X'
    ∷ b'C'
    ∷ b'V'
    ∷ b'B'
    ∷ b'N'
    ∷ b'M'
    ∷ 44
    ∷ 46
    ∷ 47
    ∷ 0
    ∷ 42
    ∷ 0
    ∷ 32
    ∷ 0
    ∷ 0
    ∷ 0
    ∷ 0
    ∷ 0
    ∷ 0
    ∷ 0
    ∷ 0
    ∷ 0
    ∷ 0
    ∷ 0
    ∷ 0
    ∷ 0
    ∷ 0
    ∷ 0
    ∷ 0
    ∷ 45
    ∷ 0
    ∷ 0
    ∷ 0
    ∷ 43
    ∷ 0
    ∷ 0
    ∷ 0
    ∷ 0
    ∷ 127
    ∷ 0
    ∷ 0
    ∷ 0
    ∷ 0
    ∷ 0
    ∷ 0
    ∷ replicate 38 0

abbrev font_both : List ℕ
font_both =
    0
    ∷ 27
    ∷ 33
    ∷ 64
    ∷ 35
    ∷ 36
    ∷ 37
    ∷ 94
    ∷ 38
    ∷ 42
    ∷ 40
    ∷ 41
    ∷ 95
    ∷ 43
    ∷ 8
    ∷ 9
    ∷ b'q'
    ∷ b'w'
    ∷ b'e'
    ∷ b'r'
    ∷ b't'
    ∷ b'y'
    ∷ b'u'
    ∷ b'i'
    ∷ b'o'
    ∷ b'p'
    ∷ 123
    ∷ 125
    ∷ 10
    ∷ 0
    ∷ b'a'
    ∷ b's'
    ∷ b'd'
    ∷ b'f'
    ∷ b'g'
    ∷ b'h'
    ∷ b'j'
    ∷ b'k'
    ∷ b'l'
    ∷ 58
    ∷ 39
    ∷ 126
    ∷ 0
    ∷ 92
    ∷ b'z'
    ∷ b'x'
    ∷ b'c'
    ∷ b'v'
    ∷ b'b'
    ∷ b'n'
    ∷ b'm'
    ∷ 60
    ∷ 62
    ∷ 63
    ∷ 0
    ∷ 42
    ∷ 0
    ∷ 32
    ∷ 0
    ∷ 0
    ∷ 0
    ∷ 0
    ∷ 0
    ∷ 0
    ∷ 0
    ∷ 0
    ∷ 0
    ∷ 0
    ∷ 0
    ∷ 0
    ∷ 0
    ∷ 0
    ∷ 0
    ∷ 0
    ∷ 45
    ∷ 0
    ∷ 0
    ∷ 0
    ∷ 43
    ∷ 0
    ∷ 0
    ∷ 0
    ∷ 0
    ∷ 127
    ∷ 0
    ∷ 0
    ∷ 0
    ∷ 0
    ∷ 0
    ∷ 0
    ∷ replicate 38 0

-- The rows are for no modifier, shift, caps lock, and both, one after the other in memory.
abbrev pub font_data : List ℕ
font_data = font_plain ++ (font_shift ++ (font_caps ++ font_both))
