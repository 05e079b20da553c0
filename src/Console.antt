-- ===== src/Console.antt =====
-- The console output of lib/lib.c: numbers as text, the cursor, characters, strings and `printf`.
pub mod Loop
pub mod Digits
pub mod Text
pub mod Cursor
pub mod Output
pub mod Increment
mod Tests
use linux.Base.{
  ℕ, zero, suc, ◌+◌, ◌-◌, ◌*◌, ◌/◌, ◌%◌, ◌^◌, Bool, true, false, not, ◌||◌, List, [], ◌∷◌, Option,
  none, some, ltb, ◌==◌, if◌then◌else◌, get_or, ◌>>=◌,
}
use linux.Memory.{Mem, ◌⊕◌, write}
use linux.CString.{strlen, strrev, slt}

-- The static variables `screen_x` and `screen_y`, the memory with the video memory in it, and the
-- `outb` calls made, latest first, as port and byte.
pub record Console : Type 0 where
  pub screen_x : ℕ
  pub screen_y : ℕ
  pub mem : Mem
  pub ports : List (ℕ × ℕ)

abbrev pub video_mem : ℕ
video_mem = 0xb8000

abbrev pub num_cols : ℕ
num_cols = 80

abbrev pub num_rows : ℕ
num_rows = 25

abbrev pub attrib : ℕ
attrib = 0x7

-- `/` and `%` of an `int` by a positive constant: they round towards 0.
abbrev pub quot : ℕ → ℕ → ℕ
quot a b = if ltb a (2 ^ 31) then a / b else (2 ^ 32 - (2 ^ 32 - a) / b) % 2 ^ 32

abbrev pub rem : ℕ → ℕ → ℕ
rem a b = if ltb a (2 ^ 31) then a % b else (2 ^ 32 - (2 ^ 32 - a) % b) % 2 ^ 32

-- A character and its attribute at the cell `i`.
abbrev pub put_cell : Mem → ℕ → ℕ → Mem
put_cell m i c =
    write (write m ((video_mem + 2 * i) % 2 ^ 32) c) ((video_mem + 2 * i + 1) % 2 ^ 32) attrib

-- The loop of `clear`, with the rounds left.
pub clear_from : ℕ → Console → ℕ → Console
clear_from zero c i = c
clear_from (suc r) c i =
    clear_from r (record c { screen_x = 0; screen_y = 0; mem = put_cell c.mem i b' ' }) (i + 1)

unfoldable pub clear : Console → Console
unfolding clear_from
clear c = clear_from (num_rows * num_cols) c 0

-- The cell below the cell `i` is copied to it, character first.
abbrev pub copy_cell : Mem → ℕ → Mem
copy_cell m i =
    let m' = write m (video_mem + 2 * i) (m (video_mem + 2 * i + num_cols * 2)) in
    write m' (video_mem + 2 * i + 1) (m' (video_mem + 2 * i + 1 + num_cols * 2))

-- The first loop of `vertical_scroll`.
pub scroll_from : ℕ → Console → ℕ → Console
scroll_from zero c i = c
scroll_from (suc r) c i =
    scroll_from r (record c { screen_x = 0; screen_y = num_rows - 1; mem = copy_cell c.mem i })
      (i + 1)

-- The second.
pub blank_from : ℕ → Console → ℕ → Console
blank_from zero c i = c
blank_from (suc r) c i = blank_from r (record c { mem = put_cell c.mem i b' ' }) (i + 1)

unfoldable pub vertical_scroll : Console → Console
unfolding scroll_from blank_from
vertical_scroll c =
    blank_from num_cols (scroll_from (num_rows * num_cols - num_cols) c 0)
      (num_rows * num_cols - num_cols)

unfoldable pub update_cursor : Console → ℕ → ℕ → Console
update_cursor c row col =
    let position = (row * 80 + col) % 2 ^ 16 in
    record c {
      ports =
          (0x3d5, position / 0x100 % 0x100)
          ∷ (0x3d4, 0x0e)
          ∷ (0x3d5, position % 0x100)
          ∷ (0x3d4, 0x0f)
          ∷ c.ports;
    }

-- The branch of `putc` that prints.
pub put_visible : Console → ℕ → Console
put_visible c char =
    let m = put_cell c.mem ((num_cols * c.screen_y + c.screen_x) % 2 ^ 32) char in
    let x = c.screen_x ⊕ 1 in
    let y = if x == num_cols then c.screen_y ⊕ 1 else c.screen_y in
    let x' = rem x num_cols in
    if not (y == num_rows)
    then record c { screen_x = x'; screen_y = y ⊕ quot x' num_cols; mem = m }
    else vertical_scroll (record c { screen_x = x'; screen_y = y; mem = m })

pub is_new_line : ℕ → Bool
is_new_line char = (char == b'\n') || (char == b'\r')

unfoldable pub putc : Console → ℕ → Console
unfolding put_visible is_new_line vertical_scroll
putc c char =
    let c1 =
      if is_new_line char
      then record c { screen_x = 0; screen_y = c.screen_y ⊕ 1 }
      else put_visible c char in
    let c2 = if c1.screen_y == num_rows then vertical_scroll c1 else c1 in
    update_cursor c2 c2.screen_y c2.screen_x

-- The loop of `puts`; it has fuel, and is `none` when that runs out.
pub puts_from : ℕ → Console → ℕ → ℕ → Option (Console × ℕ)
puts_from zero c s index = none
puts_from (suc f) c s index =
    let rest = puts_from f (putc c (c.mem (s ⊕ index))) s (index ⊕ 1) in
    if c.mem (s ⊕ index) == 0 then some (c, index) else rest

-- The console, and the bytes written.
unfoldable pub puts : ℕ → Console → ℕ → Option (Console × ℕ)
unfolding puts_from
puts f c s = puts_from f c s 0

-- The array `lookup` of `itoa`, with its terminator.
abbrev pub lookup : ℕ → ℕ
lookup i = if ltb i 10 then b'0' + i else (if ltb i 36 then b'A' + (i - 10) else 0)

-- The loop of `itoa`, least digit first, and the terminator. It has fuel.
pub itoa_from : ℕ → Mem → ℕ → ℕ → ℕ → Option Mem
itoa_from zero m newbuf newval radix = none
itoa_from (suc f) m newbuf newval radix =
    let rest =
      itoa_from f (write m newbuf (lookup (newval % radix))) (newbuf ⊕ 1) (newval / radix) radix in
    if newval == 0 then some (write m newbuf 0) else rest

-- The memory; the result is always `buf`.
unfoldable pub itoa : ℕ → Mem → ℕ → ℕ → ℕ → Option Mem
unfolding itoa_from strrev
itoa f m value buf radix =
    if value == 0
    then some (write (write m buf b'0') (buf ⊕ 1) 0)
    else (do m' ← itoa_from f m buf value radix; strrev f m' buf)

-- The conversions of `printf`. `word` is the argument that `esp` points to, `conv_buf` the address
-- of the local array, and `f` the fuel of the loops over strings.

-- `puts` on the text of a number.
pub put_number : ℕ → Console → ℕ → ℕ → ℕ → Option Console
unfolding itoa puts
put_number f c conv_buf word radix = do
  m ← itoa f c.mem word conv_buf radix
  r ← puts f (record c { mem = m }) conv_buf
  some (r.0)

-- `conv_buf[i] = '0'` while `i < 8`.
pub zero_fill : ℕ → Mem → ℕ → ℕ → Mem
zero_fill zero m conv_buf i = m
zero_fill (suc r) m conv_buf i = zero_fill r (write m (conv_buf ⊕ i) b'0') conv_buf (i + 1)

-- `%#x`: eight digits.
pub put_padded : ℕ → Console → ℕ → ℕ → Option Console
unfolding itoa puts strlen zero_fill
put_padded f c conv_buf word = do
  m ← itoa f c.mem word (conv_buf ⊕ 8) 16
  len ← strlen f m (conv_buf ⊕ 8)
  r ← puts f (record c { mem = zero_fill (8 - len) m conv_buf len }) (conv_buf ⊕ len)
  some (r.0)

-- `%d`.
pub put_signed : ℕ → Console → ℕ → ℕ → Option Console
unfolding itoa puts put_number
put_signed f c conv_buf word = elim (slt word 0) [
  | true ↦ do
    m ← itoa f (write c.mem conv_buf b'-') ((2 ^ 32 - word) % 2 ^ 32) (conv_buf ⊕ 1) 10
    r ← puts f (record c { mem = m }) conv_buf
    some (r.0)
  | false ↦ put_number f c conv_buf word 10
]

-- A conversion that takes an argument: the console, `buf`, and the arguments left. `none` where the
-- caller gave none.
pub with_argument : ℕ → List ℕ → (ℕ → Option Console) → Option (Console × ℕ × List ℕ)
with_argument buf [] print = none
with_argument buf (word ∷ args) print = do c ← print word; some (c, buf, args)

-- `%s`.
pub put_string : ℕ → Console → ℕ → Option Console
unfolding puts
put_string f c word = do r ← puts f c word; some (r.0)

-- `format_char_switch`, at the character `buf`, with the `#` flag. `n` bounds the jumps back for `#`.
pub convert : ℕ → ℕ → Console → ℕ → ℕ → Bool → List ℕ → Option (Console × ℕ × List ℕ)
unfolding put_number put_padded put_signed put_string with_argument
convert zero f c conv_buf buf alternate args = none
convert (suc n) f c conv_buf buf alternate args =
    let again = convert n f c conv_buf (buf ⊕ 1) true args in
    let kind = c.mem buf in
    if kind == b'%'
    then some (putc c b'%', buf, args)
    else (if kind == b'#'
        then again
        else (if kind == b'x'
            then with_argument buf args (λ word.
              if alternate then put_padded f c conv_buf word else put_number f c conv_buf word 16)
            else (if kind == b'u'
                then with_argument buf args (λ word. put_number f c conv_buf word 10)
                else (if kind == b'd'
                    then with_argument buf args (λ word. put_signed f c conv_buf word)
                    else (if kind == b'c'
                        then with_argument buf args (λ word. some (putc c (word % 0x100)))
                        else (if kind == b's'
                            then with_argument buf args (λ word. put_string f c word)
                            else some (c, buf, args)))))))

-- The loop of `printf`: the console and the last `buf`.
pub printf_from : ℕ → ℕ → Console → ℕ → ℕ → List ℕ → Option (Console × ℕ)
unfolding convert
printf_from zero f c conv_buf buf args = none
printf_from (suc n) f c conv_buf buf args = elim (c.mem buf == 0) [
  | true ↦ some (c, buf)
  | false ↦ elim (c.mem buf == b'%') [
    | true ↦ do
      r ← convert n f c conv_buf (buf ⊕ 1) false args
      printf_from n f (r.0) conv_buf (r.1 ⊕ 1) (r.2)
    | false ↦ printf_from n f (putc c (c.mem buf)) conv_buf (buf ⊕ 1) args
  ]
]

-- The console, and the characters of the format that were read.
unfoldable pub printf : ℕ → Console → ℕ → ℕ → List ℕ → Option (Console × ℕ)
unfolding printf_from
printf f c conv_buf format args = do
  r ← printf_from f f c conv_buf format args
  some (r.0, (r.1 + 2 ^ 32 - format) % 2 ^ 32)
