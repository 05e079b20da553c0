-- ===== src/Exception.antt =====
-- kernel/exception.c: the handlers of the exceptions and the screens that they print.
pub mod Padding
mod Tests
use Prim.Native.Char.{code}
use Prim.Native.String.{String}
use linux.Base.{
  ℕ, zero, suc, ◌+◌, ◌-◌, ◌*◌, ◌%◌, ◌^◌, List, [], ◌∷◌, Option, none, some, not, ◌==◌,
  if◌then◌else◌, ◌>>=◌,
}
use linux.Memory.{Mem, ◌⊕◌, write, load32}
use linux.CString.{slt, strlen}
use linux.Console.{Console, quot, rem, clear, printf}
use linux.Pcb.{Pcb}

-- The codes of the characters of a text.
abbrev pub codes : String → List ℕ
codes String.[] = []
codes (String.◌∷◌ c s) = code c ∷ codes s

-- The addresses of the format strings of `core_dump`.
pub record Formats : Type 0 where
  pub core_dump_text : ℕ
  pub pcb_text : ℕ
  pub pid_text : ℕ
  pub term_text : ℕ
  pub ebp_text : ℕ
  pub esp_text : ℕ
  pub word_text : ℕ
  pub new_line_text : ℕ

-- What a handler runs with: the addresses of its local arrays and of the one of `printf`, the stack
-- pointer in `core_dump`, the address of the current control block with what it holds, the formats,
-- and the fuel of the loops over strings.
pub record Crash : Type 0 where
  pub message_at : ℕ
  pub rightstr : ℕ
  pub leftstr : ℕ
  pub conv_buf : ℕ
  pub esp : ℕ
  pub curr : ℕ
  pub block : Pcb
  pub formats : Formats
  pub fuel : ℕ

abbrev pub max_str_length : ℕ
max_str_length = 48

-- `printf` in `core_dump`.
abbrev pub print : Crash → Console → ℕ → List ℕ → Option Console
print r c format args = do p ← printf r.fuel c r.conv_buf format args; some (p.0)

-- The loop of `core_dump`, with the rounds left.
unfoldable pub dump_from : ℕ → Crash → Console → ℕ → Option Console
dump_from zero r c i = some c
dump_from (suc n) r c i = do
  c1 ← print r c (r.formats).word_text (load32 c.mem (r.esp ⊕ 4 * i) ∷ [])
  c2 ← if i % 4 == 0 then print r c1 (r.formats).new_line_text [] else some c1
  dump_from n r c2 (i + 1)

-- `temp` is set to `ebp` and then to `esp`, before it is printed twice.
unfoldable pub core_dump : Crash → Console → ℕ → Option Console
core_dump r c message = do
  c1 ← print r (clear c) (r.formats).core_dump_text (message ∷ [])
  c2 ← print r c1 (r.formats).pcb_text (r.curr ∷ [])
  c3 ← print r c2 (r.formats).pid_text ((r.block).pid % 2 ^ 16 ∷ [])
  c4 ← print r c3 (r.formats).term_text ((r.block).term ∷ [])
  c5 ← print r c4 (r.formats).ebp_text (r.esp ∷ [])
  c6 ← print r c5 (r.formats).esp_text (r.esp ∷ [])
  dump_from 64 r c6 0

-- The loops over `rightstr` and `leftstr`, with the rounds left.
unfoldable pub spaces_from : ℕ → Mem → ℕ → ℕ → Mem
spaces_from zero m str i = m
spaces_from (suc n) m str i = spaces_from n (write m (str ⊕ i) b' ') str (i + 1)

-- A loop up to `n`, an `int`, and the terminator after it.
unfoldable pub put_spaces : Mem → ℕ → ℕ → Mem
put_spaces m str n =
    let rounds = if slt 0 n then n else 0 in write (spaces_from rounds m str 0) (str ⊕ rounds) 0

-- `R_spaces` and `L_spaces`.
unfoldable pub right_spaces : ℕ → ℕ
right_spaces length =
    let left = (max_str_length + 2 ^ 32 - length) % 2 ^ 32 in
    if not (rem length 2 == 0) then quot (left ⊕ 1) 2 ⊕ (2 ^ 32 - 1) else quot left 2

unfoldable pub left_spaces : ℕ → ℕ
left_spaces length =
    let left = (max_str_length + 2 ^ 32 - length) % 2 ^ 32 in
    if not (rem length 2 == 0) then quot (left ⊕ 1) 2 else quot left 2

-- The cut of a long message: the memory, and its new length.
unfoldable pub cut_message : ℕ → Mem → ℕ → ℕ → Option (Mem × ℕ)
cut_message f m message length =
    let cut = write m (message ⊕ (max_str_length - 1)) 0 in
    if slt max_str_length length
    then (do length' ← strlen f cut message; some (cut, length'))
    else some (m, length)

-- From the length of the message to the two strings of spaces.
unfoldable pub centre : Crash → Mem → ℕ → Option Mem
centre r m message = do
  length ← strlen r.fuel m message
  p ← cut_message r.fuel m message length
  some (put_spaces (put_spaces (p.0) r.rightstr (right_spaces (p.1))) r.leftstr (left_spaces (p.1)))

-- The colour 0 of the palette is set to blue.
abbrev pub blue : List (ℕ × ℕ) → List (ℕ × ℕ)
blue ports = (0x3c9, 0x3f) ∷ (0x3c9, 0) ∷ (0x3c9, 0) ∷ (0x3c8, 0) ∷ ports

unfoldable pub error_screan : Crash → Console → ℕ → Option Console
error_screan r c message =
    let c1 = clear (record c { ports = blue c.ports }) in
    if message == 0
    then some c1
    else (do m ← centre r c1.mem message; core_dump r (record c1 { mem = m }) message)

-- The array `message` of a handler, with its terminator.
unfoldable pub put_message : Mem → ℕ → List ℕ → Mem
put_message m at [] = write m at 0
put_message m at (c ∷ text) = put_message (write m at c) (at ⊕ 1) text

-- A handler prints its screen and then spins: the console while it does.
abbrev pub spin : Crash → Console → String → Option Console
spin r c text =
    error_screan r (record c { mem = put_message c.mem r.message_at (codes text) }) r.message_at

unfoldable pub divide : Crash → Console → Option Console
divide r c = spin r c "Divide exception"

unfoldable pub debug : Crash → Console → Option Console
debug r c = spin r c "Debug exception"

unfoldable pub nmi : Crash → Console → Option Console
nmi r c = spin r c "Kernel received NMI."

unfoldable pub breakpoint : Crash → Console → Option Console
breakpoint r c = spin r c "Kernel received breakpoint exception."

unfoldable pub overflow : Crash → Console → Option Console
overflow r c = spin r c "Overflow exception"

unfoldable pub bound : Crash → Console → Option Console
bound r c = spin r c "Bound range exceeded exception"

unfoldable pub invalid_opcode : Crash → Console → Option Console
invalid_opcode r c = spin r c "Invalid opcode exception"

unfoldable pub device_not_available : Crash → Console → Option Console
device_not_available r c = spin r c "Device not available exception"

unfoldable pub double_fault : Crash → Console → Option Console
double_fault r c = spin r c "Double fault exception"

unfoldable pub invalid_tss : Crash → Console → Option Console
invalid_tss r c = spin r c "Invalid TSS exception"

unfoldable pub segment : Crash → Console → Option Console
segment r c = spin r c "Segment not present exception"

unfoldable pub stack : Crash → Console → Option Console
stack r c = spin r c "Stack segment exception"

unfoldable pub gpf : Crash → Console → Option Console
gpf r c = spin r c "General protection fault exception"

unfoldable pub page_fault : Crash → Console → Option Console
page_fault r c = spin r c "Page Fault Exception"
