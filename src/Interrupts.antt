-- ===== src/Interrupts.antt =====
-- drivers/i8259.c and drivers/pit.c: the interrupt controllers and the timer.
pub mod Lines
mod Tests
use Prim.Native.Nat.{bit_and, bit_or}
use linux.Base.{ℕ, zero, suc, ◌+◌, ◌-◌, ◌%◌, ◌^◌, List, ◌∷◌, ltb, leb, if◌then◌else◌}

-- What `inb` reads from the mask ports: the byte written there last.
pub record Masks : Type 0 where
  pub master : ℕ
  pub slave : ℕ

abbrev pub master_port : ℕ
master_port = 0x20

abbrev pub master_mask_port : ℕ
master_mask_port = 0x21

abbrev pub slave_port : ℕ
slave_port = 0xa0

abbrev pub slave_mask_port : ℕ
slave_mask_port = 0xa1

abbrev pub nr_irqs : ℕ
nr_irqs = 16

abbrev pub slave_irq_num : ℕ
slave_irq_num = 2

-- The `outb` calls, latest first, as port and byte.
abbrev pub Ports : Type 0
Ports = List (ℕ × ℕ)

-- `value & ~(1 << n)` and `value | (1 << n)`, as bytes.
abbrev pub clear_bit : ℕ → ℕ → ℕ
clear_bit value n = bit_and value (2 ^ 32 - 1 - 2 ^ n) % 2 ^ 8

abbrev pub set_bit : ℕ → ℕ → ℕ
set_bit value n = bit_or value (2 ^ n) % 2 ^ 8

unfoldable pub enable_irq : ℕ → Masks → Ports → Masks × Ports
enable_irq irq_num m ports =
    if ltb irq_num 8
    then (let value = clear_bit m.master irq_num in
        (record m { master = value }, (master_mask_port, value) ∷ ports))
    else (let value = clear_bit m.slave (irq_num - 8) in
        (record m { slave = value }, (slave_mask_port, value) ∷ ports))

unfoldable pub disable_irq : ℕ → Masks → Ports → Masks × Ports
disable_irq irq_num m ports =
    if ltb irq_num 8
    then (let value = set_bit m.master irq_num in
        (record m { master = value }, (master_mask_port, value) ∷ ports))
    else (let value = set_bit m.slave (irq_num - 8) in
        (record m { slave = value }, (slave_mask_port, value) ∷ ports))

-- `disable_irq(i)` for `r` lines from `i` on.
unfoldable pub disable_from : ℕ → ℕ → Masks → Ports → Masks × Ports
unfolding disable_irq
disable_from zero i m ports = (m, ports)
disable_from (suc r) i m ports =
    let (m', ports') = disable_irq i m ports in disable_from r (i + 1) m' ports'

-- The command words of `i8259_init`. They go to the mask ports as well, but the controller does not
-- take them for masks.
abbrev pub command_words : Ports → Ports
command_words ports =
    (slave_mask_port, 0x01)
    ∷ (master_mask_port, 0x01)
    ∷ (slave_mask_port, 0x02)
    ∷ (master_mask_port, 0x04)
    ∷ (slave_mask_port, 0x28)
    ∷ (master_mask_port, 0x20)
    ∷ (slave_port, 0x11)
    ∷ (master_port, 0x11)
    ∷ ports

unfoldable pub i8259_init : Masks → Ports → Masks × Ports
unfolding disable_from enable_irq
i8259_init m ports =
    let (m', ports') = disable_from nr_irqs 0 m (command_words ports) in
    enable_irq slave_irq_num m' ports'

unfoldable pub send_eoi : ℕ → Ports → Ports
send_eoi irq_num ports =
    if leb 8 irq_num
    then (master_port, bit_or 0x60 2) ∷ (slave_port, bit_or 0x60 (irq_num - 8)) ∷ ports
    else (master_port, bit_or 0x60 irq_num) ∷ ports

abbrev pub pit_irq_line : ℕ
pit_irq_line = 0

unfoldable pub pit_init : Masks → Ports → Masks × Ports
unfolding enable_irq
pit_init m ports = enable_irq pit_irq_line m ((0x40, 0x2e) ∷ (0x40, 0x9c) ∷ (0x43, 0x34) ∷ ports)
