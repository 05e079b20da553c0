-- ===== src/Rtc.antt =====
-- drivers/rtc.c: the real-time clock, its rate and its interrupts.
pub mod Rate
pub mod Wait
mod Tests
use Prim.Native.Nat.{bit_and, bit_or}
use linux.Base.{
  ℕ, zero, suc, ◌+◌, ◌-◌, ◌*◌, ◌^◌, ◌%◌, Bool, true, false, not, ◌&&◌, ◌||◌, List, [], ◌∷◌, Option,
  none, some, ◌==◌, if◌then◌else◌, ◌>>=◌,
}
use linux.CString.{slt}
use linux.Interrupts.{Masks, enable_irq, send_eoi}

-- The `outb` calls made, latest first, as port and byte, what `inb` reads from the registers A and B,
-- and the variable `rtc_flag`.
pub record Rtc : Type 0 where
  pub ports : List (ℕ × ℕ)
  pub register_a : ℕ
  pub register_b : ℕ
  pub rtc_flag : Bool

abbrev pub rtc_max_rate : ℕ
rtc_max_rate = 1024

abbrev pub rtc_min_rate : ℕ
rtc_min_rate = 2

abbrev pub rtc_port : ℕ
rtc_port = 0x70

abbrev pub rtc_cmos : ℕ
rtc_cmos = 0x71

abbrev pub rtc_reg_a_m : ℕ
rtc_reg_a_m = 0x8a

abbrev pub div_max : ℕ
div_max = 16

-- The loop that looks for the bit of the rate, with `r` rounds left. None where it finds no bit:
-- `divider_value` then has no value.
pub find_divider : ℕ → ℕ → ℕ → ℕ → Option ℕ
find_divider zero rate i bitmask = none
find_divider (suc r) rate i bitmask =
    let rest = find_divider r rate (i + 1) (bitmask * 2 % 2 ^ 32) in
    if not (bit_and rate bitmask == 0) then some ((div_max - i) % 2 ^ 8) else rest

-- `rate != 0 && (rate & (~rate + 1)) == rate`.
abbrev pub is_power : ℕ → Bool
is_power rate = not (rate == 0) && (bit_and rate ((2 ^ 32 - rate) % 2 ^ 32) == rate)

-- The rate is the bit pattern of an `int32_t`. The result -1 is false, and 0 is true.
unfoldable pub rtc_write : Rtc → ℕ → Option (Rtc × Bool)
rtc_write s rate =
    if slt rtc_max_rate rate || slt rate rtc_min_rate
    then some (s, false)
    else (if not (is_power rate) then some (s, false) else (do
      divider ← find_divider 12 (bit_and rate 0xfff) 0 1
      some (
        record s {
          ports =
              (rtc_cmos, bit_or (bit_and s.register_a 0xf0) divider)
              ∷ (rtc_port, rtc_reg_a_m)
              ∷ (rtc_port, rtc_reg_a_m)
              ∷ s.ports;
        },
        true,
      )))

abbrev pub rtc_irq_num : ℕ
rtc_irq_num = 8

abbrev pub default_rate : ℕ
default_rate = 2

-- The clock and the interrupt masks. Register B is read and written with NMIs off.
unfoldable pub rtc_init : Rtc → Masks → Option (Rtc × Masks)
unfolding enable_irq rtc_write
rtc_init s m =
    let (m', ports) = enable_irq rtc_irq_num m s.ports in
    let prepared = record s {
      ports = (rtc_cmos, bit_or s.register_b 0x40) ∷ (rtc_port, 0x8b) ∷ (rtc_port, 0x8b) ∷ ports;
      rtc_flag = false;
    } in
    do r ← rtc_write prepared default_rate; some (r.0, m')

-- The read of register C has no effect on this state.
unfoldable pub rtc_irq_handler : Rtc → Rtc
unfolding send_eoi
rtc_irq_handler s = record s {
  ports = send_eoi rtc_irq_num ((rtc_port, 0x0c) ∷ s.ports);
  rtc_flag = true;
}

-- The result 0 is true.
unfoldable pub rtc_open : Rtc → Option (Rtc × Bool)
unfolding rtc_write
rtc_open s = do r ← rtc_write s default_rate; some (r.0, true)

-- The loop of `rtc_read`. For each round, whether an interrupt of the clock comes before its test of
-- the flag. `none`: the process still waits after these rounds.
pub wait_from : List Bool → Rtc → Option Rtc
unfolding rtc_irq_handler
wait_from [] s = none
wait_from (tick ∷ ticks) s =
    let s' = if tick then rtc_irq_handler s else s in
    let rest = wait_from ticks s' in
    if s'.rtc_flag then some (record s' { rtc_flag = false }) else rest

unfoldable pub rtc_read : List Bool → Rtc → Option Rtc
unfolding wait_from
rtc_read ticks s = wait_from ticks (record s { rtc_flag = false })

unfoldable pub rtc_close : Rtc → Rtc × Bool
rtc_close s = (s, true)
