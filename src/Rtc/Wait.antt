-- ===== src/Rtc/Wait.antt =====
-- rtc_init, rtc_open and rtc_read of drivers/rtc.c.
use linux.Base.{◌≡◌, refl, Bool, true, false, List, [], ◌∷◌, none, some, ◌||◌, if◌then◌else◌}
use linux.Interrupts.{Masks, enable_irq}
use Prim.Native.Nat.{bit_or}
use linux.Rtc.Rate.{divided}
use linux.Rtc.{
  rtc_cmos, rtc_port, Rtc, rtc_irq_num, rtc_write, rtc_irq_handler, rtc_read, wait_from, rtc_init,
  find_divider,
}

-- The clock after its first interrupt, with the flag taken.
abbrev pub served : Rtc → Rtc
served s = record (rtc_irq_handler (record s { rtc_flag = false })) { rtc_flag = false }

abbrev pub any : List Bool → Bool
any [] = false
any (tick ∷ ticks) = tick || any ticks

wait_from_lem :
    (ticks : List Bool) (s : Rtc)
    → wait_from ticks (record s { rtc_flag = false })
      ≡ (if any ticks then some (served s) else none)
unfolding wait_from rtc_irq_handler
wait_from_lem [] s = refl
wait_from_lem (true ∷ ticks) s = refl
wait_from_lem (false ∷ ticks) s = wait_from_lem ticks s

-- For any sequence of rounds, in each of which an interrupt comes or not: `rtc_read` returns exactly
-- when there is one, after the first one, with its flag taken again. A flag that was set before the
-- call does not count.
pub rtc_read_lem :
    (ticks : List Bool) (s : Rtc) → rtc_read ticks s ≡ (if any ticks then some (served s) else none)
unfolding rtc_read
rtc_read_lem ticks s = wait_from_lem ticks s

-- `rtc_init` lets the clock's line through, sets the bit 6 of register B, which turns its periodic
-- interrupts on, and sets the divider 15, which is 2 interrupts per second.
pub rtc_init_lem :
    (s : Rtc) (m : Masks)
    → rtc_init s m
      ≡ some (
        divided
            (record s {
              ports =
                  (rtc_cmos, bit_or s.register_b 0x40)
                  ∷ (rtc_port, 0x8b)
                  ∷ (rtc_port, 0x8b)
                  ∷ (enable_irq rtc_irq_num m s.ports).1;
              rtc_flag = false;
            })
            15,
        (enable_irq rtc_irq_num m s.ports).0,
      )
unfolding rtc_init rtc_write find_divider
rtc_init_lem s m = refl
