-- ===== src/Interrupts/Tests.antt =====
-- drivers/i8259.c on concrete masks.
use linux.Base.{◌≡◌, refl, []}
use linux.Interrupts.{Masks, enable_irq, disable_irq, disable_from, i8259_init}

abbrev all_masked : Masks
all_masked = record { master = 0xff; slave = 0xff }

abbrev none_masked : Masks
none_masked = record { master = 0; slave = 0 }

-- The keyboard and the clock.
keyboard_on : (enable_irq 1 all_masked []).0 ≡ record all_masked { master = 0xfd }
unfolding enable_irq
keyboard_on = refl

clock_on : (enable_irq 8 all_masked []).0 ≡ record all_masked { slave = 0xfe }
unfolding enable_irq
clock_on = refl

all_off : (i8259_init none_masked []).0 ≡ record { master = 0xfb; slave = 0xff }
unfolding i8259_init enable_irq disable_irq disable_from
all_off = refl
