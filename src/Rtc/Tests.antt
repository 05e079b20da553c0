-- ===== src/Rtc/Tests.antt =====
-- drivers/rtc.c on a concrete clock.
use linux.Base.{ℕ, ◌-◌, ◌≡◌, ◌⊎◌, refl, arith, [], ◌∷◌, some, none, true, false, if◌then◌else◌}
use linux.Rtc.{Rtc, find_divider, rtc_write, rtc_read}
use linux.Rtc.Wait.{any, served, rtc_read_lem}
use linux.Rtc.Rate.{RateIs, divided, rtc_write_lem}

-- 1024 interrupts per second.
abbrev clock : Rtc
clock = record { ports = []; register_a = 0x26; register_b = 2; rtc_flag = true }

write_512 :
    rtc_write clock 512
    ≡ some (record clock { ports = (0x71, 0x27) ∷ (0x70, 0x8a) ∷ (0x70, 0x8a) ∷ [] }, true)
unfolding rtc_write find_divider
write_512 = refl

rtc_write_lem_example :
    ((k : ℕ) × RateIs 512 k × (rtc_write clock 512 ≡ some (divided clock (16 - k), true)))
    ⊎ (¬ ((k : ℕ) × RateIs 512 k) × (rtc_write clock 512 ≡ some (clock, false)))
rtc_write_lem_example = rtc_write_lem clock 512 (omega arith)

rtc_read_lem_example :
    rtc_read (false ∷ true ∷ true ∷ []) clock
    ≡ (if any (false ∷ true ∷ true ∷ []) then some (served clock) else none)
rtc_read_lem_example = rtc_read_lem (false ∷ true ∷ true ∷ []) clock
