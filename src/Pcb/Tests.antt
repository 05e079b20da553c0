-- ===== src/Pcb/Tests.antt =====
-- kernel/pcb.c on a concrete control block.
use linux.Base.{◌≡◌, refl, replicate}
use linux.Pcb.{Pcb, file_driver, closed, fd_max, pcb_open}

abbrev blank : Pcb
blank = record {
  elements = replicate fd_max closed;
  parent_pcb = 0;
  child = 0;
  esp_reg = 0;
  ebp_reg = 0;
  pid = 1;
  args = replicate fd_max 0;
  vidmap = 0;
  term = 0;
  rtc_fd = 0;
  rtc = 0;
  rtc_rate = 0;
}

opens_two : (pcb_open blank file_driver).1 ≡ 2
unfolding pcb_open
opens_two = refl
