-- ===== src/Exception/Tests.antt =====
-- error_screan of kernel/exception.c on concrete messages.
use linux.Base.{
  all_below, all_below_lem, ℕ, ◌<◌, ◌≡◌, ◌≢◌, refl, arith, not, replicate, true, some, inl, ◌==◌,
}
use linux.Memory.{Mem, ◌⊕◌}
use linux.CString.{IsString}
use linux.Pcb.{Pcb, closed, fd_max}
use linux.Exception.{Crash, codes, put_message, centre}
use linux.Exception.Padding.{AreApart, Centred, centre_lem}

abbrev shell_block : Pcb
shell_block = record {
  elements = replicate fd_max closed;
  parent_pcb = 0;
  child = 0;
  esp_reg = 0;
  ebp_reg = 0;
  pid = 1;
  args = replicate 100 0;
  vidmap = 0;
  term = 0;
  rtc_fd = 0;
  rtc = 0;
  rtc_rate = 0;
}

abbrev crash : Crash
crash = record {
  message_at = 0x100;
  rightstr = 0x200;
  leftstr = 0x240;
  conv_buf = 0x300;
  esp = 0x7fff00;
  curr = 0x7fe000;
  block = shell_block;
  formats = record {
    core_dump_text = 0x400;
    pcb_text = 0x420;
    pid_text = 0x440;
    term_text = 0x460;
    ebp_text = 0x480;
    esp_text = 0x4a0;
    word_text = 0x4c0;
    new_line_text = 0x4e0;
  };
  fuel = 60;
}

-- The message of `divide`.
abbrev divided : Mem
divided = put_message (λ a. 0) 0x100 (codes "Divide exception")

chars_check : all_below 16 (λ k. not (divided (0x100 ⊕ k) == 0)) ≡ true
unfolding all_below put_message
chars_check = refl

end_check : divided (0x100 ⊕ 16) ≡ 0
unfolding put_message
end_check = refl

divided_char : (k : ℕ) → k < 16 → divided (0x100 ⊕ k) ≢ 0
divided_char k below nul =
    let t = all_below_lem 16 (λ i. not (divided (0x100 ⊕ i) == 0)) k chars_check below in
    grind arith

divided-IsString : IsString divided 0x100 16
divided-IsString = record { end = end_check; before = divided_char }

divided-AreApart : AreApart crash 0x100 16
divided-AreApart = record {
  message_fits = omega arith;
  right_fits = omega arith;
  left_fits = omega arith;
  right_message = inl (omega arith);
  left_message = inl (omega arith);
  right_left = inl (omega arith);
}

centre_lem_example :
    (m' : Mem) × (centre crash divided 0x100 ≡ some m') × Centred crash divided m' 0x100 16
centre_lem_example =
    centre_lem crash divided 0x100 16 divided-IsString (omega arith) (omega arith) divided-AreApart
