-- ===== src/Line/Switching.antt =====
-- terminal_switch of drivers/termios.c: the screens that change places.
use linux.Base.{
  ℕ, ◌+◌, ◌-◌, ◌<◌, ◌≡◌, ◌≢◌, refl, sym, ap, ◌∙◌, arith, ==_false, if_intro, if◌then◌else◌, length,
  length-set, get_or-set_self, get_or-set_ne,
}
use linux.Memory.{Mem, SameOutside, Outside, within, memcpy}
use linux.Memory.Copy.{Apart, memcpy-Copied}
use linux.Terminal.{TermData, Display, video_mem, terminal_refresh, terminal_set_cursor}
use linux.Terminal.Cells.{screen_size}
use linux.Line.{Terminals, term, set_term, no_data, display, put_display, terminal_switch}

refresh-data :
    (d : Display)
    → ((terminal_refresh d).term_data ≡ d.term_data) × ((terminal_refresh d).mem ≡ d.mem)
unfolding terminal_refresh terminal_set_cursor
refresh-data d =
    if_intro (λ (e : Display). (e.term_data ≡ d.term_data) × (e.mem ≡ d.mem)) d.current _ _
      (λ t. (refl, refl)) (λ f. (refl, refl))

-- The active terminal and terminal `n` have back buffers that overlap neither each other nor
-- video memory.
pub record CanSwitch (s : Terminals) (n : ℕ) : Type 0 where
  pub other : n ≢ s.active_term
  pub old_in_range : s.active_term < length s.term_data_array
  pub new_in_range : n < length s.term_data_array
  pub old_screen : Apart (term s s.active_term).screen_buf video_mem screen_size
  pub new_screen : Apart video_mem (term s n).screen_buf screen_size
  pub screens : Apart (term s s.active_term).screen_buf (term s n).screen_buf screen_size

-- What a switch does: the screen shown is saved in the old terminal's back buffer, the new
-- terminal's is shown, and no other memory changes.
pub record Switched (s : Terminals) (n : ℕ) (s' : Terminals) : Type 0 where
  pub active : s'.active_term ≡ n
  pub old_buf : (term s' s.active_term).screen_buf ≡ (term s s.active_term).screen_buf
  pub new_buf : (term s' n).screen_buf ≡ (term s n).screen_buf
  pub old_inactive : (term s' s.active_term).is_active ≡ 0
  pub new_active : (term s' n).is_active ≡ 1
  pub size : length s'.term_data_array ≡ length s.term_data_array
  pub memory :
      (a : ℕ)
      → s'.mem a ≡ (
          if within video_mem screen_size a
          then s.mem ((term s n).screen_buf + (a - video_mem))
          else (if within (term s s.active_term).screen_buf screen_size a
              then s.mem (video_mem + (a - (term s s.active_term).screen_buf))
              else s.mem a))

switched-memory :
    (s : Terminals) (n : ℕ)
    → CanSwitch s n
    → (a : ℕ)
    → memcpy
        (memcpy s.mem (term s s.active_term).screen_buf video_mem screen_size)
        video_mem
        (term s n).screen_buf
        screen_size
        a
      ≡ (if within video_mem screen_size a
          then s.mem ((term s n).screen_buf + (a - video_mem))
          else (if within (term s s.active_term).screen_buf screen_size a
              then s.mem (video_mem + (a - (term s s.active_term).screen_buf))
              else s.mem a))
switched-memory s n c a =
    let f =
      memcpy-Copied s.mem (term s s.active_term).screen_buf video_mem screen_size c.old_screen in
    let m = memcpy s.mem (term s s.active_term).screen_buf video_mem screen_size in
    let g = memcpy-Copied m video_mem (term s n).screen_buf screen_size c.new_screen in
    g a ∙ ground (arith, f a, f ((term s n).screen_buf + (a - video_mem)), c.screens.apart)

-- Where the terminals are two of the array, with back buffers that overlap neither each other nor
-- video memory: the switch shows the new one's screen, keeps the old one's in its back buffer,
-- changes no other memory, and marks the new one as active and the old one as not.
pub terminal_switch-Switched :
    (s : Terminals) (n : ℕ) → CanSwitch s n → Switched s n (terminal_switch s n)
unfolding terminal_switch
terminal_switch-Switched s n c =
    let a = s.active_term in
    let t = term s a in
    let u = term s n in
    let m = memcpy s.mem t.screen_buf video_mem screen_size in
    let m' = memcpy m video_mem u.screen_buf screen_size in
    let t' = record t { is_active = 0 } in
    let s1 = set_term s a t' in
    let u1 : term s1 n ≡ u =
      get_or-set_ne s.term_data_array a n t' no_data (λ e. c.other (sym e)) in
    let u' = record (term s1 n) { is_active = 1 } in
    let s2 = set_term s1 n u' in
    let s3 = record s2 { active_term = n; mem = m' } in
    let size1 = length-set s.term_data_array a t' in
    let size2 = length-set s1.term_data_array n u' ∙ size1 in
    let d = refresh-data (display s3 n) in
    let e3 : term s3 n ≡ u' =
      get_or-set_self s1.term_data_array n u' no_data (rw size1 c.new_in_range) in
    let s4 = put_display s3 n (terminal_refresh (display s3 n)) in
    let e4 : term s4 n ≡ u' =
      get_or-set_self s3.term_data_array n _ no_data (rw size2 c.new_in_range) ∙ d.0 ∙ e3 in
    let f4 : term s4 a ≡ t' =
      get_or-set_ne s3.term_data_array n a _ no_data c.other
      ∙ get_or-set_ne s1.term_data_array n a u' no_data c.other
      ∙ get_or-set_self s.term_data_array a t' no_data c.old_in_range in
    let w : Switched s n s4 = record {
      active = refl;
      old_buf = ap (λ (v : TermData). v.screen_buf) f4;
      new_buf = ap (λ (v : TermData). v.screen_buf) (e4) ∙ ap (λ (v : TermData). v.screen_buf) u1;
      old_inactive = ap (λ (v : TermData). v.is_active) f4;
      new_active = ap (λ (v : TermData). v.is_active) e4;
      size = length-set s3.term_data_array n _ ∙ size2;
      memory = λ b. ap (λ (v : Mem). v b) d.1 ∙ switched-memory s n c b;
    } in
    rw (==_false _ _ c.other) w

Apart-sym : (d s n : ℕ) → Apart d s n → Apart s d n
Apart-sym d s n w = record {
  apart = ground (arith, w.apart);
  to_fits = w.from_fits;
  from_fits = w.to_fits;
}

back_memory :
    (s : Terminals) (n : ℕ)
    → CanSwitch s n
    → (s' : Terminals) → Switched s n s'
    → (b : ℕ) → Outside (term s s.active_term).screen_buf screen_size b
    → (if within video_mem screen_size b
        then s'.mem ((term s' s.active_term).screen_buf + (b - video_mem))
        else (if within (term s' s'.active_term).screen_buf screen_size b
            then s'.mem (video_mem + (b - (term s' s'.active_term).screen_buf))
            else s'.mem b))
      ≡ s.mem b
back_memory s n c s' w b h =
    let p = (term s s.active_term).screen_buf in
    let q = (term s n).screen_buf in
    rw (w.active, w.old_buf, w.new_buf)
      (ground (
        arith,
        w.memory b,
        w.memory (p + (b - video_mem)),
        w.memory (video_mem + (b - q)),
        c.screens.apart,
        c.old_screen.apart,
        c.new_screen.apart,
        h,
        λ (e : b ≡ video_mem + (p + (b - video_mem) - p)). ap s.mem e,
        λ (e : b ≡ q + (video_mem + (b - q) - video_mem)). ap s.mem e,
      ))

-- Where the terminals are two of the array, with back buffers that overlap neither each other nor
-- video memory: after a switch from one to the other and back the first is active again, and all
-- memory outside its back buffer is as it was, the screen shown included.
pub terminal_switch_back :
    (s : Terminals) (n : ℕ)
    → CanSwitch s n
    → ((terminal_switch (terminal_switch s n) s.active_term).active_term ≡ s.active_term)
      × SameOutside s.mem
          (terminal_switch (terminal_switch s n) s.active_term).mem
          (term s s.active_term).screen_buf
          screen_size
terminal_switch_back s n c =
    let a = s.active_term in
    let s' = terminal_switch s n in
    let w = terminal_switch-Switched s n c in
    let back : CanSwitch s' a = record {
      other = λ e. c.other (sym (e ∙ w.active));
      old_in_range = rw (w.active, w.size) c.new_in_range;
      new_in_range = rw w.size c.old_in_range;
      old_screen = rw (w.active, w.new_buf) (Apart-sym _ _ _ c.new_screen);
      new_screen = rw w.old_buf (Apart-sym _ _ _ c.old_screen);
      screens = rw (w.active, w.new_buf, w.old_buf) (Apart-sym _ _ _ c.screens);
    } in
    let v = terminal_switch-Switched s' a back in
    (v.active, λ b h. v.memory b ∙ back_memory s n c s' w b h)
