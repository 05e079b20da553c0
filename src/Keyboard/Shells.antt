-- ===== src/Keyboard/Shells.antt =====
-- keyboard_handler of drivers/keyboard.c: the shells that it starts.
use linux.Base.{
  ℕ, suc, ◌≤◌, ◌<◌, ◌≡◌, ◌≢◌, refl, ◌∙◌, arith, ◌||◌, List, [], ◌∷◌, ◌==◌, if_intro, if◌then◌else◌,
  get_or, length, length-set, get_or-set,
}
use linux.Line.{Terminals}
use linux.Keyboard.{
  Keyboard, function_key, special, alt_key, pressed, keyboard_handler, key_caps_lock, key_f1,
}

-- How often a shell was started for terminal `n`.
pub starts : ℕ → List ℕ → ℕ
starts n [] = 0
starts n (k ∷ ks) = if k == n then suc (starts n ks) else starts n ks

-- A sequence of interrupts, by the scancodes read.
unfoldable pub run : ℕ → Keyboard → List ℕ → Keyboard
run beyond s [] = s
run beyond s (k ∷ ks) = run beyond (keyboard_handler beyond s k) ks

pub record IsOnce (s : Keyboard) : Type 0 where
  pub size : length s.shell_active ≡ 4
  pub once : (n : ℕ) → starts n s.shells ≤ 1
  pub flagged : (n : ℕ) → get_or s.shell_active n 0 ≢ 1 → starts n s.shells ≡ 0

IsOnce-same :
    (s s' : Keyboard)
    → s'.shell_active ≡ s.shell_active
    → s'.shells ≡ s.shells
    → IsOnce s
    → IsOnce s'
IsOnce-same s s' a b w = record {
  size = rw a w.size;
  once = λ n. rw b (w.once n);
  flagged = λ n h. rw b (w.flagged n (rw (← a) h));
}

function_key-IsOnce : (s : Keyboard) (n : ℕ) → n < 4 → IsOnce s → IsOnce (function_key s n)
unfolding starts
function_key-IsOnce s n h w =
    if_intro IsOnce (get_or s.shell_active n 0 == 1) _ _
      (λ started. record { size = w.size; once = w.once; flagged = w.flagged })
      (λ fresh. record {
        size = length-set s.shell_active n 1 ∙ w.size;
        once = λ k. ground (arith, w.once k, w.flagged k, fresh, λ (e : n ≡ k). rw e at fresh);
        flagged = λ k other.
            ground (arith, w.flagged k, get_or-set s.shell_active n k 1 0, w.size, other);
      })

alt_key-IsOnce : (s : Keyboard) (key : ℕ) → IsOnce s → IsOnce (alt_key s key)
alt_key-IsOnce s key w =
    if_intro IsOnce (key == key_f1) _ _ (λ a. IsOnce-same s _ refl refl w)
      (λ a.
        if_intro IsOnce (key == 0x3c) _ _ (λ b. function_key-IsOnce s 1 (omega arith) w)
          (λ b.
            if_intro IsOnce (key == 0x3d) _ _ (λ c. function_key-IsOnce s 2 (omega arith) w)
              (λ c.
                if_intro IsOnce (key == 0x3e) _ _ (λ d. function_key-IsOnce s 3 (omega arith) w)
                  (λ d. w))))

special-IsOnce : (s : Keyboard) (key : ℕ) → IsOnce s → IsOnce (special s key)
special-IsOnce s key w =
    if_intro IsOnce (key == 0x1d) _ _ (λ a. IsOnce-same s _ refl refl w)
      (λ a.
        if_intro IsOnce (key == 0x9d) _ _ (λ b. IsOnce-same s _ refl refl w)
          (λ b.
            if_intro IsOnce (key == 0x38) _ _ (λ c. IsOnce-same s _ refl refl w)
              (λ c.
                if_intro IsOnce (key == 0xb8) _ _ (λ d. IsOnce-same s _ refl refl w)
                  (λ d. if_intro IsOnce (s.alt == 0) _ _ (λ e. w) (λ e. alt_key-IsOnce s key w)))))

handler-IsOnce :
    (beyond : ℕ) (s : Keyboard) (key : ℕ) → IsOnce s → IsOnce (keyboard_handler beyond s key)
unfolding keyboard_handler
handler-IsOnce beyond s key w = IsOnce-same (pressed beyond s key) _ refl refl (
    if_intro IsOnce (key == key_caps_lock) _ _ (λ a. IsOnce-same s _ refl refl w)
      (λ a.
        if_intro IsOnce (key == 0x2a || key == 0x36) _ _ (λ b. IsOnce-same s _ refl refl w)
          (λ b.
            if_intro IsOnce (key == 0xaa || key == 0xb6) _ _ (λ c. IsOnce-same s _ refl refl w)
              (λ c. IsOnce-same (special s key) _ refl refl (special-IsOnce s key w)))))

run_keeps : (beyond : ℕ) (ks : List ℕ) (s : Keyboard) → IsOnce s → IsOnce (run beyond s ks)
unfolding run
run_keeps beyond [] s w = w
run_keeps beyond (k ∷ ks) s w =
    run_keeps beyond ks (keyboard_handler beyond s k) (handler-IsOnce beyond s k w)

-- The keyboard as `keyboard_init` leaves it: only terminal 0 has a shell.
abbrev pub booted : Terminals → Keyboard
booted t = record {
  caps_lock = 0;
  shift = 0;
  control = 0;
  alt = 0;
  shell_active = 1 ∷ 0 ∷ 0 ∷ 0 ∷ [];
  terminals = t;
  shells = [];
}

-- From `keyboard_init` on, whatever scancodes arrive: the handler has started at most one shell for
-- any terminal, and none for a terminal that is not marked as having one.
pub run-IsOnce : (beyond : ℕ) (t : Terminals) (ks : List ℕ) → IsOnce (run beyond (booted t) ks)
unfolding starts
run-IsOnce beyond t ks =
    run_keeps beyond ks (booted t)
      (record { size = refl; once = λ n. omega arith; flagged = λ n h. refl })
