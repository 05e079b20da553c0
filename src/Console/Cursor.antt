-- ===== src/Console/Cursor.antt =====
-- putc of lib/lib.c: where a character goes, and the cursor after it.
use linux.Base.{
  ℕ, ◌+◌, ◌-◌, ◌*◌, ◌/◌, ◌%◌, ◌^◌, ◌<◌, ◌≡◌, refl, sym, ap, ==_false, ==_iff, ◌∙◌, arith, true,
  false, List, ◌∷◌, inl, inr, ltb, ◌==◌, Bool-cases, if◌then◌else◌,
}
use linux.Memory.{Mem, ◌⊕◌}
use linux.Console.{
  Console, num_cols, num_rows, put_cell, put_visible, is_new_line, putc, update_cursor,
  vertical_scroll, rem, quot,
}
use linux.Console.Text.{scrolled, CursorAt, vertical_scroll_lem}

pub record IsOnConsole (c : Console) : Type 0 where
  pub column : c.screen_x < num_cols
  pub row : c.screen_y < num_rows

-- The cell of the cursor.
abbrev pub position : Console → ℕ
position c = num_cols * c.screen_y + c.screen_x

-- The cell after a character, which is past the last one where the screen has to scroll.
abbrev pub next : Console → ℕ → ℕ
next c char = if is_new_line char then num_cols * (c.screen_y + 1) else position c + 1

abbrev pub typed : Console → ℕ → Mem
typed c char = if is_new_line char then c.mem else put_cell c.mem (position c) char

-- The port writes that move the hardware cursor to a cell.
abbrev pub cursor_ports : ℕ → List (ℕ × ℕ) → List (ℕ × ℕ)
cursor_ports p ports =
    (0x3d5, p / 0x100 % 0x100) ∷ (0x3d4, 0x0e) ∷ (0x3d5, p % 0x100) ∷ (0x3d4, 0x0f) ∷ ports

-- The console `c'` is `c` after a character was printed.
pub record Printed (c : Console) (char : ℕ) (c' : Console) : Type 0 where
  pub on_console : IsOnConsole c'
  pub moved :
      position c'
      ≡ (if ltb (next c char) (num_rows * num_cols) then next c char else next c char - num_cols)
  pub shown :
      (a : ℕ)
      → c'.mem a ≡ (
          if ltb (next c char) (num_rows * num_cols)
          then typed c char a
          else scrolled (typed c char) a)
  pub cursor : c'.ports ≡ cursor_ports (position c') c.ports

-- The end of `putc`: the scroll below the last row, and the hardware cursor.
settle : Console → Console
settle c =
    let c' = if c.screen_y == num_rows then vertical_scroll c else c in
    update_cursor c' c'.screen_y c'.screen_x

cursor_lem :
    (c : Console) (p : ℕ)
    → IsOnConsole c
    → p ≡ position c
    → update_cursor c c.screen_y c.screen_x ≡ record c { ports = cursor_ports p c.ports }
unfolding update_cursor
cursor_lem c p w e =
    let h : (c.screen_y * 80 + c.screen_x) % 2 ^ 16 ≡ p =
      let k = w.column in let j = w.row in omega arith in
    rw h refl

-- The character went to the cell `p`, and the cursor to `x` and `y` on the console.
stay :
    (c : Console) (char x y : ℕ) (m : Mem)
    → x < num_cols
    → y < num_rows
    → next c char ≡ num_cols * y + x
    → ((a : ℕ) → m a ≡ typed c char a)
    → Printed c char (settle (record c { screen_x = x; screen_y = y; mem = m }))
unfolding settle
stay c char x y m hx hy e t =
    let no : (y == num_rows) ≡ false = ground arith in
    let more : ltb (next c char) (num_rows * num_cols) ≡ true = rw e (ground arith) in
    let c' = record c { screen_x = x; screen_y = y; mem = m } in
    let on : IsOnConsole c' = record { column = hx; row = hy } in
    rw (no, cursor_lem c' (num_cols * y + x) on refl)
      (record {
        on_console = record { column = hx; row = hy };
        moved = rw more (sym e);
        shown = λ a. rw more (t a);
        cursor = refl;
      })

-- The screen scrolled.
scroll :
    (c : Console) (char : ℕ) (c1 s : Console)
    → next c char ≡ num_rows * num_cols
    → ((a : ℕ) → c1.mem a ≡ typed c char a)
    → c1.ports ≡ c.ports
    → CursorAt s 0 (num_rows - 1) c1.ports
    → ((a : ℕ) → s.mem a ≡ scrolled c1.mem a)
    → Printed c char (update_cursor s s.screen_y s.screen_x)
scroll c char c1 s e t same (x, y, p) m =
    let on : IsOnConsole s = record { column = omega arith; row = omega arith } in
    let at : position s ≡ num_rows * num_cols - num_cols = omega arith in
    rw (cursor_lem s (position s) on refl) (record {
      on_console = record { column = omega arith; row = omega arith };
      moved = rw (e, at) refl;
      shown = λ a. rw e (ground (arith, m a, t a, t (a + 2 * num_cols)));
      cursor = rw (p, same) refl;
    })

settle_scroll :
    (c : Console)
    → c.screen_y ≡ num_rows
    → settle c
      ≡ update_cursor (vertical_scroll c) (vertical_scroll c).screen_y (vertical_scroll c).screen_x
unfolding settle
settle_scroll c e = rw e refl

settle_same :
    (c : Console) → c.screen_y < num_rows → settle c ≡ update_cursor c c.screen_y c.screen_x
unfolding settle
settle_same c h = rw (==_false c.screen_y num_rows (omega arith)) refl

putc-settle :
    (c c1 : Console) (char : ℕ)
    → (if is_new_line char
        then record c { screen_x = 0; screen_y = c.screen_y ⊕ 1 }
        else put_visible c char)
      ≡ c1
    → putc c char ≡ settle c1
unfolding putc settle
putc-settle c c1 char e = ap settle e

new_line_case :
    (c : Console) (char : ℕ)
    → IsOnConsole c
    → is_new_line char ≡ true
    → Printed c char (putc c char)
new_line_case c char w e =
    let k = w.row in
    let below : c.screen_y ⊕ 1 ≡ c.screen_y + 1 = omega arith in
    let n : next c char ≡ num_cols * (c.screen_y + 1) = rw e refl in
    let t : (a : ℕ) → c.mem a ≡ typed c char a = λ a. rw e refl in
    let c1 = record c { screen_x = 0; screen_y = c.screen_y + 1 } in
    let first : putc c char ≡ settle c1 = putc-settle c c1 char (rw (e, below) refl) in
    elim (Bool-cases (c.screen_y == num_rows - 1)) [
      | inl last ↦
          let is : c.screen_y + 1 ≡ num_rows = grind (arith, last) in
          let (at, m) = vertical_scroll_lem c1 in
          rw (first, settle_scroll c1 is)
            (scroll c char c1 (vertical_scroll c1) (n ∙ omega arith) t refl at m)
      | inr before ↦ rw first (
          stay c char 0 (c.screen_y + 1) c.mem (omega arith) (grind (arith, before))
            (n ∙ omega arith) t)
    ]

-- `put_visible` before the last column, in it, and in the last cell.
put_inside :
    (c : Console) (char : ℕ)
    → IsOnConsole c
    → c.screen_x + 1 < num_cols
    → put_visible c char ≡ record c {
      screen_x = c.screen_x + 1;
      mem = put_cell c.mem ((num_cols * c.screen_y + c.screen_x) % 2 ^ 32) char;
    }
unfolding put_visible
put_inside c char w h =
    let k = w.row in
    let right : c.screen_x ⊕ 1 ≡ c.screen_x + 1 = omega arith in
    let inside : (c.screen_x + 1 == num_cols) ≡ false = ground arith in
    let y : (c.screen_y == num_rows) ≡ false = ground arith in
    let x : rem (c.screen_x + 1) num_cols ≡ c.screen_x + 1 = ground arith in
    let z : c.screen_y ⊕ quot (c.screen_x + 1) num_cols ≡ c.screen_y = ground arith in
    rw (right, inside, y, x, z) refl

put_at_edge :
    (c : Console) (char : ℕ)
    → c.screen_x + 1 ≡ num_cols
    → c.screen_y + 1 < num_rows
    → put_visible c char ≡ record c {
      screen_x = 0;
      screen_y = c.screen_y + 1;
      mem = put_cell c.mem ((num_cols * c.screen_y + c.screen_x) % 2 ^ 32) char;
    }
unfolding put_visible
put_at_edge c char e h =
    let right : c.screen_x ⊕ 1 ≡ num_cols = omega arith in
    let down : c.screen_y ⊕ 1 ≡ c.screen_y + 1 = omega arith in
    let y : (c.screen_y + 1 == num_rows) ≡ false = ground arith in
    let z : c.screen_y + 1 ⊕ 0 ≡ c.screen_y + 1 = omega arith in rw (right, down, y, z) refl

put_in_corner :
    (c : Console) (char : ℕ)
    → c.screen_x + 1 ≡ num_cols
    → c.screen_y + 1 ≡ num_rows
    → put_visible c char
      ≡ vertical_scroll (record c {
        screen_x = 0;
        screen_y = num_rows;
        mem = put_cell c.mem ((num_cols * c.screen_y + c.screen_x) % 2 ^ 32) char;
      })
unfolding put_visible
put_in_corner c char e h =
    let right : c.screen_x ⊕ 1 ≡ num_cols = omega arith in
    let down : c.screen_y ⊕ 1 ≡ num_rows = omega arith in rw (right, down) refl

visible_case :
    (c : Console) (char : ℕ)
    → IsOnConsole c
    → is_new_line char ≡ false
    → Printed c char (putc c char)
visible_case c char w e =
    let k = w.row in
    let j = w.column in
    let n : next c char ≡ position c + 1 = rw e refl in
    let p : (num_cols * c.screen_y + c.screen_x) % 2 ^ 32 ≡ position c = omega arith in
    let m = put_cell c.mem (position c) char in
    let t : (a : ℕ) → m a ≡ typed c char a = λ a. rw e refl in
    elim (Bool-cases (c.screen_x + 1 == num_cols)) [
      | inr inside ↦
          let c1 = record c { screen_x = c.screen_x + 1; mem = m } in
          let r : c.screen_x + 1 < num_cols = grind (arith, inside) in
          rw (putc-settle c c1 char (rw e (put_inside c char w r ∙ rw p refl)))
            (stay c char (c.screen_x + 1) c.screen_y m r k (n ∙ omega arith) t)
      | inl edge ↦
          let right : c.screen_x + 1 ≡ num_cols = (==_iff (c.screen_x + 1) num_cols).0 edge in
          elim (Bool-cases (c.screen_y + 1 == num_rows)) [
            | inr above ↦
                let c1 = record c { screen_x = 0; screen_y = c.screen_y + 1; mem = m } in
                let r : c.screen_y + 1 < num_rows = grind (arith, above) in
                rw (putc-settle c c1 char (rw e (put_at_edge c char right r ∙ rw p refl)))
                  (stay c char 0 (c.screen_y + 1) m (omega arith) r (n ∙ omega arith) t)
            | inl corner ↦
                let down : c.screen_y + 1 ≡ num_rows =
                  (==_iff (c.screen_y + 1) num_rows).0 corner in
                let c1 = record c { screen_x = 0; screen_y = num_rows; mem = m } in
                let (at, moved) = vertical_scroll_lem c1 in
                rw
                  (
                    putc-settle c (vertical_scroll c1) char
                        (rw e (put_in_corner c char right down ∙ rw p refl)),
                    settle_same (vertical_scroll c1) (let (x, y, z) = at in omega arith),
                  )
                  (scroll c char c1 (vertical_scroll c1) (n ∙ omega arith) t refl at moved)
          ]
    ]

-- For a cursor on the screen and any character: `putc` shows the character in the cell of the
-- cursor, unless it is a newline or a carriage return, and moves the cursor to the next cell, or the
-- next row for these two; where that is past the last cell, all rows move up by one. The cursor
-- stays on the screen, the hardware cursor follows it, and no other byte changes.
pub putc-Printed : (c : Console) (char : ℕ) → IsOnConsole c → Printed c char (putc c char)
putc-Printed c char w = elim (Bool-cases (is_new_line char)) [
  | inl e ↦ new_line_case c char w e
  | inr e ↦ visible_case c char w e
]
