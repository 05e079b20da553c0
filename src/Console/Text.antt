-- ===== src/Console/Text.antt =====
-- clear and vertical_scroll of lib/lib.c: what they leave in video memory.
use linux.Base.{
  ℕ, zero, suc, ◌+◌, ◌-◌, ◌*◌, ◌%◌, ◌≤◌, ◌≡◌, refl, ◌∙◌, arith, List, ◌==◌, if◌then◌else◌,
}
use linux.Memory.{Mem, within}
use linux.Console.{
  Console, video_mem, num_cols, num_rows, attrib, put_cell, copy_cell, clear_from, clear,
  scroll_from, blank_from, vertical_scroll,
}

-- The bytes of video memory.
abbrev pub video_size : ℕ
video_size = 2 * (num_rows * num_cols)

-- A blank cell: a space, and its attribute after it.
abbrev pub blank : ℕ → ℕ
blank a = if a % 2 == 0 then b' ' else attrib

-- The memory `m` with `n` blank cells from the cell `i` on.
abbrev pub blanked : Mem → ℕ → ℕ → Mem
blanked m i n a = if within (video_mem + 2 * i) (2 * n) a then blank a else m a

-- The memory `m` with all rows moved up by one and the last one blank.
abbrev pub scrolled : Mem → Mem
scrolled m a =
    if within video_mem (video_size - 2 * num_cols) a
    then m (a + 2 * num_cols)
    else blanked m (num_rows * num_cols - num_cols) num_cols a

clear_from_lem :
    (r : ℕ) (c : Console) (i a : ℕ)
    → i + r ≤ num_rows * num_cols
    → (clear_from r c i).mem a ≡ blanked c.mem i r a
unfolding clear_from
clear_from_lem zero c i a h = ground arith
clear_from_lem (suc r) c i a h =
    let c' = record c { screen_x = 0; screen_y = 0; mem = put_cell c.mem i b' ' } in
    ground (arith, clear_from_lem r c' (i + 1) a (omega arith))

blank_from_lem :
    (r : ℕ) (c : Console) (i a : ℕ)
    → i + r ≤ num_rows * num_cols
    → (blank_from r c i).mem a ≡ blanked c.mem i r a
unfolding blank_from
blank_from_lem zero c i a h = ground arith
blank_from_lem (suc r) c i a h =
    let c' = record c { mem = put_cell c.mem i b' ' } in
    ground (arith, blank_from_lem r c' (i + 1) a (omega arith))

scroll_from_lem :
    (r : ℕ) (c : Console) (i a : ℕ)
    → i + r ≤ num_rows * num_cols - num_cols
    → (scroll_from r c i).mem a
      ≡ (if within (video_mem + 2 * i) (2 * r) a then c.mem (a + 2 * num_cols) else c.mem a)
unfolding scroll_from
scroll_from_lem zero c i a h = ground arith
scroll_from_lem (suc r) c i a h =
    let c' = record c { screen_x = 0; screen_y = num_rows - 1; mem = copy_cell c.mem i } in
    ground (arith, scroll_from_lem r c' (i + 1) a (omega arith))

-- The cursor at a place, with the port writes made so far.
abbrev pub CursorAt : Console → ℕ → ℕ → List (ℕ × ℕ) → Type 0
CursorAt c x y ports = (c.screen_x ≡ x) × (c.screen_y ≡ y) × (c.ports ≡ ports)

blank_from-CursorAt :
    (r : ℕ) (c : Console) (i : ℕ) → CursorAt (blank_from r c i) c.screen_x c.screen_y c.ports
unfolding blank_from
blank_from-CursorAt zero c i = (refl, refl, refl)
blank_from-CursorAt (suc r) c i =
    blank_from-CursorAt r (record c { mem = put_cell c.mem i b' ' }) (i + 1)

scroll_from-CursorAt :
    (r : ℕ) (c : Console) (i : ℕ) → CursorAt (scroll_from (suc r) c i) 0 (num_rows - 1) c.ports
unfolding scroll_from
scroll_from-CursorAt zero c i = (refl, refl, refl)
scroll_from-CursorAt (suc r) c i =
    scroll_from-CursorAt r
      (record c { screen_x = 0; screen_y = num_rows - 1; mem = copy_cell c.mem i }) (i + 1)

clear_from-CursorAt : (r : ℕ) (c : Console) (i : ℕ) → CursorAt (clear_from (suc r) c i) 0 0 c.ports
unfolding clear_from
clear_from-CursorAt zero c i = (refl, refl, refl)
clear_from-CursorAt (suc r) c i =
    clear_from-CursorAt r (record c { screen_x = 0; screen_y = 0; mem = put_cell c.mem i b' ' })
      (i + 1)

-- Both loops of `vertical_scroll`, with `n` rounds of the first and `k` of the second.
both_loops :
    (n k : ℕ) (c : Console)
    → suc n ≡ num_rows * num_cols - num_cols
    → k ≡ num_cols
    → CursorAt (blank_from k (scroll_from (suc n) c 0) (suc n)) 0 (num_rows - 1) c.ports
      × ((a : ℕ) → (blank_from k (scroll_from (suc n) c 0) (suc n)).mem a ≡ scrolled c.mem a)
both_loops n k c hn hk =
    let (bx, by, bp) = blank_from-CursorAt k (scroll_from (suc n) c 0) (suc n) in
    let (sx, sy, sp) = scroll_from-CursorAt n c 0 in
    (
      (bx ∙ sx, by ∙ sy, bp ∙ sp),
      λ a. ground (
        arith,
        blank_from_lem k (scroll_from (suc n) c 0) (suc n) a (omega arith),
        scroll_from_lem (suc n) c 0 a (omega arith),
      ),
    )

-- `vertical_scroll` puts the cursor at the start of the last row, moves every row up by one, blanks
-- the last one, changes no byte outside video memory and makes no port write.
pub vertical_scroll_lem :
    (c : Console)
    → CursorAt (vertical_scroll c) 0 (num_rows - 1) c.ports
      × ((a : ℕ) → (vertical_scroll c).mem a ≡ scrolled c.mem a)
unfolding vertical_scroll
vertical_scroll_lem c = both_loops 1919 80 c refl refl

-- `clear` puts the cursor at the start of the first row and blanks all of video memory; it changes no
-- other byte and makes no port write.
pub clear_lem :
    (c : Console)
    → CursorAt (clear c) 0 0 c.ports
      × ((a : ℕ) → (clear c).mem a ≡ blanked c.mem 0 (num_rows * num_cols) a)
unfolding clear
clear_lem c = (clear_from-CursorAt 1999 c 0, λ a. clear_from_lem 2000 c 0 a (omega arith))
