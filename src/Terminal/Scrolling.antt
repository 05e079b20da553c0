-- ===== src/Terminal/Scrolling.antt =====
-- terminal_scroll_up of drivers/termios.c: what each cell of the screen shows afterwards.
use linux.Base.{
  ℕ, zero, suc, ◌+◌, ◌-◌, ◌*◌, ◌%◌, ◌^◌, ◌≤◌, ◌<◌, ◌≡◌, ap, inl, inr, Bool-cases, arith, ◌&&◌, leb,
  ltb, ◌==◌, if◌then◌else◌,
}
use linux.Terminal.{
  Display, term_width, term_height, space, screen, terminal_putc, terminal_getc, scroll_row,
  scroll_rows, blank_row, terminal_scroll_up,
}
use linux.Terminal.Cells.{Fits, Fits-same, putc-Within, scroll_row-Within, scroll_rows-Within}

-- The address of a cell in range, without wrap-around.
cell-plain :
    (s x y : ℕ)
    → s + 4000 < 2 ^ 32
    → x < 80
    → y < 25
    → (s + 2 * ((y * 80 + x) % 2 ^ 32)) % 2 ^ 32 ≡ s + 2 * (y * 80 + x)
cell-plain s x y f hx hy = omega arith

getc-putc :
    (d : Display) (c x y i j : ℕ)
    → Fits d
    → x < term_width
    → y < term_height
    → i < term_width
    → j < term_height
    → terminal_getc (terminal_putc d c x y) i j
      ≡ (if i == x && j == y then c else terminal_getc d i j)
unfolding terminal_getc terminal_putc
getc-putc d c x y i j f hx hy hi hj =
    rw (cell-plain (screen d) x y f hx hy, cell-plain (screen d) i j f hi hj)
      (ground (arith, λ (e : i ≡ x). e))

-- One row, from column `x` on.
scroll_row-getc :
    (r : ℕ) (d : Display) (x y i j : ℕ)
    → Fits d
    → x + r ≤ term_width
    → y + 1 < term_height
    → i < term_width
    → j < term_height
    → terminal_getc (scroll_row r d x y) i j ≡ (
        if j == y && (leb x i && ltb i (x + r))
        then terminal_getc d i (y + 1)
        else terminal_getc d i j)
unfolding scroll_row
scroll_row-getc zero d x y i j f hr hy hi hj = ground arith
scroll_row-getc (suc r) d x y i j f hr hy hi hj =
    let c = terminal_getc d x (y + 1) in
    let f' = Fits-same (putc-Within d c x y f (omega arith)) f in
    ground (
      arith,
      scroll_row-getc r (terminal_putc d c x y) (x + 1) y i j f' (omega arith) hy hi hj,
      getc-putc d c x y i (y + 1) f (omega arith) (omega arith) hi hy,
      getc-putc d c x y i j f (omega arith) (omega arith) hi hj,
      λ (e : i ≡ x). ap (λ k. terminal_getc d k (y + 1)) e,
    )

-- The rows from `y` on: each shows what the next one showed.
scroll_rows-getc :
    (r : ℕ) (d : Display) (y i j : ℕ)
    → Fits d
    → y + r < term_height
    → i < term_width
    → j < term_height
    → terminal_getc (scroll_rows r d y) i j
      ≡ (if leb y j && ltb j (y + r) then terminal_getc d i (j + 1) else terminal_getc d i j)
unfolding scroll_rows
scroll_rows-getc zero d y i j f hy hi hj = ground arith
scroll_rows-getc (suc r) d y i j f hy hi hj =
    let d' = scroll_row term_width d 0 y in
    let f' = Fits-same (scroll_row-Within term_width d 0 y f (omega arith) (omega arith)) f in
    let rest = scroll_rows-getc r d' (y + 1) i j f' (omega arith) hi hj in
    let here = scroll_row-getc term_width d 0 y i j f (omega arith) (omega arith) hi hj in
    elim (Bool-cases (leb (y + 1) j && ltb j (y + 1 + r))) [
      | inl below ↦
          let next =
            scroll_row-getc term_width d 0 y i (j + 1) f (omega arith) (omega arith) hi
              (ground (arith, below)) in
          ground (arith, rest, next, below)
      | inr other ↦
          ground (arith, rest, here, other, λ (e : j ≡ y). ap (λ k. terminal_getc d i (k + 1)) e)
    ]

blank_row-getc :
    (r : ℕ) (d : Display) (x y i j : ℕ)
    → Fits d
    → x + r ≤ term_width
    → y < term_height
    → i < term_width
    → j < term_height
    → terminal_getc (blank_row r d x y) i j
      ≡ (if j == y && (leb x i && ltb i (x + r)) then space else terminal_getc d i j)
unfolding blank_row
blank_row-getc zero d x y i j f hr hy hi hj = ground arith
blank_row-getc (suc r) d x y i j f hr hy hi hj =
    let f' = Fits-same (putc-Within d space x y f (omega arith)) f in
    ground (
      arith,
      blank_row-getc r (terminal_putc d space x y) (x + 1) y i j f' (omega arith) hy hi hj,
      getc-putc d space x y i j f (omega arith) hy hi hj,
    )

-- For a terminal whose screen ends below 2^32, and any cell of the screen: after a scroll each row
-- shows what the next row showed, and the last row shows spaces.
pub terminal_scroll_up-getc :
    (d : Display) (i j : ℕ)
    → Fits d
    → i < term_width
    → j < term_height
    → terminal_getc (terminal_scroll_up d) i j
      ≡ (if j == term_height - 1 then space else terminal_getc d i (j + 1))
unfolding terminal_scroll_up terminal_getc
terminal_scroll_up-getc d i j f hi hj =
    let d' = scroll_rows 24 d 0 in
    let f' = Fits-same (scroll_rows-Within 24 d 0 f (omega arith)) f in
    ground (
      arith,
      blank_row-getc term_width d' 0 24 i j f' (omega arith) (omega arith) hi hj,
      scroll_rows-getc 24 d 0 i j f (omega arith) hi hj,
    )
