-- ===== src/User/Pingpong/Lines.antt =====
-- ece391pingpong.c of syscalls/: the line that each round shows.
use linux.Base.{
  Option, none, ℕ, zero, suc, ◌+◌, ◌-◌, ◌^◌, ◌≤◌, ◌<◌, ◌≡◌, ◌≢◌, refl, ap, ◌∙◌, arith, some, inl,
  inr, ◌==◌, ==_iff, Bool-cases, if◌then◌else◌,
}
use native.Mathlib.Decide.{dec_lt}
use linux.Memory.{Mem, ◌⊕◌, write, within, SameOutside}
use linux.Memory.Fill.{Filled, Filled-zero, Filled-trans}
use linux.CString.{IsString, strlen}
use linux.CString.Length.{strlen_lem}
use linux.User.{Program, System, ◌>>=◌, ◌>>◌, ece391_fdputs, ece391_strlen, pure, result}
use linux.User.Pingpong.{buf_max, start_loop, loop_max, blank_from, walls, draw, show}

blank_from-Filled :
    (r : ℕ) (m : Mem) (buf i : ℕ)
    → buf + i + r < 2 ^ 32
    → Filled m (blank_from r m buf i) (buf + i) b' ' r
unfolding blank_from
blank_from-Filled zero m buf i h = Filled-zero m (buf + i) b' '
blank_from-Filled (suc r) m buf i h =
    Filled-trans m (write m (buf ⊕ i) b' ') _ (buf + i) (buf + (i + 1)) b' ' 1 r (suc r)
      (omega arith) (omega arith) (λ a. ground arith)
      (blank_from-Filled r _ buf (i + 1) (omega arith))

-- The ends of the line: two walls, a newline and the terminator.
pub record HasWalls (m : Mem) (buf : ℕ) : Type 0 where
  pub margin : m (buf ⊕ 0) ≡ b' '
  pub left_wall : m (buf ⊕ 1) ≡ b'|'
  pub right_wall : m (buf ⊕ 78) ≡ b'|'
  pub new_line : m (buf ⊕ 79) ≡ b'\n'
  pub terminator : m (buf ⊕ 80) ≡ 0

-- Between the walls stands the letter, at `j`, and nothing else.
pub record Shows (m : Mem) (buf j letter : ℕ) : Type 0 where
  pub has_walls : HasWalls m buf
  pub court : (k : ℕ) → 2 ≤ k → k < 78 → m (buf ⊕ k) ≡ (if k == j then letter else b' ')

pub walls_lem :
    (m : Mem) (buf : ℕ)
    → buf + 81 < 2 ^ 32
    → HasWalls (walls m buf) buf × SameOutside m (walls m buf) buf 81
unfolding walls
walls_lem m buf h =
    let blank = blank_from-Filled buf_max m buf 0 (omega arith) in
    (
      record {
        margin = ground (arith, blank (buf ⊕ 0));
        left_wall = ground arith;
        right_wall = ground arith;
        new_line = ground arith;
        terminator = ground arith;
      },
      λ a out. ground (arith, blank a),
    )

-- The bytes that `draw` changes.
draw_at :
    (m : Mem) (buf j letter k : ℕ)
    → buf + 81 < 2 ^ 32
    → 2 ≤ j
    → j < 78
    → k ≤ 80
    → draw m buf j letter (buf ⊕ k)
      ≡ (if k == j then letter else (if within 2 76 k then b' ' else m (buf ⊕ k)))
unfolding draw
draw_at m buf j letter k h lo hi top =
    let blank = blank_from-Filled (loop_max - start_loop) m buf start_loop (omega arith) in
    ground (arith, blank (buf ⊕ k))

draw_lem :
    (m : Mem) (buf j letter : ℕ)
    → buf + 81 < 2 ^ 32
    → 2 ≤ j
    → j < 78
    → HasWalls m buf
    → Shows (draw m buf j letter) buf j letter
draw_lem m buf j letter h lo hi w = record {
  has_walls = record {
    margin = ground (arith, draw_at m buf j letter 0 h lo hi (omega arith), w.margin);
    left_wall = ground (arith, draw_at m buf j letter 1 h lo hi (omega arith), w.left_wall);
    right_wall = ground (arith, draw_at m buf j letter 78 h lo hi (omega arith), w.right_wall);
    new_line = ground (arith, draw_at m buf j letter 79 h lo hi (omega arith), w.new_line);
    terminator = ground (arith, draw_at m buf j letter 80 h lo hi (omega arith), w.terminator);
  };
  court = λ k from below. ground (arith, draw_at m buf j letter k h lo hi (omega arith));
}

Shows-char :
    (m : Mem) (buf j letter k : ℕ) → Shows m buf j letter → letter ≢ 0 → k < 80 → m (buf ⊕ k) ≢ 0
Shows-char m buf j letter zero w c h = rw (w.has_walls.margin) (λ z. absurd (omega arith))
Shows-char m buf j letter (suc zero) w c h = rw (w.has_walls.left_wall) (λ z. absurd (omega arith))
Shows-char m buf j letter (suc (suc k)) w c h = elim (dec_lt k 76) [
  | yes inner ↦ let e = w.court (suc (suc k)) (omega arith) (omega arith) in ground (arith, e)
  | no outer ↦ elim (Bool-cases (k == 76)) [
    | inl wall ↦
        let e : k ≡ 76 = (==_iff k 76).0 wall in
        rw (e, w.has_walls.right_wall) (λ z. absurd (omega arith))
    | inr line ↦
        let e : k ≡ 77 = grind arith in rw (e, w.has_walls.new_line) (λ z. absurd (omega arith))
  ]
]

Shows-IsString :
    (m : Mem) (buf j letter : ℕ) → Shows m buf j letter → letter ≢ 0 → IsString m buf 80
Shows-IsString m buf j letter w c = record {
  end = w.has_walls.terminator;
  before = λ k h. Shows-char m buf j letter k w c h;
}

-- The result of a call is dropped before the next.
put_drops :
    {S A B : Type 0} (q : Program S B) (o : Option (S × A))
    → elim (elim o as (λ x. Option (S × Unit {0})) [ none ↦ none | some (s1, r) ↦ some (s1, tt) ]) [
      | none ↦ none
      | some (s2, done) ↦ q s2
    ]
      ≡ elim o [ none ↦ none | some (s1, r) ↦ q s1 ]
put_drops q none = refl
put_drops q (some (s1, r)) = refl

-- For a system whose memory is what was last stored, with fuel for a line, and a buffer of 81 bytes
-- with its walls: a round with a letter between the walls shows it alone between them, keeps the
-- walls, and writes the line of 80 characters to the descriptor 1 before it waits for the clock.
pub show_line :
    {S : Type 0} (sys : System S) (s : S) (buf garbage rtc_fd letter j : ℕ)
    → ((t : S) (m : Mem) → sys.memory (sys.set_memory t m) ≡ m)
    → 80 < sys.fuel
    → buf + 81 < 2 ^ 32
    → 2 ≤ j
    → j < 78
    → letter ≢ 0
    → HasWalls (sys.memory s) buf
    → let m' = draw (sys.memory s) buf j letter in
      let s' = sys.set_memory s m' in
      Shows (sys.memory s') buf j letter
      × (show sys buf garbage rtc_fd letter j s
          ≡ (sys.ece391_write 1 buf 80 >> sys.ece391_read rtc_fd garbage 4) s')
unfolding show ece391_fdputs ece391_strlen strlen
show_line {S} sys s buf garbage rtc_fd letter j stored enough h lo hi some_letter w =
    let m' = draw (sys.memory s) buf j letter in
    let s' = sys.set_memory s m' in
    let e = stored s m' in
    let shown = draw_lem (sys.memory s) buf j letter h lo hi w in
    let len =
      strlen_lem sys.fuel m' buf 80 (Shows-IsString m' buf j letter shown some_letter) (omega arith)
        enough in
    (
      rw e shown,
      ap (λ (o : Option ℕ). ((result sys o >>= put) >> wait) s')
            (ap (λ m. strlen sys.fuel m buf) e ∙ len)
          ∙ put_drops (λ t. wait t) (sys.ece391_write 1 buf 80 s'),
    )
  where
    wait : Program S ℕ
    wait = sys.ece391_read rtc_fd garbage 4

    put : ℕ → Program S (Unit {0})
    put len = sys.ece391_write 1 buf len >> pure tt
