-- ===== src/Keyboard/Letters.antt =====
-- The table of drivers/keyboard.c: shift and caps lock on letters.
use linux.Base.{
  ℕ, ◌+◌, ◌-◌, ◌*◌, ◌≤◌, ◌<◌, ◌≡◌, inl, inr, refl, arith, Bool, true, false, not, ◌&&◌, ◌||◌, leb,
  ◌==◌, ==_iff, Bool-cases, if◌then◌else◌, get_or, all_below, all_below_lem, leb-true,
}
use linux.CString.{slt}
use linux.Keyboard.{font_of}
use linux.Keyboard.Font.{font_data}

-- The character of a scancode without modifiers.
abbrev pub plain : ℕ → ℕ
plain key = get_or font_data key 0

abbrev is_letter : ℕ → Bool
is_letter c = leb b'a' c && leb c b'z'

-- Exactly one of the two.
abbrev pub differ : Bool → Bool → Bool
differ true b = not b
differ false b = b

-- Upper case with one of the two modifiers, and lower case with both or none.
abbrev pub cased : ℕ → Bool → ℕ → ℕ
cased caps shifted c = if differ (caps == 1) shifted then c - 32 else c

letter : (c : ℕ) → b'a' ≤ c → c ≤ b'z' → is_letter c ≡ true
letter c lo hi = rw (leb-true _ _ lo, leb-true _ _ hi) refl

checked : (b : Bool) (x y : ℕ) → b ≡ true → (not b || x == y) ≡ true → x ≡ y
checked true x y e h = (==_iff x y).0 h
checked false x y e h = absurd (ground (arith, e))

row_check : ℕ → Bool → ℕ → ℕ → Bool
row_check beyond shifted caps key =
    not (is_letter (plain key))
    || get_or font_data (128 * (2 * caps + (if shifted then 1 else 0)) + key) beyond
      == cased caps shifted (plain key)

table_check :
    (beyond : ℕ) (shifted : Bool)
    → (all_below 128 (row_check beyond shifted 0) ≡ true)
      × (all_below 128 (row_check beyond shifted 1) ≡ true)
unfolding all_below row_check
table_check beyond true = (refl, refl)
table_check beyond false = (refl, refl)

-- For a scancode below 128 whose character without modifiers is a lower-case letter, and caps lock
-- 0 or 1: with caps lock or shift the key gives the upper-case letter, and with both or neither
-- the lower-case one.
pub font_of-cased :
    (beyond caps shift key : ℕ)
    → caps ≤ 1
    → key < 128
    → b'a' ≤ plain key
    → plain key ≤ b'z'
    → font_of beyond caps shift key ≡ cased caps (slt 0 shift) (plain key)
unfolding row_check
font_of-cased beyond caps shift key hc hk lo hi = elim (Bool-cases (caps == 0)) [
  | inl off ↦ rw ((==_iff caps 0).0 off) (
      passes 0 (
        all_below_lem 128 (row_check beyond (slt 0 shift) 0) key
          (table_check beyond (slt 0 shift)).0 hk))
  | inr on ↦
      let e : caps ≡ 1 = grind arith in
      rw e (
        passes 1 (
          all_below_lem 128 (row_check beyond (slt 0 shift) 1) key
            (table_check beyond (slt 0 shift)).1 hk))
]
  where
    passes :
        (n : ℕ)
        → row_check beyond (slt 0 shift) n key ≡ true
        → font_of beyond n shift key ≡ cased n (slt 0 shift) (plain key)
    passes n h = checked (is_letter (plain key)) _ _ (letter (plain key) lo hi) h
