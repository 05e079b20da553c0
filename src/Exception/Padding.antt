-- ===== src/Exception/Padding.antt =====
-- error_screan of kernel/exception.c: the strings of spaces around the message.
use linux.Base.{
  all_below, all_below_lem, ℕ, zero, suc, ◌+◌, ◌-◌, ◌/◌, ◌^◌, ◌≤◌, ◌<◌, ◌≡◌, ◌&&◌, refl, arith, ap,
  ◌∙◌, ◌⊎◌, ◌>>=◌, Bool, true, false, some, inl, inr, leb, ◌==◌, if◌then◌else◌, Option,
}
use native.Mathlib.Decide.{dec_lt}
use linux.Memory.{Mem, ◌⊕◌, write, within, Outside}
use linux.Memory.Fill.{Filled, Filled-zero, Filled-trans}
use linux.CString.{IsString, slt}
use linux.CString.Length.{strlen_lem}
use linux.Exception.{
  Crash, max_str_length, spaces_from, put_spaces, right_spaces, left_spaces, cut_message, centre,
}

-- The widths are the two halves of what is left.
abbrev halves : ℕ → Bool
halves n = (right_spaces n == (48 - n) / 2) && (left_spaces n == (49 - n) / 2)

halves_check : all_below 49 halves ≡ true
unfolding all_below right_spaces left_spaces
halves_check = refl

widths_lem : (n : ℕ) → n ≤ 48 → (right_spaces n ≡ (48 - n) / 2) × (left_spaces n ≡ (49 - n) / 2)
widths_lem n h =
    let t = all_below_lem 49 halves n halves_check (omega arith) in (grind arith, grind arith)

spaces_from-Filled :
    (n : ℕ) (m : Mem) (str i : ℕ)
    → str + i + n < 2 ^ 32
    → Filled m (spaces_from n m str i) (str + i) b' ' n
unfolding spaces_from
spaces_from-Filled zero m str i h = Filled-zero m (str + i) b' '
spaces_from-Filled (suc n) m str i h =
    Filled-trans m (write m (str ⊕ i) b' ') _ (str + i) (str + (i + 1)) b' ' 1 n (suc n)
      (omega arith) (omega arith) (λ a. ground arith)
      (spaces_from-Filled n _ str (i + 1) (omega arith))

-- `m'` is `m` with `n` spaces and a terminator at `str`.
abbrev pub Spaced : Mem → Mem → ℕ → ℕ → Type 0
Spaced m m' str n =
    (a : ℕ) → m' a ≡ (if a == str + n then 0 else (if within str n a then b' ' else m a))

put_spaces-Spaced :
    (m : Mem) (str n : ℕ) → n ≤ 24 → str + 48 < 2 ^ 32 → Spaced m (put_spaces m str n) str n
unfolding put_spaces
put_spaces-Spaced m str n small h a =
    let rounds : (if slt 0 n then n else 0) ≡ n = ground arith in
    rw rounds (ground (arith, spaces_from-Filled n m str 0 (omega arith) a))

-- The length of the message after the cut.
abbrev pub cut : ℕ → ℕ
cut n = if leb n 48 then n else 47

-- The message, of `n` characters, and the two local arrays lie apart, without wrapping around.
pub record AreApart (r : Crash) (message n : ℕ) : Type 0 where
  pub message_fits : message + n + 1 < 2 ^ 32
  pub right_fits : r.rightstr + 48 < 2 ^ 32
  pub left_fits : r.leftstr + 48 < 2 ^ 32
  pub right_message : (message + n < r.rightstr) ⊎ (r.rightstr + 48 ≤ message)
  pub left_message : (message + n < r.leftstr) ⊎ (r.leftstr + 48 ≤ message)
  pub right_left : (r.rightstr + 48 ≤ r.leftstr) ⊎ (r.leftstr + 48 ≤ r.rightstr)

-- The message, cut to `n` characters, between two strings of spaces: each has half of the 48 - `n`
-- columns that are left, and the left one the odd column.
pub record Centred (r : Crash) (m m' : Mem) (message n : ℕ) : Type 0 where
  pub text : IsString m' message n
  pub same : (k : ℕ) → k < n → m' (message ⊕ k) ≡ m (message ⊕ k)
  pub right : (k : ℕ) → k < (48 - n) / 2 → m' (r.rightstr ⊕ k) ≡ b' '
  pub right_end : m' (r.rightstr ⊕ ((48 - n) / 2)) ≡ 0
  pub left : (k : ℕ) → k < (49 - n) / 2 → m' (r.leftstr ⊕ k) ≡ b' '
  pub left_end : m' (r.leftstr ⊕ ((49 - n) / 2)) ≡ 0
  pub outside :
      (a : ℕ)
      → Outside message (n + 1) a
      → Outside r.rightstr 48 a
      → Outside r.leftstr 48 a
      → m' a ≡ m a

-- The message after the cut.
pub record Cut (m m' : Mem) (message n : ℕ) : Type 0 where
  pub cut_text : IsString m' message n
  pub cut_same : (k : ℕ) → k < n → m' (message ⊕ k) ≡ m (message ⊕ k)
  pub cut_outside : (a : ℕ) → Outside message (n + 1) a → m' a ≡ m a

shorten :
    (m : Mem) (message n : ℕ)
    → IsString m message n
    → 48 < n
    → message + n + 1 < 2 ^ 32
    → Cut m (write m (message ⊕ 47) 0) message 47
shorten m message n w long h = record {
  cut_text = record {
    end = ground arith;
    before = λ k below.
        let e : write m (message ⊕ 47) 0 (message ⊕ k) ≡ m (message ⊕ k) = ground arith in
        rw e (w.before k (omega arith));
  };
  cut_same = λ k below. ground arith;
  cut_outside = λ a out. ground arith;
}

cut_lem :
    (f : ℕ) (m : Mem) (message n : ℕ)
    → IsString m message n
    → message + n + 1 < 2 ^ 32
    → n < 2 ^ 31
    → n < f
    → (m' : Mem) × (cut_message f m message n ≡ some (m', cut n)) × Cut m m' message (cut n)
unfolding cut_message
cut_lem f m message n w h small enough = elim (dec_lt 48 n) [
  | yes long ↦
      let over : slt max_str_length n ≡ true = ground arith in
      let n' : cut n ≡ 47 = ground arith in
      let c = shorten m message n w long h in
      let len = strlen_lem f _ message 47 c.cut_text (omega arith) (omega arith) in
      (
        write m (message ⊕ 47) 0,
        rw (over, n') (ap (λ o. o >>= (λ l. some (write m (message ⊕ 47) 0, l))) len),
        rw n' c,
      )
  | no short ↦
      let under : slt max_str_length n ≡ false = ground arith in
      let n' : cut n ≡ n = ground arith in
      (
        m,
        rw (under, n') refl,
        rw n' (record { cut_text = w; cut_same = λ k below. refl; cut_outside = λ a out. refl }),
      )
]

Spaced-char :
    (m m' : Mem) (str n k : ℕ) → Spaced m m' str n → str + n < 2 ^ 32 → k < n → m' (str ⊕ k) ≡ b' '
Spaced-char m m' str n k f h below = ground (arith, f (str ⊕ k))

Spaced-end : (m m' : Mem) (str n : ℕ) → Spaced m m' str n → str + n < 2 ^ 32 → m' (str ⊕ n) ≡ 0
Spaced-end m m' str n f h = ground (arith, f (str ⊕ n))

Spaced-kept : (m m' : Mem) (str n a : ℕ) → Spaced m m' str n → Outside str (n + 1) a → m' a ≡ m a
Spaced-kept m m' str n a f out = ground (arith, f a)

Spaced-Centred :
    (r : Crash) (m m1 m2 m3 : Mem) (message n : ℕ)
    → n ≤ 48
    → AreApart r message n
    → Cut m m1 message n
    → Spaced m1 m2 r.rightstr ((48 - n) / 2)
    → Spaced m2 m3 r.leftstr ((49 - n) / 2)
    → Centred r m m3 message n
Spaced-Centred r m m1 m2 m3 message n short layout c f g = record {
  text = record {
    end = kept n (omega arith) ∙ (c.cut_text).end;
    before = λ k below. rw (kept k (omega arith)) ((c.cut_text).before k below);
  };
  same = λ k below. kept k (omega arith) ∙ c.cut_same k below;
  right = λ k below.
      right_kept k (omega arith)
      ∙ Spaced-char m1 m2 r.rightstr ((48 - n) / 2) k f (omega arith) below;
  right_end =
      right_kept ((48 - n) / 2) (omega arith)
      ∙ Spaced-end m1 m2 r.rightstr ((48 - n) / 2) f (omega arith);
  left = λ k below. Spaced-char m2 m3 r.leftstr ((49 - n) / 2) k g (omega arith) below;
  left_end = Spaced-end m2 m3 r.leftstr ((49 - n) / 2) g (omega arith);
  outside = λ a text right left.
      Spaced-kept m2 m3 r.leftstr ((49 - n) / 2) a g
        (elim left [ inl b ↦ inl b | inr b ↦ inr (omega arith) ])
      ∙ (Spaced-kept m1 m2 r.rightstr ((48 - n) / 2) a f
            (elim right [ inl b ↦ inl b | inr b ↦ inr (omega arith) ])
          ∙ c.cut_outside a text);
}
  where
    right_kept : (k : ℕ) → k ≤ 24 → m3 (r.rightstr ⊕ k) ≡ m2 (r.rightstr ⊕ k)
    right_kept k low =
        Spaced-kept m2 m3 r.leftstr ((49 - n) / 2) (r.rightstr ⊕ k) g
          (elim layout.right_left [ inl a ↦ inl (omega arith) | inr a ↦ inr (omega arith) ])

    kept : (k : ℕ) → k ≤ n → m3 (message ⊕ k) ≡ m1 (message ⊕ k)
    kept k low =
        Spaced-kept m2 m3 r.leftstr ((49 - n) / 2) (message ⊕ k) g
          (elim layout.left_message [ inl a ↦ inl (omega arith) | inr a ↦ inr (omega arith) ])
        ∙ Spaced-kept m1 m2 r.rightstr ((48 - n) / 2) (message ⊕ k) f
            (elim layout.right_message [ inl a ↦ inl (omega arith) | inr a ↦ inr (omega arith) ])

shorter : (r : Crash) (message n k : ℕ) → AreApart r message n → k ≤ n → AreApart r message k
shorter r message n k w below = record {
  message_fits = omega arith;
  right_fits = w.right_fits;
  left_fits = w.left_fits;
  right_message = elim w.right_message [ inl a ↦ inl (omega arith) | inr a ↦ inr a ];
  left_message = elim w.left_message [ inl a ↦ inl (omega arith) | inr a ↦ inr a ];
  right_left = w.right_left;
}

-- For a message shorter than 2^31 that lies apart from the two local arrays, and fuel above its
-- length: `error_screan` keeps at most 48 of its characters, 47 of a longer one, and puts strings of
-- spaces into the arrays, half of the columns that are left of 48 in each and the odd column on the
-- left; the memory outside the message and the two arrays of 48 bytes stays as it was.
pub centre_lem :
    (r : Crash) (m : Mem) (message n : ℕ)
    → IsString m message n
    → n < 2 ^ 31
    → n < r.fuel
    → AreApart r message n
    → (m' : Mem) × (centre r m message ≡ some m') × Centred r m m' message (cut n)
unfolding centre
centre_lem r m message n w small enough layout =
    let len = strlen_lem r.fuel m message n w (omega arith) enough in
    let (m1, e, c) = cut_lem r.fuel m message n w (omega arith) small enough in
    let short : cut n ≤ 48 = ground arith in
    let (right, left) = widths_lem (cut n) short in
    let m2 = put_spaces m1 r.rightstr (right_spaces (cut n)) in
    (
      put_spaces m2 r.leftstr (left_spaces (cut n)),
      ap (λ o. o >>= spaces) len ∙ ap (λ o. o >>= strings) e,
      Spaced-Centred r m m1 m2 _ message (cut n) short layout' c
          (rw (← right)
            (put_spaces-Spaced m1 r.rightstr _ (omega (arith, right)) layout.right_fits))
          (rw (← left) (put_spaces-Spaced m2 r.leftstr _ (omega (arith, left)) layout.left_fits)),
    )
  where
    strings : Mem × ℕ → Option Mem
    strings p = some (
        put_spaces (put_spaces (p.0) r.rightstr (right_spaces (p.1))) r.leftstr (left_spaces (p.1)))

    spaces : ℕ → Option Mem
    spaces length = cut_message r.fuel m message length >>= strings

    layout' : AreApart r message (cut n)
    layout' = shorter r message n (cut n) layout (ground arith)
