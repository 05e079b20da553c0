-- ===== src/Line/Typing.antt =====
-- input_process_key of drivers/termios.c: the line that is being typed.
use linux.Base.{
  ℕ, zero, suc, ◌-◌, ◌^◌, ◌≤◌, ◌<◌, ◌≡◌, refl, sym, ap, ◌∙◌, ◌≢◌, arith, Bool, false, not, ◌&&◌,
  List, [], ◌∷◌, ◌++◌, ltb, ◌==◌, ==_iff, Bool-cases, inl, inr, if_intro, if◌then◌else◌, set, take,
  length, length-set,
}
use linux.Memory.{◌⊕◌}
use linux.CString.{slt}
use linux.Terminal.{TermData, in_buf_size, key_backspace, key_delete, rounds}
use linux.Line.{edit, shift_left, shift_right}

-- The input index is at the end of the data, in a buffer of 128 characters.
pub record IsLine (t : TermData) : Type 0 where
  pub at_end : t.in_dat_index ≡ t.in_dat_end
  pub bound : t.in_dat_end ≤ in_buf_size
  pub size : length t.in_buf ≡ in_buf_size

-- The characters typed and not yet read.
abbrev pub pending : TermData → List ℕ
pending t = take t.in_dat_end t.in_buf

unfoldable pub drop_last : List ℕ → List ℕ
drop_last [] = []
drop_last (x ∷ []) = []
drop_last (x ∷ y ∷ xs) = x ∷ drop_last (y ∷ xs)

-- What a key does to a line: a backspace takes the last character off, the delete key and a key
-- without a character do nothing, and any other character is added unless the line is full.
unfoldable pub typed : List ℕ → ℕ → List ℕ
typed p key =
    if key == key_backspace
    then drop_last p
    else (if key == key_delete
        then p
        else (if not (key == 0) && ltb (length p) in_buf_size then p ++ (key ∷ []) else p))

take-set : (b : List ℕ) (n v : ℕ) → n < length b → take (suc n) (set b n v) ≡ take n b ++ (v ∷ [])
take-set [] n v h = absurd (omega arith)
take-set (x ∷ b) zero v h = refl
take-set (x ∷ b) (suc n) v h = ap (λ l. x ∷ l) (take-set b n v (omega arith))

drop_last-take : (b : List ℕ) (n : ℕ) → n < length b → drop_last (take (suc n) b) ≡ take n b
unfolding drop_last
drop_last-take [] n h = absurd (omega arith)
drop_last-take (x ∷ b) zero h = refl
drop_last-take (x ∷ []) (suc n) h = absurd (omega arith)
drop_last-take (x ∷ y ∷ b) (suc n) h = ap (λ l. x ∷ l) (drop_last-take (y ∷ b) n (omega arith))

pub length-take : (b : List ℕ) (n : ℕ) → n ≤ length b → length (take n b) ≡ n
length-take b zero h = refl
length-take [] (suc n) h = absurd (omega arith)
length-take (x ∷ b) (suc n) h = ap suc (length-take b n (omega arith))

rounds-same : (a b : ℕ) → a ≡ b → rounds a b ≡ 0
rounds-same a b e = ground arith

pending-last :
    (t : TermData)
    → IsLine t
    → t.in_dat_end ≢ 0
    → take (t.in_dat_end ⊕ (2 ^ 32 - 1)) t.in_buf ≡ drop_last (pending t)
pending-last t v ne =
    let n = t.in_dat_end ⊕ (2 ^ 32 - 1) in
    let e : t.in_dat_end ≡ suc n = omega (arith, v.bound) in
    sym (
      ap (λ k. drop_last (take k t.in_buf)) e
      ∙ drop_last-take t.in_buf n (omega (arith, v.size, v.bound)))

slt-same : (a b : ℕ) → a ≡ b → slt a b ≡ false
slt-same a b e = ground arith

slt-size : (n : ℕ) → n ≤ in_buf_size → slt n in_buf_size ≡ ltb n in_buf_size
slt-size n h = ground arith

edit-backspace :
    (t : TermData)
    → IsLine t
    → IsLine (edit t key_backspace).0 × (pending (edit t key_backspace).0 ≡ drop_last (pending t))
unfolding edit drop_last shift_left
edit-backspace t v =
    if_intro (λ (r : TermData × Bool). IsLine r.0 × (pending r.0 ≡ drop_last (pending t)))
      (t.in_dat_index == 0) _ _
      (λ empty. let e : t.in_dat_end ≡ 0 = sym v.at_end ∙ (==_iff _ _).0 empty in (v, rw e refl))
      (λ some.
        let ne : t.in_dat_end ≢ 0 = grind (arith, v.at_end) in
        let e : t.in_dat_index ⊕ (2 ^ 32 - 1) ≡ t.in_dat_end ⊕ (2 ^ 32 - 1) = rw v.at_end refl in
        rw (rounds-same _ _ e) (
          record { at_end = e; bound = omega (arith, v.bound); size = v.size },
          pending-last t v ne,
        ))

pending-append :
    (t : TermData) (key : ℕ)
    → IsLine t
    → t.in_dat_end < in_buf_size
    → take (t.in_dat_end ⊕ 1) (set t.in_buf (t.in_dat_index ⊕ 1 ⊕ (2 ^ 32 - 1)) key)
      ≡ pending t ++ (key ∷ [])
pending-append t key v h =
    let i : t.in_dat_index ⊕ 1 ⊕ (2 ^ 32 - 1) ≡ t.in_dat_end = omega (arith, v.at_end) in
    let e : t.in_dat_end ⊕ 1 ≡ suc t.in_dat_end = omega arith in
    rw (i, e) (take-set t.in_buf t.in_dat_end key (omega (arith, v.size)))

edit-other :
    (t : TermData) (key : ℕ)
    → IsLine t
    → (key == key_backspace) ≡ false
    → IsLine (edit t key).0
      × (pending (edit t key).0 ≡ (
          if key == key_delete
          then pending t
          else (if not (key == 0) && ltb (length (pending t)) in_buf_size
              then pending t ++ (key ∷ [])
              else pending t)))
unfolding edit shift_right
edit-other t key v other =
    rw (other, length-take t.in_buf t.in_dat_end (omega (arith, v.bound, v.size)))
      (elim (Bool-cases (key == key_delete)) [
        | inl deletes ↦ rw (deletes, slt-same _ _ v.at_end) (v, refl)
        | inr adds ↦
            rw (adds, slt-size t.in_dat_end v.bound)
              (elim (Bool-cases (not (key == 0) && ltb t.in_dat_end in_buf_size)) [
                | inl fits ↦
                    let h : t.in_dat_end < in_buf_size = ground arith in
                    let e : t.in_dat_index ⊕ 1 ≡ t.in_dat_end ⊕ 1 = rw v.at_end refl in
                    rw (fits, rounds-same _ _ e)
                      (
                        record {
                          at_end = e;
                          bound = omega arith;
                          size = length-set t.in_buf _ key ∙ v.size;
                        },
                        pending-append t key v h,
                      )
                | inr full ↦ rw full (v, refl)
              ])
      ])

-- For a line: after a key the input index is at the end of the data again, and what is pending
-- is the pending line with a backspace's last character taken off, with nothing changed by the
-- delete key or by a key without a character, and with any other character added at its end, or
-- not, where 128 are there already.
pub edit-typed :
    (t : TermData) (key : ℕ)
    → IsLine t
    → IsLine (edit t key).0 × (pending (edit t key).0 ≡ typed (pending t) key)
unfolding typed
edit-typed t key v = elim (Bool-cases (key == key_backspace)) [
  | inl back ↦ rw (back, (==_iff key _).0 back) (edit-backspace t v)
  | inr other ↦ rw other (edit-other t key v other)
]
