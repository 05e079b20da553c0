-- ===== src/Line/Rest.antt =====
-- The second loop of terminal_read in drivers/termios.c, which moves the unread characters down.
use linux.Base.{
  ℕ, zero, suc, ◌+◌, ◌-◌, ◌≤◌, ◌<◌, ◌≡◌, ◌≢◌, refl, sym, ap, ◌∙◌, arith, ◌&&◌, List, [], ◌∷◌, ltb,
  leb, if◌then◌else◌, get_or, set, take, drop, length, length-set, get_or-set, get_or-set_self,
  get_or-set_ne,
}
use linux.Terminal.{TermData}
use linux.Line.{Terminals, term, set_term, no_data, move_rest}

-- The loop on one buffer.
pub moved_down : ℕ → List ℕ → ℕ → ℕ → List ℕ
moved_down zero b i j = b
moved_down (suc r) b i j = moved_down r (set b j (get_or b (i + j) 0)) i (j + 1)

pub length-moved_down : (r : ℕ) (b : List ℕ) (i j : ℕ) → length (moved_down r b i j) ≡ length b
unfolding moved_down
length-moved_down zero b i j = refl
length-moved_down (suc r) b i j = length-moved_down r _ i (j + 1) ∙ length-set b j _

get_or-moved_down :
    (r : ℕ) (b : List ℕ) (i j k : ℕ)
    → i + j + r ≤ length b
    → get_or (moved_down r b i j) k 0
      ≡ (if leb j k && ltb k (j + r) then get_or b (i + k) 0 else get_or b k 0)
unfolding moved_down
get_or-moved_down zero b i j k h = ground arith
get_or-moved_down (suc r) b i j k h =
    let c = get_or b (i + j) 0 in
    let rest = get_or-moved_down r (set b j c) i (j + 1) k (omega (arith, length-set b j c)) in
    let here = get_or-set b j k c 0 (omega arith) in
    let there = get_or-set b j (i + k) c 0 (omega arith) in
    rest
    ∙ ground (
      arith,
      here,
      there,
      λ (e : j ≡ k). ap (λ l. get_or b (i + l) 0) e,
      λ (e : k ≡ i + k). ap (λ l. get_or b l 0) e,
    )

take-ext :
    (n : ℕ) (b c : List ℕ)
    → n ≤ length b
    → n ≤ length c
    → ((k : ℕ) → k < n → get_or b k 0 ≡ get_or c k 0)
    → take n b ≡ take n c
take-ext zero b c hb hc f = refl
take-ext (suc n) [] c hb hc f = absurd (omega arith)
take-ext (suc n) (x ∷ b) [] hb hc f = absurd (omega arith)
take-ext (suc n) (x ∷ b) (y ∷ c) hb hc f =
    ap (λ z. z ∷ take n b) (f 0 (omega arith))
    ∙ ap (λ l. y ∷ l) (take-ext n b c (omega arith) (omega arith) (λ k h. f (suc k) (omega arith)))

get_or-drop : (c : List ℕ) (i k : ℕ) → get_or (drop i c) k 0 ≡ get_or c (i + k) 0
get_or-drop c zero k = ap (λ j. get_or c j 0) (omega arith)
get_or-drop [] (suc i) k = refl
get_or-drop (x ∷ c) (suc i) k =
    let e : suc i + k ≡ suc (i + k) = omega arith in get_or-drop c i k ∙ rw e refl

pub length-drop : (c : List ℕ) (i : ℕ) → length (drop i c) ≡ length c - i
length-drop c zero = omega arith
length-drop [] (suc i) = omega arith
length-drop (x ∷ c) (suc i) = length-drop c i ∙ omega arith

take-drop_ext :
    (n : ℕ) (b c : List ℕ) (i : ℕ)
    → n ≤ length b
    → i + n ≤ length c
    → ((k : ℕ) → k < n → get_or b k 0 ≡ get_or c (i + k) 0)
    → take n b ≡ take n (drop i c)
take-drop_ext n b c i hb hc f =
    take-ext n b (drop i c) hb (omega (arith, length-drop c i))
      (λ k h. f k h ∙ sym (get_or-drop c i k))

pub take-moved_down :
    (r : ℕ) (b : List ℕ) (i : ℕ)
    → i + r ≤ length b
    → take r (moved_down r b i 0) ≡ take r (drop i b)
take-moved_down r b i h =
    take-drop_ext r _ b i (omega (arith, length-moved_down r b i 0)) h
      (λ k hk. get_or-moved_down r b i 0 k (omega arith) ∙ ground arith)

-- For the terminal that is active the loop works in its own buffer.
pub move_rest-own :
    (r : ℕ) (s : Terminals) (i j : ℕ)
    → s.active_term < length s.term_data_array
    → term (move_rest r s s.active_term i j) s.active_term
      ≡ record (term s s.active_term) { in_buf = moved_down r (term s s.active_term).in_buf i j }
unfolding move_rest moved_down
move_rest-own zero s i j h = refl
move_rest-own (suc r) s i j h =
    let a = s.active_term in
    let t = term s a in
    let u = record t { in_buf = set t.in_buf j (get_or t.in_buf (i + j) 0) } in
    let e : term (set_term s a u) a ≡ u = get_or-set_self s.term_data_array a u no_data h in
    move_rest-own r (set_term s a u) i (j + 1) (rw (length-set s.term_data_array a u) h)
    ∙ ap (λ (v : TermData). record v { in_buf = moved_down r v.in_buf i (j + 1) }) e

-- For any other it leaves that terminal's struct as it is.
pub move_rest-other :
    (r : ℕ) (s : Terminals) (n i j : ℕ)
    → n ≢ s.active_term
    → term (move_rest r s n i j) n ≡ term s n
unfolding move_rest
move_rest-other zero s n i j h = refl
move_rest-other (suc r) s n i j h =
    move_rest-other r _ n i (j + 1) h
    ∙ get_or-set_ne s.term_data_array s.active_term n _ no_data (λ e. h (sym e))

pub move_rest-same :
    (r : ℕ) (s : Terminals) (n i j : ℕ)
    → ((move_rest r s n i j).mem ≡ s.mem)
      × ((move_rest r s n i j).active_term ≡ s.active_term)
      × (length (move_rest r s n i j).term_data_array ≡ length s.term_data_array)
unfolding move_rest
move_rest-same zero s n i j = (refl, refl, refl)
move_rest-same (suc r) s n i j =
    let w = move_rest-same r _ n i (j + 1) in
    (w.0, w.1, w.2 ∙ length-set s.term_data_array s.active_term _)
