-- ===== src/CString/Copy.antt =====
-- strcpy of lib/lib.c.
use linux.Base.{ℕ, zero, suc, ◌+◌, ◌≤◌, ◌<◌, ◌≡◌, ◌≢◌, arith, some, ==_true, ==_false}
use linux.Memory.{Mem, ◌⊕◌, write}
use linux.Memory.Copy.{Copied, Apart, Copied-trans}
use linux.CString.{strcpy_from, strcpy, IsString}

-- The characters from index `i` on of a string of `n` characters.
record Tail (m : Mem) (src i n : ℕ) : Type 0 where
  end : m (src ⊕ n) ≡ 0
  before : (q : ℕ) → i ≤ q → q < n → m (src ⊕ q) ≢ 0

write-Tail :
    (m : Mem) (dest src i n v : ℕ)
    → Apart dest src (n + 1)
    → i < n
    → Tail m src i n
    → Tail (write m (dest ⊕ i) v) src (i + 1) n
write-Tail m dest src i n v p h t = record {
  end = rw (kept n (omega arith)) t.end;
  before = λ q lo hi. rw (kept q (omega arith)) (t.before q (omega arith) hi);
}
  where
    kept : (q : ℕ) → q < n + 1 → write m (dest ⊕ i) v (src ⊕ q) ≡ m (src ⊕ q)
    kept q k = grind arith

Apart-tail : {d s n : ℕ} (i k : ℕ) → Apart d s n → i + k ≤ n → Apart (d + i) (s + i) k
Apart-tail i k p h = grind arith

-- From index `i` on: the rest of the string has been copied.
strcpy_from_lem :
    (f : ℕ) (m : Mem) (dest src n i k : ℕ)
    → Tail m src i n
    → Apart dest src (n + 1)
    → i + k ≡ n
    → k < f
    → (m' : Mem) × (strcpy_from f m dest src i ≡ some m') × Copied m m' (dest + i) (src + i) (k + 1)
unfolding strcpy_from
strcpy_from_lem zero m dest src n i k w p e h = absurd (omega arith)
strcpy_from_lem (suc f) m dest src n i zero w p e h =
    (write m (dest ⊕ i) 0, rw (==_true _ _ last), λ a. ground (arith, last))
  where
    last : m (src ⊕ i) ≡ 0
    last = let here : i ≡ n = omega arith in rw here w.end
strcpy_from_lem (suc f) m dest src n i (suc k) w p e h =
    let more : m (src ⊕ i) ≢ 0 = w.before i (omega arith) (omega arith) in
    let (m', r, c) =
      strcpy_from_lem f (write m (dest ⊕ i) (m (src ⊕ i))) dest src n (i + 1) k
        (write-Tail m dest src i n (m (src ⊕ i)) p (omega arith) w) p (omega arith) (omega arith) in
    (
      m',
      rw (==_false _ _ more) r,
      Copied-trans m (write m (dest ⊕ i) (m (src ⊕ i))) m' (dest + i) (src + i) (dest + (i + 1))
          (src + (i + 1)) 1 (k + 1) (suc k + 1) (omega arith) (omega arith) (omega arith)
          (Apart-tail i (suc k + 1) p (omega arith)) (λ a. ground arith) c,
    )

at_start : (m m' : Mem) (d s n : ℕ) → Copied m m' (d + 0) (s + 0) n → Copied m m' d s n
at_start m m' d s n c a = ground (arith, c a)

-- If the fuel is above the length of the string, and the destination overlaps neither the string
-- nor its terminator, `strcpy` ends, copies both, and changes nothing else.
pub strcpy-Copied :
    (f : ℕ) (m : Mem) (dest src n : ℕ)
    → IsString m src n
    → Apart dest src (n + 1)
    → n < f
    → (m' : Mem) × (strcpy f m dest src ≡ some m') × Copied m m' dest src (n + 1)
unfolding strcpy
strcpy-Copied f m dest src n w p h =
    let (m', r, c) =
      strcpy_from_lem f m dest src n 0 n (record { end = w.end; before = λ q _ k. w.before q k }) p
        (omega arith) h in
    (m', r, at_start m m' dest src (n + 1) c)
