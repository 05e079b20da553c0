-- ===== src/CString/Pad.antt =====
-- strncpy of lib/lib.c: the characters of the string, then zero bytes up to the count.
use linux.Base.{
  ℕ, zero, suc, ◌+◌, ◌-◌, ◌^◌, ◌<◌, ◌≡◌, ◌≢◌, arith, ==_true, ==_false, ltb, if◌then◌else◌,
}
use linux.Memory.{Mem, ◌⊕◌, write, within}
use linux.Memory.Fill.{Filled, Filled-zero, Filled-trans}
use linux.Memory.Copy.{Apart}
use linux.CString.{strncpy_from, strncpy, pad_from, IsString}

-- `m'` is `m` with the `r` bytes from `d` on replaced by the first `k` of those from `s` on, and
-- zeros after them.
abbrev pub Padded : Mem → Mem → ℕ → ℕ → ℕ → ℕ → Type 0
Padded m m' d s k r =
    (a : ℕ) → m' a ≡ (if within d r a then (if ltb (a - d) k then m (s + (a - d)) else 0) else m a)

pad_from-Filled :
    (r : ℕ) (m : Mem) (dest i : ℕ)
    → dest + i + r < 2 ^ 32
    → Filled m (pad_from r m dest i) (dest + i) 0 r
unfolding pad_from
pad_from-Filled zero m dest i h = Filled-zero m (dest + i) 0
pad_from-Filled (suc r) m dest i h =
    Filled-trans m (write m (dest ⊕ i) 0) _ (dest + i) (dest + (i + 1)) 0 1 r (suc r) (omega arith)
      (omega arith) (λ a. ground arith) (pad_from-Filled r _ dest (i + 1) (omega arith))

-- From index `i` on, with `k` characters left of the string and `r` rounds left.
strncpy_from-Padded :
    (r : ℕ) (m : Mem) (dest src i k : ℕ)
    → ((q : ℕ) → q < k → q < r → m (src + i + q) ≢ 0)
    → (k < r → m (src + i + k) ≡ 0)
    → Apart (dest + i) (src + i) r
    → Padded m (strncpy_from r m dest src i) (dest + i) (src + i) k r
unfolding strncpy_from
strncpy_from-Padded zero m dest src i k before end p a = ground arith
strncpy_from-Padded (suc r) m dest src i zero before end p a =
    let last : m (src ⊕ i) ≡ 0 =
      (let e : src ⊕ i ≡ src + i + 0 = omega arith in rw e (end (omega arith))) in
    rw (==_true _ _ last) (ground (arith, pad_from-Filled (suc r) m dest i (omega arith) a))
strncpy_from-Padded (suc r) m dest src i (suc k) before end p a =
    rw (==_false _ _ more)
      (ground (arith, strncpy_from-Padded r m1 dest src (i + 1) k before' end' (grind arith) a))
  where
    m1 : Mem
    m1 = write m (dest ⊕ i) (m (src ⊕ i))

    more : m (src ⊕ i) ≢ 0
    more =
        let e : src ⊕ i ≡ src + i + 0 = omega arith in rw e (before 0 (omega arith) (omega arith))

    kept : (q : ℕ) → q < r → m1 (src + (i + 1) + q) ≡ m (src + i + suc q)
    kept q h = let e : src + (i + 1) + q ≡ src + i + suc q = omega arith in rw e (grind arith)

    before' : (q : ℕ) → q < k → q < r → m1 (src + (i + 1) + q) ≢ 0
    before' q h h' = rw (kept q h') (before (suc q) (omega arith) (omega arith))

    end' : k < r → m1 (src + (i + 1) + k) ≡ 0
    end' h = rw (kept k h) (end (omega arith))

-- For a string shorter than 2^32 whose first `n` bytes do not overlap the destination: `strncpy`
-- writes exactly `n` bytes there, the characters of the string, cut at `n`, and zeros after them,
-- and changes nothing else.
pub strncpy-Padded :
    (m : Mem) (dest src k n : ℕ)
    → IsString m src k
    → k < 2 ^ 32
    → Apart dest src n
    → Padded m (strncpy m dest src n) dest src k n
unfolding strncpy
strncpy-Padded m dest src k n w h p a =
    ground (arith, strncpy_from-Padded n m dest src 0 k before end p' a)
  where
    p' : Apart (dest + 0) (src + 0) n
    p' = grind arith

    before : (q : ℕ) → q < k → q < n → m (src + 0 + q) ≢ 0
    before q h h' = let e : src + 0 + q ≡ src ⊕ q = omega arith in rw e (w.before q h)

    end : k < n → m (src + 0 + k) ≡ 0
    end h = let e : src + 0 + k ≡ src ⊕ k = omega arith in rw e w.end
