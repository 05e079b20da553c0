-- ===== src/User/Programs/Cat.antt =====
-- ece391cat.c of syscalls/: the copy of a file, on a system whose files are read and written as documented.
use linux.Base.{
  ℕ, zero, suc, ◌+◌, ◌-◌, ◌*◌, ◌≤◌, ◌≡◌, ◌≢◌, refl, ap, sym, ◌∙◌, arith, some, inl, inr, List, [],
  ◌∷◌, ◌++◌, append_assoc, append-nil, length, take, drop, ◌==◌, ==_iff, ==_false, Bool-cases,
}
use linux.Memory.{Mem, ◌⊕◌}
use linux.User.{Program, System, minus_one}
use linux.User.Steps.{bind_lem}
use linux.User.Programs.{copy_file, cat}

-- The `n` bytes at `a`.
abbrev pub bytes : Mem → ℕ → ℕ → List ℕ
bytes m a zero = []
bytes m a (suc n) = m a ∷ bytes m (a ⊕ 1) n

-- How a file that is read through a descriptor, of which `rest` is still unread, and the output on
-- descriptor 1 behave in the states that are `valid`, with one buffer: a read of 1024 bytes puts the
-- next ones, fewer at the end, to `buf`, and a write appends to the output.
pub record Feeds {S : Type 0} (memory : S → Mem) (read : Program S ℕ) (write : ℕ → Program S ℕ)
    (buf : ℕ) : Type 1 where
  pub valid : S → Type 0
  pub rest : S → List ℕ
  pub output : S → List ℕ
  pub read_lem :
      (s : S)
      → valid s
      → (s' : S) × (read s ≡ some (s', length (take 1024 (rest s))))
        × valid s'
        × (rest s' ≡ drop 1024 (rest s))
        × (output s' ≡ output s)
        × (bytes (memory s') buf (length (take 1024 (rest s))) ≡ take 1024 (rest s))
  pub write_lem :
      (s : S) (n : ℕ)
      → valid s
      → n ≢ 0
      → n ≤ 1024
      → (s' : S) × (written : ℕ) × (write n s ≡ some (s', written))
        × (written ≢ minus_one)
        × valid s'
        × (rest s' ≡ rest s)
        × (output s' ≡ output s ++ bytes (memory s) buf n)

append-take-drop : {A : Type 0} (n : ℕ) (xs : List A) → take n xs ++ drop n xs ≡ xs
append-take-drop zero xs = refl
append-take-drop (suc n) [] = refl
append-take-drop (suc n) (x ∷ xs) = ap (λ ys. x ∷ ys) (append-take-drop n xs)

pub length-take_le : {A : Type 0} (n : ℕ) (xs : List A) → length (take n xs) ≤ n
length-take_le zero xs = omega arith
length-take_le (suc n) [] = omega arith
length-take_le (suc n) (x ∷ xs) = omega (arith, length-take_le n xs)

length-take_le_length : {A : Type 0} (n : ℕ) (xs : List A) → length (take n xs) ≤ length xs
length-take_le_length zero xs = omega arith
length-take_le_length (suc n) [] = omega arith
length-take_le_length (suc n) (x ∷ xs) = omega (arith, length-take_le_length n xs)

length-drop : {A : Type 0} (n : ℕ) (xs : List A) → length (drop n xs) ≡ length xs - n
length-drop zero xs = omega arith
length-drop (suc n) [] = omega arith
length-drop (suc n) (x ∷ xs) = omega (arith, length-drop n xs)

take-empty : {A : Type 0} (n : ℕ) (xs : List A) → length (take (suc n) xs) ≡ 0 → xs ≡ []
take-empty n [] e = refl
take-empty n (x ∷ xs) e = absurd (omega arith)

-- A piece that is moved from the front of the rest to the end of the output.
join_lem :
    {A : Type 0} (n : ℕ) (out out1 out2 piece rest rest1 rest2 : List A)
    → out2 ≡ out1 ++ piece
    → out1 ≡ out
    → piece ≡ take n rest
    → rest2 ≡ rest1
    → rest1 ≡ drop n rest
    → out2 ++ rest2 ≡ out ++ rest
join_lem n out out1 out2 piece rest rest1 rest2 a b c d e =
    rw (a, b, c, d, e)
      (append_assoc out (take n rest) (drop n rest)
        ∙ ap (λ xs. out ++ xs) (append-take-drop n rest))

copy_ends :
    {S : Type 0} (sys : System S) (f fd buf : ℕ) (s s1 : S)
    → sys.ece391_read fd buf 1024 s ≡ some (s1, 0)
    → copy_file sys (suc f) fd buf s ≡ some (s1, 0)
unfolding copy_file
copy_ends sys f fd buf s s1 read = bind_lem (sys.ece391_read fd buf 1024) _ s s1 0 read

copy_goes_on :
    {S : Type 0} (sys : System S) (f fd buf n written : ℕ) (s s1 s2 : S)
    → sys.ece391_read fd buf 1024 s ≡ some (s1, n)
    → n ≢ 0
    → n ≢ minus_one
    → sys.ece391_write 1 buf n s1 ≡ some (s2, written)
    → written ≢ minus_one
    → copy_file sys (suc f) fd buf s ≡ copy_file sys f fd buf s2
unfolding copy_file
copy_goes_on sys f fd buf n written s s1 s2 read more good write done =
    bind_lem (sys.ece391_read fd buf 1024) _ s s1 n read
    ∙ rw (==_false n 0 more, ==_false n minus_one good)
        (bind_lem (sys.ece391_write 1 buf n) _ s1 s2 written write
          ∙ rw (==_false written minus_one done) refl)

-- A system on which the file behind `fd` is read through the buffer `buf`.
abbrev pub FeedsFrom : {S : Type 0} → System S → ℕ → ℕ → Type 1
FeedsFrom sys fd buf = Feeds sys.memory (sys.ece391_read fd buf 1024) (sys.ece391_write 1 buf) buf

module _ {S : Type 0} (sys : System S) (fd buf : ℕ) (w : FeedsFrom sys fd buf) where
  -- The program has ended with 0, and has copied what was unread in `s`.
  abbrev pub Copied : S → Program S ℕ → Type 0
  Copied s program =
      (s' : S) × (program s ≡ some (s', 0))
      × (w.rest s' ≡ [])
      × (w.output s' ≡ w.output s ++ w.rest s)

  copy_from :
      (f : ℕ) (s : S)
      → w.valid s
      → length (w.rest s) + 1024 ≤ 1024 * f
      → Copied s (copy_file sys f fd buf)
  unfolding copy_file
  copy_from zero s ok enough = absurd (omega arith)
  copy_from (suc f) s ok enough =
      let n = length (take 1024 (w.rest s)) in
      let (s1, read, ok1, rest1, output1, chunk) = w.read_lem s ok in
      elim (Bool-cases (n == 0)) [
        | inl end ↦
            let none_read = (==_iff n 0).0 end in
            let empty = take-empty 1023 (w.rest s) none_read in
            (
              s1,
              copy_ends sys f fd buf s s1 (read ∙ ap (λ k. some (s1, k)) none_read),
              rest1 ∙ ap (λ xs. drop 1024 xs) empty,
              output1 ∙ (sym (append-nil (w.output s)) ∙ ap (λ xs. w.output s ++ xs) (sym empty)),
            )
        | inr some_read ↦
            let more : n ≢ 0 = grind arith in
            let fewer = length-take_le_length 1024 (w.rest s) in
            let few = length-take_le 1024 (w.rest s) in
            let (s2, written, write, done, ok2, rest2, output2) = w.write_lem s1 n ok1 more few in
            let left = ap (λ xs. length xs) (rest2 ∙ rest1) ∙ length-drop 1024 (w.rest s) in
            let (s3, ends, rest3, output3) =
              copy_from f s2 ok2 (omega (arith, left, fewer, more)) in
            (
              s3,
              copy_goes_on sys f fd buf n written s s1 s2 read more (omega (arith, few)) write done
                  ∙ ends,
              rest3,
              output3 ∙ join_lem 1024 _ _ _ _ _ _ _ output2 output1 chunk rest2 rest1,
            )
      ]

pub cat_lem :
    {S : Type 0} (sys : System S) (f fd buf : ℕ) (s s1 s2 : S) (w : FeedsFrom sys fd buf)
    → sys.ece391_getargs buf 1024 s ≡ some (s1, 0)
    → sys.ece391_open buf s1 ≡ some (s2, fd)
    → fd ≢ minus_one
    → w.valid s2
    → length (w.rest s2) + 1024 ≤ 1024 * f
    → (s' : S) × (cat sys f buf s ≡ some (s', 0))
      × (w.rest s' ≡ [])
      × (w.output s' ≡ w.output s2 ++ w.rest s2)
unfolding cat
cat_lem sys f fd buf s s1 s2 w args opened found ok enough =
    let (s', ends, read, copied) = copy_from sys fd buf w f s2 ok enough in
    (
      s',
      bind_lem (sys.ece391_getargs buf 1024) _ s s1 0 args
          ∙ (bind_lem (sys.ece391_open buf) _ s1 s2 fd opened
              ∙ (rw (==_false fd minus_one found) refl ∙ ends)),
      read,
      copied,
    )
