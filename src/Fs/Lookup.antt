-- ===== src/Fs/Lookup.antt =====
-- read_dentry_by_name of drivers/fs.c: the first entry that has the name.
use linux.Base.{
  ℕ, zero, suc, ◌+◌, ◌^◌, ◌≤◌, ◌<◌, ◌≡◌, ◌≢◌, ◌⊎◌, ◌↔◌, inl, inr, refl, arith, Option, some,
  Bool-cases, ◌==◌, ==_iff, ==_true, ==_false, from_first,
}
use linux.Memory.{Mem, ◌⊕◌, memcpy}
use linux.CString.{IsString, strlen, strncmp}
use linux.CString.Length.{strlen_lem}
use linux.CString.Compare.{strncmp_zero_iff}
use linux.Fs.{Fs, entry, dentry_size, find_from, read_dentry_by_name, minus_one}

-- The strings of lengths `j` and `k` at `a` and `b` are the same.
abbrev pub SameName : Mem → ℕ → ℕ → ℕ → ℕ → Type 0
SameName m a j b k = (j ≡ k) × ((q : ℕ) → q < j → m (a ⊕ q) ≡ m (b ⊕ q))

-- A directory whose entries, up to `hi`, have names of the lengths `len`, and a name to look for.
pub record Names (f : ℕ) (fs : Fs) (m : Mem) (fname n : ℕ) (len : ℕ → ℕ) : Type 0 where
  pub bytes : (a : ℕ) → m a < 256
  pub wanted : IsString m fname n
  pub wanted_fuel : n < f
  pub named : (i : ℕ) → i < fs.num_directories → IsString m (entry fs i) (len i)
  pub named_fuel : (i : ℕ) → i < fs.num_directories → len i < f
  pub fuel_small : f < 2 ^ 32

-- What a search from entry `lo` on can return: the first entry of that name copied, or -1.
abbrev pub Found : Fs → Mem → ℕ → ℕ → (ℕ → ℕ) → ℕ → ℕ → ℕ → Option (Mem × ℕ) → Type 0
Found fs m fname n len dentry lo hi r =
    ((i : ℕ) × (lo ≤ i)
      × (i < hi)
      × SameName m fname n (entry fs i) (len i)
      × ((q : ℕ) → lo ≤ q → q < i → ¬ SameName m fname n (entry fs q) (len q))
      × (r ≡ some (memcpy m dentry (entry fs i) dentry_size, 0)))
    ⊎ (((q : ℕ) → lo ≤ q → q < hi → ¬ SameName m fname n (entry fs q) (len q))
        × (r ≡ some (m, minus_one)))

Found-extend :
    (fs : Fs) (m : Mem) (fname n : ℕ) (len : ℕ → ℕ) (dentry lo hi : ℕ) (r : Option (Mem × ℕ))
    → ¬ SameName m fname n (entry fs lo) (len lo)
    → Found fs m fname n len dentry (lo + 1) hi r
    → Found fs m fname n len dentry lo hi r
Found-extend fs m fname n len dentry lo hi r other (inl (i, a, b, c, d, e)) =
    inl (i, omega arith, b, c, from_first lo i other d, e)
Found-extend fs m fname n len dentry lo hi r other (inr (d, e)) = inr (from_first lo hi other d, e)

-- One round: the entry has the name, or the search goes on.
find_step :
    (f r : ℕ) (fs : Fs) (m : Mem) (fname n : ℕ) (len : ℕ → ℕ) (dentry i : ℕ)
    → Names f fs m fname n len
    → i < fs.num_directories
    → Found fs m fname n len dentry
        (i + 1)
        fs.num_directories
        (find_from f r fs m fname dentry (i + 1))
    → Found fs m fname n len dentry i fs.num_directories (find_from f (suc r) fs m fname dentry i)
unfolding find_from
find_step f r fs m fname n len dentry i w e rest =
    rw (wanted, found)
      (elim (Bool-cases (n == len i)) [
        | inr longer ↦
            rw longer (Found-extend fs m fname n len dentry i _ _ (λ s. cc (==_true _ _ s.0)) rest)
        | inl same ↦ elim (Bool-cases (strncmp m fname (entry fs i) n == 0)) [
          | inl equal ↦
              rw (same, equal)
                (inl (
                  i,
                  omega arith,
                  omega arith,
                  ((==_iff _ _).0 same, compared.0 ((==_iff _ _).0 equal)),
                  (λ q a b. absurd (omega arith)),
                  refl,
                ))
          | inr differ ↦
              rw (same, differ)
                (Found-extend fs m fname n len dentry i _ _ (λ s. cc (==_true _ _ (compared.1 s.1)))
                  rest)
        ]
      ])
  where
    wanted : strlen f m fname ≡ some n
    wanted = strlen_lem f m fname n w.wanted (omega arith) w.wanted_fuel

    found : strlen f m (entry fs i) ≡ some (len i)
    found =
        strlen_lem f m (entry fs i) (len i) (w.named i (omega arith))
          (omega (arith, w.named_fuel i)) (w.named_fuel i (omega arith))

    compared :
        (strncmp m fname (entry fs i) n ≡ 0)
        ↔ ((q : ℕ) → q < n → m (fname ⊕ q) ≡ m (entry fs i ⊕ q))
    compared = strncmp_zero_iff m fname (entry fs i) n w.bytes w.wanted.before

find_from-Found :
    (f r : ℕ) (fs : Fs) (m : Mem) (fname n : ℕ) (len : ℕ → ℕ) (dentry i : ℕ)
    → Names f fs m fname n len
    → i + r ≡ fs.num_directories
    → Found fs m fname n len dentry i fs.num_directories (find_from f r fs m fname dentry i)
unfolding find_from
find_from-Found f zero fs m fname n len dentry i w e = inr ((λ q a b. absurd (omega arith)), refl)
find_from-Found f (suc r) fs m fname n len dentry i w e =
    find_step f r fs m fname n len dentry i w (omega arith)
      (find_from-Found f r fs m fname n len dentry (i + 1) w (omega arith))

-- Where memory holds bytes, the name wanted and the names of all entries end within the fuel, and
-- the destination is not null: `read_dentry_by_name` either copies the first entry that has the
-- name, all 64 bytes of it, and returns 0, or no entry has the name and it returns -1 and leaves
-- memory alone.
pub read_dentry_by_name-Found :
    (f : ℕ) (fs : Fs) (m : Mem) (fname n : ℕ) (len : ℕ → ℕ) (dentry : ℕ)
    → Names f fs m fname n len
    → dentry ≢ 0
    → Found fs m fname n len dentry 0 fs.num_directories (read_dentry_by_name f fs m fname dentry)
unfolding read_dentry_by_name
read_dentry_by_name-Found f fs m fname n len dentry w nonnull =
    rw (==_false _ _ nonnull)
      (find_from-Found f fs.num_directories fs m fname n len dentry 0 w (omega arith))
