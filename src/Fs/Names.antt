-- ===== src/Fs/Names.antt =====
-- The names of full length in the directory of drivers/fs.c.
use linux.Base.{ℕ, ◌+◌, ◌<◌, ◌≡◌, ◌≢◌, ◌⊎◌, inl, inr, arith, some, Bool-cases, ltb}
use linux.Memory.{Mem, ◌⊕◌}
use linux.CString.{IsString}
use linux.CString.Length.{IsString-unique}
use linux.Fs.{Fs, entry, read_dentry_by_name, minus_one, filetype_at}
use linux.Fs.Lookup.{Names, read_dentry_by_name-Found}

-- `char filename[32]`.
abbrev pub name_size : ℕ
name_size = 32

-- An entry whose 32 name bytes are all in use, of a regular file: FILE_TYPE is 2.
pub record IsFull (m : Mem) (e : ℕ) : Type 0 where
  pub chars : (q : ℕ) → q < name_size → m (e ⊕ q) ≢ 0
  pub kind : m (e ⊕ filetype_at) ≡ 2
  pub kind_high : m (e ⊕ (filetype_at + 1)) ≡ 0

-- What `strlen` finds there is 33 characters long: the file type counts as one.
pub IsFull-IsString : (m : Mem) (e : ℕ) → IsFull m e → IsString m e (name_size + 1)
IsFull-IsString m e w = record { end = w.kind_high; before = before }
  where
    before : (q : ℕ) → q < name_size + 1 → m (e ⊕ q) ≢ 0
    before q h = elim (Bool-cases (ltb q name_size)) [
      | inl inside ↦ w.chars q (grind arith)
      | inr at ↦ λ z. let e1 : q ≡ name_size = grind arith in omega (arith, w.kind, rw e1 at z)
    ]

-- Where memory holds bytes, all names end within the fuel, each entry has a shorter name or is a
-- regular file with 32 name characters, and the destination is not null: no name of 32 characters
-- is found, and -1 is returned.
pub full_name_lost :
    (f : ℕ) (fs : Fs) (m : Mem) (fname : ℕ) (len : ℕ → ℕ) (dentry : ℕ)
    → Names f fs m fname name_size len
    → ((i : ℕ) → i < fs.num_directories → (len i < name_size) ⊎ IsFull m (entry fs i))
    → dentry ≢ 0
    → read_dentry_by_name f fs m fname dentry ≡ some (m, minus_one)
full_name_lost f fs m fname len dentry w shape nonnull =
    elim (read_dentry_by_name-Found f fs m fname name_size len dentry w nonnull) [
      | inl (i, _, hi, same, _, _) ↦ elim (shape i hi) [
        | inl less ↦ absurd (omega (arith, same.0))
        | inr full ↦ absurd (
            omega (
              arith,
              same.0,
              IsString-unique m (entry fs i) (len i) (name_size + 1) (w.named i hi)
                  (IsFull-IsString m (entry fs i) full),
            ))
      ]
      | inr (_, e) ↦ e
    ]
