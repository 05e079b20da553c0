-- ===== src/User/Emulate/Names.antt =====
-- ece391emulate.c of syscalls/: the name of a directory entry, against strncpy of lib/lib.c.
use linux.Base.{
  ℕ, zero, suc, ◌+◌, ◌-◌, ◌^◌, ◌≤◌, ◌<◌, ◌≡◌, ◌≢◌, ap, sym, ◌∙◌, arith, true, false, inl, inr, ◌==◌,
  ◌&&◌, if◌then◌else◌, ==_iff, ==_false, ==_true, Option, some, Bool-cases,
}
use linux.Memory.{Mem, ◌⊕◌, write}
use linux.CString.{slt, strncpy, strncpy_from, pad_from}
use linux.User.{◌>>=◌}
use linux.User.Emulate.{Linux, Emulated, pad_name, copy_name, host_call, read_entry, ece391_read}

-- The bytes that are written at all.
abbrev pub room : ℕ → ℕ
room nbytes = if slt nbytes 32 then nbytes else 32

pad_name_lem :
    (k r : ℕ) (m : Mem) (to nbytes copied : ℕ)
    → nbytes < 2 ^ 31
    → room nbytes ≡ copied + k
    → k ≤ r
    → pad_name r m to nbytes copied ≡ (pad_from k m to copied, room nbytes)
unfolding pad_name pad_from
pad_name_lem zero zero m to nbytes copied small e h = ap (λ n. (m, n)) (omega (arith, e))
pad_name_lem zero (suc r) m to nbytes copied small e h =
    let off : slt copied nbytes && slt copied 32 ≡ false = ground (arith, e) in
    rw off (ap (λ n. (m, n)) (omega (arith, e)))
pad_name_lem (suc k) zero m to nbytes copied small e h = absurd (omega arith)
pad_name_lem (suc k) (suc r) m to nbytes copied small e h =
    let on : slt copied nbytes && slt copied 32 ≡ true = ground (arith, e) in
    rw on (
      pad_name_lem k r (write m (to ⊕ copied) 0) to nbytes (copied + 1) small (omega (arith, e))
        (omega arith))

-- The last byte that there is room for, whatever the loop would do after it.
last_byte :
    (m : Mem) (nbytes copied : ℕ) (rest : Mem × ℕ)
    → nbytes < 2 ^ 31
    → room nbytes ≡ copied + 1
    → (if copied + 1 == nbytes then (m, nbytes) else (if 32 == copied + 1 then (m, 32) else rest))
      ≡ (m, room nbytes)
last_byte m nbytes copied rest small e = elim (Bool-cases (copied + 1 == nbytes)) [
  | inl all ↦
      let last : nbytes ≡ room nbytes = omega (arith, e, (==_iff _ _).0 all) in
      rw all (ap (λ n. (m, n)) last)
  | inr some_left ↦
      let full : room nbytes ≡ 32 = ground (arith, e, some_left) in
      let at_32 : (32 == copied + 1) ≡ true = ground (arith, e, full) in
      rw (some_left, at_32) (ap (λ n. (m, n)) (omega (arith, full)))
]

-- With `suc k` bytes of room left, and `r` rounds.
copy_name_lem :
    (k r : ℕ) (m : Mem) (from to nbytes copied : ℕ)
    → nbytes < 2 ^ 31
    → room nbytes ≡ copied + suc k
    → k < r
    → copy_name r m from to nbytes copied ≡ (strncpy_from (suc k) m to from copied, room nbytes)
unfolding copy_name strncpy_from
copy_name_lem k zero m from to nbytes copied small e h = absurd (omega arith)
copy_name_lem zero (suc r) m from to nbytes copied small e h =
    elim (Bool-cases (m (from ⊕ copied) == 0)) [
      | inl nul ↦ rw nul (pad_name_lem 1 (suc r) m to nbytes copied small e (omega arith))
      | inr char ↦ rw char (
          last_byte (write m (to ⊕ copied) (m (from ⊕ copied))) nbytes copied
            (copy_name r (write m (to ⊕ copied) (m (from ⊕ copied))) from to nbytes (copied + 1))
            small e)
    ]
copy_name_lem (suc k) (suc r) m from to nbytes copied small e h =
    let within : ((copied + 1 == nbytes) ≡ false) = ground (arith, e) in
    let below : ((32 == copied + 1) ≡ false) = ground (arith, e) in
    elim (Bool-cases (m (from ⊕ copied) == 0)) [
      | inl nul ↦
          rw nul (pad_name_lem (suc (suc k)) (suc r) m to nbytes copied small e (omega arith))
      | inr char ↦
          rw (char, within, below)
            (copy_name_lem k r (write m (to ⊕ copied) (m (from ⊕ copied))) from to nbytes
              (copied + 1) small (omega (arith, e)) (omega arith))
    ]

copy_name-strncpy :
    (m : Mem) (from to nbytes : ℕ)
    → 1 ≤ nbytes
    → nbytes < 2 ^ 31
    → copy_name 32 m from to nbytes 0 ≡ (strncpy m to from (room nbytes), room nbytes)
unfolding strncpy
copy_name-strncpy m from to nbytes some_bytes small =
    let e : room nbytes ≡ suc (room nbytes - 1) = ground arith in
    let e0 : room nbytes ≡ 0 + suc (room nbytes - 1) = ground arith in
    let few : room nbytes - 1 < 32 = ground arith in
    copy_name_lem (room nbytes - 1) 32 m from to nbytes 0 small e0 few
    ∙ ap (λ n. (strncpy_from n m to from 0, room nbytes)) (sym e)

entry_copied :
    {S : Type 0} (linux_host : Linux S) (e : Emulated S) (buf nbytes from : ℕ)
    → from ≢ 0
    → 1 ≤ nbytes
    → nbytes < 2 ^ 31
    → let m = strncpy (linux_host.host_memory e.host) buf from (room nbytes) in
      read_entry linux_host from buf nbytes e
      ≡ some (record e { host = linux_host.host_set_memory e.host m }, room nbytes)
unfolding read_entry
entry_copied linux_host e buf nbytes from given some_bytes small = rw (==_false _ _ given) (
    ap (λ (p : Mem × ℕ). some (record e { host = linux_host.host_set_memory e.host (p.0) }, p.1))
      (copy_name-strncpy (linux_host.host_memory e.host) from buf nbytes some_bytes small))

-- On the descriptor of the open listing, when Linux has another entry, and for a count from 1 to
-- 2^31 - 1: `ece391_read` copies the name of the entry as `strncpy` of lib/lib.c does, up to the count
-- and up to 32 bytes, changes nothing else, and returns how many bytes it wrote.
pub read_listing :
    {S : Type 0} (linux_host : Linux S) (e : Emulated S) (s : S) (fd buf nbytes from : ℕ)
    → e.dir ≢ 0
    → e.dir_fd ≡ fd
    → linux_host.readdir e.dir e.host ≡ some (s, from)
    → from ≢ 0
    → 1 ≤ nbytes
    → nbytes < 2 ^ 31
    → let m = strncpy (linux_host.host_memory s) buf from (room nbytes) in
      ece391_read linux_host fd buf nbytes e
      ≡ some (record e { host = linux_host.host_set_memory s m }, room nbytes)
unfolding ece391_read
read_listing {S} linux_host e s fd buf nbytes from listing same entry given some_bytes small =
    rw (==_false _ _ listing, ==_true _ _ same)
      (ap
          (λ (o : Option (S × ℕ)).
            (host_call linux_host (λ h. o) >>= (λ n. read_entry linux_host n buf nbytes)) e)
          entry
        ∙ entry_copied linux_host (record e { host = s }) buf nbytes from given some_bytes small)
