-- ===== src/Pcb/Files.antt =====
-- The file descriptors of kernel/pcb.c: which one `pcb_open` takes, and what it leaves alone.
use linux.Base.{
  ℕ, zero, suc, ◌+◌, ◌-◌, ◌≤◌, ◌<◌, ◌≡◌, ◌≢◌, ◌⊎◌, inl, inr, refl, arith, List, ◌==◌, ==_iff,
  ==_true, leb-false, ltb, true, false, Bool-cases, from_first, if◌then◌else◌, length, get_or, set,
  length-set, get_or-set, get_or-set_self, get_or-set_ne, sym, ◌∙◌,
}
use linux.Pcb.{
  Driver, terminal_driver, FileDescriptor, Pcb, closed, descriptor, set_descriptor, fd_max,
  minus_one, clear_from, pcb_init, open_from, pcb_open, pcb_close,
}

abbrev pub IsOpen : Pcb → ℕ → Type 0
IsOpen p fd = (descriptor p fd).flags ≢ 0

abbrev pub fresh : Driver → FileDescriptor
fresh table = record { file_operation_jmp_tbl = table; inode_ptr = 0; file_position = 0; flags = 1 }

-- What a search of the descriptors `lo` to `hi - 1` can return.
abbrev pub Opened : Pcb → Driver → ℕ → ℕ → Pcb × ℕ → Type 0
Opened p table lo hi r =
    ((fd : ℕ) × (lo ≤ fd)
      × (fd < hi)
      × ((descriptor p fd).flags ≡ 0)
      × ((q : ℕ) → lo ≤ q → q < fd → IsOpen p q)
      × (r ≡ (set_descriptor p fd (fresh table), fd)))
    ⊎ (((q : ℕ) → lo ≤ q → q < hi → IsOpen p q) × (r ≡ (p, minus_one)))

Opened-extend :
    (p : Pcb) (table : Driver) (lo hi : ℕ) (r : Pcb × ℕ)
    → IsOpen p lo
    → Opened p table (lo + 1) hi r
    → Opened p table lo hi r
Opened-extend p table lo hi r taken (inl (fd, a, b, c, d, e)) =
    inl (fd, omega arith, b, c, from_first lo fd taken d, e)
Opened-extend p table lo hi r taken (inr (d, e)) = inr (from_first lo hi taken d, e)

open_from-Opened :
    (r i hi : ℕ) (table : Driver) (p : Pcb)
    → i + r ≡ hi
    → Opened p table i hi (open_from r i table p)
unfolding open_from
open_from-Opened zero i hi table p e = inr (λ q h k. absurd (omega arith), refl)
open_from-Opened (suc r) i hi table p e = elim (Bool-cases ((descriptor p i).flags == 0)) [
  | inl free ↦
      inl
        (i, omega arith, omega arith, (==_iff _ _).0 free, (λ q h k. absurd (omega arith)), rw free)
  | inr taken ↦ rw taken (
      Opened-extend p table i hi _ (λ z. cc (==_true _ _ z))
        (open_from-Opened r (i + 1) hi table p (omega arith)))
]

-- `pcb_open` takes the least closed descriptor from 2 to 7, gives it the table, position 0 and no
-- inode, and changes nothing else; it returns -1 and changes nothing when all six are open.
pub pcb_open-Opened : (p : Pcb) (table : Driver) → Opened p table 2 fd_max (pcb_open p table)
unfolding pcb_open
pcb_open-Opened p table = open_from-Opened (fd_max - 2) 2 fd_max table p refl

pub descriptor-set :
    (p : Pcb) (fd q : ℕ) (d : FileDescriptor)
    → fd < length p.elements
    → descriptor (set_descriptor p fd d) q ≡ (if q == fd then d else descriptor p q)
descriptor-set p fd q d h = get_or-set p.elements fd q d closed h

pub pcb_close_open :
    (p : Pcb) (fd : ℕ)
    → fd < fd_max
    → pcb_close p fd ≡ (set_descriptor p fd (record (descriptor p fd) { flags = 0 }), 0)
unfolding pcb_close
pcb_close_open p fd h = rw (leb-false fd_max fd h)

-- For a block of eight descriptors with one left to open, and a number other than the one that
-- `pcb_open` returns: the descriptor returned is open, `pcb_close` closes it with status 0, and
-- the descriptor of that number is as it was before the two calls.
pub pcb_close-pcb_open :
    (p : Pcb) (table : Driver) (q : ℕ)
    → length p.elements ≡ fd_max
    → (pcb_open p table).1 ≢ minus_one
    → q ≢ (pcb_open p table).1
    → let (p', fd) = pcb_open p table in
      let (p'', status) = pcb_close p' fd in
      IsOpen p' fd
      × (status ≡ 0)
      × ((descriptor p'' fd).flags ≡ 0)
      × (descriptor p'' q ≡ descriptor p q)
pcb_close-pcb_open p table q size ok apart = elim (pcb_open-Opened p table) [
  | inl (fd, lo, hi, z, _, e) ↦
      rw (e, pcb_close_open (set_descriptor p fd (fresh table)) fd hi)
        (
          (λ shut. absurd (
              omega (
                arith,
                rw (get_or-set_self p.elements fd (fresh table) closed (omega arith)) at shut,
              ))),
          refl,
          rw (
              get_or-set_self (set p.elements fd (fresh table)) fd _ closed
                (omega (arith, length-set p.elements fd (fresh table)))),
          get_or-set_ne (set p.elements fd (fresh table)) fd q _ closed (λ s. apart (rw e (sym s)))
              ∙ get_or-set_ne p.elements fd q (fresh table) closed (λ s. apart (rw e (sym s))),
        )
  | inr (_, e) ↦ absurd (ok (rw e))
]

clear_from-length : (r i : ℕ) (ds : List FileDescriptor) → length (clear_from r i ds) ≡ length ds
unfolding clear_from
clear_from-length zero i ds = refl
clear_from-length (suc r) i ds =
    clear_from-length r (i + 1) (set ds i closed) ∙ length-set ds i closed

clear_from-closes :
    (r i : ℕ) (ds : List FileDescriptor) (fd : ℕ)
    → i + r ≤ length ds
    → (get_or ds fd closed ≡ closed) ⊎ ((i ≤ fd) × (fd < i + r))
    → get_or (clear_from r i ds) fd closed ≡ closed
unfolding clear_from
clear_from-closes zero i ds fd h (inl z) = z
clear_from-closes zero i ds fd h (inr k) = absurd (omega arith)
clear_from-closes (suc r) i ds fd h c =
    clear_from-closes r (i + 1) (set ds i closed) fd (omega (arith, length-set ds i closed))
      (shut (Bool-cases (fd == i)))
  where
    shut :
        ((fd == i) ≡ true) ⊎ ((fd == i) ≡ false)
        → (get_or (set ds i closed) fd closed ≡ closed) ⊎ ((i + 1 ≤ fd) × (fd < i + 1 + r))
    shut (inl same) =
        inl (rw ((==_iff fd i).0 same) (get_or-set_self ds i closed closed (omega arith)))
    shut (inr other) = grind (arith, c, get_or-set_ne ds i fd closed closed)

abbrev console : FileDescriptor
console = fresh terminal_driver

-- For a block of eight descriptors, `pcb_init` attaches descriptors 0 and 1 to the terminal and
-- closes the six others.
pub pcb_init_lem :
    (p : Pcb) (fd : ℕ)
    → length p.elements ≡ fd_max
    → fd < fd_max
    → descriptor (pcb_init p) fd ≡ (if ltb fd 2 then console else closed)
unfolding pcb_init
pcb_init_lem p fd size h = grind (
  arith,
  clear_from-closes fd_max 0 p.elements,
  clear_from-length fd_max 0 p.elements,
  get_or-set,
  length-set,
)

pub length-pcb_init : (p : Pcb) → length (pcb_init p).elements ≡ length p.elements
unfolding pcb_init
length-pcb_init p = grind (arith, clear_from-length fd_max 0 p.elements, length-set)
