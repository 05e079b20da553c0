-- ===== src/Idt/Gates.antt =====
-- init_idt and install_exceptions: where each interrupt vector leads, and from which privilege.
use linux.Base.{
  all_below, all_below_lem, ℕ, zero, suc, ◌+◌, ◌*◌, ◌^◌, ◌<◌, ◌≡◌, refl, sym, List, [], ◌∷◌, arith,
  Bool, true, false, not, ◌&&◌, ◌||◌, inl, inr, leb, ◌==◌, ==_iff, Bool-cases, if◌then◌else◌,
}
use linux.Idt.{
  IdtDesc, Idt, Handlers, num_vec, kernel_cs, write_gate, write_int_gate, write_sys_gate,
  write_trap_gate, null_gates, init_idt, install_exceptions,
}

-- How the processor reads a descriptor: the gate is present, is an interrupt gate of 32 bits (bit 0)
-- or a trap gate (bit 1), may be used by `int` from the privilege `level` on, and leads to `handler` in the code segment of the kernel.
pub record LeadsTo (d : IdtDesc) (type_bit level handler : ℕ) : Type 0 where
  pub is_present : d.present ≡ 1
  pub gate_type :
      (d.size ≡ 1)
      × (d.reserved0 ≡ 0)
      × (d.reserved1 ≡ 1)
      × (d.reserved2 ≡ 1)
      × (d.reserved3 ≡ type_bit)
  pub privilege : d.dpl ≡ level
  pub segment : d.seg_selector ≡ kernel_cs
  pub address : d.offset_31_16 * 2 ^ 16 + d.offset_15_00 ≡ handler

-- What a vector leads to.
pub record Gate : Type 0 where
  pub type_bit : ℕ
  pub level : ℕ
  pub handler : ℕ

abbrev pub Holds : IdtDesc → Gate → Type 0
Holds d g = LeadsTo d g.type_bit g.level g.handler

-- The vectors below `n` lead to the gates of the table.
abbrev IsTable : Idt → ℕ → (ℕ → Gate) → Type 0
IsTable idt n table = (k : ℕ) → k < n → Holds (idt k) (table k)

abbrev update : (ℕ → Gate) → ℕ → Gate → ℕ → Gate
update table n g k = if k == n then g else table k

gate_lem :
    (idt : Idt) (n m : ℕ) (d : IdtDesc) (table : ℕ → Gate) (g : Gate)
    → IsTable idt m table
    → Holds d g
    → IsTable (write_gate idt n d) m (update table n g)
gate_lem idt n m d table g w new k h = elim (Bool-cases (k == n)) [
  | inl same ↦ rw same new
  | inr other ↦ rw other (w k h)
]

int_gate_lem :
    (idt : Idt) (n m handler : ℕ) (table : ℕ → Gate)
    → handler < 2 ^ 32
    → IsTable idt m table
    → IsTable
        (write_int_gate idt n handler)
        m
        (update table n (record { type_bit = 0; level = 0; handler = handler }))
unfolding write_int_gate
int_gate_lem idt n m handler table h w = gate_lem idt n m _ table _ w (record {
  is_present = refl;
  gate_type = (refl, refl, refl, refl, refl);
  privilege = refl;
  segment = refl;
  address = omega arith;
})

sys_gate_lem :
    (idt : Idt) (n m handler : ℕ) (table : ℕ → Gate)
    → handler < 2 ^ 32
    → IsTable idt m table
    → IsTable
        (write_sys_gate idt n handler)
        m
        (update table n (record { type_bit = 1; level = 3; handler = handler }))
unfolding write_sys_gate
sys_gate_lem idt n m handler table h w = gate_lem idt n m _ table _ w (record {
  is_present = refl;
  gate_type = (refl, refl, refl, refl, refl);
  privilege = refl;
  segment = refl;
  address = omega arith;
})

abbrev null_gate : ℕ → Gate
null_gate handler = record { type_bit = 1; level = 0; handler = handler }

null_gates_lem :
    (r i : ℕ) (idt : Idt) (handler : ℕ)
    → handler < 2 ^ 32
    → IsTable idt i (λ k. null_gate handler)
    → IsTable (null_gates r idt i handler) (i + r) (λ k. null_gate handler)
unfolding null_gates write_trap_gate
null_gates_lem zero i idt handler h w k less = w k (omega arith)
null_gates_lem (suc r) i idt handler h w k less =
    null_gates_lem r (i + 1) (write_trap_gate idt i handler) handler h
      (λ j below. elim (Bool-cases (j == i)) [
        | inl same ↦ rw same (record {
          is_present = refl;
          gate_type = (refl, refl, refl, refl, refl);
          privilege = refl;
          segment = refl;
          address = omega arith;
        })
        | inr other ↦ rw other (w j (grind (arith, other)))
      ])
      k (omega arith)

-- Interrupt gates for a list of exceptions.
install : List ℕ → Handlers → Idt → Idt
install [] h idt = idt
install (n ∷ ns) h idt = install ns h (write_int_gate idt n (h.exception n))

abbrev exception_vectors : List ℕ
exception_vectors = 0 ∷ 1 ∷ 2 ∷ 3 ∷ 4 ∷ 5 ∷ 6 ∷ 7 ∷ 8 ∷ 10 ∷ 11 ∷ 12 ∷ 13 ∷ 14 ∷ []

install_exceptions_lem :
    (h : Handlers) (idt : Idt) → install_exceptions h idt ≡ install exception_vectors h idt
unfolding install_exceptions install
install_exceptions_lem h idt = refl

abbrev mem : ℕ → List ℕ → Bool
mem k [] = false
mem k (n ∷ ns) = (k == n) || mem k ns

abbrev exception_gate : Handlers → ℕ → Gate
exception_gate h k = record { type_bit = 0; level = 0; handler = h.exception k }

-- All handlers have addresses of 32 bits.
pub record Fits (h : Handlers) : Type 0 where
  pub null_fits : h.null_handler < 2 ^ 32
  pub pit_fits : h.pit_linkage < 2 ^ 32
  pub keyboard_fits : h.keyboard_linkage < 2 ^ 32
  pub rtc_fits : h.rtc_linkage < 2 ^ 32
  pub syscall_fits : h.syscall_linkage < 2 ^ 32
  pub exception_fits : (k : ℕ) → h.exception k < 2 ^ 32

install_lem :
    (ns : List ℕ) (h : Handlers) (idt : Idt) (m : ℕ) (table : ℕ → Gate)
    → Fits h
    → IsTable idt m table
    → IsTable (install ns h idt) m (λ k. if mem k ns then exception_gate h k else table k)
unfolding install
install_lem [] h idt m table fits w k less = w k less
install_lem (n ∷ ns) h idt m table fits w k less =
    let rest =
      install_lem ns h (write_int_gate idt n (h.exception n)) m _ fits
        (int_gate_lem idt n m (h.exception n) table (fits.exception_fits n) w) k less in
    elim (Bool-cases (mem k ns)) [
      | inl later ↦ elim (Bool-cases (k == n)) [
        | inl same ↦ rw same (rw later at rest)
        | inr other ↦ rw (other, later) (rw later at rest)
      ]
      | inr never ↦ elim (Bool-cases (k == n)) [
        | inl same ↦
            let e : k ≡ n = (==_iff k n).0 same in rw (same, e) (rw (never, same, e) at rest)
        | inr other ↦ rw (other, never) (rw (never, other) at rest)
      ]
    ]

-- The vectors of the processor's exceptions that the kernel has a handler for.
abbrev pub is_exception : ℕ → Bool
is_exception k = leb k 14 && not (k == 9)

-- The gate of each vector once the kernel has booted.
abbrev pub expected : Handlers → ℕ → Gate
expected h k =
    if is_exception k
    then record { type_bit = 0; level = 0; handler = h.exception k }
    else (if k == 0x80
        then record { type_bit = 1; level = 3; handler = h.syscall_linkage }
        else (if k == 0x28
            then record { type_bit = 0; level = 0; handler = h.rtc_linkage }
            else (if k == 0x21
                then record { type_bit = 0; level = 0; handler = h.keyboard_linkage }
                else (if k == 0x20
                    then record { type_bit = 0; level = 0; handler = h.pit_linkage }
                    else record { type_bit = 1; level = 0; handler = h.null_handler }))))

vectors_check :
    all_below num_vec
      (λ k. if mem k exception_vectors then is_exception k else not (is_exception k))
    ≡ true
unfolding all_below
vectors_check = refl

vectors_lem : (k : ℕ) → k < num_vec → mem k exception_vectors ≡ is_exception k
vectors_lem k h = same _ _ (all_below_lem num_vec _ k vectors_check h)
  where
    same : (a b : Bool) → (if a then b else not b) ≡ true → a ≡ b
    same true true e = refl
    same true false e = sym e
    same false true e = e
    same false false e = refl

init_idt_lem :
    (h : Handlers) (idt : Idt)
    → Fits h
    → IsTable (init_idt h idt) num_vec (
        update
          (update
            (update
              (update
                (λ k. null_gate h.null_handler)
                0x20
                (record { type_bit = 0; level = 0; handler = h.pit_linkage }))
              0x21
              (record { type_bit = 0; level = 0; handler = h.keyboard_linkage }))
            0x28
            (record { type_bit = 0; level = 0; handler = h.rtc_linkage }))
          0x80
          (record { type_bit = 1; level = 3; handler = h.syscall_linkage }))
unfolding init_idt
init_idt_lem h idt fits = sys_gate_lem _ 0x80 num_vec h.syscall_linkage _ fits.syscall_fits (
    int_gate_lem _ 0x28 num_vec h.rtc_linkage _ fits.rtc_fits (
      int_gate_lem _ 0x21 num_vec h.keyboard_linkage _ fits.keyboard_fits (
        int_gate_lem _ 0x20 num_vec h.pit_linkage _ fits.pit_fits (
          null_gates_lem num_vec 0 idt h.null_handler fits.null_fits
            (λ k less. absurd (omega arith))))))

-- For handlers with addresses of 32 bits and whatever the table held before: once `init_idt` and
-- `install_exceptions` have run, each of the 256 vectors has a present gate to its handler in the
-- kernel's code segment, the null handler where it has none of its own, and only the vector 0x80 can
-- be called by a user program.
pub idt_lem :
    (h : Handlers) (idt : Idt) (k : ℕ)
    → Fits h
    → k < num_vec
    → Holds (install_exceptions h (init_idt h idt) k) (expected h k)
idt_lem h idt k fits less =
    rw (install_exceptions_lem h (init_idt h idt), ← vectors_lem k less)
      (install_lem exception_vectors h (init_idt h idt) num_vec _ fits (init_idt_lem h idt fits) k
        less)
