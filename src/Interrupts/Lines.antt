-- ===== src/Interrupts/Lines.antt =====
-- drivers/i8259.c: which interrupt lines the controllers let through.
use linux.Base.{
  all_below, all_below_lem, ℕ, zero, suc, ◌+◌, ◌-◌, ◌/◌, ◌%◌, ◌^◌, ◌≤◌, ◌<◌, ◌≡◌, inl, inr, refl,
  ◌∙◌, arith, Bool, true, ltb, ◌==◌, ==_iff, ==_false, ==_true, Bool-cases, if◌then◌else◌, if_intro,
  from_first,
}
use linux.Interrupts.{
  Masks, Ports, nr_irqs, slave_irq_num, clear_bit, set_bit, enable_irq, disable_irq, disable_from,
  command_words, i8259_init,
}

-- The bit `n` of a byte.
abbrev pub bit : ℕ → ℕ → ℕ
bit b n = b / 2 ^ n % 2

-- The mask bit of a line: 1 where the controllers hold it back.
abbrev pub masked : Masks → ℕ → ℕ
masked m irq = if ltb irq 8 then bit m.master irq else bit m.slave (irq - 8)

pub record IsByteMasks (m : Masks) : Type 0 where
  pub master_byte : m.master < 256
  pub slave_byte : m.slave < 256

-- All bytes, all lines of one controller, and all bits of the result.
clears : ℕ → Bool
clears b =
    all_below 8 (λ n. all_below 8 (λ k. bit (clear_bit b n) k == (if k == n then 0 else bit b k)))

sets : ℕ → Bool
sets b =
    all_below 8 (λ n. all_below 8 (λ k. bit (set_bit b n) k == (if k == n then 1 else bit b k)))

clears_check : all_below 256 clears ≡ true
unfolding all_below clears
clears_check = refl

sets_check : all_below 256 sets ≡ true
unfolding all_below sets
sets_check = refl

clear_bit_lem :
    (b n k : ℕ) → b < 256 → n < 8 → k < 8 → bit (clear_bit b n) k ≡ (if k == n then 0 else bit b k)
unfolding clears
clear_bit_lem b n k hb hn hk =
    let byte = all_below_lem 256 clears b clears_check hb in
    let line = all_below_lem 8 _ n byte hn in (==_iff _ _).0 (all_below_lem 8 _ k line hk)

set_bit_lem :
    (b n k : ℕ) → b < 256 → n < 8 → k < 8 → bit (set_bit b n) k ≡ (if k == n then 1 else bit b k)
unfolding sets
set_bit_lem b n k hb hn hk =
    let byte = all_below_lem 256 sets b sets_check hb in
    let line = all_below_lem 8 _ n byte hn in (==_iff _ _).0 (all_below_lem 8 _ k line hk)

-- The line `irq` has the mask bit `v` and every other line the one it had.
abbrev pub OnlyChanges : Masks → Masks → ℕ → ℕ → Type 0
OnlyChanges m m' irq v =
    IsByteMasks m' × ((k : ℕ) → k < nr_irqs → masked m' k ≡ (if k == irq then v else masked m k))

master_lem :
    (m : Masks) (irq v x : ℕ)
    → IsByteMasks m
    → irq < 8
    → v < 256
    → ((k : ℕ) → k < 8 → bit v k ≡ (if k == irq then x else bit m.master k))
    → OnlyChanges m (record m { master = v }) irq x
master_lem m irq v x w h hv bits = (
  record { master_byte = hv; slave_byte = w.slave_byte },
  λ k hk. elim (Bool-cases (ltb k 8)) [
    | inl low ↦ rw low (bits k (grind (arith, low)))
    | inr high ↦ rw (high, ==_false k irq (grind (arith, high))) refl
  ],
)

slave_lem :
    (m : Masks) (irq v x : ℕ)
    → IsByteMasks m
    → 8 ≤ irq
    → irq < nr_irqs
    → v < 256
    → ((k : ℕ) → k < 8 → bit v k ≡ (if k == irq - 8 then x else bit m.slave k))
    → OnlyChanges m (record m { slave = v }) irq x
slave_lem m irq v x w h h' hv bits = (
  record { master_byte = w.master_byte; slave_byte = hv },
  λ k hk. elim (Bool-cases (ltb k 8)) [
    | inl low ↦ rw (low, ==_false k irq (grind (arith, low))) refl
    | inr high ↦
        let shift : (k - 8 == irq - 8) ≡ (k == irq) = ground arith in
        rw (high, ← shift) (bits (k - 8) (omega arith))
  ],
)

-- For masks of one byte and a line below 16: `enable_irq` lets the line through and leaves all
-- others as they are.
pub enable_irq_lem :
    (m : Masks) (irq : ℕ) (ports : Ports)
    → IsByteMasks m
    → irq < nr_irqs
    → OnlyChanges m ((enable_irq irq m ports).0) irq 0
unfolding enable_irq
enable_irq_lem m irq ports w h =
    if_intro (λ (r : Masks × Ports). OnlyChanges m (r.0) irq 0) (ltb irq 8) _ _
      (λ low.
        let low' : irq < 8 = grind (arith, low) in
        master_lem m irq _ 0 w low' (omega arith)
          (λ k. clear_bit_lem m.master irq k w.master_byte low'))
      (λ high.
        let high' : 8 ≤ irq = grind (arith, high) in
        slave_lem m irq _ 0 w high' h (omega arith)
          (λ k. clear_bit_lem m.slave (irq - 8) k w.slave_byte (omega arith)))

-- For masks of one byte and a line below 16: `disable_irq` holds the line back and leaves all others
-- as they are.
pub disable_irq_lem :
    (m : Masks) (irq : ℕ) (ports : Ports)
    → IsByteMasks m
    → irq < nr_irqs
    → OnlyChanges m ((disable_irq irq m ports).0) irq 1
unfolding disable_irq
disable_irq_lem m irq ports w h =
    if_intro (λ (r : Masks × Ports). OnlyChanges m (r.0) irq 1) (ltb irq 8) _ _
      (λ low.
        let low' : irq < 8 = grind (arith, low) in
        master_lem m irq _ 1 w low' (omega arith)
          (λ k. set_bit_lem m.master irq k w.master_byte low'))
      (λ high.
        let high' : 8 ≤ irq = grind (arith, high) in
        slave_lem m irq _ 1 w high' h (omega arith)
          (λ k. set_bit_lem m.slave (irq - 8) k w.slave_byte (omega arith)))

disable_from_lem :
    (r i : ℕ) (m : Masks) (ports : Ports)
    → IsByteMasks m
    → i + r ≤ nr_irqs
    → IsByteMasks ((disable_from r i m ports).0)
      × ((k : ℕ) → i ≤ k → k < i + r → masked ((disable_from r i m ports).0) k ≡ 1)
      × ((k : ℕ) → k < i → masked ((disable_from r i m ports).0) k ≡ masked m k)
unfolding disable_from
disable_from_lem zero i m ports w h = (w, λ k a b. absurd (omega arith), λ k a. refl)
disable_from_lem (suc r) i m ports w h =
    let m' = (disable_irq i m ports).0 in
    let (w', only) = disable_irq_lem m i ports w (omega arith) in
    let (w'', later, earlier) =
      disable_from_lem r (i + 1) m' (disable_irq i m ports).1 w' (omega arith) in
    (
      w'',
      from_first i (i + suc r)
          (earlier i (omega arith) ∙ only i (omega arith) ∙ rw (==_true i i refl) refl)
          (λ k a b. later k a (omega arith)),
      λ k a. earlier k (omega arith) ∙ only k (omega arith) ∙ rw (==_false k i (omega arith)) refl,
    )

pub i8259_init-IsByteMasks :
    (m : Masks) (ports : Ports) → IsByteMasks m → IsByteMasks ((i8259_init m ports).0)
unfolding i8259_init
i8259_init-IsByteMasks m ports w =
    let (w', all, before) = disable_from_lem 16 0 m (command_words ports) w (omega arith) in
    (enable_irq_lem ((disable_from 16 0 m (command_words ports)).0) 2
      ((disable_from 16 0 m (command_words ports)).1) w' (omega arith)).0

-- For masks of one byte: after `i8259_init`, of the 16 lines only line 2 is let through, the one of
-- the second controller.
pub i8259_init_lem :
    (m : Masks) (ports : Ports) (k : ℕ)
    → IsByteMasks m
    → k < nr_irqs
    → masked ((i8259_init m ports).0) k ≡ (if k == slave_irq_num then 0 else 1)
unfolding i8259_init
i8259_init_lem m ports k w h =
    let (w', all, before) = disable_from_lem 16 0 m (command_words ports) w (omega arith) in
    let m' = (disable_from 16 0 m (command_words ports)).0 in
    (enable_irq_lem m' 2 ((disable_from 16 0 m (command_words ports)).1) w' (omega arith)).1 k h
    ∙ rw (all k (omega arith) (omega arith)) refl
