-- ===== src/Sched/Start.antt =====
-- scheduling_init of kernel/scheduling.c: the flags it clears, and the byte after them.
use linux.Base.{
  ℕ, zero, suc, ◌+◌, ◌≤◌, ◌<◌, ◌≡◌, ◌⊎◌, inl, inr, refl, arith, ◌==◌, if_intro, ltb, get_or, length,
  length-set, get_or-set,
}
use linux.Tasks.{max_pid}
use linux.Sched.{Sched, store, clear_from, scheduling_init}

-- Index `p` has been cleared, or is still to come.
record Clears (s : Sched) (i r p : ℕ) : Type 0 where
  size : length s.flags ≡ max_pid
  flag : (get_or s.flags p 0 ≡ 0) ⊎ ((i ≤ p) × (p < i + r))
  last : (s.beyond ≡ 0) ⊎ ((i ≤ max_pid) × (max_pid < i + r))

store-Clears :
    (s : Sched) (i r p : ℕ)
    → p < max_pid
    → i ≤ max_pid
    → Clears s i (suc r) p
    → Clears (store s i 0) (i + 1) r p
store-Clears s i r p hp hi w =
    if_intro (λ t. Clears t (i + 1) r p) (ltb i max_pid) _ _
      (λ inside. record {
        size = omega (arith, length-set s.flags i 0, w.size);
        flag = ground (arith, w.flag, w.size, get_or-set s.flags i p 0 0);
        last = ground (arith, w.last);
      })
      (λ outside.
        if_intro (λ t. Clears t (i + 1) r p) (i == max_pid) _ _
          (λ at. record { size = w.size; flag = ground (arith, w.flag); last = inl refl })
          (λ past. absurd (grind arith)))

clear_from-Clears :
    (r i p : ℕ) (s : Sched)
    → p < max_pid
    → i + r ≤ max_pid + 1
    → Clears s i r p
    → Clears (clear_from r i s) (i + r) 0 p
unfolding clear_from
clear_from-Clears zero i p s hp hr w = record {
  size = w.size;
  flag = ground (arith, w.flag);
  last = ground (arith, w.last);
}
clear_from-Clears (suc r) i p s hp hr w =
    let e : i + suc r ≡ i + 1 + r = omega arith in
    rw e (
      clear_from-Clears r (i + 1) p (store s i 0) hp (omega arith)
        (store-Clears s i r p hp (omega arith) w))

-- For an array of 16 flags: after `scheduling_init` each flag is 0, and so is the byte that follows
-- the array in memory.
pub scheduling_init-beyond :
    (s : Sched) (p : ℕ)
    → length s.flags ≡ max_pid
    → p < max_pid
    → (get_or (scheduling_init s).flags p 0 ≡ 0) × ((scheduling_init s).beyond ≡ 0)
unfolding scheduling_init
scheduling_init-beyond s p size hp =
    let w =
      clear_from-Clears (max_pid + 1) 0 p s hp (omega arith)
        (record { size = size; flag = inr (omega arith); last = inr (omega arith) }) in
    (ground (arith, w.flag), ground (arith, w.last))

-- The array keeps its length.
pub length-scheduling_init :
    (s : Sched) → length s.flags ≡ max_pid → length (scheduling_init s).flags ≡ max_pid
unfolding scheduling_init
length-scheduling_init s size =
    (clear_from-Clears (max_pid + 1) 0 0 s (omega arith) (omega arith)
      (record { size = size; flag = inr (omega arith); last = inr (omega arith) })).size
