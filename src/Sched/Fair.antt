-- ===== src/Sched/Fair.antt =====
-- Sequences of timer ticks of kernel/scheduling.c.
use linux.Base.{
  ℕ, zero, suc, ◌+◌, ◌-◌, ◌%◌, ◌≤◌, ◌<◌, ◌≡◌, ◌≢◌, inl, inr, ap, arith, Option, some, none, ◌==◌,
  ==_iff, Bool-cases,
}
use native.Mathlib.Decide.{dec_le}
use linux.Tasks.{max_pid}
use linux.Sched.{Sched, next_task}
use linux.Sched.Pick.{IsRunnable, after, Picked, next_task-some}

-- The running pid after `n` ticks, while no task is scheduled or unscheduled.
pub ticks : ℕ → ℕ → ℕ → Sched → Option ℕ
ticks zero garbage cur s = some cur
ticks (suc n) garbage cur s = elim (next_task garbage cur s) [
  | none ↦ none
  | some p ↦ ticks n garbage p s
]

-- How many steps after `cur` the pid `q` lies, going round.
abbrev distance : ℕ → ℕ → ℕ
distance cur q = (q + max_pid - cur) % max_pid

after-distance : (cur q : ℕ) → cur < max_pid → q < max_pid → after cur (distance cur q) ≡ q
after-distance cur q h k = omega arith

-- A tick at a task other than `q` comes closer to `q`, and not past it.
closer :
    (s : Sched) (cur q p : ℕ)
    → cur < max_pid
    → q < max_pid
    → IsRunnable s q
    → cur ≢ q
    → Picked s cur 1 p
    → (p < max_pid) × (distance p q < distance cur q)
closer s cur q p h k ready ne (inl (d, lo, hi, run, first, e)) = elim (dec_le d (distance cur q)) [
  | yes near ↦ (omega arith, omega arith)
  | no far ↦
      absurd
        (first (distance cur q) (omega arith) (omega arith) (rw (after-distance cur q h k) ready))
]
closer s cur q p h k ready ne (inr (idle, e)) =
    absurd (idle (distance cur q) (omega arith) (omega arith) (rw (after-distance cur q h k) ready))

reaches :
    (bound garbage cur q : ℕ) (s : Sched)
    → cur < max_pid
    → q < max_pid
    → IsRunnable s q
    → distance cur q ≤ bound
    → (n : ℕ) × (n ≤ bound) × (ticks n garbage cur s ≡ some q)
unfolding ticks
reaches zero garbage cur q s h k ready near = (0, omega arith, ap some (omega arith))
reaches (suc bound) garbage cur q s h k ready near = elim (Bool-cases (cur == q)) [
  | inl there ↦ (0, omega arith, ap some ((==_iff cur q).0 there))
  | inr away ↦
      let (p, e, w) = next_task-some garbage cur q s h k ready in
      let (in_range, nearer) = closer s cur q p h k ready (grind arith) w in
      let (n, few, r) = reaches bound garbage p q s in_range k ready (omega arith) in
      (suc n, omega arith, rw (e, ticks) r)
]

-- From any running pid below 16, while no task is scheduled or unscheduled, a runnable task below
-- 16 runs within 15 ticks.
pub ticks_reach :
    (garbage cur q : ℕ) (s : Sched)
    → cur < max_pid
    → q < max_pid
    → IsRunnable s q
    → (n : ℕ) × (n < max_pid) × (ticks n garbage cur s ≡ some q)
ticks_reach garbage cur q s h k ready =
    let (n, few, r) = reaches 15 garbage cur q s h k ready (omega arith) in (n, omega arith, r)
