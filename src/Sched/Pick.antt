-- ===== src/Sched/Pick.antt =====
-- Which task the loops of scheduler_tick in kernel/scheduling.c choose.
use linux.Base.{
  ℕ, zero, suc, ◌+◌, ◌%◌, ◌≤◌, ◌<◌, ◌≡◌, ◌⊎◌, inl, inr, refl, arith, true, false, some, none, ◌==◌,
  ==_iff, ==_true, ==_false, Bool-cases, from_first, get_or,
}
use linux.Tasks.{max_pid}
use linux.Sched.{Sched, runnable, any_from, pick_from, pick, next_task}

abbrev pub IsRunnable : Sched → ℕ → Type 0
IsRunnable s p = get_or s.flags p 0 ≡ 1

-- The pid that lies `d` steps after `cur`, going round.
abbrev pub after : ℕ → ℕ → ℕ
after cur d = (cur + d) % max_pid

-- The choice from step `lo` on: the first runnable task within one round, or `cur` if none is.
abbrev pub Picked : Sched → ℕ → ℕ → ℕ → Type 0
Picked s cur lo p =
    ((d : ℕ) × (lo ≤ d)
      × (d < max_pid)
      × IsRunnable s (after cur d)
      × ((e : ℕ) → lo ≤ e → e < d → ¬ IsRunnable s (after cur e))
      × (p ≡ after cur d))
    ⊎ (((e : ℕ) → lo ≤ e → e < max_pid → ¬ IsRunnable s (after cur e)) × (p ≡ cur))

Picked-extend :
    (s : Sched) (cur lo p : ℕ)
    → ¬ IsRunnable s (after cur lo)
    → Picked s cur (lo + 1) p
    → Picked s cur lo p
Picked-extend s cur lo p idle (inl (d, a, b, c, e, r)) =
    inl (d, omega arith, b, c, from_first lo d idle e, r)
Picked-extend s cur lo p idle (inr (e, r)) = inr (from_first lo max_pid idle e, r)

after-suc : (cur d : ℕ) → (after cur d + 1) % max_pid ≡ after cur (d + 1)
after-suc cur d = omega arith

-- From step `d` on, with the fuel for the steps left and `cur` as the default.
pick_from-Picked :
    (f cur d : ℕ) (s : Sched)
    → cur < max_pid
    → 1 ≤ d
    → d ≤ max_pid
    → d + f ≡ max_pid + 1
    → (p : ℕ) × (pick_from f cur (after cur d) cur s ≡ some p) × Picked s cur d p
unfolding pick_from
pick_from-Picked zero cur d s h lo hi e = absurd (omega arith)
pick_from-Picked (suc f) cur d s h lo hi e = elim (Bool-cases (after cur d == cur)) [
  | inl home ↦ (cur, rw home, inr ((λ q a b. absurd (grind arith)), refl))
  | inr away ↦ elim (Bool-cases (runnable s (after cur d))) [
    | inl go ↦ (
      after cur d,
      rw (away, go),
      inl (d, omega arith, grind arith, (==_iff _ _).0 go, (λ q a b. absurd (omega arith)), refl),
    )
    | inr idle ↦
        let (p, r, w) =
          pick_from-Picked f cur (d + 1) s h (omega arith) (grind arith) (omega arith) in
        (p, rw (away, idle, after-suc cur d) r, Picked-extend s cur d p (λ z. cc (==_true _ _ z)) w)
  ]
]

-- For a running pid below 16, whatever is in the uninitialised `next_pid`: the second loop of
-- `scheduler_tick` ends within one round, and chooses the first runnable task after the running
-- one, or the running one if no other is runnable.
pub pick-Picked :
    (garbage cur : ℕ) (s : Sched)
    → cur < max_pid
    → (p : ℕ) × (pick garbage cur s ≡ some p) × Picked s cur 1 p
unfolding pick
pick-Picked garbage cur s h = elim (Bool-cases (runnable s (after cur 1))) [
  | inl go ↦ (
    after cur 1,
    rw (away, go),
    inl (1, omega arith, omega arith, (==_iff _ _).0 go, (λ q a b. absurd (omega arith)), refl),
  )
  | inr idle ↦
      let (p, r, w) = pick_from-Picked 15 cur 2 s h (omega arith) (omega arith) refl in
      (p, rw (away, idle, after-suc cur 1) r, Picked-extend s cur 1 p (λ z. cc (==_true _ _ z)) w)
]
  where
    away : (after cur 1 == cur) ≡ false
    away = ==_false _ _ (omega arith)

pub any_from-true :
    (r i p : ℕ) (s : Sched) → i ≤ p → p < i + r → IsRunnable s p → any_from r i s ≡ true
unfolding any_from
any_from-true zero i p s lo hi h = absurd (omega arith)
any_from-true (suc r) i p s lo hi h = elim (Bool-cases (p == i)) [
  | inl same ↦ rw (← (==_iff p i).0 same, ==_true _ _ h)
  | inr other ↦ ground (arith, any_from-true r (i + 1) p s)
]

pub any_from-false :
    (r i : ℕ) (s : Sched)
    → ((p : ℕ) → i ≤ p → p < i + r → ¬ IsRunnable s p)
    → any_from r i s ≡ false
unfolding any_from
any_from-false zero i s h = refl
any_from-false (suc r) i s h =
    rw (==_false _ _ (h i (omega arith) (omega arith)))
      (any_from-false r (i + 1) s (λ p a b. h p (omega arith) (omega arith)))

-- When the running pid is below 16 and some task is runnable, `scheduler_tick` switches to the
-- first runnable task after the running one, or to the running one if no other is runnable.
pub next_task-some :
    (garbage cur q : ℕ) (s : Sched)
    → cur < max_pid
    → q < max_pid
    → IsRunnable s q
    → (p : ℕ) × (next_task garbage cur s ≡ some p) × Picked s cur 1 p
unfolding next_task
next_task-some garbage cur q s h k ready =
    let (p, r, w) = pick-Picked garbage cur s h in
    (p, rw (any_from-true max_pid 0 q s (omega arith) k ready) r, w)

-- When no task is runnable, `scheduler_tick` makes no switch, whatever the running pid is.
pub next_task-none :
    (garbage cur : ℕ) (s : Sched)
    → ((p : ℕ) → p < max_pid → ¬ IsRunnable s p)
    → next_task garbage cur s ≡ none
unfolding next_task
next_task-none garbage cur s h = rw (any_from-false max_pid 0 s (λ p a b. h p b))
