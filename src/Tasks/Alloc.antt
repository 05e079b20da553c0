-- ===== src/Tasks/Alloc.antt =====
-- tasks_pid_new of kernel/tasks.c: which pid it hands out, and what it leaves alone.
use linux.Base.{
  ℕ, zero, suc, ◌+◌, ◌≤◌, ◌<◌, ◌≡◌, ◌∙◌, ◌≢◌, ◌⊎◌, inl, inr, refl, arith, true, false, ◌-◌, ◌==◌,
  ==_iff, ==_true, Bool-cases, from_first, length, get_or, set, length-set, get_or-set_self,
  get_or-set_ne,
}
use linux.Tasks.{
  PidTable, max_pid, free, in_use, no_pid, init_from, init_tasks, pid_new_from, tasks_pid_new,
  tasks_pid_free,
}

abbrev pub usage : PidTable → ℕ → ℕ
usage t p = get_or t p free

-- What a scan of the pids `lo` to `hi - 1` can return.
abbrev pub Scanned : PidTable → ℕ → ℕ → PidTable × ℕ → Type 0
Scanned t lo hi r =
    ((p : ℕ) × (lo ≤ p)
      × (p < hi)
      × (usage t p ≡ free)
      × ((q : ℕ) → lo ≤ q → q < p → usage t q ≢ free)
      × (r ≡ (set t p in_use, p)))
    ⊎ (((q : ℕ) → lo ≤ q → q < hi → usage t q ≢ free) × (r ≡ (t, no_pid)))

-- A scan that fails at `lo` goes on from the next pid.
Scanned-extend :
    (t : PidTable) (lo hi : ℕ) (r : PidTable × ℕ)
    → usage t lo ≢ free
    → Scanned t (lo + 1) hi r
    → Scanned t lo hi r
Scanned-extend t lo hi r ne (inl (p, a, b, c, d, e)) =
    inl (p, omega arith, b, c, from_first lo p ne d, e)
Scanned-extend t lo hi r ne (inr (d, e)) = inr (from_first lo hi ne d, e)

pid_new_from-Scanned :
    (r i hi : ℕ) (t : PidTable) → i + r ≡ hi → Scanned t i hi (pid_new_from r i t)
unfolding pid_new_from
pid_new_from-Scanned zero i hi t e = inr (λ q h k. absurd (omega arith), refl)
pid_new_from-Scanned (suc r) i hi t e = elim (Bool-cases (usage t i == free)) [
  | inl hit ↦
      inl (i, omega arith, omega arith, (==_iff _ _).0 hit, (λ q h k. absurd (omega arith)), rw hit)
  | inr miss ↦ rw miss (
      Scanned-extend t i hi _ (λ z. cc (==_true _ _ z))
        (pid_new_from-Scanned r (i + 1) hi t (omega arith)))
]

-- `tasks_pid_new` hands out the least free pid from 1 to 15 and marks that entry alone; it returns
-- the 16-bit -1 and leaves the table as it was exactly when no such pid is free.
pub tasks_pid_new-Scanned : (t : PidTable) → Scanned t 1 max_pid (tasks_pid_new t)
unfolding tasks_pid_new
tasks_pid_new-Scanned t = pid_new_from-Scanned (max_pid - 1) 1 max_pid t refl

module _ (t : PidTable) (p q : ℕ) where
  pub usage-free_self : p < length t → usage (tasks_pid_free t p) p ≡ free
  unfolding tasks_pid_free
  usage-free_self h = get_or-set_self t p free free h

  pub usage-free_ne : p ≢ q → usage (tasks_pid_free t p) q ≡ usage t q
  unfolding tasks_pid_free
  usage-free_ne h = get_or-set_ne t p q free free h

pub length-pid_new : (t : PidTable) → length (tasks_pid_new t).0 ≡ length t
length-pid_new t = elim (tasks_pid_new-Scanned t) [
  | inl (p, _, _, _, _, e) ↦ rw e (length-set t p in_use)
  | inr (_, e) ↦ rw e
]

pub length-pid_free : (t : PidTable) (p : ℕ) → length (tasks_pid_free t p) ≡ length t
unfolding tasks_pid_free
length-pid_free t p = length-set t p free

init_from_frees :
    (r i : ℕ) (t : PidTable) (p : ℕ)
    → i + r ≤ length t
    → (usage t p ≡ free) ⊎ ((i ≤ p) × (p < i + r))
    → usage (init_from r i t) p ≡ free
unfolding init_from
init_from_frees zero i t p h (inl z) = z
init_from_frees zero i t p h (inr k) = absurd (omega arith)
init_from_frees (suc r) i t p h c =
    init_from_frees r (i + 1) (set t i free) p (omega (arith, length-set t i free))
      (freed (Bool-cases (p == i)))
  where
    freed :
        ((p == i) ≡ true) ⊎ ((p == i) ≡ false)
        → (usage (set t i free) p ≡ free) ⊎ ((i + 1 ≤ p) × (p < i + 1 + r))
    freed (inl same) = inl (rw ((==_iff p i).0 same) (get_or-set_self t i free free (omega arith)))
    freed (inr other) = grind (arith, c, get_or-set_ne t i p free free)

-- After `init_tasks` every pid from 1 to 15 is free.
pub init_tasks_frees :
    (t : PidTable) (p : ℕ)
    → length t ≡ max_pid
    → 1 ≤ p
    → p < max_pid
    → usage (init_tasks t) p ≡ free
unfolding init_tasks
init_tasks_frees t p h lo hi = init_from_frees (max_pid - 1) 1 t p (omega arith) (inr (lo, hi))

length-init_from : (r i : ℕ) (t : PidTable) → length (init_from r i t) ≡ length t
unfolding init_from
length-init_from zero i t = refl
length-init_from (suc r) i t = length-init_from r (i + 1) (set t i free) ∙ length-set t i free

pub length-init_tasks : (t : PidTable) → length (init_tasks t) ≡ length t
unfolding init_tasks
length-init_tasks t = length-init_from (max_pid - 1) 1 t
