-- ===== src/Tasks/History.antt =====
-- Sequences of calls of kernel/tasks.c, with the holders of each pid.
use linux.Base.{
  ℕ, ◌+◌, ◌≤◌, ◌<◌, ◌≡◌, ◌≢◌, sym, inl, inr, refl, arith, List, [], ◌∷◌, ◌==◌, ==_false,
  if◌then◌else◌, length, get_or-set, get_or-set_self, get_or-set_ne, length-set,
}
use linux.Tasks.{
  PidTable, max_pid, free, in_use, no_pid, boot_table, init_tasks, tasks_pid_new, tasks_pid_free,
}
use linux.Tasks.Alloc.{usage, tasks_pid_new-Scanned, init_tasks_frees, length-pid_free}

pub data Call : Type 0 where
  news : Call
  frees : ℕ → Call

-- The table, and how many processes hold each pid: a pid that `tasks_pid_new` returns gains a
-- holder, and one that is freed loses those it has.
pub record History : Type 0 where
  pub table : PidTable
  pub holders : ℕ → ℕ

abbrev holds : (ℕ → ℕ) → ℕ → ℕ → ℕ → ℕ
holds h p n q = if q == p then n else h q

unfoldable pub step : History → Call → History
step s news =
    let (t, p) = tasks_pid_new s.table in
    if p == no_pid
    then record { table = t; holders = s.holders }
    else record { table = t; holders = holds s.holders p (s.holders p + 1) }
step s (frees p) = record { table = tasks_pid_free s.table p; holders = holds s.holders p 0 }

unfoldable pub run : History → List Call → History
run s [] = s
run s (c ∷ cs) = run (step s c) cs

pub record IsValid (s : History) : Type 0 where
  pub size : length s.table ≡ max_pid
  pub held : (p : ℕ) → 1 ≤ p → p < max_pid → (s.holders p ≡ usage s.table p) × (usage s.table p ≤ 1)
  pub outside : (p : ℕ) → max_pid ≤ p → s.holders p ≡ 0
  pub first : s.holders 0 ≡ 0

step-IsValid : (s : History) (c : Call) → IsValid s → IsValid (step s c)
unfolding step tasks_pid_free
step-IsValid s news v = elim (tasks_pid_new-Scanned s.table) [
  | inl (p, lo, hi, z, _, e) ↦ rw e (
      rw (==_false p no_pid (omega arith)) (record {
        size = omega (arith, v.size, length-set s.table p in_use);
        held = λ q a b. grind (arith, v.held q a b, get_or-set s.table p q in_use free, v.size);
        outside = λ q h. grind (arith, v.outside q h);
        first = grind (arith, v.first);
      }))
  | inr (_, e) ↦ rw e v
]
step-IsValid s (frees p) v = record {
  size = omega (arith, v.size, length-pid_free s.table p);
  held = λ q a b. grind (
    arith,
    v.held q a b,
    v.size,
    get_or-set_self s.table p free free,
    get_or-set_ne s.table p q free free,
  );
  outside = λ q h. grind (arith, v.outside q h);
  first = grind (arith, v.first);
}

run_keeps : (s : History) (cs : List Call) → IsValid s → IsValid (run s cs)
unfolding run
run_keeps s [] v = v
run_keeps s (c ∷ cs) v = run_keeps (step s c) cs (step-IsValid s c v)

abbrev pub boot : History
boot = record { table = init_tasks boot_table; holders = λ _. 0 }

boot-IsValid : IsValid boot
unfolding init_tasks
boot-IsValid = record {
  size = refl;
  held = λ q a b. (
    sym (init_tasks_frees boot_table q refl a b),
    rw (init_tasks_frees boot_table q refl a b) (omega arith),
  );
  outside = λ q h. refl;
  first = refl;
}

-- After any sequence of `tasks_pid_new` and `tasks_pid_free` calls from boot, each pid from 1 to 15
-- has one holder or none, as its entry of the table says, and no other number has a holder.
pub run-IsValid : (cs : List Call) → IsValid (run boot cs)
run-IsValid cs = run_keeps boot cs boot-IsValid

-- After any sequence of `tasks_pid_new` and `tasks_pid_free` calls from boot, a pid that
-- `tasks_pid_new` then returns, unless it is the 16-bit -1, had no holder before.
pub pid_new_fresh :
    (cs : List Call) (p : ℕ)
    → (tasks_pid_new (run boot cs).table).1 ≡ p
    → p ≢ no_pid
    → (run boot cs).holders p ≡ 0
pid_new_fresh cs p e ne = elim (tasks_pid_new-Scanned (run boot cs).table) [
  | inl (q, lo, hi, z, _, r) ↦ grind (arith, (run-IsValid cs).held p, r)
  | inr (_, r) ↦ absurd (ne (cc))
]
