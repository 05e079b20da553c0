-- ===== src/Kernel/Closing.antt =====
-- The loop of syscall_halt of kernel/syscall.c that closes the files.
use linux.Base.{
  ℕ, zero, suc, ◌+◌, ◌≤◌, ◌<◌, ◌≡◌, ◌≢◌, ◌⊎◌, refl, ap, ◌∙◌, arith, some, inl, inr, ◌==◌, ==_false,
  ==_true, Bool-cases, length, length-set, get_or-set_ne, ◌>>=◌,
}
use linux.Pcb.{rtc_driver, dir_driver, closed, descriptor, fd_max}
use linux.Kernel.{Kernel, pcb, set_pcb}
use linux.Kernel.Calls.{World, syscall_close}
use linux.Kernel.Programs.{close_from}
use linux.Kernel.Guards.{shut_at, close_other}

-- What closing descriptors of the running process keeps.
pub record Closing (k k' : Kernel) : Type 0 where
  pub same_pids : k'.pids ≡ k.pids
  pub same_sched : k'.sched ≡ k.sched
  pub same_paging : k'.paging ≡ k.paging
  pub same_current : k'.current ≡ k.current
  pub same_pid : (pcb k').pid ≡ (pcb k).pid
  pub same_size : length (pcb k').elements ≡ length (pcb k).elements
  pub same_others : (a : ℕ) → a ≢ k.current → k'.pcbs a ≡ k.pcbs a

-- A descriptor that `close` can close without harm to others.
abbrev pub IsClosable : Kernel → ℕ → Type 0
IsClosable k fd =
    ((descriptor (pcb k) fd).flags ≡ 0)
    ⊎ ((descriptor (pcb k) fd).file_operation_jmp_tbl ≡ dir_driver)
    ⊎ ((descriptor (pcb k) fd).file_operation_jmp_tbl ≡ rtc_driver)

Closing-refl : (k : Kernel) → Closing k k
Closing-refl k = record {
  same_pids = refl;
  same_sched = refl;
  same_paging = refl;
  same_current = refl;
  same_pid = refl;
  same_size = refl;
  same_others = λ a ne. refl;
}

Closing-shut :
    (k k' : Kernel) (fd : ℕ) → Closing (set_pcb k k.current (shut_at (pcb k) fd)) k' → Closing k k'
Closing-shut k k' fd c =
    let self = ==_true k.current k.current refl in
    record {
      same_pids = c.same_pids;
      same_sched = c.same_sched;
      same_paging = c.same_paging;
      same_current = c.same_current;
      same_pid = c.same_pid ∙ rw self refl;
      same_size = c.same_size ∙ rw self (length-set (pcb k).elements fd _);
      same_others = λ a ne. c.same_others a ne ∙ rw (==_false _ _ ne) refl;
    }

-- The other descriptors after one is closed.
shut-descriptor :
    (k : Kernel) (fd q : ℕ)
    → fd ≢ q
    → descriptor (pcb (set_pcb k k.current (shut_at (pcb k) fd))) q ≡ descriptor (pcb k) q
shut-descriptor k fd q ne =
    rw (==_true k.current k.current refl)
      (get_or-set_ne (pcb k).elements fd q (record (descriptor (pcb k) fd) { flags = 0 }) closed ne)

closable_lem :
    (world : World) (k : Kernel) (fd : ℕ)
    → 2 ≤ fd
    → fd < fd_max
    → length (pcb k).elements ≡ fd_max
    → (descriptor (pcb k) fd).flags ≢ 0
    → IsClosable k fd
    → syscall_close world k fd ≡ some (set_pcb k k.current (shut_at (pcb k) fd), 0)
closable_lem world k fd lo hi size active (inl shut) = absurd (active shut)
closable_lem world k fd lo hi size active (inr other) =
    close_other world k fd lo hi size active other

pub close_from_lem :
    (r i : ℕ) (world : World) (k : Kernel)
    → i + r ≡ fd_max
    → 2 ≤ i
    → length (pcb k).elements ≡ fd_max
    → ((q : ℕ) → i ≤ q → q < fd_max → IsClosable k q)
    → (k' : Kernel) × (close_from r i world k ≡ some k') × Closing k k'
unfolding close_from
close_from_lem zero i world k e lo size w = (k, refl, Closing-refl k)
close_from_lem (suc r) i world k e lo size w =
    elim (Bool-cases ((descriptor (pcb k) i).flags == 0)) [
      | inl shut ↦
          let (k', q, c) =
            close_from_lem r (i + 1) world k (omega arith) (omega arith) size
              (λ q a b. w q (omega arith) b) in
          (k', rw shut q, c)
      | inr active ↦
          let k1 = set_pcb k k.current (shut_at (pcb k) i) in
          let open_now : (descriptor (pcb k) i).flags ≢ 0 = λ z. cc (==_true _ 0 z, active) in
          let size' : length (pcb k1).elements ≡ fd_max =
            rw (==_true k.current k.current refl) (length-set (pcb k).elements i _ ∙ size) in
          let (k', q, c) =
            close_from_lem r (i + 1) world k1 (omega arith) (omega arith) size'
              (λ q a b. rw (shut-descriptor k i q (omega arith)) (w q (omega arith) b)) in
          (
            k',
            rw active (
                ap (λ o. o >>= (λ closed. close_from r (i + 1) world closed.0))
                  (closable_lem world k i lo (omega arith) size open_now
                    (w i (omega arith) (omega arith)))
                ∙ q),
            Closing-shut k k' i c,
          )
    ]
