-- ===== src/Kernel/Switching.antt =====
-- scheduler_tick of kernel/scheduling.c: the switch from one process to the next.
use linux.Base.{
  ℕ, ◌<◌, ◌≡◌, ◌≢◌, refl, sym, ap, ◌∙◌, arith, true, some, inl, inr, ◌==◌, ==_iff, ==_true,
  ==_false, Bool-cases, if_intro,
}
use linux.Tasks.{max_pid, free}
use linux.Tasks.Alloc.{usage}
use linux.Sched.{any_from, pick}
use linux.Sched.Pick.{IsRunnable, after, Picked, pick-Picked, any_from-true}
use linux.Paging.{Paging, directory_addr, paging_update_control, update_video_paging}
use linux.Line.{Terminals}
use linux.Pcb.{Pcb, get_pcb, kernel_stack}
use linux.Kernel.{Kernel, Env, pcb, set_pcb}
use linux.Kernel.Execute.{IsRunning, update_cr3}
use linux.Kernel.Started.{get_pcb-injective}
use linux.Kernel.Programs.{or_same}
use linux.Kernel.Tick.{video_page, switch_to, scheduler_tick}

-- Every scheduled task has a pid that is in use, and a control block with that pid.
pub record IsScheduled (k : Kernel) (p : ℕ) : Type 0 where
  pub below : p < max_pid
  pub alive : usage k.pids p ≢ free
  pub own : (k.pcbs (get_pcb p)).pid ≡ p

-- The state `k'` runs the process of the pid `p`, with the stack and base pointers `esp'` and `ebp'`, and the
-- process that ran in the state `k` keeps its own, `esp` and `ebp`.
pub record Switched (e : Env) (k k' : Kernel) (p esp ebp esp' ebp' : ℕ) : Type 0 where
  pub running : IsRunning e k'
  pub current_block : k'.current ≡ get_pcb p
  pub left : k'.pcbs k.current ≡ record (pcb k) { ebp_reg = ebp; esp_reg = esp }
  pub others : (a : ℕ) → a ≢ k.current → k'.pcbs a ≡ k.pcbs a
  pub registers : (esp' ≡ (k'.pcbs (get_pcb p)).esp_reg) × (ebp' ≡ (k'.pcbs (get_pcb p)).ebp_reg)
  pub stack : k'.esp0 ≡ kernel_stack p
  pub same_sched : k'.sched ≡ k.sched
  pub same_pids : k'.pids ≡ k.pids

-- Whatever the video page, the directory in use is the one of the process.
video_page-cr3 :
    (e : Env) (t : Terminals) (s : Paging) (b : Pcb)
    → s.cr3 ≡ directory_addr e.layout b.pid
    → (video_page e t s b).cr3 ≡ directory_addr e.layout b.pid
unfolding video_page update_video_paging
video_page-cr3 e t s b h =
    if_intro (λ (x : Paging). x.cr3 ≡ directory_addr e.layout b.pid) (b.vidmap == 1) _ _ (λ y. refl)
      (λ n. h)

saved_pid :
    (k : Kernel) (a esp ebp : ℕ)
    → ((set_pcb k k.current (record (pcb k) { ebp_reg = ebp; esp_reg = esp })).pcbs a).pid
      ≡ (k.pcbs a).pid
saved_pid k a esp ebp = elim (Bool-cases (a == k.current)) [
  | inl same ↦ rw (same, (==_iff a k.current).0 same) refl
  | inr other ↦ rw other refl
]

pub switch_lem :
    (e : Env) (k : Kernel) (p esp ebp : ℕ)
    → IsRunning e k
    → IsScheduled k p
    → let (k', esp', ebp') = switch_to e k p esp ebp in Switched e k k' p esp ebp esp' ebp'
unfolding switch_to
switch_lem e k p esp ebp w h =
    let own : ((set_pcb k k.current (record (pcb k) { ebp_reg = ebp; esp_reg = esp })).pcbs
          (get_pcb p)).pid
        ≡ p =
      saved_pid k (get_pcb p) esp ebp ∙ h.own in
    record {
      running = record {
        pids_size = w.pids_size;
        flags_size = w.flags_size;
        small = rw own h.below;
        in_table = rw own h.alive;
        block = rw own refl;
        directory =
            let context =
              (set_pcb k k.current (record (pcb k) { ebp_reg = ebp; esp_reg = esp })).pcbs
                (get_pcb p) in
            video_page-cr3 e k.terminals
              (or_same k.paging (paging_update_control e.layout k.paging p)) context
              (update_cr3 e.layout k.paging p h.below
                ∙ ap (λ q. directory_addr e.layout q) (sym own));
      };
      current_block = refl;
      left = rw (==_true k.current k.current refl) refl;
      others = λ a ne. rw (==_false _ _ ne) refl;
      registers = (refl, refl);
      stack = refl;
      same_sched = refl;
      same_pids = refl;
    }

-- The running process, and so any choice, can be entered.
running_lem : (e : Env) (k : Kernel) → IsRunning e k → IsScheduled k (pcb k).pid
running_lem e k w = record {
  below = w.small;
  alive = w.in_table;
  own = ap (λ a. (k.pcbs a).pid) (sym w.block);
}

picked_lem :
    (e : Env) (k : Kernel) (p : ℕ)
    → IsRunning e k
    → ((p : ℕ) → p < max_pid → IsRunnable k.sched p → IsScheduled k p)
    → Picked k.sched (pcb k).pid 1 p
    → IsScheduled k p
picked_lem e k p w all (inl (d, lo, hi, ready, first, same)) =
    rw same (all (after (pcb k).pid d) (omega arith) ready)
picked_lem e k p w all (inr (idle, same)) = rw same (running_lem e k w)

tick_steps :
    (e : Env) (garbage : ℕ) (k : Kernel) (esp ebp p : ℕ)
    → any_from max_pid 0 k.sched ≡ true
    → pick garbage (pcb k).pid k.sched ≡ some p
    → scheduler_tick e garbage k esp ebp ≡ some (switch_to e k p esp ebp)
unfolding scheduler_tick
tick_steps e garbage k esp ebp p any r = rw (any, r) refl

-- For a running process, where every scheduled task has a pid in use and its own control block, and at
-- least one task is scheduled: `scheduler_tick` ends and switches to the next scheduled task after the
-- running one, or stays with it when there is no other. The new process runs with its own page
-- directory and kernel stack, from the stack and base pointers in its control block; the old one keeps
-- its own there, and no other control block changes.
pub tick_lem :
    (e : Env) (garbage : ℕ) (k : Kernel) (esp ebp q : ℕ)
    → IsRunning e k
    → ((p : ℕ) → p < max_pid → IsRunnable k.sched p → IsScheduled k p)
    → q < max_pid
    → IsRunnable k.sched q
    → (p : ℕ) × (k' : Kernel) × (esp' : ℕ) × (ebp' : ℕ) × Picked k.sched (pcb k).pid 1 p
      × (scheduler_tick e garbage k esp ebp ≡ some (k', esp', ebp'))
      × Switched e k k' p esp ebp esp' ebp'
tick_lem e garbage k esp ebp q w all small ready =
    let (p, r, picked) = pick-Picked garbage (pcb k).pid k.sched w.small in
    let (k', esp', ebp') = switch_to e k p esp ebp in
    (
      p,
      k',
      esp',
      ebp',
      picked,
      tick_steps e garbage k esp ebp p (any_from-true max_pid 0 q k.sched (omega arith) small ready)
          r,
      switch_lem e k p esp ebp w (picked_lem e k p w all picked),
    )

-- A process that is left and entered again, with no change to its control block in between, goes on
-- with the stack and base pointers that it had.
pub switch_back :
    (e : Env) (k : Kernel) (p esp ebp esp2 ebp2 : ℕ)
    → IsRunning e k
    → IsScheduled k p
    → p ≢ (pcb k).pid
    → let (k1, sp, bp) = switch_to e k p esp ebp in
      let (k2, sp2, bp2) = switch_to e k1 (pcb k).pid esp2 ebp2 in
      (sp2 ≡ esp) × (bp2 ≡ ebp) × (k2.current ≡ k.current)
switch_back e k p esp ebp esp2 ebp2 w h ne =
    let cur = (pcb k).pid in
    let (k1, sp, bp) = switch_to e k p esp ebp in
    let s1 = switch_lem e k p esp ebp w h in
    let saved : k1.pcbs (get_pcb cur) ≡ record (pcb k) { ebp_reg = ebp; esp_reg = esp } =
      ap k1.pcbs (sym w.block) ∙ s1.left in
    let away : get_pcb cur ≢ k1.current =
      λ q. get_pcb-injective p cur h.below w.small ne (sym s1.current_block ∙ sym q) in
    let back : IsScheduled k1 cur = record {
      below = w.small;
      alive = rw s1.same_pids w.in_table;
      own = ap (λ (b : Pcb). b.pid) saved;
    } in
    let s2 = switch_lem e k1 cur esp2 ebp2 s1.running back in
    let again = s2.others (get_pcb cur) away ∙ saved in
    (
      (s2.registers).0 ∙ ap (λ (b : Pcb). b.esp_reg) again,
      (s2.registers).1 ∙ ap (λ (b : Pcb). b.ebp_reg) again,
      s2.current_block ∙ sym w.block,
    )
