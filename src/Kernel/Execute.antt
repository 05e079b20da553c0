-- ===== src/Kernel/Execute.antt =====
-- syscall_execute of kernel/syscall.c: what it leaves when it fails, and when it starts a program.
use linux.Base.{
  ℕ, zero, suc, ◌≤◌, ◌<◌, ◌≡◌, ◌≢◌, refl, sym, ap, ◌∙◌, arith, Bool, false, not, ◌&&◌, List, [],
  ◌∷◌, some, inl, inr, ltb-true, ◌==◌, ==_iff, ==_true, Bool-cases, if◌then◌else◌, get_or, set,
  length,
}
use linux.Memory.{Mem, ◌⊕◌, load32}
use linux.Tasks.{PidTable, max_pid, free, in_use, no_pid, tasks_pid_new, tasks_pid_free}
use linux.Tasks.Alloc.{usage, tasks_pid_new-Scanned}
use linux.Paging.{Paging, Layout, directory_addr, paging_allocate, paging_update_control}
use linux.Pcb.{minus_one, get_pcb}
use linux.Fs.{inode_index_at, read_dentry_by_name}
use linux.Fs.Loading.{executable_check, loader}
use linux.Kernel.{Kernel, Env, Frame, memory, set_memory, pcb}
use linux.Kernel.Command.{parse}
use linux.Kernel.Programs.{
  Prepared, failed, or_same, enter_pages, loader_result, load_program, take_pid, find_program,
  parsed_command, prepare, fill_args,
}

-- The state keeps everything but the memory.
pub record Kept (k k' : Kernel) : Type 0 where
  pub same_sched : k'.sched ≡ k.sched
  pub same_rtc : k'.rtc ≡ k.rtc
  pub same_pcbs : k'.pcbs ≡ k.pcbs
  pub same_current : k'.current ≡ k.current
  pub same_esp0 : k'.esp0 ≡ k.esp0
  pub same_terminals : k'.terminals.term_data_array ≡ k.terminals.term_data_array

-- It also has the same pids, and the same page directory is in use.
pub record Untouched (k k' : Kernel) : Type 0 where
  pub kept : Kept k k'
  pub same_pids : k'.pids ≡ k.pids
  pub same_directory : k'.paging.cr3 ≡ k.paging.cr3

-- The results of the steps of `syscall_execute` on a command, each of which ends.
pub record Steps (e : Env) (l : Frame) (k : Kernel) (command : ℕ) : Type 0 where
  pub line : Mem
  pub parses : parse e.fuel l (memory k) command ≡ some (some line)
  pub found : Mem × ℕ
  pub finds : read_dentry_by_name e.fuel e.fs line l.fname l.dentry ≡ some found
  pub checked : Mem × ℕ
  pub checks :
      executable_check e.fs found.0 (load32 found.0 (l.dentry ⊕ inode_index_at)) l.magic_buf
      ≡ checked
  pub pids : PidTable
  pub pid : ℕ
  pub takes : tasks_pid_new k.pids ≡ (pids, pid)
  pub load : Mem × ℕ
  pub loads : loader e.fuel e.fs checked.0 l.dentry l.entry_point l.fname ≡ some load
  pub args : List ℕ
  pub fills : fill_args e.fuel load.0 l.fargs 0 (k.pcbs (get_pcb pid)).args ≡ some args

-- They lead to a program.
abbrev pub succeeds : {e : Env} {l : Frame} {k : Kernel} {command : ℕ} → Steps e l k command → Bool
succeeds s =
    (s.found.1 == 0) && (s.checked.1 == 0) && not (s.pid == no_pid) && not (s.load.1 == minus_one)

-- Freeing a pid that was free before it was taken.
pub set_back : (t : PidTable) (i v d : ℕ) → get_or t i d ≡ d → set (set t i v) i d ≡ t
set_back [] i v d e = refl
set_back (x ∷ t) zero v d e = ap (λ y. y ∷ t) (sym e)
set_back (x ∷ t) (suc i) v d e = ap (λ y. x ∷ y) (set_back t i v d e)

-- A pid that was handed out is free in the table before, and its entry alone is marked.
pub taken_lem :
    (t t' : PidTable) (p : ℕ)
    → tasks_pid_new t ≡ (t', p)
    → p ≢ no_pid
    → (1 ≤ p) × (p < max_pid) × (usage t p ≡ free) × (t' ≡ set t p in_use)
taken_lem t t' p e ne = elim (tasks_pid_new-Scanned t) [
  | inl (q, lo, hi, f, first, r) ↦
      let same = ap (λ x. x.1) (sym e ∙ r) in
      let tables = ap (λ x. x.0) (sym e ∙ r) in
      (rw same lo, rw same hi, rw same f, rw (same) tables)
  | inr (full, r) ↦ absurd (ne (ap (λ x. x.1) (sym e ∙ r)))
]

full_lem : (t t' : PidTable) (p : ℕ) → tasks_pid_new t ≡ (t', p) → p ≡ no_pid → t' ≡ t
full_lem t t' p e full = elim (tasks_pid_new-Scanned t) [
  | inl (q, lo, hi, f, first, r) ↦ let same = ap (λ x. x.1) (sym e ∙ r) in absurd (omega arith)
  | inr (all, r) ↦ ap (λ x. x.0) (sym e ∙ r)
]

pub freed_lem :
    (t t' : PidTable) (p : ℕ) → tasks_pid_new t ≡ (t', p) → p ≢ no_pid → tasks_pid_free t' p ≡ t
unfolding tasks_pid_free
freed_lem t t' p e ne =
    let (lo, hi, f, same) = taken_lem t t' p e ne in rw same (set_back t p in_use free f)

-- The running process is the one whose control block and page directory are in use, and has a pid of
-- its own; the tables have an entry for each pid.
pub record IsRunning (e : Env) (k : Kernel) : Type 0 where
  pub pids_size : length k.pids ≡ max_pid
  pub flags_size : length k.sched.flags ≡ max_pid
  pub small : (pcb k).pid < max_pid
  pub in_table : usage k.pids (pcb k).pid ≢ free
  pub block : k.current ≡ get_pcb (pcb k).pid
  pub directory : k.paging.cr3 ≡ directory_addr e.layout (pcb k).pid

pub update_cr3 :
    (l : Layout) (s : Paging) (pid : ℕ)
    → pid < max_pid
    → (or_same s (paging_update_control l s pid)).cr3 ≡ directory_addr l pid
unfolding or_same paging_update_control
update_cr3 l s pid h = rw (ltb-true pid max_pid h) refl

pub enter_cr3 :
    (l : Layout) (s : Paging) (pid : ℕ)
    → pid < max_pid
    → (enter_pages l s pid).cr3 ≡ directory_addr l pid
unfolding enter_pages
enter_cr3 l s pid h = update_cr3 l (or_same s (paging_allocate l s pid)) pid h

pub Kept-memory :
    (k : Kernel) (m : Mem) (t : PidTable) (p : Paging)
    → Kept k (set_memory (record k { pids = t; paging = p }) m)
Kept-memory k m t p = record {
  same_sched = refl;
  same_rtc = refl;
  same_pcbs = refl;
  same_current = refl;
  same_esp0 = refl;
  same_terminals = refl;
}

module _ (e : Env) (l : Frame) (k : Kernel) (command : ℕ) (s : Steps e l k command) where
  -- The state when the program is loaded, or not.
  unfoldable pub after_loader : Kernel × Prepared
  after_loader =
      loader_result e
        (set_memory (record k { pids = s.pids; paging = enter_pages e.layout k.paging s.pid })
          s.load.0)
        s.pid s.load.1

  unfoldable pub prepared : Kernel × Prepared
  prepared =
      if not (s.found.1 == 0)
      then (set_memory k s.found.0, failed)
      else (if not (s.checked.1 == 0)
          then (set_memory k s.checked.0, failed)
          else (if s.pid == no_pid
              then (set_memory (record k { pids = s.pids }) s.checked.0, failed)
              else after_loader))

  pub prepare_lem : prepare e l k command ≡ some prepared
  unfolding prepare parsed_command find_program take_pid load_program prepared after_loader
  prepare_lem =
      rw (s.parses, s.finds)
        (elim (Bool-cases (s.found.1 == 0)) [
          | inr missing ↦ rw missing refl
          | inl y ↦
              rw (y, s.checks)
                (elim (Bool-cases (s.checked.1 == 0)) [
                  | inr other ↦ rw other refl
                  | inl z ↦
                      rw (z, s.takes)
                        (elim (Bool-cases (s.pid == no_pid)) [
                          | inl full ↦ rw full refl
                          | inr ok ↦ rw (ok, s.loads) refl
                        ])
                ])
        ])

  pub prepared_failed :
      IsRunning e k
      → succeeds s ≡ false
      → (k' : Kernel) × (prepared ≡ (k', failed)) × Untouched k k'
  unfolding prepared after_loader loader_result
  prepared_failed w h = elim (Bool-cases (s.found.1 == 0)) [
    | inr missing ↦ (set_memory k s.found.0, rw missing refl, untouched s.found.0)
    | inl y ↦ elim (Bool-cases (s.checked.1 == 0)) [
      | inr other ↦ (set_memory k s.checked.0, rw (y, other) refl, untouched s.checked.0)
      | inl z ↦ elim (Bool-cases (s.pid == no_pid)) [
        | inl full ↦ (
          set_memory (record k { pids = s.pids }) s.checked.0,
          rw (y, z, full) refl,
          record {
            kept = Kept-memory k s.checked.0 s.pids k.paging;
            same_pids = full_lem k.pids s.pids s.pid s.takes ((==_iff s.pid no_pid).0 full);
            same_directory = refl;
          },
        )
        | inr ok ↦ elim (Bool-cases (s.load.1 == minus_one)) [
          | inl bad ↦ (
            record (set_memory (record k { pids = s.pids; paging = entered }) s.load.0) {
              pids = tasks_pid_free s.pids s.pid;
              paging = or_same entered (paging_update_control e.layout entered (pcb k).pid);
            },
            rw (y, z, ok, bad) refl,
            record {
              kept = Kept-memory k s.load.0 _ _;
              same_pids =
                  freed_lem k.pids s.pids s.pid s.takes (λ q. cc (==_true s.pid no_pid q, ok));
              same_directory = update_cr3 e.layout entered (pcb k).pid w.small ∙ sym w.directory;
            },
          )
          | inr good ↦ absurd (ground (arith, h, y, z, ok, good))
        ]
      ]
    ]
  ]
    where
      entered : Paging
      entered = enter_pages e.layout k.paging s.pid

      untouched : (m : Mem) → Untouched k (set_memory k m)
      untouched m = record {
        kept = Kept-memory k m k.pids k.paging;
        same_pids = refl;
        same_directory = refl;
      }
