-- ===== src/Kernel/Programs.antt =====
-- syscall_execute, syscall_init_shell and syscall_halt of kernel/syscall.c.
use linux.Base.{
  ℕ, zero, suc, ◌+◌, ◌-◌, ◌%◌, ◌^◌, List, Option, none, some, not, ◌==◌, if◌then◌else◌, set, ◌>>=◌,
}
use linux.Memory.{Mem, ◌⊕◌, load32}
use linux.Tasks.{no_pid, tasks_pid_new, tasks_pid_free}
use linux.Sched.{schedule_task, unschedule_task}
use linux.Paging.{Layout, Paging, paging_allocate, paging_update_control}
use linux.Pcb.{
  Pcb, descriptor, minus_one, fd_max, pcb_init, get_pcb, kernel_stack, kernel_stack_size,
}
use linux.Line.{terminal_open}
use linux.Fs.{inode_index_at, read_dentry_by_name}
use linux.Fs.Loading.{executable_check, loader}
use linux.Kernel.{Kernel, Env, Frame, memory, set_memory, pcb, set_pcb}
use linux.Kernel.Command.{parse}
use linux.Kernel.Calls.{World, syscall_close}

-- How a call ends: it returns a value, starts a program at its entry point, or goes on in the parent
-- with its stack and base pointers and a value.
pub data Outcome : Type 0 where
  returns : ℕ → Outcome
  starts : ℕ → Outcome
  resumes : ℕ → ℕ → ℕ → Outcome

-- The part that `syscall_execute` and `syscall_init_shell` share ends without a program, or with the
-- pid and the entry point of one.
pub data Prepared : Type 0 where
  failed : Prepared
  loaded : ℕ → ℕ → Prepared

-- The callers ignore the status of the paging functions.
unfoldable pub or_same : Paging → Option Paging → Paging
or_same s none = s
or_same s (some s') = s'

-- Page tables for a new pid, and the switch to them.
unfoldable pub enter_pages : Layout → Paging → ℕ → Paging
enter_pages l s pid =
    let s' = or_same s (paging_allocate l s pid) in or_same s' (paging_update_control l s' pid)

-- After the loader.
unfoldable pub loader_result : Env → Kernel → ℕ → ℕ → Kernel × Prepared
loader_result e k pid entry =
    if entry == minus_one
    then (
      record k {
        pids = tasks_pid_free k.pids pid;
        paging = or_same k.paging (paging_update_control e.layout k.paging (pcb k).pid);
      },
      failed,
    )
    else (k, loaded pid entry)

-- Once a pid is taken.
unfoldable pub load_program : Env → Frame → Kernel → ℕ → Option (Kernel × Prepared)
load_program e l k pid = do
  r ← loader e.fuel e.fs (memory k) l.dentry l.entry_point l.fname
  some (
      loader_result e (set_memory (record k { paging = enter_pages e.layout k.paging pid }) (r.0))
        pid (r.1))

-- Once the file is known for a program.
unfoldable pub take_pid : Env → Frame → Kernel → Option (Kernel × Prepared)
take_pid e l k =
    let r = tasks_pid_new k.pids in
    let k' = record k { pids = r.0 } in
    if r.1 == no_pid then some (k', failed) else load_program e l k' (r.1)

-- Once the command is parsed.
unfoldable pub find_program : Env → Frame → Kernel → Option (Kernel × Prepared)
find_program e l k = do
  found ← read_dentry_by_name e.fuel e.fs (memory k) l.fname l.dentry
  if not (found.1 == 0)
      then some (set_memory k (found.0), failed)
      else (let checked =
            executable_check e.fs (found.0) (load32 (found.0) (l.dentry ⊕ inode_index_at))
              l.magic_buf in
          let k' = set_memory k (checked.0) in
          if not (checked.1 == 0) then some (k', failed) else take_pid e l k')

unfoldable pub parsed_command : Env → Frame → Kernel → Option Mem → Option (Kernel × Prepared)
parsed_command e l k none = some (k, failed)
parsed_command e l k (some m) = find_program e l (set_memory k m)

unfoldable pub prepare : Env → Frame → Kernel → ℕ → Option (Kernel × Prepared)
prepare e l k command = do p ← parse e.fuel l (memory k) command; parsed_command e l k p

-- `strcpy` to the array `args`; what would go past its end is dropped, which in the kernel hits the
-- fields behind it.
unfoldable pub fill_args : ℕ → Mem → ℕ → ℕ → List ℕ → Option (List ℕ)
fill_args zero m src i args = none
fill_args (suc f) m src i args =
    let rest = fill_args f m src (i + 1) (set args i (m (src ⊕ i))) in
    if m (src ⊕ i) == 0 then some (set args i 0) else rest

-- The control block of a new process at its address.
abbrev pub new_pcb : Kernel → ℕ → ℕ → ℕ → List ℕ → Pcb
new_pcb k pid term_num parent args =
    let at = get_pcb pid in
    record (pcb_init (k.pcbs at)) {
      pid = pid;
      esp_reg = (at + kernel_stack_size - 4) % 2 ^ 32;
      term = term_num;
      parent_pcb = parent;
      args = args;
    }

-- The end of both calls: the control block is stored, the task segment set, the pointers of the caller
-- are kept in its control block, and `iret` enters the program.
unfoldable pub launch : Kernel → ℕ → Pcb → ℕ → ℕ → Kernel
launch k at new esp ebp =
    let k1 = set_pcb (record k { esp0 = new.esp_reg }) at new in
    let k2 = set_pcb k1 k.current (record (pcb k1) { ebp_reg = ebp; esp_reg = esp }) in
    record k2 { current = at }

-- `syscall_execute` once the program is loaded, or not.
unfoldable pub execute_prepared :
    Env → Frame → ℕ → ℕ → Kernel → Prepared → Option (Kernel × Outcome)
execute_prepared e l esp ebp k failed = some (k, returns minus_one)
execute_prepared e l esp ebp k (loaded pid entry) = do
  args ← fill_args e.fuel (memory k) l.fargs 0 (k.pcbs (get_pcb pid)).args
  some (
    launch (record k { sched = unschedule_task (schedule_task k.sched pid) (pcb k).pid })
        (get_pcb pid) (new_pcb k pid (pcb k).term k.current args) esp ebp,
    starts entry,
  )

-- With the stack and base pointers of the caller.
unfoldable pub syscall_execute : Env → Frame → Kernel → ℕ → ℕ → ℕ → Option (Kernel × Outcome)
syscall_execute e l k command esp ebp =
    if command == 0
    then some (k, returns minus_one)
    else (do r ← prepare e l k command; execute_prepared e l esp ebp (r.0) (r.1))

-- `syscall_init_shell` once the program is loaded, or not. The new process has no parent, and the
-- caller stays scheduled.
unfoldable pub shell_prepared :
    Env → Frame → ℕ → ℕ → ℕ → Kernel → Prepared → Option (Kernel × Outcome)
shell_prepared e l term_num esp ebp k failed = some (k, returns minus_one)
shell_prepared e l term_num esp ebp k (loaded pid entry) =
    let k' = record k {
      terminals = terminal_open k.terminals term_num;
      sched = schedule_task k.sched pid;
    } in
    do
      args ← fill_args e.fuel (memory k') l.fargs 0 (k'.pcbs (get_pcb pid)).args
      some (launch k' (get_pcb pid) (new_pcb k' pid term_num 0 args) esp ebp, starts entry)

unfoldable pub syscall_init_shell : Env → Frame → Kernel → ℕ → ℕ → ℕ → Option (Kernel × Outcome)
syscall_init_shell e l k term_num esp ebp = do
  r ← prepare e l k e.shell_name
  shell_prepared e l term_num esp ebp (r.0) (r.1)

-- The loop of `syscall_halt` over the descriptors, with the rounds left.
unfoldable pub close_from : ℕ → ℕ → World → Kernel → Option Kernel
close_from zero i world k = some k
close_from (suc r) i world k =
    if (descriptor (pcb k) i).flags == 0
    then close_from r (i + 1) world k
    else (do closed ← syscall_close world k i; close_from r (i + 1) world (closed.0))

-- With the page directory of the parent, or without, when its pid is out of range.
unfoldable pub enter_parent : Kernel → ℕ → Option Paging → Kernel × Outcome
enter_parent k parent none = (k, returns minus_one)
enter_parent k parent (some paging') =
    let up = k.pcbs parent in
    (
      record k { paging = paging'; esp0 = kernel_stack up.pid; current = parent },
      resumes up.esp_reg up.ebp_reg 0,
    )

-- The return to the parent at an address.
unfoldable pub resume_parent : Env → Kernel → ℕ → Kernel × Outcome
resume_parent e k parent =
    let k1 = set_pcb k parent (record (k.pcbs parent) { child = 0 }) in
    let up = k1.pcbs parent in
    enter_parent
      (record k1 {
        pids = tasks_pid_free k1.pids (pcb k1).pid;
        sched = unschedule_task (schedule_task k1.sched up.pid) (pcb k1).pid;
      })
      parent (paging_update_control e.layout k1.paging up.pid)

-- A process without a parent is a shell, and is started again; the stack pointer is then at the top
-- of its kernel stack, and its base pointer is kept.
unfoldable pub syscall_halt : World → Env → Frame → Kernel → ℕ → ℕ → Option (Kernel × Outcome)
syscall_halt world e l k status ebp =
    if (pcb k).parent_pcb == 0
    then syscall_init_shell e l (record k { pids = tasks_pid_free k.pids (pcb k).pid }) (pcb k).term
        (kernel_stack (pcb k).pid) ebp
    else (do k' ← close_from (fd_max - 2) 2 world k; some (resume_parent e k' (pcb k).parent_pcb))
