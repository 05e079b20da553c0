-- ===== src/Kernel/Tick.antt =====
-- scheduler_tick of kernel/scheduling.c and pit_handler of drivers/pit.c.
use linux.Base.{ℕ, Option, some, not, ◌==◌, if◌then◌else◌, ◌>>=◌}
use linux.Sched.{any_from, pick}
use linux.Tasks.{max_pid}
use linux.Pcb.{Pcb, get_pcb, kernel_stack}
use linux.Paging.{Paging, paging_update_control, update_video_paging}
use linux.Line.{Terminals, is_active_term, term_data_ptr}
use linux.Interrupts.{send_eoi, pit_irq_line}
use linux.Terminal.{video_mem}
use linux.Kernel.{Kernel, Env, pcb, set_pcb}
use linux.Kernel.Programs.{or_same}

-- The video page of a process that has asked for one: the screen, or the back buffer of its terminal.
unfoldable pub video_page : Env → Terminals → Paging → Pcb → Paging
video_page e t s p =
    if p.vidmap == 1
    then update_video_paging e.layout s p.pid
        (if is_active_term t p.term then video_mem else term_data_ptr t p.term)
    else s

-- The switch to a pid: the kernel, and the stack and base pointers to go on with.
unfoldable pub switch_to : Env → Kernel → ℕ → ℕ → ℕ → Kernel × ℕ × ℕ
switch_to e k next esp ebp =
    let k1 = set_pcb k k.current (record (pcb k) { ebp_reg = ebp; esp_reg = esp }) in
    let context = k1.pcbs (get_pcb next) in
    let paging' = or_same k1.paging (paging_update_control e.layout k1.paging next) in
    (
      record k1 {
        esp0 = kernel_stack next;
        paging = video_page e k1.terminals paging' context;
        current = get_pcb next;
      },
      context.esp_reg,
      context.ebp_reg,
    )

-- The stack and base pointers at the end are those at the start when no task is scheduled. The second
-- loop ends within 16 rounds; its variable `next_pid` starts as `garbage`.
unfoldable pub scheduler_tick : Env → ℕ → Kernel → ℕ → ℕ → Option (Kernel × ℕ × ℕ)
scheduler_tick e garbage k esp ebp =
    if not (any_from max_pid 0 k.sched)
    then some (k, esp, ebp)
    else (do next ← pick garbage (pcb k).pid k.sched; some (switch_to e k next esp ebp))

unfoldable pub pit_handler : Env → ℕ → Kernel → ℕ → ℕ → Option (Kernel × ℕ × ℕ)
pit_handler e garbage k esp ebp =
    let t = k.terminals in
    scheduler_tick e garbage
      (record k { terminals = record t { ports = send_eoi pit_irq_line t.ports } }) esp ebp
