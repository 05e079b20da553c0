-- ===== src/Kernel/Calls.antt =====
-- The calls on files of kernel/syscall.c, getargs and vidmap, through the tables of the drivers.
--
-- A call is none while it waits, when the fuel runs out, and where it would jump through a null or
-- unassigned table.
use linux.Base.{
  ℕ, zero, suc, ◌+◌, ◌-◌, ◌*◌, ◌/◌, ◌%◌, ◌^◌, Bool, List, Option, none, some, not, ◌||◌, ltb, ◌==◌,
  if◌then◌else◌, get_or, ◌>>=◌,
}
use linux.Memory.{Mem, ◌⊕◌, write, write4, load32}
use linux.CString.{slt, strncmp}
use linux.Pcb.{
  Driver, null, unassigned, rtc_driver, file_driver, dir_driver, terminal_driver, Pcb, descriptor,
  fd_max, minus_one, pcb_close, kernel_mem_end,
}
use linux.Paging.{Paging, paging_map_video}
use linux.Line.{terminal_read, terminal_write, terminal_open}
use linux.Rtc.{rtc_read, rtc_write, rtc_open, rtc_close}
use linux.Fs.{file_read, file_write, dir_read, dir_write}
use linux.Fs.Loading.{file_open, file_close}
use linux.Kernel.{Kernel, Env, Frame, memory, set_memory, pcb, set_pcb}

-- Where an uninitialised pointer to a control block leads: to a control block, to other memory, or to
-- an address that is not mapped.
pub data Stray : Type 0 where
  block : ℕ → Stray
  bytes : ℕ → Stray
  unmapped : Stray

-- What a call meets that the kernel does not choose: in which rounds of its wait the clock
-- interrupts, the first word on the stack when a function is called without its arguments, and where
-- the uninitialised pointer of `file_close` leads.
pub record World : Type 0 where
  pub ticks : List Bool
  pub stray_word : ℕ
  pub stray_pcb : Stray

-- The result of a driver that works on memory and the current control block.
abbrev pub put_file : Kernel → Mem × Pcb × ℕ → Kernel × ℕ
put_file k r = (set_pcb (set_memory k (r.0)) k.current (r.1), r.2)

-- A status as an `int`: true is 0 and false -1.
abbrev pub status : Bool → ℕ
status ok = if ok then 0 else minus_one

-- `file_operation_jmp_tbl[2]`.
unfoldable pub driver_read : Driver → World → Env → Frame → Kernel → ℕ → ℕ → ℕ → Option (Kernel × ℕ)
driver_read null world e l k fd buf nbytes = none
driver_read unassigned world e l k fd buf nbytes = none
driver_read rtc_driver world e l k fd buf nbytes = do
  r ← rtc_read world.ticks k.rtc
  some (record k { rtc = r }, 0)
driver_read file_driver world e l k fd buf nbytes =
    some (put_file k (file_read e.fs (memory k) (pcb k) fd buf nbytes))
driver_read dir_driver world e l k fd buf nbytes = do
  r ← dir_read e.fuel e.fs (memory k) l.dentry (pcb k) fd buf
  some (put_file k r)
driver_read terminal_driver world e l k fd buf nbytes = do
  r ← terminal_read k.terminals (pcb k).term buf nbytes
  some (record k { terminals = r.0 }, r.1)

-- `fd < FD_MIN || fd >= FD_MAX`.
abbrev pub out_of_range : ℕ → Bool
out_of_range fd = not (slt fd fd_max) || slt fd 0

unfoldable pub syscall_read : World → Env → Frame → Kernel → ℕ → ℕ → ℕ → Option (Kernel × ℕ)
syscall_read world e l k fd buf nbytes =
    if nbytes == 0
    then some (k, 0)
    else (if out_of_range fd || (fd == 1)
        then some (k, minus_one)
        else (if (descriptor (pcb k) fd).flags == 0
            then some (k, minus_one)
            else (if buf == 0
                then some (k, minus_one)
                else driver_read (descriptor (pcb k) fd).file_operation_jmp_tbl world e l k fd buf
                    nbytes)))

-- `file_operation_jmp_tbl[1]`.
unfoldable pub driver_write : Driver → Kernel → ℕ → ℕ → ℕ → Option (Kernel × ℕ)
driver_write null k fd buf nbytes = none
driver_write unassigned k fd buf nbytes = none
driver_write rtc_driver k fd buf nbytes = do
  r ← rtc_write k.rtc (load32 (memory k) buf)
  some (record k { rtc = r.0 }, status (r.1))
driver_write file_driver k fd buf nbytes = some (k, file_write fd buf nbytes)
driver_write dir_driver k fd buf nbytes = some (k, dir_write fd buf nbytes)
driver_write terminal_driver k fd buf nbytes =
    let r = terminal_write k.terminals (pcb k).term buf nbytes in
    some (record k { terminals = r.0 }, r.1)

unfoldable pub syscall_write : Kernel → ℕ → ℕ → ℕ → Option (Kernel × ℕ)
syscall_write k fd buf nbytes =
    if out_of_range fd || (nbytes == 0) || (fd == 0)
    then some (k, minus_one)
    else (if buf == 0
        then some (k, minus_one)
        else (if (descriptor (pcb k) fd).flags == 0
            then some (k, minus_one)
            else (let k' =
                  if fd == (pcb k).rtc_fd
                  then set_pcb k k.current (record (pcb k) { rtc_rate = load32 (memory k) buf })
                  else k in
                driver_write (descriptor (pcb k') fd).file_operation_jmp_tbl k' fd buf nbytes)))

-- `file_operation_jmp_tbl[0]`, which is called without arguments: `file_open` takes the word on the
-- stack for its file name.
unfoldable pub driver_open : Driver → World → Env → Frame → Kernel → Option Kernel
driver_open null world e l k = none
driver_open unassigned world e l k = none
driver_open rtc_driver world e l k = do r ← rtc_open k.rtc; some (record k { rtc = r.0 })
driver_open file_driver world e l k = do
  r ← file_open e.fuel e.fs (memory k) l.dentry (pcb k) world.stray_word
  some ((put_file k r).0)
driver_open dir_driver world e l k = some k
driver_open terminal_driver world e l k =
    some (record k { terminals = terminal_open k.terminals world.stray_word })

unfoldable pub syscall_open : World → Env → Frame → Kernel → ℕ → Option (Kernel × ℕ)
syscall_open world e l k filename = if filename == 0 then some (k, minus_one) else (do
  r ← file_open e.fuel e.fs (memory k) l.dentry (pcb k) filename
  if r.2 == minus_one
      then some (put_file k r)
      else (let k1 = (put_file k r).0 in
          let k2 =
            if not (strncmp (memory k1) e.rtc_name filename 3 == minus_one)
            then set_pcb k1 k1.current (record (pcb k1) { rtc_fd = r.2 % 2 ^ 8 })
            else k1 in
          do
            k3 ← driver_open (descriptor (pcb k2) (r.2)).file_operation_jmp_tbl world e l k2
            some (k3, r.2)))

-- `elements[fd].flags` of a control block at an address.
abbrev pub flags_at : ℕ → ℕ → ℕ
flags_at a fd = a ⊕ (16 * fd + 12)

-- `file_close` through the pointer. A page fault does not return.
unfoldable pub close_through : Stray → Kernel → ℕ → Option (Kernel × ℕ)
close_through (block a) k fd = let r = file_close (k.pcbs a) fd in some (set_pcb k a (r.0), r.1)
close_through (bytes a) k fd =
    if out_of_range fd
    then some (k, minus_one)
    else some (set_memory k (write4 (memory k) (flags_at a fd) 0 0 0 0), 0)
close_through unmapped k fd = if out_of_range fd then some (k, minus_one) else none

-- `file_operation_jmp_tbl[3]`. No descriptor that can be closed leads to a terminal.
unfoldable pub driver_close : Driver → World → Kernel → ℕ → Option (Kernel × ℕ)
driver_close null world k fd = none
driver_close unassigned world k fd = none
driver_close rtc_driver world k fd =
    let r = rtc_close k.rtc in some (record k { rtc = r.0 }, status (r.1))
driver_close file_driver world k fd = close_through world.stray_pcb k fd
driver_close dir_driver world k fd = some (k, 0)
driver_close terminal_driver world k fd = none

unfoldable pub syscall_close : World → Kernel → ℕ → Option (Kernel × ℕ)
syscall_close world k fd =
    if not (slt fd fd_max) || slt fd 2
    then some (k, minus_one)
    else (if (descriptor (pcb k) fd).flags == 0
        then some (k, minus_one)
        else (let k' = set_pcb k k.current (pcb_close (pcb k) (fd % 2 ^ 8)).0 in
            driver_close (descriptor (pcb k') fd).file_operation_jmp_tbl world k' fd))

-- `strlen` and `strcpy` on the array `args` of a control block. The byte after it is taken as 0.
unfoldable pub args_length : List ℕ → ℕ → ℕ → Option ℕ
args_length args zero i = none
args_length args (suc f) i =
    let rest = args_length args f (i + 1) in if get_or args i 0 == 0 then some i else rest

unfoldable pub copy_args : List ℕ → ℕ → Mem → ℕ → ℕ → Option Mem
copy_args args zero m buf i = none
copy_args args (suc f) m buf i =
    let rest = copy_args args f (write m (buf ⊕ i) (get_or args i 0)) buf (i + 1) in
    if get_or args i 0 == 0 then some (write m (buf ⊕ i) 0) else rest

-- The comparison of the unsigned length with `nbytes` is unsigned.
unfoldable pub syscall_getargs : Env → Kernel → ℕ → ℕ → Option (Kernel × ℕ)
syscall_getargs e k buf nbytes = if (buf == 0) || (nbytes == 0) then some (k, minus_one) else (do
  len ← args_length (pcb k).args e.fuel 0
  if ltb nbytes len
      then some (k, minus_one)
      else (do m ← copy_args (pcb k).args e.fuel (memory k) buf 0; some (set_memory k m, 0)))

abbrev pub video_mem_loc : ℕ
video_mem_loc = 0x80000000 - 0x400000 + 0xb8 * 0x1000

-- The store of an address through a pointer, least byte first.
abbrev pub store32 : Mem → ℕ → ℕ → Mem
store32 m a v =
    write4 m a (v % 0x100) (v / 0x100 % 0x100) (v / 0x10000 % 0x100) (v / 0x1000000 % 0x100)

-- `paging_map_video` stores the address that it maps through `screen_start`.
unfoldable pub vidmap_mapped : Kernel → ℕ → Option (Paging × ℕ) → Kernel × ℕ
vidmap_mapped k screen_start none = (k, minus_one)
vidmap_mapped k screen_start (some (paging', address)) =
    let k' = set_memory (record k { paging = paging' }) (store32 (memory k) screen_start address) in
    (set_pcb k' k'.current (record (pcb k') { vidmap = 1 }), video_mem_loc)

unfoldable pub syscall_vidmap : Env → Kernel → ℕ → Kernel × ℕ
syscall_vidmap e k screen_start =
    if (screen_start == 0) || ltb screen_start kernel_mem_end
    then (k, minus_one)
    else vidmap_mapped k screen_start (paging_map_video e.layout k.paging (pcb k).pid)

unfoldable pub syscall_set_handler : ℕ → ℕ → ℕ
syscall_set_handler signum handler_address = 0

unfoldable pub syscall_sigreturn : ℕ
syscall_sigreturn = 0
