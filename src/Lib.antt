-- ===== src/Lib.antt =====
-- A model of the operating system in student-distrib, and the theorems that hold of it.
--
-- The kernel boots from a module that holds its file system, runs up to 15 user programs on four
-- virtual terminals and switches between them at each tick of the PIT. A process has a pid
-- (kernel/tasks.c), a control block with its file descriptors at the bottom of its kernel stack
-- (kernel/pcb.c), a page directory (kernel/paging.c) and a flag in the scheduler
-- (kernel/scheduling.c). The descriptors lead to four drivers: files and directories
-- (drivers/fs.c), the terminal (drivers/termios.c) and the clock (drivers/rtc.c). The keyboard
-- (drivers/keyboard.c) feeds the terminal that is shown, and switches it. The user programs
-- (syscalls, fish) run on the system calls. All paths here but those two are below student-distrib.
--
-- Files and their code, with a definition named after each C function:
--   Tasks      kernel/tasks.c. Alloc: the scan for a free pid. History: sequences of calls.
--   Pcb        kernel/pcb.c, kernel/pcb.h. Files: descriptors. Address: where the blocks lie.
--   Sched      kernel/scheduling.c, the flags and the two loops of scheduler_tick. Pick: the
--              task chosen. Fair: sequences of ticks. Start: scheduling_init.
--   Memory     the block operations of lib/lib.c, assembly loops included. Fill, Copy, Move.
--   CString    the string functions of lib/lib.c. Length, Compare, Copy, Pad, Reverse.
--   Fs         drivers/fs.c on the bytes of the boot module. Read and Files: file contents.
--              Image: a well-formed module. Lookup and Names: the directory. Loading: opening and
--              closing a file, the loader and the test for a program.
--   Terminal   the screen side of drivers/termios.c. Cells and Bounds: where it writes. Keys:
--              all keys together. Echo: what a key on the screen does to the input side.
--              Scrolling: the cells after a scroll.
--   Line       the input side of drivers/termios.c and the four terminals. Typing and Keys: the
--              line that is typed. Copying, Rest, Reading, Background: terminal_read. Switching:
--              terminal_switch.
--   Rtc        drivers/rtc.c. Rate: the rates it takes. Wait: reading, and rtc_init.
--   Keyboard   drivers/keyboard.c. Font: the table. Letters: shift and caps lock. Shells: the keys
--              that switch terminals.
--   Interrupts drivers/i8259.c and pit_init of drivers/pit.c. Lines: the masks.
--   Idt        kernel/irq.c and install_exceptions of kernel/exception.c. Gates: the table.
--   Exception  the handlers of kernel/exception.c and what they print. Padding: the spaces around the
--              message.
--   Segment    the descriptors of x86_desc.h and the blocks of `entry` that fill them in. Bases: what
--              the processor reads from them.
--   Console    the output of lib/lib.c. Loop and Digits: itoa. Text: clear and vertical_scroll.
--              Cursor: putc. Output: puts. Increment: test_interrupts.
--   Paging     kernel/paging.c. Translate: what the processor makes of the tables. Programs and
--              Video: where the addresses of a program lie.
--   Kernel     kernel/syscall.c and the switch of scheduler_tick, on the state of the whole kernel: the
--              pid table, the scheduler, the page tables, the terminals with the memory, the clock and
--              the control blocks. Command: the parsing of a command line. Calls: the calls on files,
--              getargs and vidmap. Programs: execute, init_shell and halt. Tick: scheduler_tick and
--              pit_handler. Boot: the init functions that `entry` of kernel.c calls. Multiboot: what
--              `entry` prints before, and all of it. System: the kernel as what a user program runs on.
--              Proofs: Parsing and Splitting (the command line), Guards, Descriptors and Arguments (the
--              calls),
--              Execute, Started, Shells, Closing, Halt and RoundTrip (programs), Switching (the
--              switch), Booted (the state after the init functions), Checks (ece391syserr.c on the
--              kernel).
--   User       syscalls/ece391support.c, and the record of the system calls that a program runs on.
--              Programs: testprint, hello, cat, ls, counter and shell. Grep, Pingpong, Syserr: the
--              programs of these names. Fish: fish/fish.c. Emulate and its Execute:
--              syscalls/ece391emulate.c, which fills the record on Linux, as Kernel.System does on the
--              kernel. Proofs: Steps (one call after another), Strings (strcmp), Programs.Cat and
--              Emulate.Copying (the copy of a file), Pingpong.Lines (the line that is shown),
--              Syserr.Refusals (the checks on any system that refuses), Emulate.Names (directories).
--   Base       the names that all share, C arrays as lists, and bit masks as arithmetic.
--
-- Memory is a function from addresses to bytes, and addresses wrap at 2^32. A C number is the
-- natural number of its bit pattern, an `int` compared by its sign. State that a function changes
-- is an argument and a part of the result; `outb` adds to a list of port writes. A loop over a
-- range has the rounds left as its structural argument. The loops that look for the end of a
-- string take fuel and return none when it runs out: more fuel than the string has characters is
-- enough, for itoa 34 rounds, since a number has at most 32 digits. The second loop of
-- scheduler_tick has 16 as its fuel, one round of the pids, since it comes back to the running pid
-- by then. The loops of a user program that it leaves by itself take fuel, and those that wait for
-- bytes of a file need a round for each read.
--
-- A user program is a function from a state to the state at its end with its result, over a record of
-- the system calls. It is none when it does not end, and it is given the addresses of its arrays.
--
-- In the kernel the control blocks are kept apart from the memory, each at its address, and `current`
-- stands for what pcb_process finds from the stack pointer. The stack and base pointers that
-- execute, halt and scheduler_tick save and restore are arguments and results, and a call ends by
-- returning, by entering a program or by going on in the parent. The local variables of a call have
-- their addresses in a frame, and what an uninitialised pointer or a missing argument leads to is a
-- parameter. The pointer of file_close leads to a control block, to bytes of other memory, or to no
-- memory at all, a page fault, which is none.
--
-- Locks (`cli_and_save`) are left out, since no handler runs inside a modelled function. What the
-- init functions of the drivers print is left out. An access outside a C array has no effect in the lists that
-- model arrays, and the theorems about them have the bounds among their conditions. terminal_read
-- and rtc_read return none while they would wait, and a call that jumps through a null table is
-- none. Memory is the address space of the running process: the program pages of the others are not
-- kept apart. Of a shell that the keyboard starts only the call is recorded, and the call itself is
-- syscall_init_shell of Kernel.
--
-- Not modelled: the loads of the processor's registers and the assembly that sets up the stack and the
-- tables (boot.S, x86_desc.S); the tests, which print; syscalls/ece391sigtest.c, since the kernel
-- delivers no signals; the assembly of fish/blink.S, which is a parameter of fish, and the calls of
-- Linux, which are a parameter of the emulation. fish/ece391support.c is a copy of functions of
-- syscalls/ece391support.c.
pub mod Base
pub mod Tasks
pub mod Pcb
pub mod Sched
pub mod Memory
pub mod CString
pub mod Fs
pub mod Console
pub mod Terminal
pub mod Line
pub mod Interrupts
pub mod Idt
pub mod Exception
pub mod Segment
pub mod Kernel
pub mod Keyboard
pub mod Rtc
pub mod Paging
pub mod User
