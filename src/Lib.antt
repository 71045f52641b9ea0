-- ===== src/Lib.antt =====
-- DEMOS-OS, a kernel for the Raspberry Pi 3 in C: a verification library.
--
-- The program's parts and their files. Paths are from the repository's root.
--   * Pcb: `struct PCB` and what it holds (libs/scheduler.h, common/ipc_types.h). A pointer to a PCB
--     is a number, `Store` gives the PCB at each address, NULL is 0 and the static idle task is 1.
--   * Queue: the intrusive ready queues of libs/scheduler.c, a head, a tail and the `next_ready`
--     links. Queue.Chain says when a queue stands for a list.
--   * Sched: the variables of libs/scheduler.c as the record `Kernel`, the algorithms' descriptors
--     as functions by cases, the insertion router, the signals and the context switch (with
--     libs/fork_asm.S). Sched.Pick has the selection functions `_schedule_*`, Sched.Tick the timer
--     tick, the dispatcher, the periodic boost and the exit, Sched.Params the registration of a
--     process and `sched_set_param`. Sched.Invariant is the invariant of the scheduler under round
--     robin: what the queue, the table and the counters of the preemption hold between two calls.
--   * Memory: the page allocator of libs/mm.c over the physical memory as 64-bit words, and
--     Memory.Tables its page tables and page-fault handler.
--   * Ipc: messages and signals (libs/ipc.c). Fork: the creation of a process (libs/fork.c).
--   * Uart: the receive buffer of drivers/uart/uart.c, what a received byte does, and `syscall_input`.
--   * Drivers: arch/mmio.h, and the drivers over the registers: Drivers.Serial (drivers/uart/uart.c),
--     Mailbox, Timer, Interrupts and Framebuffer. The hardware is a state with a `Bus` of reads and
--     writes; records of laws (`Transmitter`, `Receiver`, `SystemTimer`) say what a theorem needs of it.
--   * Dispatch: the dispatcher of the system calls, from the saved registers to the call and back, over
--     the whole state of the kernel and the memory of the caller (libs/syscalls.c).
--   * Text: common/string.c; Text.Number: the decimal numbers of common/testlib.c.
--   * Shell: the normalisation of a path in app/shell.c, and Shell.Commands its commands over the
--     system calls, which the record `Calls` gives (common/user_syscalls.h).
--   * Syscalls: the system calls on processes, Syscalls.Files those on files with the mount and the
--     start of a program (libs/syscalls.c, libs/filesystem.c), Syscalls.Calls sequences of timer ticks
--     and calls.
--   * Events: sequences of interrupts and of system calls.
--   * Boot: kernel/kernel.c. Programs: user programs over the system calls (user/user.c,
--     common/process_api.c, app/run_all.c, the busy wait of common/testlib.c).
--   * Base has the numbers, the tests, the outcomes of code that can fault, and lists; Tests the
--     theorems at concrete inputs.
-- A function keeps its name of the source, without a leading underscore.
--
-- How the parts interact: an interrupt is a tick of the timer or a byte for the receive buffer; the
-- dispatcher takes a system call from the registers; the system calls search a PCB by its pid and
-- call Sched, Ipc, Fork and Memory; Ipc, Uart and the exit wake processes by `enqueue_process`; the
-- tick and every blocking call end in the selection function of the active algorithm, which ends in
-- `switch_to_process`.
--
-- State is passed explicitly. `Run` has a fault for a dereference of NULL and an access outside an
-- array. A context switch exchanges the saved registers, and the model goes on as the process that
-- was switched to, which leaves its own call of the selection function by `preempt_enable`; a call
-- that blocks returns the kernel behind the switch.
--
-- Bounds: `queue_fuel`, 65, is one more than the processes that a queue can hold, and the theorems
-- on walks take a list shorter than the fuel; the invariant of the scheduler bounds the queue by the
-- table. `text_fuel`, 65, is one more than the arrays of the shell. The loops over digits run 25
-- rounds, for the 20 digits of a 64-bit number. A loop that polls a register makes `polls` reads at
-- most, which is enough for a device that is ready after fewer, and the loops over the receive FIFO
-- take a round for each word and one more. Other loops take their fuel from the caller. Numbers are
-- unbounded where the code never comes near the end of its type; addresses wrap at 2 ^ 64.
--
-- Not modelled: libs/fat32, a third-party library, and drivers/sd, a copy of another project's driver,
-- whose calls are parameters; the boot code and the entry of exceptions, which are assembly; the
-- characters that `syscall_input` types back; the output of the scheduler's traces, which is a list of
-- events; the programs of app/ that are tests on the board;
-- an interrupt in the middle of a system call. The memory is given by words, so the byte copy of code
-- into user pages and the access to a byte of a caller through its page tables are parameters. The
-- calls do not test the pointers that they write through: a write to an address of the kernel, where
-- the saved registers lie, is a fault of the model.
pub mod Base
pub mod Pcb
pub mod Queue
pub mod Sched
pub mod Memory
pub mod Ipc
pub mod Text
pub mod Shell
pub mod Programs
pub mod Boot
pub mod Drivers
pub mod Fork
pub mod Uart
pub mod Syscalls
pub mod Dispatch
pub mod Events
pub mod Tests
