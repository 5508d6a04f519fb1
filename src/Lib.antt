-- ===== src/Lib.antt =====
-- Canalotus, a small 32-bit kernel: verified models of the parts of src/ that decide how processes
-- run, talk to each other, and reach the keyboard, the screen and the disk.
--
-- How the parts fit together. The kernel holds a table of seven processes. Processes send each other
-- messages with the system call `sendrec`: a sender waits in a queue that hangs on the receiver, and
-- a receiver waits until somebody sends or an interrupt is told to it. The scheduler picks the next
-- process among those that wait for nothing; the clock's interrupt counts the running process's
-- ticks down and calls it. One system process serves the terminals in turn: it takes scan codes
-- that the keyboard's interrupt handler has put into a ring buffer, turns them into keys, puts the
-- characters into the terminal's own ring buffer, and prints them on the terminal's console, which
-- is a window on a third of video memory. Another serves the hard disk: it sends commands to the
-- drive's ports, waits for the drive's interrupts, and copies sectors into the memory of the process
-- that asked. The file system's process lays out the disk through it. A third, the system process,
-- answers how many ticks the clock has counted; `get_ticks` asks it through the same messages. All
-- of it begins with `init_prot` and `kernel_main`, which fill the processor's tables and the table of
-- processes; the processes themselves and `init_clock` open the lines of the interrupt controllers.
-- Whatever fails ends in `syscall_printx`, which prints a text or is to fill the screen and
-- halt.
--
-- Where the parts are.
--   State      the process table, the messages and the globals (src/include/sys/proc.h, type.h,
--              protect.h, const.h, global.h), and the monad of kernel code: a state, or a reason to
--              stop (a failed assertion, a panic, an entry read outside the table, an endless loop).
--   Schedule   `schedule` of src/kernel/proc.c: `pick` and `refill` are its two inner loops.
--   Ipc        message passing, src/kernel/proc.c. Send and Receive hold `msg_send` and `msg_receive`
--              in the cases that the source has; Deadlock is about `deadlock`; Interrupt has
--              `inform_int` and `clock_handler` (src/kernel/clock.c), Syscall `syscall_sendrec`.
--              Valid is the invariant, with the queues that the pointers stand for; Change, Joining
--              and Leaving say how it outlives a change of the table.
--   System     the kernel between two instructions of a process: what every system call and every
--              interrupt may end in and whom it may touch (Effect), the steps that change the kernel,
--              histories of them (Steps), and how long a ready process waits (Fairness).
--   Calls      code that runs in a process, known by its next instruction: `send_recv` of
--              src/kernel/proc.c, `get_ticks` of main.c, `sys_sys` of sys.c. Request and Answering
--              are the two ends of any request, Meanwhile what others may do between them; Ticks and
--              Returns are about `get_ticks`, Sectors is about the way of `rw_sector`'s request to
--              the disk driver, and Interrupts is about the driver's waits for the drive.
--   Console    src/kernel/console.c.
--   Keyboard   src/kernel/keyboard.c, src/include/sys/keyboard.h and keymap.h; Controller has the
--              polling of the keyboard's controller.
--   Tty        src/kernel/tty.c; Loop has the rounds of `sys_tty`, with the keyboard's interrupts
--              before each round.
--   Print      `syscall_printx` of src/kernel/tty.c and the functions that print through it.
--   Irq        src/kernel/i8259.c, with the lines that the drivers open.
--   Protect    src/kernel/protect.c: the fields of descriptors and gates (Fields), and what
--              `init_prot` sets up: the interrupt table (Gates) and the descriptors (Tables).
--   Boot       `kernel_main` of src/kernel/main.c, with the tables of src/kernel/global.c.
--   Disk       src/kernel/hd.c. Waiting is about `waitfor`, Command about the registers, Partition
--              about the partition tables, Transfer about reading and writing, Serve has the
--              switch of `sys_hd` and Handler the drive's interrupt.
--   Format     `vsprintf` and `i2a` of src/lib/vsprintf.c.
--   Itoa       `itoa` of src/lib/klib.c.
--   Fs         `init_fs`, `mkfs` and `rw_sector` of src/fs/main.c as the requests that they send.
--   Common     tests, lists, the type int, lists of distinct numbers, fields of bits, and ring
--              buffers.
--   Examples   concrete states, on which the theorems are applied.
--
-- How the model reads the code. A pointer to an entry of a table is the entry's index, and the
-- null pointer is `none`. An `int` is an integer that wraps at 32 bits where it is counted; an
-- address is a number below 2 ^ 32. Messages are copied whole and two of them do not overlap, so
-- that memory is a function from addresses to messages. The kernel is not left while a system call
-- runs: `block` chooses the next process and comes back, as in the source. `k_reenter` is as the
-- handlers see it, 0 for an interrupt of a process. A process's code is known by its next
-- instruction, so that others may run between two of them; that a request, an answer or an
-- interrupt reaches the disk driver is said of such code. What the driver does from a request to
-- the answer is modelled on its own state. The drive, the clock and the rest of the kernel are a
-- parameter there: each of its calls of `get_ticks` gives a time or stops, each wait for an
-- interrupt comes back or not, and the kernel may be another one after each. That they come back
-- is a hypothesis where it is needed; `get_ticks` stops where an interrupt is pending for the
-- driver.
--
-- Bounds and fuel. The loops of `deadlock` and the walks along a queue have eight rounds of fuel,
-- one more than there are processes; under the invariant no walk meets a process twice. The outer
-- loop of `schedule` has two rounds: the second comes after the priorities were handed out and
-- finds a process if any can run, and if none can no number of rounds is enough. The loop of
-- `out_char` has a round for each cell of the console. Waits for the keyboard are not bounded:
-- `none` is a wait for bytes that never come; the polls of its controller end where it replies.
-- The polls of `waitfor` have a fuel that is part of the environment, and are shown to end when
-- the clock gets on; the loop of `hd_rdwt` has fuel that is a parameter, more than there are
-- sectors to move. `i2a` has 32 digits of fuel, which is enough for a word in any base.
-- `syscall_printx` has a round for each character of its text, which lies in a memory apart from
-- that of the display, and its panic screen a round for each byte from the screen's begin up to
-- the kernel's own code: what the code does when that is written over is not modelled.
--
-- What is left out. Registers but for their first values, the switch of context and what is in
-- assembly but for `disable_irq` and `enable_irq`; interrupts that arrive while a system call,
-- `schedule` or a handler runs; output for debugging and the texts of exceptions; `milli_delay`; the
-- start in start.c; a text that does not fit into the buffer of `printf` or `panic`.
pub mod Common
pub mod State
pub mod Schedule
pub mod Ipc
pub mod Console
pub mod Keyboard
pub mod Tty
pub mod Protect
pub mod Format
pub mod Itoa
pub mod Disk
pub mod Fs
pub mod System
pub mod Calls
pub mod Print
pub mod Irq
pub mod Boot
pub mod Examples
