-- ===== src/Lib.antt =====
-- kernel_os, a monolithic x86_64 hobby kernel.
--
-- Parts, each a module of its own:
--   Pmm        kernel_os/src/pmm.cpp, include/pmm.h: the bitmap allocator of physical pages;
--   Vmm        kernel_os/src/vmm.cpp, include/vmm.h: four levels of page tables, whose pages Pmm
--              hands out;
--   Heap       kernel_os/src/heap.cpp: first-fit allocation in a static area of 64 KiB;
--   Task       kernel_os/src/task.cpp, include/task.h: the pool of tasks, whose stacks Pmm hands
--              out;
--   Scheduler  kernel_os/src/scheduler.cpp: the ready queue, a list linked through the pool; the
--              timer interrupt calls its tick;
--   Keyboard   kernel_os/src/keyboard.cpp: the interrupt handler, which fills a ring buffer, and
--              its reader;
--   Console    kernel_os/src/console.cpp: the text screen and printk, which also send to the
--              serial port;
--   Ramfs      kernel_os/src/ramfs.cpp: a table of 16 named files in memory;
--   UserMode   kernel_os/src/user_mode.cpp: the address space of the demo program in ring 3, made
--              with Pmm and Vmm;
--   Elf        kernel_os/src/elf.cpp, include/elf.h: the loader of executables, which reads a file
--              of Ramfs and makes an address space with Pmm and Vmm;
--   Descriptors  kernel_os/src/gdt.cpp, idt.cpp, their headers, and syscall_init of syscall.cpp: the
--              segments, the task state and the gates of the interrupts;
--   Interrupts kernel_os/src/interrupts.cpp and syscall_handler of syscall.cpp: the handlers behind
--              the gates, which call Scheduler, Keyboard, Ports and Console;
--   Kernel     kernel_os/src/kernel_main.cpp: the start, which calls all the other parts, the echo of
--              what Keyboard holds on the screen of Console, and a round of the demonstration's
--              threads;
--   Ports      kernel_os/src/pic.cpp, pit.cpp, serial.cpp: drivers that only write ports;
--   Common     what the parts share: bits of numbers, memory, tests, lists.
--
-- How the code is translated. The state of a part is a record of its variables, and an operation
-- a function from state to state, with its result beside it. The names are those of the source
-- without the prefix of the file (pmm_alloc_page is Pmm.alloc_page). Memory is a function from
-- addresses, a pointer to an element of a static array its index, a null pointer `none`, except
-- where the source itself uses the address 0. Machine integers are natural numbers, and the
-- wrap-around is written where a result can pass the width. A read past the end of a C string is
-- the result `none`, but in Task.copy_name. Hardware is in the state: the registers loaded, the bytes sent, the calls of
-- the assembly routine context_switch.
--
-- Loops. The loops over the pages, the table entries and the rows of the screen recurse on the
-- number of rounds that are left. The loop of write_unsigned has 64 rounds of fuel, which is
-- enough for any 64-bit value in base 10 or 16. The loops over the blocks of the heap have 2731
-- rounds, more than there is room for headers of 24 bytes in 65536. The loops
-- of the ELF loader have as many rounds as there are bytes left of the segment or of the file's part of
-- it, and 65535 for the program headers, whose count has 16 bits; that this is enough is proved. The loop of keyboard_init that discards left-over bytes waits for
-- the hardware; it has the fuel that is given to it. The echo has 63 rounds, as many as characters
-- can wait.
--
-- Page tables. They are in the memory of Vmm, a 64-bit word at each address, and a byte of a file or a
-- page is a part of a word there (Elf). The invariant IsTree (Vmm/Tree) names the tables: for the
-- address of a table it gives the indices that lead to it, without the root that they start from, so
-- that two roots may share what is below an entry, as UserMode and Elf let them.
--
-- The start. Kernel/Start composes the parts as kernel_main does, over one state in which what
-- several parts share is one field; Kernel/Boot shows what comes of it. What the linker chooses, what
-- the ports read and the page tables that boot.S has made are hypotheses of its theorems. The interrupts
-- that come between sti and scheduler_start are an argument; a timer interrupt among them keeps the first
-- task from being started (Kernel/Boot/Tests has a run), so the theorems exclude it.
--
-- Not modelled: the assembly files, the linker script and the build, which are not C++; the addresses
-- of their routines are arguments. busy_delay is left out, which has no effect. Interrupts are atomic
-- here: they follow one another and the calls of the code, as on one processor with interrupts off in
-- a handler; one that comes in the middle of a call, such as scheduler_start itself, is not modelled.
pub mod Common
pub mod Console
pub mod Descriptors
pub mod Elf
pub mod Heap
pub mod Interrupts
pub mod Kernel
pub mod Keyboard
pub mod Pmm
pub mod Ports
pub mod Ramfs
pub mod Scheduler
pub mod Task
pub mod UserMode
pub mod Vmm
