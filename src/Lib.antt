-- ===== src/Lib.antt =====
-- A verification library for TBS-kernel, a small i686 kernel in C.
--
-- The program. The boot code maps the first GiB and hands a Multiboot memory map to
-- src/lib/memory.c, which builds a bitmap of physical pages, and on it a heap of blocks (kmalloc,
-- kfree). Tasks (src/kernel/core/task.c) are blocked and woken; terminals (src/lib/tty.c) pass bytes
-- from the keyboard interrupt through a task that edits lines to the readers, and bytes of writers
-- to the screen, in ring buffers under spinlocks (src/lib/spinlock.c). src/lib/string.c has the text
-- functions that all of these use.
--
-- The files.
--   Base and its children: shared names, Boolean tests, arrays, option chains, words.
--   CString: src/lib/string.c. Copy has strlen, strcpy and strncpy, Search has strcmp, strstr and
--     strrchr, Numerals the printers of numbers, Atoi the reader. A destination is the list of its
--     bytes; a text is read from a list that holds its terminator; a write or a read past the end
--     is `none`. The buffer of a printer has its C size.
--   Memory: src/lib/memory.c. Pmm has the bitmap as a list of bytes and pmm_init; Vmm the page
--     directory and tables as functions; Heap the free list as block headers found by their
--     address. State is the record that they share, which the operations pass on. Heap/Chain,
--     Relink, Walk and Invariant say what a well-formed free list is: blocks in order of address
--     that do not overlap.
--   Task/State and Spinlock: the states of tasks, and locks.
--   Tty: src/lib/tty.c, and read_tty_output of src/kernel/modules/compositor.c. Buffer has the ring
--     buffers and the list of bytes that one holds; Write, Worker and Reader the properties.
--   Memory/Map: parse_memory_map and init_allocator; the entries of the boot loader are found by
--     their address. Memory/Copy: memcpy, memset and memmove on one array.
--   CString/Format: strconcat. CString/Reverse: reverse and itoa.
--   Task/Scheduler: the circular list of tasks of src/kernel/core/task.c. A task pointer is an
--     address that kmalloc gave or an entry of task_table. Choice has the properties.
--   Keyboard and Mouse: src/kernel/drivers/ps2_key.c and ps2_mouse.c, with the bytes of the ports as
--     arguments of the interrupt handlers. Keyboard/Layout is the layout that the tables are for.
--   Vfs: src/lib/vfs.c; the lookup of an inode's operations is a field of the state. Walk has the
--     walk over the parts of a path.
--   Windows: src/lib/WM.c, with 80 for GRID_WITDH, which is declared nowhere. Make has new windows, Moves the moves,
--     Order and Blit the drawing.
--   Memory/Allocator: kmalloc and kfree as an interface, a record that the file system takes as a
--     parameter; kernel_allocator fills it with those of Memory/Heap.
--   Ramfs: src/kernel/drivers/ramfs.c; inodes and what their `data` points to are found by address.
--     Image is the loading of an image. Files, Directories, Subdirectories and Children have the
--     properties.
--   Fs: src/lib/fs.c over Vfs and Ramfs, the open files and the descriptors of one process; Paths has
--     the operations on paths. Descriptors, Streams and Shared have the properties. A lookup that
--     would fault counts in Fs as one that finds nothing.
--   Sleep: src/lib/sleep.c and the divisor of src/kernel/drivers/pit.c. Task/Scheduler/Wakeup,
--     Tick and Timeout have what the clock does to a sleeper.
--   Spinlock/Exclusion: the steps of any number of tasks on one lock, as a relation.
--   Compositor: src/kernel/modules/compositor.c on a framebuffer; Pointer has the mouse pointer and
--     its loop, Cursor and Scroll the properties of the text.
--   Print: the loop that printf, serial_print and printp share. Command: the split of a command line
--     in src/kernel/core/main.c. Symbols: the search of src/lib/kerror.c and its trace.
--   Descriptors: the entries of the tables of src/arch/i686/kernel/GDT.c and IDT.c.
--   Pci: src/kernel/drivers/pci.c, with the reads of the ports as a function.
--   Examples: runs on concrete inputs.
--
-- Conventions. A 32-bit sum that can wrap is taken modulo 2 ^ 32. The functions of a component get
-- its state and return it; `none` is a fault, a spin on a held lock, or a loop that does not end.
-- What only prints (serial_print) is left out.
--
-- Fuel. A walk of the free list gets 2 ^ 28 rounds: its blocks are apart, at least 12 bytes long
-- and below 2 ^ 28, so no well-formed list is longer. The worker's loop over the raw input gets
-- 1024 rounds, and a ring holds at most 1023 bytes. Theorems that say that a function returns hold
-- with these amounts.
--
-- Not modelled: port input and output, the switch of contexts and what else is assembly, the
-- printers of console.c, messages between processes, the speaker and the start of the kernel.
-- The copies of the sources in the root file system are the same code once more.
pub mod Base
pub mod CString
pub mod Command
pub mod Compositor
pub mod Descriptors
pub mod Examples
pub mod Fs
pub mod Keyboard
pub mod Memory
pub mod Mouse
pub mod Pci
pub mod Print
pub mod Ramfs
pub mod Sleep
pub mod Spinlock
pub mod Symbols
pub mod Task
pub mod Tty
pub mod Vfs
pub mod Windows
