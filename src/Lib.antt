-- ===== src/Lib.antt =====
-- torch-os, a small kernel for the 32-bit x86: its memory, its tasks, and its drivers.
--
-- The parts and where they are modelled (paths from the repository's root):
--
--   Base       names, Boolean tests, 32-bit casts, lists, bits, and how a run ends
--              (kernel/panic.c): `Outcome` is a value, a panic, a loop without end, or, in the
--              model only, a loop that was given too few rounds
--   Hardware   memory as bytes (Ram), the translation by page tables as the processor makes it
--              (Mmu), and the interface of byte reads and writes (Bus)
--   Strings    lib/string: memset, memcpy, strlen, strcpy, strncmp, strrev
--   Memory     kernel/memory.c: Machine is its state; Bitmap the search for a clear bit; Entry the
--              entries of tables; Paging map_page, unmap_page, identity_map_range; Frames and
--              Tables the two allocators; Heap heap_allocate and its invariant; Virtual memory as
--              the kernel itself sees it; Init init_paging; Allocator the heap as others use it;
--              Sample a machine to run things on
--   Filesystem kernel/filesystem.c: Filesystem.antt the operations on nodes and the ramdisk's, Nodes
--              fs_construct_node and fs_add_dirent, Store the structures of
--              kernel/includes/filesystem.h by address, Ramdisk read_ramdisk and init_filesystem,
--              SelfTest the test at its end
--   Tty        kernel/tty.c
--   Tasking    kernel/tasking.c with kernel/includes/process.h, and switch_to_task_stub of
--              kernel/utility.asm: Store is the memory of task blocks, Links the chains in it;
--              Create and Join are create_kernel_task and init_tasking; System the scheduler as a
--              step relation, Reach what it can reach, Turns who comes next; Bodies the turns of task1,
--              task2 and the kernel's loop with timer interrupts between, Turned one turn, Life all of them
--   Timer      kernel/timer.c; Chip is the timer chip
--   Pic        kernel/pic.c; Chip is the interrupt controller
--   Isr        kernel/isr.c
--   Interrupts kernel/interrupts.asm on a processor with a stack: Stack is words on it, Enter what a
--              stub's call finds, Resume the way back, Serve a line of the controllers from its vector
--              to the program that goes on
--   Gdt, Idt   kernel/gdt.c, kernel/idt.c
--   Keyboard   kernel/keyboard.c
--   Logger     kernel/logger.c with kernel/logger.asm: Uart is the serial chip, Board the chip next to
--              memory, Numeral numbers by their digits, Format the pieces of a format and what they
--              spell
--   Initrd     initfs/make_initrd.py: Layout is its output as read_ramdisk reads it
--   Boot       kernel/kernel.c with the fields that it reads of kernel/includes/multiboot.h: Check how
--              kmain ends
--
-- A definition has the name of the function, the field or the constant that it models; a loop is
-- a definition of its own, named after what it does. State is passed explicitly, and one record
-- has the global variables of one source file. A child module with theorems stands below the part
-- that it is about, and Tests below it has concrete runs.
--
-- How the parts meet: page_frame_allocate maps a page and clears it by the memset of lib/string,
-- which writes through the page tables, so Strings is written over the interface Bus and
-- Memory/Virtual fills it. The file system copies by memcpy of lib/string, also over Bus, and
-- allocates through the interface Memory/Allocator, which the heap fills. The drivers write to
-- ports, an operation of the machine that is a parameter (Pic, Ports); the chips of Pic/Chip and
-- Timer/Chip fill it. isr.c calls handlers of any state, and the stubs of interrupts.asm call isr.c with the context on
-- the stack. tasking.c reads the counter of timer.c
-- and charges tasks with elapsed_time.
--
-- Well-formedness: the directory is a page below the page table area, its tables are pages of
-- their own, none shared, and a table from the area is marked in the bitmap
-- (Memory/Paging/Directory, IsPaged). map_page, unmap_page and identity_map_range keep it.
-- init_page_table_allocator does not: it clears the mark of a table in use (Memory/Tables/Lost).
-- So after init_paging it fails for that one table, and a theorem that assumes it speaks of a
-- kernel in which the mark is kept. Where memory runs out, a theorem's panic comes with the
-- machine at that point, how the code got to it, and that its bitmap has no clear bit. A queue of tasks is a chain of distinct tasks from its head
-- to its tail (Tasking/Links, Links and Distinct).
--
-- Numbers: native natural numbers, with the wrap-around of uint32_t and narrower types written
-- out. Addresses that the C code computes by pointer arithmetic do not wrap, since that is
-- undefined there.
--
-- Rounds: the loops of strlen and strcpy, of logf and read_ramdisk, along a directory's list and
-- over the map of memory have 2 ^ 32 rounds: each moves on by at least one address. Those of
-- identity_map_range and heap_allocate have 2 ^ 20 + 1, one more than there are pages, and the
-- loop over decimal digits 11, one more than a 32-bit number has. A poll of the serial chip is
-- repeated `patience` times, which is a parameter. All other loops are by recursion on the number
-- of rounds that are left. Where a theorem says that a function ends, it says that the rounds are enough.
--
-- Not modelled, and why:
--   - the calls of logf in the other parts: it writes to the serial port, which nothing reads
--   - the directory and the tables are read and written at their own addresses, since the code keeps
--     them in memory that is mapped to itself; the processor's cache of translations is left out, and
--     with it that no entry is invalidated
--   - where the linker puts tables and stubs: addresses are parameters
--   - what lies behind an array that the code overruns: init_filesystem reads files of more than 100
--     bytes into one of 100. What init_page_table_allocator clears behind its bitmap is a parameter
--   - the file system at boot: it is initialized before paging and the heap, whose pointer is then 0.
--     Its theorems speak of any allocator that gives a new block; a null pointer ends a run, as with
--     paging on
--   - interrupts within a function: those of the timer come between the turns of the tasks
--   - nodes, entries of directories and task blocks are records by address, next to the bytes of
--     memory: that a write to memory could overwrite one is left out; a name is the text that its
--     array holds
--   - that strcpy copies a file's name after the node is allocated: it is read before
--   - in kernel/kernel.c, what stands behind panic("stop"), which never runs
--   - kernel/boot.asm, gdt_flush and idt_flush, which load registers that nothing here reads
--   - a nested interrupt between sti and iret in kernel/interrupts.asm, and what the compiled C
--     functions do on the stack: they are a parameter, and a theorem names what it needs of them
--   - kernel/includes/multiboot.h but for two constants and the fields that kernel/kernel.c reads
mod Base
pub mod Hardware
pub mod Strings
pub mod Memory
pub mod Filesystem
pub mod Tty
pub mod Tasking
pub mod Timer
pub mod Pic
pub mod Isr
pub mod Interrupts
pub mod Gdt
pub mod Idt
pub mod Keyboard
pub mod Initrd
pub mod Logger
pub mod Boot
