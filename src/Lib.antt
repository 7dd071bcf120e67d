-- ===== src/Lib.antt =====
-- The operating-system exercises of this repository: a file system in a ramdisk, kept by a kernel
-- module, with the calls of a program on it; FIFOS-1, three threads under a round-robin scheduler;
-- FIFOS-2, where a timer interrupts them; memos-2, which prints the memory map; and two keyboard
-- modules.
--
-- The ramdisk (Ramdisk.antt) stands for `filesys - 可运行部分指令/module/`.
--   Store: data_structure.h, and the globals of initial_module.c as one state `Fs`. A command is a
--     function from a state to a result and a new state, or `fault`, where the C code reads through
--     `NULL`, outside of the space of the blocks, or outside of the inode list. The superblock, the
--     inodes and the bitmap are fields of the state; the bytes of the blocks are a function on
--     addresses of 32 bits. An `int` that is an index, a count or `ERROR` is an option.
--   Init: `init_datastructure`. Load: `init_ramdisk` and `unload_ramdisk`.
--   Bitmap: `allocate_bitmap`, `free_bitmap`.
--   Inodes: `allocate_inode`, and the end of `free_inode`.
--   Address: `switchAddress`, `get_blockpointer`. Blocks: `allocate_block`, `free_block`.
--   Directory: `search`, `isExist`, `free_parent_directory_entry`, `free_inode`.
--   Process: `create_FDT`, `get_FDT`, `isOpen`, `free_FDT`; a pointer to a table is its place in the
--     list of tables.
--   PathName: `layer_check`, `read_pathname`, and the walk over the parents that each call has.
--   File: `write_file`. File/Gap: a write behind blocks that are full.
--   Calls, Calls/Open, Calls/Data: the `rd_` calls of module_interface.h. Calls/Creates: `create` with
--     `isExist` behind it. Calls/Data/Content: `rd_read` against the content of a file.
--     Calls/Data/Refused: descriptors that stand for no file. Calls/Folder: `rd_open` and `rd_close` of
--     a folder.
-- A call of the module finds the table of the calling process, reads the path, walks from folder to
-- folder by `isExist`, and then changes blocks, inodes and the directory. What the kernel decides
-- (the process, its parent, whether `vmalloc` serves, and what its memory holds) is an argument `Env`.
-- The loops of the C code over 8, 16, 20, 64 or 1024 places take the number of rounds that they have
-- left as an argument, and start with that bound; the loop of `rd_read` starts with the number of
-- bytes to read, of which each round reads one at least.
--
--   Ioctl: `ramdisk_ioctl` of initial_module.c; what the copies from and to user space leave is an
--     argument.
--   Keeps: predicates on states that an operation keeps on every branch, with a file for each group of
--     operations. Reach: the states that sequences of `ramdisk_ioctl` lead to, of any processes with
--     any arguments, and induction on them (Reach/Counted, Reach/Marked).
--   User: test/user_interface.h, with `open` and `ioctl` of the system as arguments. User/PathName:
--     `check_pathname`. A call of a program trims its path, goes through `ioctl` to `ramdisk_ioctl`,
--     and from there to a call of module_interface.h.
--
-- The threads (Fifos.antt) stand for FIFOS-1 and FIFOS-2.
--   Thread: `TCB`, `threadCreate`, `createThreads`, `initTCBArray` of init.c; memory is a function on
--     addresses of 16-bit units. Switch: `switch_to` of switch.s, which pushes and pops a processor.
--   Scheduler: `scheduler`, `functionFinish`, `functionYield`, and the three thread functions of FIFOS-1
--     as one loop with a count for each; a step is one turn of the running thread.
--   Display: display.h; the screen is a function on cells of 16 bits. Interrupt: interrupt.h of FIFOS-2;
--     the bytes written to ports are a list.
--   Preempt: the threads of FIFOS-2. A step is one statement of the running thread, or the handler of
--     the timer with the `scheduler` that it calls; a run is any sequence of these. Preempt/Sound: what
--     holds of the saved contexts. Preempt/Exact: what holds of the tags printed so far.
--     Preempt/Left: a bound on the statements that are left.
--   Start: `init` of FIFOS-1, with what it and the threads put on the screen.
--   Boot: `init` of FIFOS-2, which prints, creates the threads and sets the interrupts up.
--
-- Memos stands for memos-2/memos-2.c. Number: `toString`, whose loop has 32 rounds, the places of its
-- buffer; Number/Wide: `intToString` of testToString.c, its copy for 64 bits. Map: `printStr` and
-- `init`, whose walk has a number of rounds as an argument; one for each 4 bytes of the map is enough,
-- since a range takes 4 bytes at least.
--
-- Keyboard stands for KBD_module.c and KBD_module_noIR.c of `Primer Assignment/MingxinChen/`. A run of
-- the first is a sequence of interrupts, signals and statements of one call; the second polls a list
-- of what the ports would give. Register: what the two modules register when they are loaded.
--
-- Base holds what all parts share. Base/ProcFiles is the interface to the kernel for entries in /proc
-- and interrupts, whose functions are arguments.
-- The modules Examples hold states on which the theorems are used.
--
-- Not modelled: the main programs that test the modules; the boot code in assembly, and memos-1, which
-- is assembly; interrupt_handler.s, whose handler is not installed; elf.h and the rest of multiboot.h,
-- which are copies of other projects. The messages of `printk`, `my_printk` and `printf` and the delay
-- loops are left out. Inodes lie apart from the bitmap and the blocks in the state, though in memory those
-- from the 819th on lie over them. A write in front of the space of the blocks is a fault in the state,
-- though in memory it reaches the bitmap. The scheduler of FIFOS-1 is apart from `switch_to`, and the registers that the handler of the
-- timer in FIFOS-2 does not save are left out.
pub mod Base
pub mod Ramdisk
pub mod Fifos
pub mod Memos
pub mod Keyboard
