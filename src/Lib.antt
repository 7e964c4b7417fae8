-- ===== src/Lib.antt =====
-- Verification of parts of the Fexox-OS kernel.
--
-- The kernel runs on one processor. At boot, main.c hands the firmware's memory map to the physical
-- memory manager of MemoryControl.c, which keeps a bitmap of frames; the page tables and the heap
-- take their frames from it. Scheduler.c takes task blocks and stacks from the heap and switches
-- between kernel threads at each timer interrupt. Syscall.c serves user programs, with the file systems
-- below it, of which FAT32.c is one; ELF64.c loads programs, and PS2Mouse.c moves the pointer. Framebuffer.c draws
-- on the screen that the firmware set up, and has the console and the desktop.
--
-- Pmm (MemoryControl.c): a Pmm is g_pmm. A 64-bit word of the bitmap is its function of bits, so that
-- word w and bit b of it are those of frame 64 * w + b. Every pmm_ function is a function of the same
-- name that takes the state and returns the new one; the error value (phys_addr_t)-1 is a constructor
-- of the result. Addresses and frame numbers are natural numbers, and what C computes modulo 2^64 is
-- computed modulo 2^64. The two search loops run on fuel of the number of frames plus two: each round
-- that goes on raises the index by at least one, and a round needs index + count <= limit. The
-- firmware's map is a list of descriptors, and the old
-- contents of the memory where the bitmap comes to stand are an argument.
--
-- Vmm (MemoryControl.c): a Vmm is g_vmm with the frame manager and the memory that the tables lie in.
-- An entry is its function of bits, and memory is read as tables, by frame and index; an address of the
-- direct map and the physical address below it stand for the same frame. The vmm_ functions are
-- functions of the same names. Vmm/Mmu is the processor's walk, written apart from that code. Huge pages
-- are mapped by a loop with its number of rounds; the only fuel is that of the search for frames.
-- The frame bitmap lies in the same memory: where a table is cleared or an entry is written in one of
-- its frames, its words change too, and a new table is cleared in the memory with the words that the
-- bitmap holds then. The theorems on the page tables take the bitmap's frames as used and no table in
-- them (Vmm/Tree), so that reads of tables need no more; pmm_init_from_efi does not leave the frames
-- used, which is a finding of its own (Pmm/Boot). km_expand takes its run of frames from the bitmap
-- without a look at tables, as in that case there are none there.
--
-- Km (MemoryControl.c): a Heap is g_km with the headers of its blocks, read by address; a KernelMemory adds g_vmm
-- with g_pmm, where km_expand gets pages from. Links and neighbours are addresses, with 0 for NULL, so
-- that headers are shared as in the source; what programs write into their blocks is left out. The
-- fuel of kmalloc bounds the length of a free list. Km/Whole has what holds of the whole heap, Km/Reach
-- its clients' calls as a step relation, and Km/Boot the start of all three managers.
--
-- Sched (Scheduler.c, Scheduler.h): a Scheduler is g_sched with g_tsc_per_ns. A task_t * is a number
-- with 0 for NULL, and the tasks live in a store from pointers to records, so that aliasing is as in
-- the source. The run queue is the binary heap of task pointers. The time stamp counter, the blocks
-- that kmalloc returns and the interrupted task's stack pointer are arguments. Fuel: heap_up takes at
-- most i + 1 rounds and heap_down at most size + 1, as the index falls or grows in each; the walks
-- over the list of all tasks take the fuel as an argument. Sched/Reach has the calls as a step relation.
--
-- Syscall (Syscall.c, Syscall.h): a System is g_files and g_pipes with the state of the file systems.
-- The sc_ functions take it and return the answer, an errno being a constructor of its own, with the
-- new state. The functions of VFS.c that they call are a parameter, a record Vfs of operations on a
-- state V, and so are the memory of the program, as far as sc_open reads it, and vmm_map_user, which
-- sc_brk calls; sc_brk takes its frames from Pmm, and the frames that vmm_map_user takes for
-- tables are part of its own state. A read or write on a pipe runs up to the point where
-- the task yields, and the result says so; a sequence of such turns is a run of the tasks on the pipe.
--
-- Vfs (VFS.c): the mounts are the list of the entries of g_mounts in use, with paths as lists of bytes,
-- and the descriptors a function from numbers to entries. The operations of nodes are a parameter, a
-- record Nodes; vfs_mount takes what the searches and the file system's mount returned.
--
-- Fat (FAT32.c): a Fat is the part of fat32_priv_t that the table needs. The block device is a
-- parameter, a record Disk of a read and a write that may fail. The walks over chains run on fuel;
-- fat_chain_length stops by itself after total_clusters + 1 rounds, and the others return that they
-- ran out. The table in memory is a function, and what a write past the buffer does is not modelled:
-- the theorems on writes take clusters of the volume.
--
-- Klibc (klibc.c): a memory is a function from addresses to bytes. The scans for the end of a string
-- run on fuel, which bounds its length.
--
-- Png (png.c): the reader of bits, and the loop that undoes the filter of a row, a row being a function
-- from positions to bytes. Png/Filter has the filters as the format describes them.
--
-- Fb (Framebuffer.c, up to the desktop): an Fb is g_fb, an Fbcon is g_con, and the screen is a memory, a
-- function from addresses to bytes. An int32_t is its 32-bit pattern. Fb/Canvas has the pixels and what
-- it means to paint, Fb/Draw the primitives, Fb/Line the lines, Fb/Text the characters with the font of
-- Fb/Font (Fb/Glyph says what they look like by the table alone), and Fb/Console the console. The fuel of fb_line bounds the pixels of the line, those of
-- mask_to_shift are the 32 bits of a mask.
--
-- Elf (ELF64.c, ELF64.h): the check of a header, field by field, and the loader. The files, the heap, the
-- page tables and the threads below it are a parameter, a record Kernel of operations on a state; the
-- frames are those of Pmm, and the headers are read from the bytes of the file. The fuel of the loop
-- that reads a segment is the number of bytes that remain, of which each round reads one at least. Mouse (PS2Mouse.c): the interrupt handler as a
-- function of the byte that it reads, with the mode and the size of the screen as arguments.
--
-- Not modelled: path resolution and the drivers of devices, the directories
-- of FAT32, the jump to user mode, the rest of the picture decoder, and the desktop
-- with its windows; the contents of a new thread's
-- stack; the locks, which are empty or leave the interrupt flag as it was; debug output.
--
-- Base holds what the parts share: Boolean tests and the conditional, machine words, functions as
-- stores with the counting of their entries, bit masks, lists and integers over the native numbers.
pub mod Base
pub mod Pmm
pub mod Vmm
pub mod Km
pub mod Sched
pub mod Syscall
pub mod Vfs
pub mod Fat
pub mod Elf
pub mod Png
pub mod Fb
pub mod Klibc
pub mod Mouse
