-- ===== src/Lib.antt =====
-- A model of parts of the ion_os kernel in cubical type theory: its memory management, its page
-- tables, its thread tables, its driver sockets with their system calls, and the byte functions of
-- its C library.
--
-- Parts. The physical frames are a bitmap (kernel/src/libs/bitmap.cpp) with one bit for a frame,
-- which kernel/src/mm/frame.cpp fills from the bootloader's memory map. The kernel's heap is a pool
-- (kernel/src/mm/heap/pool.cpp) on the headers of kernel/src/include/mm/alloc: an area of words
-- closed by two area words (area.hpp), cut into blocks with a tag word at either end (block.hpp),
-- the free ones on doubly linked lists by size class (freelist.hpp). The C allocation functions
-- (kernel/src/mm/heap/heap.cpp) call that pool. kernel/src/mm/heap/mman.cpp manages several such
-- areas, each with its own pool struct, and large blocks whose descriptors are in hashed lists
-- (large-blk.hpp). kernel/src/mm/heap/sized-pool.cpp is a pool of equal elements. Threads
-- (kernel/src/thread/thread.cpp) stand in two tables, from which a processor chooses the next one;
-- driver sockets (kernel/src/hel/dsocket.cpp) move bytes through the two buffers of a pair with
-- memcpy and memmove (kernel/src/libs/klibc.cpp). The page tables (kernel/src/arch/x86_64/table.cpp)
-- are words of memory in frames that the frame allocator gives. The system calls
-- (kernel/src/hel/syscall.cpp) connect sockets through the descriptors of threads, and map memory.
--
-- Files. Base holds shared names and lemmas on words, bits, masks and lists. Bitmap, Frame,
-- SizedPool, Thread, Dsocket and Klibc model the source files named after them, Block, Freelist,
-- Area and LargeBlk the headers. Pool models pool.cpp, with the allocation functions in Pool/Calls;
-- Mman models mman.cpp, with the functions that give memory back in Mman/Release and the allocation
-- functions in Mman/Calls; KernelHeap models heap.cpp. PageTable models table.cpp, with the
-- functions that copy and free an address space in PageTable/Clone. Syscall models syscall.cpp: the
-- objects and the calls that make a socket, Syscall/Connect the calls that connect sockets and move
-- bytes, and Syscall/Map the calls that map memory. Klibc/Number models `number` of
-- klibc.cpp. Each function keeps the name it has in the source. The other modules below these are
-- proofs, named for what they prove, and a module Tests in each holds runs at concrete states.
-- Memory is the heap's memory: a function from byte addresses to 64-bit words, of which the code
-- reads and writes those at word-aligned addresses; Klibc and Dsocket have a memory of bytes.
-- Machine has the outcomes of an allocator's run: a result with a state, an access through a
-- null pointer, or a loop out of fuel.
--
-- State. A heap is the pool's struct, the memory and the calls of the release callback. A pool is
-- well-formed (IsPool in Pool/Inv) when its nine lists are well linked, every node is a free block,
-- and no node's block meets another's. The lists themselves are lists of addresses.
-- Page tables are well-formed (IsTree in PageTable/Tree) when the tables below a root stand in used
-- frames of their own, each reached by one path of indices. The kernel's sockets, pairs, handles and
-- descriptors are the objects at each address; Syscall/Steps has the calls of many threads as a
-- step relation, in which a call that waits is two steps.
--
-- Numbers are ℕ; a 64-bit sum or difference is written out modulo 2 ^ 64 (add_size, sub_size), an
-- int of a socket is its 32 bits. A list walk takes fuel, and one unit more than the list has nodes is
-- enough, as it visits each node once. The other loops are recursions on the rounds that are left.
--
-- Arguments of the model: the bootloader's memory map, the bytes of memory before a start, the
-- callbacks that request memory, and what `malloc` returns where another allocator or a system call
-- calls it. A callback that releases memory shows as the list of its calls. The offset at which
-- physical memory is mapped is an argument too; the theorems are for 0xFFFF800000000000, which is
-- what the bootloader gives with four levels of tables.
--
-- Not modelled: locks. Each call of an allocator holds one from its start to its end. The calls on
-- sockets hold none, and are modelled for one part of a call at a time, up to its wait and behind
-- it, and for writes that stay in the buffers and in the threads' own memory. Also not modelled:
-- the flush of the translation cache, which changes no table; the system calls debug, clone and
-- exit, the format strings of klibc.cpp (vsprintf), the creation of threads; and what acts on
-- hardware: interrupts, descriptor tables, devices, the switch of stacks and the boot sequence.
pub mod Area
pub mod Base
pub mod Bitmap
pub mod Block
pub mod Dsocket
pub mod Frame
pub mod Freelist
pub mod KernelHeap
pub mod Klibc
pub mod LargeBlk
pub mod Machine
pub mod Memory
pub mod Mman
pub mod PageTable
pub mod Pool
pub mod SizedPool
pub mod Syscall
pub mod Thread
