-- ===== src/Lib.antt =====
-- FlameOS, an operating system for x86-64 machines with UEFI: its bootloader, the memory of its
-- kernel, the processor tables and fault handlers, the debug output, the disk driver, opening and
-- reading files of FAT32, the graphics library, and its C library.
-- The bootloader (bootloader/boot.c) shrinks the firmware's memory map, makes freemap of it, loads
-- the kernel and hands its values over (kernel/arch/x86_64/init.h); init_paging of the kernel
-- builds page tables of its own with them.
-- The kernel keeps its memory in three layers. The allocator of physical pages
-- (kernel/memory/memory.c) keeps a bitmap over the areas of freemap. The page tables
-- (kernel/arch/x86_64/memory/paging.c) take their own pages from it and map each one to itself.
-- The heaps (kernel/memory/memory.c) keep a table of free spaces and a table of allocations, and
-- map physical pages behind the blocks that they hand out.
-- Files:
--   Base: Boolean tests, arrays as lists, outcomes of a run, the C integer types and signed
--     results (libs/include/types.h) and CEILING (libs/include/macros.h); Base/Bits: bit
--     operations by binary digits; Base/Text: text literals as characters.
--   Memory/Phys: phys_page_alloc and phys_page_free; below it Bitmap (the bitmap as a set of
--     pages), Alloc, Free and Count.
--   Memory/Machine: the state that the memory code shares, and commands over it.
--   Memory/Paging: map_page and find_physaddr; below it Entry (bits of an entry and of an
--     address), Tree (the invariant: each table has one place), Grow, Leaf, Ends, Ensure, Map and
--     Frame.
--   Memory/Heap: malloc_heap and malloc; below it Count, Rows, Malloc and Unaligned, and Free
--     with free and init_malloc, whose ends are in Release and Gives.
--   Memory/Heap/Refresh: refresh_freespace; below it Merge.
--   Memory/Setup: init_globals (kernel/arch/x86_64/init.h), init_paging, init_memory and
--     alloc_and_map; below it Ranges (what stays mapped over a loop), Kernel and Examples.
--   Memory/Examples: the theorems at concrete states.
--   Boot: the steps of bootloader/boot.c. Boot/Bytes: memcpy and memzero of bootloader/boot.h.
--     Boot/MemoryMap: the memory map and freemap; below it Shrink and Free. Boot/Modes: the
--     choice of the graphics mode. Boot/Elf: the kernel image; below it Size and Load.
--     Boot/Tables: its map_page; below it Same. Boot/Paging: the calls of map_page by boot.
--     Boot/Examples: the theorems at concrete inputs.
--   Disk: kernel/disk/PIO.c. Disk/Pio: readsectorpio and writesectorpio; below it Address,
--     Serves, Read and Write. Disk/Init: init_disk for one disk. Disk/Examples: a disk, and what
--     the driver does with it.
--   Fs/Fat: kernel/fs/FAT.c, over the bytes of the sectors (what readsectorpio leaves in a
--     buffer); below it Paste, Clusters, Read, Layout and Examples. Fs/Fat/Lookup: its
--     find_fat_entry and fat_filesize; below it Names (the name of an entry) and Find.
--   Gfx: libs/libgfx/gfx; below it Paint, Tga (the loops of libs/libgfx/img/tga.c) and Examples.
--   Libc/Itoa: libs/libc/stdlib/itoa.c, with a fault for a write behind the array; below it
--     Digits and Print. Libc/Bytes: libs/libc/string over a memory of bytes; below it Blocks
--     (memset, memcpy, memcmp) and Strings (strcmp). Libc/Wide: libs/libc/stdlib/wcstombs.c.
--     Libc/Examples: the theorems at concrete arguments.
--   Cpu/Io, Cpu/Pic, Cpu/Idt and Cpu/Gdt: the files of these names in kernel/arch/x86_64/cpu. The
--     device behind the ports and the addresses of the handlers are parameters; below them
--     Pic/Masks, Idt/Gates and Gdt/Segments. Cpu/Faults: the handlers of ints/IDT.c. Cpu/Timer: init_timer of
--     its ints/timer/PIT.c. Cpu/Start: the calls of init_idt and init_timer by
--     kernel/arch/x86_64/init.c. Cpu/Examples: the theorems at concrete arguments.
--   Log: kernel/arch/x86_64/syscall/debug_log.c, with the bytes that go to the serial port as the
--     result; below it Safe, Error (error and memdump) and Examples.
--   Fs: fseek of kernel/fs/FS.c; below it Seek, Table (aligncheck, rewind and fsize) and Examples.
--     Fs/Files: fread, over the lookup and the reading of Fs/Fat; below it Read. Fs/Open: fopen;
--     below it Path (the components in memory), Size and Contents (fopen, and then fread).
--     Fs/Close: fclose; below it Released.
--   Init: what kernel/arch/x86_64/init.c writes and draws; below it Report, Draw and Examples.
-- Pointers and size_t are numbers below 2 ^ 64 with the wrap-around written out; a C int that
-- counts rounds is a plain number. Page tables are read and written at their physical addresses,
-- as the source does. memset of a new page and the flags of an entry are those of the source.
-- map_page calls itself for each new table, so the model takes fuel for the depth. Each nested
-- call follows an allocation that lowers the number of free pages, so that fuel above this number
-- is enough. getdigits takes a round for each binary digit of its number at most, so 64; strcmp
-- and strcpy take one for each character. A write through the NULL that phys_page_alloc returns
-- when it fails ends a run, as do reads behind the entries of freemap.
-- The loops of init_paging and of the bootloader take fuel for their rounds, one for each page and
-- one more. The polling loops of the disk driver end when the disk is ready; the model takes fuel,
-- and more than the number of times that the disk says it is busy is enough. The loop of fat_read
-- takes a round for each cluster of the file, that of fclose one for each component of the path and
-- one more, and that of find_fat_entry one for each component of the path whose entry is in the
-- first cluster of its directory. The services of the firmware, the disk behind the ports, and what
-- memory holds before it is written are parameters.
-- Not modelled: free_pages of the memory code; sleep, which waits for a variable that is not
-- volatile; the bootloader's queries for the firmware's protocols, its clearing of the bitmap and
-- its jump to the kernel; the test of malloc in init; the allocations of init_disk and its calls of
-- fat_setup; the allocations of the file system, and their release but by fclose; the bytes behind
-- an array that fopen and find_fat_entry write to (a fault in the model, but for the end of fpath);
-- the file that tga_plot reads, and the terminal, which draws nothing yet; libm (floating point);
-- inline assembly but for the ports; the bounds of the bitmap array; and the hardware, the TLB
-- included.
pub mod Base
pub mod Memory
pub mod Libc
pub mod Cpu
pub mod Log
pub mod Fs
pub mod Boot
pub mod Disk
pub mod Gfx
pub mod Init
