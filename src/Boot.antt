-- ===== src/Boot.antt =====
-- bootloader/boot.c, boot.h and ELF.h: the memory map that the kernel gets, the graphics mode, and the
-- kernel's segments. Memory is a function from the address to the byte. What the firmware answers
-- is an argument: the memory map, the graphics modes, and the pages that it hands out.
pub mod Bytes
pub mod MemoryMap
pub mod Modes
pub mod Elf
pub mod Tables
pub mod Paging
mod Examples
