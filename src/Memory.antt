-- ===== src/Memory.antt =====
-- kernel/memory and kernel/arch/x86_64/memory.
pub mod Phys
pub mod Machine
pub mod Paging
pub mod Heap
pub mod Setup
pub mod Examples
