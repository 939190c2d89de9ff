-- ===== src/Cpu.antt =====
-- kernel/arch/x86_64/cpu: interrupts and segments.
pub mod Io
pub mod Pic
pub mod Idt
pub mod Gdt
pub mod Timer
pub mod Faults
pub mod Start
mod Examples
