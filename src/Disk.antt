-- ===== src/Disk.antt =====
-- kernel/disk: the disk driver over the ports.
pub mod Pio
pub mod Init
mod Examples
