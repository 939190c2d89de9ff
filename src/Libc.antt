-- ===== src/Libc.antt =====
-- libs/libc.
pub mod Itoa
pub mod Bytes
pub mod Wide
mod Examples
