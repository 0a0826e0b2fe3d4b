-- ===== src/Apps.antt =====
-- The programs that run in the kernel.
pub mod Nano
