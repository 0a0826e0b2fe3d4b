-- ===== src/System.antt =====
-- The processes of the kernel.
pub mod Scheduler
