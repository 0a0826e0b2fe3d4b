-- ===== src/Fs.antt =====
-- The file systems under kernel/fs.
pub mod Ramfs
pub mod Vfs
pub mod Mesafs
pub mod Crypto
