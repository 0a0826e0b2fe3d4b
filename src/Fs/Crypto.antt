-- ===== src/Fs/Crypto.antt =====
-- kernel/fs/crypto.cpp, class by class: the cipher, the hash with a key, both together, and the keys.
pub mod Tables
pub mod Aes128
pub mod HmacSha256
pub mod KeyManager
pub mod AuthenticatedAes
