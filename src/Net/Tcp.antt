-- ===== src/Net/Tcp.antt =====
-- kernel/net/tcp.cpp and kernel/net/tcp.hpp.
pub mod Types
pub mod Output
pub mod Input
pub mod Sockets
pub mod Ring
pub mod Stream
pub mod Machine
pub mod Handshake
pub mod Handles
pub mod SendWindow
mod Tests
