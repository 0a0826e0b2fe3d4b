-- ===== src/Net.antt =====
-- kernel/net: the packet filter, the resolution of addresses and the transport protocol.
pub mod Firewall
pub mod Checksum
pub mod Tcp
pub mod Arp
pub mod Packet
pub mod Ethernet
pub mod Ipv4
pub mod Udp
pub mod Icmp
pub mod Dhcp
pub mod Stack
