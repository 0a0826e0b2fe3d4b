-- ===== src/Net/Ipv4/Header.antt =====
-- The checksum in the header of the packets of kernel/net/ipv4.cpp.
use mesa_os.Prelude.{ℕ, ◌<◌, ◌≡◌, refl, arith}
use mesa_os.Net.Checksum.{calculate_checksum}
use mesa_os.Net.Checksum.Verify.{calculate_checksum_verifies}
use mesa_os.Net.Ipv4.{Ipv4, header_front, header_back, header_bytes}

-- The header that `IPv4::send_packet` writes, for any state, receiver, size and 8-bit protocol,
-- passes the receiver's test of its checksum: the checksum of all its bytes is 0.
pub calculate_checksum-header_bytes :
    (s : Ipv4) (dest_ip protocol size : ℕ)
    → protocol < 256
    → calculate_checksum (header_bytes s dest_ip protocol size) ≡ 0
unfolding header_bytes header_front header_back
calculate_checksum-header_bytes s dest_ip protocol size h =
    (calculate_checksum_verifies 5 (header_front s protocol size) (header_back s dest_ip) refl
      (ground arith) (omega arith)).1
