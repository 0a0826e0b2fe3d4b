-- ===== src/Net/Udp.antt =====
-- kernel/net/udp.cpp. What takes the packets for port 68 is an argument.
use mesa_os.Prelude.{ℕ, ◌+◌, ◌-◌, ◌%◌, ◌^◌, List, [], ◌∷◌, ltb, ◌==◌, if◌then◌else◌}
use mesa_os.Net.Arp.{Arp, swap_uint16}
use mesa_os.Net.Ipv4
use mesa_os.Net.Ipv4.{Ipv4, Outcome}
use mesa_os.Net.Packet.{with_header, byte, word16}

module _ {S : Type 0} (dhcp : (ℕ → ℕ) → ℕ → S → S) where
  unfoldable pub handle_packet : ℕ → (ℕ → ℕ) → ℕ → S → S
  handle_packet src_ip packet size s =
      if ltb size 8
      then s
      else if swap_uint16 (word16 packet 2) == 68
      then dhcp (λ i. packet (8 + i)) (size - 8) s
      else s

unfoldable pub header_bytes : ℕ → ℕ → ℕ → List ℕ
header_bytes src_port dest_port size =
    let source = swap_uint16 src_port in
    let destination = swap_uint16 dest_port in
    let length = swap_uint16 ((size + 8) % 2 ^ 32 % 2 ^ 16) in
    byte 0 source
    ∷ byte 1 source
    ∷ byte 0 destination
    ∷ byte 1 destination
    ∷ byte 0 length
    ∷ byte 1 length
    ∷ 0
    ∷ 0
    ∷ []

-- The buffers of the datagram, of the packet and of the frame held `old_datagram`, `old` and
-- `old_frame`.
unfoldable pub send_packet :
    ℕ → (ℕ → ℕ) → (ℕ → ℕ) → (ℕ → ℕ) → Arp → Ipv4 → ℕ → ℕ → ℕ → (ℕ → ℕ) → ℕ → Outcome
send_packet mac old_datagram old old_frame arp s dest_ip src_port dest_port bytes size =
    let datagram = with_header (header_bytes src_port dest_port size) bytes size old_datagram in
    Ipv4.send_packet mac old old_frame arp s dest_ip 0x11 datagram ((size + 8) % 2 ^ 32)
