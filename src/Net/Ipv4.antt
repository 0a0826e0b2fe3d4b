-- ===== src/Net/Ipv4.antt =====
-- kernel/net/ipv4.cpp. What takes the packets of a protocol is an argument, as a function of the
-- sender, the packet, its size and a state of any type.
pub mod Header
mod Tests
use mesa_os.Prelude.{
  ℕ, ◌+◌, ◌-◌, ◌*◌, ◌/◌, ◌%◌, ◌^◌, ◌++◌, Bool, not, ◌&&◌, List, [], ◌∷◌, bit_and, ltb, ◌==◌,
  if◌then◌else◌,
}
use mesa_os.Net.Checksum.{calculate_checksum}
use mesa_os.Net.Arp
use mesa_os.Net.Arp.{Arp, Frame, swap_uint16, resolve}
use mesa_os.Net.Ethernet
use mesa_os.Net.Packet.{with_header, byte, word16, word32}

pub record Ipv4 : Type 0 where
  pub my_ip : ℕ
  pub gateway_ip : ℕ
  pub subnet_mask : ℕ
  pub next_id : ℕ

abbrev pub at_boot : Ipv4
at_boot = record { my_ip = 0; gateway_ip = 0; subnet_mask = 0; next_id = 0x1234 }

unfoldable pub set_ip : ℕ → Ipv4 → Ipv4
set_ip ip s = record s { my_ip = ip }

unfoldable pub set_gateway : ℕ → Ipv4 → Ipv4
set_gateway ip s = record s { gateway_ip = ip }

unfoldable pub set_netmask : ℕ → Ipv4 → Ipv4
set_netmask ip s = record s { subnet_mask = ip }

module _ {S : Type 0} (udp tcp icmp : ℕ → (ℕ → ℕ) → ℕ → S → S) where
  unfoldable pub handle_packet : (ℕ → ℕ) → ℕ → S → S
  handle_packet packet size s =
      let header_size = bit_and (packet 0) 0x0f * 4 in
      let payload : ℕ → ℕ = λ i. packet (header_size + i) in
      let payload_size = (swap_uint16 (word16 packet 2) + (2 ^ 32 - header_size)) % 2 ^ 32 in
      let protocol = packet 9 in
      let src_ip = word32 packet 12 in
      if ltb size 20
      then s
      else if protocol == 17
      then udp src_ip payload payload_size s
      else if protocol == 6
      then tcp src_ip payload payload_size s
      else if protocol == 1
      then icmp src_ip payload payload_size s
      else s

-- The first ten bytes of the header, up to the checksum.
unfoldable pub header_front : Ipv4 → ℕ → ℕ → List ℕ
header_front s protocol size =
    let length = swap_uint16 ((20 + size) % 2 ^ 16) in
    let id = swap_uint16 s.next_id in
    0x45 ∷ 0 ∷ byte 0 length ∷ byte 1 length ∷ byte 0 id ∷ byte 1 id ∷ 0 ∷ 0 ∷ 64 ∷ protocol ∷ []

-- The addresses.
unfoldable pub header_back : Ipv4 → ℕ → List ℕ
header_back s dest_ip =
    byte 0 s.my_ip
    ∷ byte 1 s.my_ip
    ∷ byte 2 s.my_ip
    ∷ byte 3 s.my_ip
    ∷ byte 0 dest_ip
    ∷ byte 1 dest_ip
    ∷ byte 2 dest_ip
    ∷ byte 3 dest_ip
    ∷ []

unfoldable pub header_bytes : Ipv4 → ℕ → ℕ → ℕ → List ℕ
header_bytes s dest_ip protocol size =
    let checksum =
      calculate_checksum (header_front s protocol size ++ 0 ∷ 0 ∷ header_back s dest_ip) in
    header_front s protocol size ++ checksum % 256 ∷ checksum / 256 ∷ header_back s dest_ip

-- The address whose hardware address is asked for.
unfoldable pub next_hop : Ipv4 → ℕ → ℕ
next_hop s dest_ip =
    if not (s.gateway_ip == 0) && not (s.subnet_mask == 0)
    then if not (bit_and dest_ip s.subnet_mask == bit_and s.my_ip s.subnet_mask)
      then s.gateway_ip
      else dest_ip
    else dest_ip

-- The state afterwards, the requests of `ARP::resolve` and then the packet.
pub record Outcome : Type 0 where
  pub state : Ipv4
  pub requests : List Frame
  pub frame : Ethernet.Sent

-- The address of this machine's card is `mac`; the buffers of the packet and of the frame held `old`
-- and `old_frame`.
unfoldable pub send_packet : ℕ → (ℕ → ℕ) → (ℕ → ℕ) → Arp → Ipv4 → ℕ → ℕ → (ℕ → ℕ) → ℕ → Outcome
send_packet mac old old_frame arp s dest_ip protocol bytes size =
    let packet = with_header (header_bytes s dest_ip protocol size) bytes size old in
    let resolved = resolve s.my_ip s.gateway_ip mac arp (next_hop s dest_ip) in
    record {
      state = record s { next_id = (s.next_id + 1) % 2 ^ 16 };
      requests = resolved.1;
      frame = Ethernet.send_packet mac old_frame (resolved.0) 0x0800 packet ((20 + size) % 2 ^ 32);
    }
