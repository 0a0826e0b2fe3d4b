-- ===== src/Net/Stack.antt =====
-- A packet that goes down through kernel/net on one machine and up on another.
pub mod Lease
mod Tests
use mesa_os.Prelude.{
  ℕ, ◌+◌, ◌-◌, ◌*◌, ◌/◌, ◌%◌, ◌^◌, ◌<◌, ◌≤◌, ◌≡◌, refl, sym, ap, ap₂, ◌∙◌, true, false, List, ltb,
  ◌==◌, ==_refl, arith, if◌then◌else◌, if_true, if_false, length, nth, bit_and, ◌||◌, ◌++◌, ◌∷◌,
}
use mesa_os.Net.Checksum.{calculate_checksum}
use mesa_os.Net.Arp.{Arp, swap_uint16, resolve}
use mesa_os.Net.Packet.{with_header, byte, word16, word32, AgreeBelow}
use mesa_os.Net.Packet.Words.{
  swapped16, bytes16, bytes32, swap_uint16-lt, word16-agree, word32-agree, with_header_data,
}
use mesa_os.Net.Ethernet
use mesa_os.Net.Ipv4
use mesa_os.Net.Ipv4.{Ipv4, Outcome, header_bytes, header_front, header_back}
use mesa_os.Net.Udp

module _ {S : Type 0} where
  -- What takes a packet looks at no more than its bytes.
  abbrev pub Reads : ((ℕ → ℕ) → ℕ → S → S) → (ℕ → ℕ) → ℕ → S → Type 0
  Reads handler bytes size s =
      (packet : ℕ → ℕ) → AgreeBelow size packet bytes → handler packet size s ≡ handler bytes size s

  ethernet_passes :
      (arp ipv4 ipv6 : (ℕ → ℕ) → ℕ → S → S) (p : ℕ → ℕ) (n : ℕ) (s : S)
      → 14 ≤ n
      → word16 p 12 ≡ 0x0008
      → Ethernet.handle_packet arp ipv4 ipv6 p n s ≡ ipv4 (λ i. p (14 + i)) (n - 14) s
  unfolding Ethernet.handle_packet swap_uint16
  ethernet_passes arp ipv4 ipv6 p n s h e =
      let long : ltb n 14 ≡ false = ground arith in if_false s _ long ∙ rw e refl

  ipv4_passes :
      (udp tcp icmp : ℕ → (ℕ → ℕ) → ℕ → S → S) (p : ℕ → ℕ) (n src_ip size : ℕ) (s : S)
      → 20 ≤ n
      → p 0 ≡ 0x45
      → p 9 ≡ 17
      → swap_uint16 (word16 p 2) ≡ 20 + size
      → size < 2 ^ 32 - 20
      → word32 p 12 ≡ src_ip
      → Ipv4.handle_packet udp tcp icmp p n s ≡ udp src_ip (λ i. p (20 + i)) size s
  unfolding Ipv4.handle_packet
  ipv4_passes udp tcp icmp p n src_ip size s h v u l b a =
      let long : ltb n 20 ≡ false = ground arith in
      let rest : (20 + size + (2 ^ 32 - 20)) % 2 ^ 32 ≡ size = omega arith in
      if_false s _ long ∙ rw (u, v, l, a, rest) refl

  udp_passes :
      (dhcp : (ℕ → ℕ) → ℕ → S → S) (src_ip : ℕ) (p : ℕ → ℕ) (n : ℕ) (s : S)
      → 8 ≤ n
      → swap_uint16 (word16 p 2) ≡ 68
      → Udp.handle_packet dhcp src_ip p n s ≡ dhcp (λ i. p (8 + i)) (n - 8) s
  unfolding Udp.handle_packet
  udp_passes dhcp src_ip p n s h e =
      let long : ltb n 8 ≡ false = ground arith in if_false s _ long ∙ rw e refl

  -- A frame of type 0x0800.
  ethernet_arrives :
      (arp ipv4 ipv6 : (ℕ → ℕ) → ℕ → S → S) (mac : ℕ) (old : ℕ → ℕ) (dest_mac : ℕ) (bytes : ℕ → ℕ)
      (size : ℕ) (s : S)
      → size + 14 < 2 ^ 32
      → Reads ipv4 bytes size s
      → (let f = Ethernet.send_packet mac old dest_mac 0x0800 bytes size in
          Ethernet.handle_packet arp ipv4 ipv6 f.buffer f.size s ≡ ipv4 bytes size s)
  unfolding Ethernet.send_packet with_header nth swap_uint16
  ethernet_arrives arp ipv4 ipv6 mac old dest_mac bytes size s h r =
      let f = Ethernet.send_packet mac old dest_mac 0x0800 bytes size in
      let n : (size + 14) % 2 ^ 32 - 14 ≡ size = omega arith in
      ethernet_passes arp ipv4 ipv6 f.buffer f.size s (omega arith) refl
      ∙ ap (λ (k : ℕ). ipv4 (λ i. f.buffer (14 + i)) k s) n
      ∙ r (λ i. f.buffer (14 + i)) (λ i k. ground arith)

  -- A packet with protocol 17, or what begins like it.
  ipv4_arrives :
      (udp tcp icmp : ℕ → (ℕ → ℕ) → ℕ → S → S) (a : Ipv4) (dest_ip : ℕ) (bytes : ℕ → ℕ) (size : ℕ)
      (old : ℕ → ℕ) (s : S)
      → 20 + size < 2 ^ 16
      → a.my_ip < 2 ^ 32
      → Reads (udp a.my_ip) bytes size s
      → (q : ℕ → ℕ)
      → AgreeBelow (20 + size) q (with_header (header_bytes a dest_ip 0x11 size) bytes size old)
      → Ipv4.handle_packet udp tcp icmp q (20 + size) s ≡ udp a.my_ip bytes size s
  unfolding header_bytes header_front header_back with_header nth
  ipv4_arrives udp tcp icmp a dest_ip bytes size old s h b r q e =
      let packet = with_header (header_bytes a dest_ip 0x11 size) bytes size old in
      let short : (20 + size) % 2 ^ 16 ≡ 20 + size = omega arith in
      let l =
        ap swap_uint16 (word16-agree (20 + size) q packet 2 e (omega arith))
        ∙ swapped16 ((20 + size) % 2 ^ 16) (omega arith)
        ∙ short in
      let ip = word32-agree (20 + size) q packet 12 e (omega arith) ∙ bytes32 a.my_ip b in
      ipv4_passes udp tcp icmp q (20 + size) a.my_ip size s (omega arith) (e 0 (omega arith))
        (e 9 (omega arith)) l (omega arith) ip
      ∙ r (λ i. q (20 + i))
          (λ i k.
            e (20 + i) (omega arith)
            ∙ with_header_data (header_bytes a dest_ip 0x11 size) bytes size old i k)

  -- A datagram for port 68, or what begins like it.
  udp_arrives :
      (dhcp : (ℕ → ℕ) → ℕ → S → S) (src_ip src_port : ℕ) (bytes : ℕ → ℕ) (size : ℕ) (old : ℕ → ℕ)
      (s : S)
      → Reads dhcp bytes size s
      → (q : ℕ → ℕ)
      → AgreeBelow (size + 8) q (with_header (Udp.header_bytes src_port 68 size) bytes size old)
      → Udp.handle_packet dhcp src_ip q (size + 8) s ≡ dhcp bytes size s
  unfolding Udp.header_bytes with_header nth
  udp_arrives dhcp src_ip src_port bytes size old s r q e =
      let datagram = with_header (Udp.header_bytes src_port 68 size) bytes size old in
      let n : size + 8 - 8 ≡ size = omega arith in
      let port =
        ap swap_uint16 (word16-agree (size + 8) q datagram 2 e (omega arith))
        ∙ swapped16 68 (omega arith) in
      udp_passes dhcp src_ip q (size + 8) s (omega arith) port
      ∙ ap (λ (k : ℕ). dhcp (λ i. q (8 + i)) k s) n
      ∙ r (λ i. q (8 + i))
          (λ i k.
            e (8 + i) (omega arith)
            ∙ with_header_data (Udp.header_bytes src_port 68 size) bytes size old i k)

  -- Both together.
  datagram_arrives :
      (tcp icmp : ℕ → (ℕ → ℕ) → ℕ → S → S) (dhcp : (ℕ → ℕ) → ℕ → S → S) (old_datagram old : ℕ → ℕ)
      (a : Ipv4) (dest_ip src_port : ℕ) (bytes : ℕ → ℕ) (size : ℕ) (s : S)
      → a.my_ip < 2 ^ 32
      → size + 28 < 2 ^ 16
      → Reads dhcp bytes size s
      → (q : ℕ → ℕ)
      → AgreeBelow (20 + (size + 8)) q (
          with_header
            (header_bytes a dest_ip 0x11 (size + 8))
            (with_header (Udp.header_bytes src_port 68 size) bytes size old_datagram)
            (size + 8)
            old)
      → Ipv4.handle_packet (Udp.handle_packet dhcp) tcp icmp q (20 + (size + 8)) s
        ≡ dhcp bytes size s
  datagram_arrives tcp icmp dhcp old_datagram old a dest_ip src_port bytes size s b h r q e =
      let datagram = with_header (Udp.header_bytes src_port 68 size) bytes size old_datagram in
      let up = udp_arrives dhcp a.my_ip src_port bytes size old_datagram s r in
      let down = up datagram (λ i k. refl) in
      ipv4_arrives (Udp.handle_packet dhcp) tcp icmp a dest_ip datagram (size + 8) old s
        (omega arith) b (λ p f. up p f ∙ sym down) q e
      ∙ down

  -- What one machine sends by UDP to port 68 reaches the DHCP handler of another one, byte by byte.
  pub handle_packet-send_packet :
      (arp ipv6 : (ℕ → ℕ) → ℕ → S → S) (tcp icmp : ℕ → (ℕ → ℕ) → ℕ → S → S)
      (dhcp : (ℕ → ℕ) → ℕ → S → S) (mac : ℕ) (old_datagram old old_frame : ℕ → ℕ) (cache : Arp)
      (a : Ipv4) (dest_ip src_port : ℕ) (bytes : ℕ → ℕ) (size : ℕ) (s : S)
      → a.my_ip < 2 ^ 32
      → size + 28 < 2 ^ 16
      → Reads dhcp bytes size s
      → (let o =
            Udp.send_packet mac old_datagram old old_frame cache a dest_ip src_port 68 bytes size in
          Ethernet.handle_packet arp
            (Ipv4.handle_packet (Udp.handle_packet dhcp) tcp icmp)
            ipv6
            o.frame.buffer
            o.frame.size
            s
          ≡ dhcp bytes size s)
  unfolding Udp.send_packet Ipv4.send_packet
  handle_packet-send_packet arp ipv6 tcp icmp dhcp mac old_datagram old old_frame cache a dest_ip
        src_port bytes size s b h r =
      let m : (size + 8) % 2 ^ 32 ≡ size + 8 = omega arith in
      let n : (20 + (size + 8)) % 2 ^ 32 ≡ 20 + (size + 8) = omega arith in
      let packet =
        with_header (header_bytes a dest_ip 0x11 (size + 8))
          (with_header (Udp.header_bytes src_port 68 size) bytes size old_datagram) (size + 8)
          old in
      let up =
        datagram_arrives tcp icmp dhcp old_datagram old a dest_ip src_port bytes size s b h r in
      let down = up packet (λ i k. refl) in
      let dest_mac = (resolve a.my_ip a.gateway_ip mac cache (Ipv4.next_hop a dest_ip)).0 in
      rw (m, n)
        (ethernet_arrives arp (Ipv4.handle_packet (Udp.handle_packet dhcp) tcp icmp) ipv6 mac
            old_frame dest_mac packet (20 + (size + 8)) s (omega arith) (λ p f. up p f ∙ sym down)
          ∙ down)
