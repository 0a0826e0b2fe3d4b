-- ===== src/Net/Stack/Lease.antt =====
-- A DHCP reply that goes through kernel/net from the server to the machine that it is for.
use mesa_os.Prelude.{
  ℕ, ◌+◌, ◌^◌, ◌<◌, ◌≤◌, ◌≡◌, sym, ◌∙◌, true, List, [], ◌∷◌, length, arith, all_below, ◌==◌,
}
use mesa_os.Net.Arp.{Arp}
use mesa_os.Net.Packet.{byte, AgreeBelow}
use mesa_os.Net.Packet.Words.{word32-agree}
use mesa_os.Net.Ethernet
use mesa_os.Net.Ipv4
use mesa_os.Net.Ipv4.{Ipv4, set_ip}
use mesa_os.Net.Udp
use mesa_os.Net.Dhcp
use mesa_os.Net.Dhcp.Lease.{Item, encode, apply_all, Holds, IsReply, handle_packet_configures}
use mesa_os.Net.Stack.{handle_packet-send_packet}

Holds-agree :
    (bs : List ℕ) (p q : ℕ → ℕ) (at size : ℕ)
    → AgreeBelow size q p
    → at + length bs ≤ size
    → Holds p at bs
    → Holds q at bs
Holds-agree [] p q at size e h k = tt
Holds-agree (b ∷ bs) p q at size e h k =
    (e at (omega arith) ∙ k.0, Holds-agree bs p q (at + 1) size e (omega arith) (k.1))

IsReply-agree :
    (mac : ℕ) (p q : ℕ → ℕ) (size ip : ℕ) (items : List Item)
    → AgreeBelow size q p
    → IsReply mac p size ip items
    → IsReply mac q size ip items
IsReply-agree mac p q size ip items e h =
    let long : 240 ≤ size = omega (arith, h) in
    let own : all_below (λ i. q (28 + i) == byte i mac) 6 ≡ true =
      rw
        (
          e 28 (omega arith),
          e 29 (omega arith),
          e 30 (omega arith),
          e 31 (omega arith),
          e 32 (omega arith),
          e 33 (omega arith),
        )
        (h.0) in
    (
      own,
      (
        word32-agree size q p 16 e (omega arith) ∙ h.1.0,
        (
          h.1.1.0,
          (
            h.1.1.1.0,
            (Holds-agree (encode items) p q 240 size e (h.1.1.1.1.1) (h.1.1.1.1.0), h.1.1.1.1.1),
          ),
        ),
      ),
    )

-- A DHCP reply for this card, with its options and their end inside the message, that a server
-- sends by `UDP::send_packet` to port 68, in at most 65535 bytes of IPv4: the frame that leaves
-- the server, taken by `Ethernet::handle_packet` here, sets this machine's address and does what
-- the options say, in their order, whatever the buffers held before and whatever handles the other
-- protocols.
pub send_packet_configures :
    (arp ipv6 : (ℕ → ℕ) → ℕ → Ipv4 → Ipv4) (tcp icmp : ℕ → (ℕ → ℕ) → ℕ → Ipv4 → Ipv4)
    (mac server_mac : ℕ) (old_datagram old old_frame : ℕ → ℕ) (cache : Arp) (server : Ipv4)
    (dest_ip src_port : ℕ) (message : ℕ → ℕ) (size ip : ℕ) (items : List Item) (s : Ipv4)
    → server.my_ip < 2 ^ 32
    → size + 28 < 2 ^ 16
    → IsReply mac message size ip items
    → (let o =
          Udp.send_packet server_mac old_datagram old old_frame cache server dest_ip src_port 68
            message size in
        Ethernet.handle_packet arp
          (Ipv4.handle_packet (Udp.handle_packet (Dhcp.handle_packet mac)) tcp icmp)
          ipv6
          o.frame.buffer
          o.frame.size
          s
        ≡ apply_all items (set_ip ip s))
send_packet_configures arp ipv6 tcp icmp mac server_mac old_datagram old old_frame cache server
      dest_ip src_port message size ip items s b h r =
    let taken = handle_packet_configures mac message size ip items s r in
    handle_packet-send_packet arp ipv6 tcp icmp (Dhcp.handle_packet mac) server_mac old_datagram old
      old_frame cache server dest_ip src_port message size s b h
      (λ q e.
        handle_packet_configures mac q size ip items s
          (IsReply-agree mac message q size ip items e r)
        ∙ sym taken)
    ∙ taken
