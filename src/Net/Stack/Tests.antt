-- ===== src/Net/Stack/Tests.antt =====
-- A reply from a server, for the card 0x665544332211.
use mesa_os.Prelude.{
  ℕ, ◌-◌, ◌≡◌, refl, ◌&&◌, List, [], ◌∷◌, arith, ltb, leb, ◌==◌, if◌then◌else◌, nth,
}
use mesa_os.Net.Arp.{Arp}
use mesa_os.Net.Packet.{byte}
use mesa_os.Net.Ethernet
use mesa_os.Net.Ipv4
use mesa_os.Net.Ipv4.{Ipv4, at_boot, set_ip}
use mesa_os.Net.Udp
use mesa_os.Net.Dhcp
use mesa_os.Net.Dhcp.Lease.{Item, netmask, router, encode, item_bytes, apply_all, IsReply}
use mesa_os.Net.Stack.Lease.{send_packet_configures}

abbrev card : ℕ
card = 0x665544332211

abbrev items : List Item
items = netmask 0xffffff ∷ router 0x0100000a [] ∷ []

abbrev reply : ℕ → ℕ
reply i =
    if i == 16
    then 10
    else if leb 28 i && ltb i 34
    then byte (i - 28) card
    else if leb 240 i
    then nth (1 ∷ 4 ∷ 0xff ∷ 0xff ∷ 0xff ∷ 0 ∷ 3 ∷ 4 ∷ 10 ∷ 0 ∷ 0 ∷ 1 ∷ 255 ∷ []) (i - 240)
    else 0

reply-IsReply : IsReply card reply 300 10 items
unfolding encode item_bytes nth
reply-IsReply = (
  refl,
  (
    refl,
    (
      (λ (e : 10 ≡ 0). absurd (omega arith)),
      (
        (omega arith, (omega arith, tt)),
        (
          (
            refl,
            (
              refl,
              (
                refl,
                (refl, (refl, (refl, (refl, (refl, (refl, (refl, (refl, (refl, (refl, tt)))))))))),
              ),
            ),
          ),
          omega arith,
        ),
      ),
    ),
  ),
)

abbrev server : Ipv4
server = record { my_ip = 0x0100000a; gateway_ip = 0; subnet_mask = 0; next_id = 7 }

abbrev ignored : ℕ → (ℕ → ℕ) → ℕ → Ipv4 → Ipv4
ignored src_ip packet size s = s

abbrev empty_cache : Arp
empty_cache = record { cache_ip = 0; cache_mac = 0 }

send_packet_configures_example :
    (let o = Udp.send_packet 5 reply reply reply empty_cache server 0xffffffff 67 68 reply 300 in
      Ethernet.handle_packet
        (ignored 0)
        (Ipv4.handle_packet (Udp.handle_packet (Dhcp.handle_packet card)) ignored ignored)
        (ignored 0)
        o.frame.buffer
        o.frame.size
        at_boot
      ≡ apply_all items (set_ip 10 at_boot))
send_packet_configures_example =
    send_packet_configures (ignored 0) (ignored 0) ignored ignored card 5 reply reply reply
      empty_cache server 0xffffffff 67 reply 300 10 items at_boot (omega arith) (omega arith)
      reply-IsReply
