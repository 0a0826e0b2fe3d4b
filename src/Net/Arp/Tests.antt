-- ===== src/Net/Arp/Tests.antt =====
-- Messages of kernel/net/arp.cpp to the machine 10.0.2.15 behind the gateway 10.0.2.2.
use mesa_os.Prelude.{ℕ, ◌≡◌, refl, [], arith}
use mesa_os.Net.Arp.{
  ArpMessage, Arp, broadcast_mac, send_request, send_reply, handle_packet, resolve,
}
use mesa_os.Net.Arp.Cache.{resolve-handle_packet, handle_packet-send_request}

abbrev ip : ℕ
ip = 0x0f02000a

abbrev gateway : ℕ
gateway = 0x0202000a

abbrev start : Arp
start = record { cache_ip = 0; cache_mac = broadcast_mac }

-- The answer of the gateway.
abbrev answer : ArpMessage
answer = (send_reply gateway 0x5254_0012_3502 0x5254_0012_3456 ip).message

resolve-handle_packet_example :
    resolve ip gateway 0x5254_0012_3456
      (handle_packet ip 0x5254_0012_3456 start answer 28).0
      gateway
    ≡ (0x5254_0012_3502, [])
unfolding send_reply
resolve-handle_packet_example =
    resolve-handle_packet ip gateway 0x5254_0012_3456 0x5254_0012_3456 start answer 28 (omega arith)
      refl (λ e. omega (arith, e))

handle_packet-send_request_example :
    (handle_packet ip 0x5254_0012_3456 start
      (send_request gateway 0 0x5254_0012_3502 ip).message
      46).1
    ≡ []
handle_packet-send_request_example =
    handle_packet-send_request ip gateway 0x5254_0012_3456 0x5254_0012_3456 start gateway
      0x5254_0012_3502 0 46
