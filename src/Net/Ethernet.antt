-- ===== src/Net/Ethernet.antt =====
-- kernel/net/ethernet.cpp. What takes the packets of a type is an argument, as a function of the
-- packet, its size and a state of any type. A hardware address is a number of 48 bits.
use mesa_os.Prelude.{ℕ, ◌+◌, ◌-◌, ◌%◌, ◌^◌, ◌||◌, [], ◌∷◌, ltb, ◌==◌, if◌then◌else◌}
use mesa_os.Net.Arp.{swap_uint16}
use mesa_os.Net.Packet.{with_header, byte, word16}

module _ {S : Type 0} (arp ipv4 ipv6 : (ℕ → ℕ) → ℕ → S → S) where
  unfoldable pub handle_packet : (ℕ → ℕ) → ℕ → S → S
  handle_packet packet size s =
      let ethertype = word16 packet 12 in
      let payload : ℕ → ℕ = λ i. packet (14 + i) in
      if ltb size 14
      then s
      else if ethertype == 0x0608 || ethertype == 0x0806 || ethertype == swap_uint16 0x0806
      then arp payload (size - 14) s
      else if ethertype == 0x0008 || ethertype == 0x0800 || ethertype == swap_uint16 0x0800
      then ipv4 payload (size - 14) s
      else if ethertype == 0xdd86 || ethertype == swap_uint16 0x86dd
      then ipv6 payload (size - 14) s
      else s

-- The address of the first card, or of the second where that is 0.
unfoldable pub get_mac_address : ℕ → ℕ → ℕ
get_mac_address rtl8139 pcnet = if rtl8139 == 0 then pcnet else rtl8139

-- A packet as both cards get it.
pub record Sent : Type 0 where
  pub buffer : ℕ → ℕ
  pub size : ℕ

-- The address of this machine is `mac`, and the buffer held `old`.
unfoldable pub send_packet : ℕ → (ℕ → ℕ) → ℕ → ℕ → (ℕ → ℕ) → ℕ → Sent
send_packet mac old dest_mac ethertype bytes size =
    let swapped = swap_uint16 ethertype in
    let header =
      byte 0 dest_mac
      ∷ byte 1 dest_mac
      ∷ byte 2 dest_mac
      ∷ byte 3 dest_mac
      ∷ byte 4 dest_mac
      ∷ byte 5 dest_mac
      ∷ byte 0 mac
      ∷ byte 1 mac
      ∷ byte 2 mac
      ∷ byte 3 mac
      ∷ byte 4 mac
      ∷ byte 5 mac
      ∷ byte 0 swapped
      ∷ byte 1 swapped
      ∷ [] in
    record { buffer = with_header header bytes size old; size = (size + 14) % 2 ^ 32 }
