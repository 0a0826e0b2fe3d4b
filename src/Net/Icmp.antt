-- ===== src/Net/Icmp.antt =====
-- kernel/net/icmp.cpp.
pub mod Echo
mod Tests
use mesa_os.Prelude.{
  ℕ, zero, suc, ◌+◌, ◌-◌, ◌*◌, ◌/◌, ◌%◌, ◌^◌, ◌++◌, Bool, List, [], ◌∷◌, Option, none, some,
  bit_and, bit_or, ltb, ◌==◌, if◌then◌else◌, nth,
}
use mesa_os.Net.Checksum.{calculate_checksum}
use mesa_os.Net.Arp.{Arp}
use mesa_os.Net.Ipv4
use mesa_os.Net.Ipv4.{Ipv4, Outcome}
use mesa_os.Net.Packet.{byte, word16}

-- `((v >> 8) & 0xFF) | ((v << 8) & 0xFF00)`, in 16 bits.
unfoldable pub swapped : ℕ → ℕ
swapped v = bit_or (bit_and (v / 2 ^ 8) 0xff) (bit_and (v * 2 ^ 8) 0xff00)

-- The loop over the payload, from `i` on with `n` rounds left.
unfoldable pub alphabet_from : ℕ → ℕ → List ℕ
alphabet_from i zero = []
alphabet_from i (suc n) = (97 + i % 26) ∷ alphabet_from (i + 1) n

-- The packet behind its checksum.
unfoldable pub echo_back : ℕ → ℕ → List ℕ
echo_back id sequence =
    byte 0 (swapped id)
    ∷ byte 1 (swapped id)
    ∷ byte 0 (swapped sequence)
    ∷ byte 1 (swapped sequence)
    ∷ alphabet_from 0 32

unfoldable pub echo_packet : ℕ → ℕ → List ℕ
echo_packet id sequence =
    let checksum = calculate_checksum (8 ∷ 0 ∷ 0 ∷ 0 ∷ echo_back id sequence) in
    8 ∷ 0 ∷ checksum % 256 ∷ checksum / 256 ∷ echo_back id sequence

unfoldable pub send_echo_request : ℕ → (ℕ → ℕ) → (ℕ → ℕ) → Arp → Ipv4 → ℕ → ℕ → ℕ → Outcome
send_echo_request mac old old_frame arp s dest_ip id sequence =
    Ipv4.send_packet mac old old_frame arp s dest_ip 1 (nth (echo_packet id sequence)) 40

-- The line that is printed: the address, the number of bytes and the sequence number.
pub record Reply : Type 0 where
  pub address : List ℕ
  pub bytes : ℕ
  pub sequence : ℕ

unfoldable pub handle_packet : (ℕ → ℕ) → ℕ → ℕ → Option Reply
handle_packet packet size src_ip =
    if ltb size 8
    then none
    else if packet 0 == 0
    then some (record {
      address = byte 0 src_ip ∷ byte 1 src_ip ∷ byte 2 src_ip ∷ byte 3 src_ip ∷ [];
      bytes = size - 8;
      sequence = swapped (word16 packet 6);
    })
    else none
