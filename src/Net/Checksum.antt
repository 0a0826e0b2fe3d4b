-- ===== src/Net/Checksum.antt =====
-- The Internet checksum of kernel/net/ipv4.cpp (and its copy in kernel/net/icmp.cpp) and of
-- kernel/net/tcp.cpp. A packet is the list of its bytes; 16-bit words are read in the byte order of
-- the processor, the low byte first.
pub mod Verify
mod Tests
use mesa_os.Prelude.Bits.{bit_not}
use mesa_os.Prelude.{
  ℕ, zero, suc, ◌+◌, ◌-◌, ◌*◌, ◌/◌, ◌%◌, ◌^◌, List, [], ◌∷◌, ◌==◌, if◌then◌else◌, length,
}

-- The loop that adds up the words and then the byte that is left over. `sum` is 32 bits wide.
pub sum_words : ℕ → List ℕ → ℕ
sum_words sum [] = sum
sum_words sum (a ∷ []) = (sum + a) % 2 ^ 32
sum_words sum (a ∷ b ∷ bs) = sum_words ((sum + (a + b * 256)) % 2 ^ 32) bs

-- `while (sum >> 16) sum = (sum & 0xffff) + (sum >> 16)`, on fuel.
pub fold_carries : ℕ → ℕ → ℕ
fold_carries zero sum = sum
fold_carries (suc f) sum =
    let rest = fold_carries f (sum % 2 ^ 16 + sum / 2 ^ 16) in
    if sum / 2 ^ 16 == 0 then sum else rest

-- `~((uint16_t)sum)`, as the 16-bit result.
pub calculate_checksum : List ℕ → ℕ
calculate_checksum bytes = bit_not 16 (fold_carries 3 (sum_words 0 bytes) % 2 ^ 16)

-- The sum that `TCP::calculate_checksum` starts from: the halves of the two addresses, the protocol
-- and the length.
pub pseudo_header : ℕ → ℕ → ℕ → ℕ
pseudo_header src_ip dest_ip len =
    (src_ip % 2 ^ 16 + src_ip / 2 ^ 16 + dest_ip % 2 ^ 16 + dest_ip / 2 ^ 16 + 6 + len) % 2 ^ 32

pub tcp_checksum : List ℕ → ℕ → ℕ → ℕ
tcp_checksum bytes src_ip dest_ip =
    bit_not 16
      (fold_carries 3 (sum_words (pseudo_header src_ip dest_ip (length bytes)) bytes) % 2 ^ 16)
