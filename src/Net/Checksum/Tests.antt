-- ===== src/Net/Checksum/Tests.antt =====
-- Runs of the Internet checksum of kernel/net/ipv4.cpp, and the theorems at these inputs.
use mesa_os.Prelude.Bits.{bit_not}
use mesa_os.Prelude.{ℕ, ◌/◌, ◌%◌, ◌^◌, ◌<◌, ◌≡◌, refl, List, [], ◌∷◌, ◌++◌, arith}
use mesa_os.Net.Checksum.Verify.{AllBytes, calculate_checksum_verifies}
use mesa_os.Net.Checksum.{sum_words, fold_carries, calculate_checksum}

-- The header of an IPv4 packet up to its checksum, and after it.
abbrev before : List ℕ
before = 0x45 ∷ 0x00 ∷ 0x00 ∷ 0x73 ∷ 0x00 ∷ 0x00 ∷ 0x40 ∷ 0x00 ∷ 0x40 ∷ 0x11 ∷ []

abbrev behind : List ℕ
behind = 0xc0 ∷ 0xa8 ∷ 0x00 ∷ 0x01 ∷ 0xc0 ∷ 0xa8 ∷ 0x00 ∷ 0xc7 ∷ []

-- The known checksum of this header is 0xb861, in the byte order of the network.
calculate_checksum_header : calculate_checksum (before ++ 0 ∷ 0 ∷ behind) ≡ 0x61b8
unfolding calculate_checksum sum_words fold_carries bit_not
calculate_checksum_header = refl

abbrev carried : ℕ
carried = 0x2479e

bytes : AllBytes (before ++ 0 ∷ 0 ∷ behind)
bytes = ground arith

calculate_checksum_verifies_example :
    let c = calculate_checksum (before ++ 0 ∷ 0 ∷ behind) in
    (c < 2 ^ 16) × (calculate_checksum (before ++ c % 256 ∷ c / 256 ∷ behind) ≡ 0)
calculate_checksum_verifies_example =
    calculate_checksum_verifies 5 before behind refl bytes (omega arith)
