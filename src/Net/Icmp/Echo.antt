-- ===== src/Net/Icmp/Echo.antt =====
-- The packets of kernel/net/icmp.cpp, and what it does with them.
use mesa_os.Prelude.{ℕ, zero, suc, ◌+◌, ◌≡◌, refl, [], ◌∷◌, arith, length}
use mesa_os.Net.Checksum.{calculate_checksum}
use mesa_os.Net.Checksum.Verify.{calculate_checksum_verifies, AllBytes}
use mesa_os.Net.Icmp.{alphabet_from, echo_back, echo_packet}

alphabet_bytes : (n i : ℕ) → AllBytes (alphabet_from i n)
unfolding alphabet_from
alphabet_bytes zero i = tt
alphabet_bytes (suc n) i = (omega arith, alphabet_bytes n (i + 1))

length-echo_back : (id sequence : ℕ) → length (echo_back id sequence) ≡ 36
unfolding echo_back alphabet_from
length-echo_back id sequence = refl

echo_bytes : (id sequence : ℕ) → AllBytes (8 ∷ 0 ∷ 0 ∷ 0 ∷ echo_back id sequence)
unfolding echo_back
echo_bytes id sequence = (
  omega arith,
  (
    omega arith,
    (
      omega arith,
      (
        omega arith,
        (omega arith, (omega arith, (omega arith, (omega arith, alphabet_bytes 32 0)))),
      ),
    ),
  ),
)

-- The checksum of an echo request with its checksum field filled in is 0.
pub calculate_checksum-echo_packet :
    (id sequence : ℕ) → calculate_checksum (echo_packet id sequence) ≡ 0
unfolding echo_packet
calculate_checksum-echo_packet id sequence =
    (calculate_checksum_verifies 1 (8 ∷ 0 ∷ []) (echo_back id sequence) refl
      (echo_bytes id sequence) (omega (arith, length-echo_back id sequence))).1
