-- ===== src/Net/Packet/Words.antt =====
-- Words in the packets of kernel/net, and what a buffer holds behind its header.
use mesa_os.Prelude.Bits.Fields.{bit_or-add}
use mesa_os.Prelude.{
  ℕ, ◌+◌, ◌-◌, ◌*◌, ◌/◌, ◌%◌, ◌^◌, ◌<◌, ◌≡◌, ap, ap₂, ◌∙◌, true, false, List, ltb, arith, if_true,
  if_false, length, nth,
}
use mesa_os.Net.Arp.{swap_uint16}
use mesa_os.Net.Packet.{with_header, byte, word16, word32, AgreeBelow}

pub swap_uint16_lem : (v : ℕ) → v < 2 ^ 16 → swap_uint16 v ≡ v % 2 ^ 8 * 2 ^ 8 + v / 2 ^ 8
unfolding swap_uint16
swap_uint16_lem v h = omega (arith, bit_or-add 8 v (v / 2 ^ 8) (omega arith))

pub swap_uint16-lt : (v : ℕ) → swap_uint16 v < 2 ^ 16
unfolding swap_uint16
swap_uint16-lt v = omega arith

pub swap_uint16_twice : (v : ℕ) → v < 2 ^ 16 → swap_uint16 (swap_uint16 v) ≡ v
swap_uint16_twice v h =
    omega (arith, swap_uint16_lem v h, swap_uint16_lem (swap_uint16 v) (swap_uint16-lt v))

-- A word from its bytes.
pub bytes16 : (v : ℕ) → v < 2 ^ 16 → byte 0 v + byte 1 v * 2 ^ 8 ≡ v
bytes16 v h = omega arith

pub bytes32 :
    (v : ℕ) → v < 2 ^ 32 → byte 0 v + byte 1 v * 2 ^ 8 + byte 2 v * 2 ^ 16 + byte 3 v * 2 ^ 24 ≡ v
bytes32 v h = omega arith

-- A word that was swapped, written, read and swapped again.
pub swapped16 :
    (v : ℕ) → v < 2 ^ 16 → swap_uint16 (byte 0 (swap_uint16 v) + byte 1 (swap_uint16 v) * 2 ^ 8) ≡ v
swapped16 v h = ap swap_uint16 (bytes16 (swap_uint16 v) (swap_uint16-lt v)) ∙ swap_uint16_twice v h

pub with_header_data :
    (header : List ℕ) (bytes : ℕ → ℕ) (size : ℕ) (old : ℕ → ℕ) (i : ℕ)
    → i < size
    → with_header header bytes size old (length header + i) ≡ bytes i
unfolding with_header
with_header_data header bytes size old i h =
    let n = length header in
    let behind : ltb (n + i) n ≡ false = ground arith in
    let inside : ltb (n + i) (n + size) ≡ true = ground arith in
    let place : n + i - n ≡ i = omega arith in
    if_false (nth header (n + i)) _ behind
    ∙ if_true (bytes (n + i - n)) (old (n + i)) inside
    ∙ ap bytes place

pub word16-agree :
    (n : ℕ) (p q : ℕ → ℕ) (i : ℕ) → AgreeBelow n p q → i + 1 < n → word16 p i ≡ word16 q i
word16-agree n p q i e h = ap₂ (λ (x y : ℕ). x + y * 2 ^ 8) (e i (omega arith)) (e (i + 1) h)

pub word32-agree :
    (n : ℕ) (p q : ℕ → ℕ) (i : ℕ) → AgreeBelow n p q → i + 3 < n → word32 p i ≡ word32 q i
word32-agree n p q i e h =
    let low =
      ap₂ (λ (x y : ℕ). x + y * 2 ^ 16) (word16-agree n p q i e (omega arith))
        (e (i + 2) (omega arith)) in
    ap₂ (λ (x y : ℕ). x + y * 2 ^ 24) low (e (i + 3) h)
