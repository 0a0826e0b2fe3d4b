-- ===== src/Net/Packet.antt =====
-- The bytes of packets in kernel/net: a packet is a function from the offset to the byte there, which
-- also gives what lies behind its end. Words are in the order of the processor, the low byte first.
pub mod Words
use mesa_os.Prelude.{
  ℕ, ◌+◌, ◌-◌, ◌*◌, ◌/◌, ◌%◌, ◌^◌, ◌<◌, ◌≡◌, List, ltb, if◌then◌else◌, length, nth,
}

-- The buffer after its header and `size` bytes of data are written over what it held.
unfoldable pub with_header : List ℕ → (ℕ → ℕ) → ℕ → (ℕ → ℕ) → ℕ → ℕ
with_header header bytes size old i =
    if ltb i (length header)
    then nth header i
    else if ltb i (length header + size)
    then bytes (i - length header)
    else old i

-- Byte `i` of a word.
abbrev pub byte : ℕ → ℕ → ℕ
byte i v = v / 2 ^ (i * 8) % 256

abbrev pub word16 : (ℕ → ℕ) → ℕ → ℕ
word16 packet i = packet i + packet (i + 1) * 2 ^ 8

abbrev pub word32 : (ℕ → ℕ) → ℕ → ℕ
word32 packet i =
    packet i + packet (i + 1) * 2 ^ 8 + packet (i + 2) * 2 ^ 16 + packet (i + 3) * 2 ^ 24

-- The two packets have the same first `n` bytes.
abbrev pub AgreeBelow : ℕ → (ℕ → ℕ) → (ℕ → ℕ) → Type 0
AgreeBelow n p q = (i : ℕ) → i < n → p i ≡ q i
