-- ===== src/Fs/Crypto/HmacSha256.antt =====
-- `HMAC_SHA256` of kernel/fs/crypto.cpp. Words are numbers below 2 ^ 32, arrays are functions from
-- the index. What lies on the stack behind `inner_hash`, of which `compute` reads 32 bytes, is the
-- argument `beyond` of `compute` and of all that calls it.
pub mod Words
pub mod Reads
mod Tests
use mesa_os.Fs.Crypto.Tables.{sha256_k}
use mesa_os.Prelude.{
  ℕ, zero, suc, ◌+◌, ◌-◌, ◌*◌, ◌/◌, ◌%◌, ◌^◌, Bool, true, bit_and, bit_or, bit_xor, ltb, leb, ◌==◌,
  ◌&&◌, if◌then◌else◌, update,
}

-- `x >> right | x << left`.
unfoldable pub shifted : ℕ → ℕ → ℕ → ℕ
shifted x right left = bit_or (x / 2 ^ right) (x * 2 ^ left % 2 ^ 32)

-- `(data[i * 4] << 24) | ...`.
unfoldable pub word_at : (ℕ → ℕ) → ℕ → ℕ
word_at message i =
    bit_or
      (bit_or (bit_or (message (i * 4) * 2 ^ 24 % 2 ^ 32) (message (i * 4 + 1) * 2 ^ 16))
        (message (i * 4 + 2) * 2 ^ 8))
      (message (i * 4 + 3))

-- The first loop of `sha256_transform`, with `n` rounds left.
unfoldable pub first_words : (ℕ → ℕ) → (ℕ → ℕ) → ℕ → ℕ → ℕ → ℕ
first_words message w i zero = w
first_words message w i (suc n) = first_words message (update w i (word_at message i)) (i + 1) n

unfoldable pub next_word : (ℕ → ℕ) → ℕ → ℕ
next_word w i =
    let u = w (i - 15) in
    let v = w (i - 2) in
    let s0 = bit_xor (bit_xor (shifted u 7 25) (shifted u 18 14)) (u / 2 ^ 3) in
    let s1 = bit_xor (bit_xor (shifted v 17 15) (shifted v 19 13)) (v / 2 ^ 10) in
    (w (i - 16) + s0 + w (i - 7) + s1) % 2 ^ 32

-- The second loop.
unfoldable pub more_words : (ℕ → ℕ) → ℕ → ℕ → ℕ → ℕ
more_words w i zero = w
more_words w i (suc n) = more_words (update w i (next_word w i)) (i + 1) n

pub record Working : Type 0 where
  a : ℕ
  b : ℕ
  c : ℕ
  d : ℕ
  e : ℕ
  f : ℕ
  g : ℕ
  h : ℕ

-- One round of the main loop; `~e` is `2 ^ 32 - 1 - e`.
unfoldable pub round : ℕ → ℕ → Working → Working
round k w v =
    let s1 = bit_xor (bit_xor (shifted v.e 6 26) (shifted v.e 11 21)) (shifted v.e 25 7) in
    let ch = bit_xor (bit_and v.e v.f) (bit_and (2 ^ 32 - 1 - v.e) v.g) in
    let temp1 = (v.h + s1 + ch + k + w) % 2 ^ 32 in
    let s0 = bit_xor (bit_xor (shifted v.a 2 30) (shifted v.a 13 19)) (shifted v.a 22 10) in
    let maj = bit_xor (bit_xor (bit_and v.a v.b) (bit_and v.a v.c)) (bit_and v.b v.c) in
    let temp2 = (s0 + maj) % 2 ^ 32 in
    record {
      a = (temp1 + temp2) % 2 ^ 32;
      b = v.a;
      c = v.b;
      d = v.c;
      e = (v.d + temp1) % 2 ^ 32;
      f = v.e;
      g = v.f;
      h = v.g;
    }

-- The main loop, with `n` rounds left.
unfoldable pub rounds : (ℕ → ℕ) → ℕ → ℕ → Working → Working
rounds w i zero v = v
rounds w i (suc n) v = rounds w (i + 1) n (round (sha256_k i) (w i) v)

-- The working variables as an array.
unfoldable pub variable : Working → ℕ → ℕ
variable v i =
    if i == 0
    then v.a
    else if i == 1
    then v.b
    else if i == 2
    then v.c
    else if i == 3
    then v.d
    else if i == 4
    then v.e
    else if i == 5
    then v.f
    else if i == 6
    then v.g
    else v.h

-- The message schedule; what `w` holds at first is never read.
unfoldable pub schedule : (ℕ → ℕ) → ℕ → ℕ
schedule message = more_words (first_words message (λ i. 0) 0 16) 16 48

-- `sha256_transform` from the schedule on.
unfoldable pub compress : (ℕ → ℕ) → (ℕ → ℕ) → ℕ → ℕ
compress state w =
    let start : Working = record {
      a = state 0;
      b = state 1;
      c = state 2;
      d = state 3;
      e = state 4;
      f = state 5;
      g = state 6;
      h = state 7;
    } in
    let last = rounds w 0 64 start in
    λ i. if ltb i 8 then (state i + variable last i) % 2 ^ 32 else state i

unfoldable pub sha256_transform : (ℕ → ℕ) → (ℕ → ℕ) → ℕ → ℕ
sha256_transform state message = compress state (schedule message)

unfoldable pub sha256_init : ℕ → ℕ
sha256_init = variable record {
  a = 0x6a09e667;
  b = 0xbb67ae85;
  c = 0x3c6ef372;
  d = 0xa54ff53a;
  e = 0x510e527f;
  f = 0x9b05688c;
  g = 0x1f83d9ab;
  h = 0x5be0cd19;
}

-- The 64 bytes of the padding that are read.
unfoldable pub padding : ℕ → ℕ → ℕ
padding total_len i =
    let bit_len = total_len * 8 % 2 ^ 64 in
    if i == 0
    then 0x80
    else if leb 56 i && ltb i 64
    then bit_and (bit_len / 2 ^ (56 - (i - 56) * 8)) 0xff
    else 0

unfoldable pub sha256_final : (ℕ → ℕ) → ℕ → ℕ → ℕ
sha256_final state total_len i =
    let state = sha256_transform state (padding total_len) in
    if ltb i 32 then bit_and (state (i / 4) / 2 ^ (24 - i % 4 * 8)) 0xff else 0

-- A key of at most 64 bytes, or the first 32 of a longer one, with `pad` added to all 64 bytes.
unfoldable pub padded_key : (ℕ → ℕ) → ℕ → ℕ → ℕ → ℕ
padded_key key key_len pad i =
    bit_xor (if ltb i (if leb key_len 64 then key_len else 32) then key i else 0) pad

unfoldable pub inner_hash : (ℕ → ℕ) → ℕ → (ℕ → ℕ) → ℕ → ℕ → ℕ
inner_hash key key_len message data_len =
    let state = sha256_transform sha256_init (padded_key key key_len 0x36) in
    sha256_final (sha256_transform state message) (64 + data_len)

unfoldable pub compute : (ℕ → ℕ) → (ℕ → ℕ) → ℕ → (ℕ → ℕ) → ℕ → ℕ → ℕ
compute beyond key key_len message data_len =
    let inner = inner_hash key key_len message data_len in
    let state = sha256_transform sha256_init (padded_key key key_len 0x5c) in
    sha256_final (sha256_transform state (λ i. if ltb i 32 then inner i else beyond (i - 32)))
      (64 + 32)

-- `memcmp(...) == 0` on the first `n` bytes.
unfoldable pub same_bytes : (ℕ → ℕ) → (ℕ → ℕ) → ℕ → Bool
same_bytes a b zero = true
same_bytes a b (suc n) = same_bytes a b n && (a n == b n)

unfoldable pub verify : (ℕ → ℕ) → (ℕ → ℕ) → ℕ → (ℕ → ℕ) → ℕ → (ℕ → ℕ) → Bool
verify beyond key key_len message data_len expected_hmac =
    same_bytes (compute beyond key key_len message data_len) expected_hmac 32
