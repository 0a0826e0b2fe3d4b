-- ===== src/Fs/Crypto/HmacSha256/Words.antt =====
-- The bytes of the words of kernel/fs/crypto.cpp's `HMAC_SHA256`.
use mesa_os.Prelude.Bits.Fields.{bit_or-add, low_field}
use mesa_os.Prelude.{
  ℕ, ◌+◌, ◌-◌, ◌*◌, ◌/◌, ◌%◌, ◌^◌, ◌<◌, ◌≡◌, sym, ap, ap₂, ◌∙◌, Bool, true, bit_and, bit_or, arith,
  ltb, if◌then◌else◌, if_true,
}
use mesa_os.Fs.Crypto.HmacSha256.{word_at, compress, sha256_transform, padding, sha256_final}

bit_and_0xff : (a : ℕ) → bit_and a 0xff ≡ a % 2 ^ 8
bit_and_0xff a =
    let e : a / 2 ^ 8 * 2 ^ 8 + a % 2 ^ 8 ≡ a = omega arith in
    omega
      (arith, low_field 8 (a / 2 ^ 8) (a % 2 ^ 8) (omega arith), ap (λ (x : ℕ). bit_and x 0xff) e)

-- Four bytes, the highest first.
joined :
    (p q r s : ℕ)
    → p < 256
    → q < 256
    → r < 256
    → s < 256
    → bit_or (bit_or (bit_or (p * 2 ^ 24 % 2 ^ 32) (q * 2 ^ 16)) (r * 2 ^ 8)) s
      ≡ p * 2 ^ 24 + q * 2 ^ 16 + r * 2 ^ 8 + s
joined p q r s hp hq hr hs =
    let u : p * 2 ^ 24 % 2 ^ 32 ≡ p * 2 ^ 24 = omega arith in
    let v : bit_or (p * 2 ^ 24) (q * 2 ^ 16) ≡ p * 2 ^ 24 + q * 2 ^ 16 =
      bit_or-add 24 p (q * 2 ^ 16) (omega arith) in
    let m : (p * 2 ^ 8 + q) * 2 ^ 16 ≡ p * 2 ^ 24 + q * 2 ^ 16 = omega arith in
    let w : bit_or ((p * 2 ^ 8 + q) * 2 ^ 16) (r * 2 ^ 8) ≡ (p * 2 ^ 8 + q) * 2 ^ 16 + r * 2 ^ 8 =
      bit_or-add 16 (p * 2 ^ 8 + q) (r * 2 ^ 8) (omega arith) in
    let w' = ap (λ (x : ℕ). bit_or x (r * 2 ^ 8)) (sym m) ∙ w in
    let n : (p * 2 ^ 16 + q * 2 ^ 8 + r) * 2 ^ 8 ≡ (p * 2 ^ 8 + q) * 2 ^ 16 + r * 2 ^ 8 =
      omega arith in
    let z = bit_or-add 8 (p * 2 ^ 16 + q * 2 ^ 8 + r) s hs in
    let all =
      ap (λ (x : ℕ). bit_or (bit_or (bit_or x (q * 2 ^ 16)) (r * 2 ^ 8)) s) u
      ∙ ap (λ (x : ℕ). bit_or (bit_or x (r * 2 ^ 8)) s) v
      ∙ ap (λ (x : ℕ). bit_or x s) w'
      ∙ ap (λ (x : ℕ). bit_or x s) (sym n)
      ∙ z in
    omega (arith, all)

-- Byte `j` of word `i` of the digest.
digest_byte :
    (state : ℕ → ℕ) (total_len i j : ℕ)
    → i < 8
    → j < 4
    → sha256_final state total_len (i * 4 + j)
      ≡ sha256_transform state (padding total_len) i / 2 ^ (24 - j * 8) % 2 ^ 8
unfolding sha256_final
digest_byte state total_len i j h k =
    let t = sha256_transform state (padding total_len) in
    let q : (i * 4 + j) / 4 ≡ i = omega arith in
    let m : (i * 4 + j) % 4 ≡ j = omega arith in
    let e : ltb (i * 4 + j) 32 ≡ true = ground arith in
    if_true _ 0 e
    ∙ bit_and_0xff (t ((i * 4 + j) / 4) / 2 ^ (24 - (i * 4 + j) % 4 * 8))
    ∙ ap₂ (λ (x y : ℕ). t x / 2 ^ (24 - y * 8) % 2 ^ 8) q m

wrapped : (b : Bool) (x y : ℕ) → b ≡ true → (if b then x % 2 ^ 32 else y) < 2 ^ 32
wrapped b x y h = rw h (omega arith)

word-lt : (state message : ℕ → ℕ) (i : ℕ) → i < 8 → sha256_transform state message i < 2 ^ 32
unfolding sha256_transform compress
word-lt state message i h = wrapped (ltb i 8) _ (state i) (ground arith)

-- The bytes that `sha256_final` writes, read as `sha256_transform` reads the words of a message,
-- are the eight words of the state after the padding block.
pub word_at-sha256_final :
    (state : ℕ → ℕ) (total_len i : ℕ)
    → i < 8
    → word_at (sha256_final state total_len) i ≡ sha256_transform state (padding total_len) i
unfolding word_at
word_at-sha256_final state total_len i h =
    let d = sha256_final state total_len in
    let x = sha256_transform state (padding total_len) i in
    let x-lt = word-lt state (padding total_len) i h in
    let d0 = digest_byte state total_len i 0 h (omega arith) in
    let start : i * 4 ≡ i * 4 + 0 = omega arith in
    let d0' = ap d start ∙ d0 in
    let d1 = digest_byte state total_len i 1 h (omega arith) in
    let d2 = digest_byte state total_len i 2 h (omega arith) in
    let d3 = digest_byte state total_len i 3 h (omega arith) in
    rw (d0', d1, d2, d3)
      (joined (x / 2 ^ 24 % 2 ^ 8) (x / 2 ^ 16 % 2 ^ 8) (x / 2 ^ 8 % 2 ^ 8) (x / 2 ^ 0 % 2 ^ 8)
          (omega arith) (omega arith) (omega arith) (omega arith)
        ∙ omega arith)
