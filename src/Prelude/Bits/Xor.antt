-- ===== src/Prelude/Bits/Xor.antt =====
-- The laws of `^`: a group in which each number is its own inverse, and shifts and masks of it.
use mesa_os.Prelude.Bits.Step.{bit_xor_step}
use Prim.Native.Nat.{ℕ, zero, suc, ◌+◌, ◌*◌, ◌/◌, ◌%◌, ◌^◌, ◌<◌, bit_xor}
use mathlib.Core.Path.{◌≡◌, ap, ap₂, ◌∙◌}
use native.Mathlib.Nat.{pow-suc}
use native.Mathlib.Omega.{arith}
use mesa_os.Prelude.Bits.{bit_ext, bit-zero, bit-bit_xor, bit-lt}

pub bit_xor_comm : (a b : ℕ) → bit_xor a b ≡ bit_xor b a
bit_xor_comm a b = bit_ext _ _ (λ i. omega (arith, bit-bit_xor i a b, bit-bit_xor i b a))

pub bit_xor_assoc : (a b c : ℕ) → bit_xor (bit_xor a b) c ≡ bit_xor a (bit_xor b c)
bit_xor_assoc a b c = bit_ext _ _ (λ i. omega (
  arith,
  bit-bit_xor i (bit_xor a b) c,
  bit-bit_xor i a b,
  bit-bit_xor i a (bit_xor b c),
  bit-bit_xor i b c,
))

pub bit_xor_zero : (a : ℕ) → bit_xor a 0 ≡ a
bit_xor_zero a = bit_ext _ _ (λ i. omega (arith, bit-bit_xor i a 0, bit-zero i, bit-lt i a))

pub bit_xor_self : (a : ℕ) → bit_xor a a ≡ 0
bit_xor_self a = bit_ext _ _ (λ i. omega (arith, bit-bit_xor i a a, bit-zero i))

-- A mask applied twice.
pub bit_xor_twice : (a b : ℕ) → bit_xor (bit_xor a b) b ≡ a
bit_xor_twice a b = bit_xor_assoc a b b ∙ ap (bit_xor a) (bit_xor_self b) ∙ bit_xor_zero a

pub bit_xor_swap :
    (a b c d : ℕ) → bit_xor (bit_xor a b) (bit_xor c d) ≡ bit_xor (bit_xor a c) (bit_xor b d)
bit_xor_swap a b c d = bit_ext _ _ (λ i. omega (
  arith,
  bit-bit_xor i (bit_xor a b) (bit_xor c d),
  bit-bit_xor i a b,
  bit-bit_xor i c d,
  bit-bit_xor i (bit_xor a c) (bit_xor b d),
  bit-bit_xor i a c,
  bit-bit_xor i b d,
))

pub bit_xor-lt : (n a b : ℕ) → a < 2 ^ n → b < 2 ^ n → bit_xor a b < 2 ^ n
bit_xor-lt zero a b h k =
    let e : a ≡ 0 = omega arith in
    let f : b ≡ 0 = omega arith in rw (e, f) (omega (arith, bit_xor_zero 0))
bit_xor-lt (suc n) a b h k = omega (
  arith,
  bit_xor_step a b,
  bit_xor-lt n (a / 2) (b / 2) (omega (arith, pow-suc 2 n)) (omega (arith, pow-suc 2 n)),
  pow-suc 2 n,
)

-- `(a ^ b) >> 1` and `(a ^ b) << 1`.
pub bit_xor-half : (a b : ℕ) → bit_xor a b / 2 ≡ bit_xor (a / 2) (b / 2)
bit_xor-half a b = omega (arith, bit_xor_step a b)

pub bit_xor-double : (a b : ℕ) → bit_xor (a * 2) (b * 2) ≡ bit_xor a b * 2
bit_xor-double a b =
    let e : a * 2 / 2 ≡ a = omega arith in
    let f : b * 2 / 2 ≡ b = omega arith in
    omega (arith, bit_xor_step (a * 2) (b * 2), ap₂ bit_xor e f)

twice : (q k : ℕ) → q * 2 ^ suc k ≡ q * 2 ^ k * 2
twice q k = omega (arith, ap (λ (p : ℕ). q * p) (pow-suc 2 k))

-- Of two words with a high and a low field each.
pub bit_xor-fields :
    (n q r p s : ℕ)
    → r < 2 ^ n
    → s < 2 ^ n
    → bit_xor (q * 2 ^ n + r) (p * 2 ^ n + s) ≡ bit_xor q p * 2 ^ n + bit_xor r s
bit_xor-fields zero q r p s h k =
    let e : r ≡ 0 = omega arith in
    let f : s ≡ 0 = omega arith in
    let u : q * 2 ^ 0 + 0 ≡ q = omega arith in
    let v : p * 2 ^ 0 + 0 ≡ p = omega arith in rw (e, f, u, v) (omega (arith, bit_xor_zero 0))
bit_xor-fields (suc n) q r p s h k =
    let u : (q * 2 ^ suc n + r) / 2 ≡ q * 2 ^ n + r / 2 = omega (arith, twice q n) in
    let v : (p * 2 ^ suc n + s) / 2 ≡ p * 2 ^ n + s / 2 = omega (arith, twice p n) in
    omega (
      arith,
      twice q n,
      twice p n,
      twice (bit_xor q p) n,
      bit_xor_step (q * 2 ^ suc n + r) (p * 2 ^ suc n + s),
      ap₂ bit_xor u v,
      bit_xor_step r s,
      bit_xor-fields n q (r / 2) p (s / 2) (omega (arith, pow-suc 2 n))
          (omega (arith, pow-suc 2 n)),
    )

-- `(a ^ b) & 0xff` and `(a ^ b) >> 8`.
pub bit_xor-byte :
    (a b : ℕ)
    → (bit_xor a b % 2 ^ 8 ≡ bit_xor (a % 2 ^ 8) (b % 2 ^ 8))
      × (bit_xor a b / 2 ^ 8 ≡ bit_xor (a / 2 ^ 8) (b / 2 ^ 8))
bit_xor-byte a b =
    let u : a / 2 ^ 8 * 2 ^ 8 + a % 2 ^ 8 ≡ a = omega arith in
    let v : b / 2 ^ 8 * 2 ^ 8 + b % 2 ^ 8 ≡ b = omega arith in
    let e =
      bit_xor-fields 8 (a / 2 ^ 8) (a % 2 ^ 8) (b / 2 ^ 8) (b % 2 ^ 8) (omega arith)
        (omega arith) in
    let low = bit_xor-lt 8 (a % 2 ^ 8) (b % 2 ^ 8) (omega arith) (omega arith) in
    let both = ap₂ bit_xor u v in (omega (arith, e, low, both), omega (arith, e, low, both))
