-- ===== src/Prelude/Bits.antt =====
-- Binary digits of native numbers, and the laws of `&`, `|`, `^` and `~` at every width.
mod Step
pub mod Fields
pub mod Xor
use Step.{bit_and_step, bit_or_step, bit_xor_step}
use Prim.Native.Nat.{
  ℕ, zero, suc, ◌+◌, ◌-◌, ◌*◌, ◌/◌, ◌%◌, ◌^◌, ◌≤◌, ◌<◌, min, max, bit_and, bit_or, bit_xor,
}
use mathlib.Core.Path.{◌≡◌, refl, ◌∙◌, ap}
use native.Mathlib.Nat.{pow-suc, one-le-pow}
use native.Mathlib.Omega.{arith}

-- Digit `i` of `a`, the lowest first: `(a >> i) & 1`.
unfoldable pub bit : ℕ → ℕ → ℕ
bit zero a = a % 2
bit (suc i) a = bit i (a / 2)

pub bit-lt : (i a : ℕ) → bit i a < 2
unfolding bit
bit-lt zero a = omega arith
bit-lt (suc i) a = bit-lt i (a / 2)

pub bit-zero : (i : ℕ) → bit i 0 ≡ 0
unfolding bit
bit-zero zero = refl
bit-zero (suc i) = bit-zero i

pub bit-bit_and : (i a b : ℕ) → bit i (bit_and a b) ≡ min (bit i a) (bit i b)
unfolding bit
bit-bit_and zero a b = omega (arith, bit_and_step a b)
bit-bit_and (suc i) a b =
    let e : bit_and a b / 2 ≡ bit_and (a / 2) (b / 2) = omega (arith, bit_and_step a b) in
    rw e (bit-bit_and i (a / 2) (b / 2))

pub bit-bit_or : (i a b : ℕ) → bit i (bit_or a b) ≡ max (bit i a) (bit i b)
unfolding bit
bit-bit_or zero a b = omega (arith, bit_or_step a b)
bit-bit_or (suc i) a b =
    let e : bit_or a b / 2 ≡ bit_or (a / 2) (b / 2) = omega (arith, bit_or_step a b) in
    rw e (bit-bit_or i (a / 2) (b / 2))

pub bit-bit_xor : (i a b : ℕ) → bit i (bit_xor a b) ≡ (bit i a + bit i b) % 2
unfolding bit
bit-bit_xor zero a b = omega (arith, bit_xor_step a b)
bit-bit_xor (suc i) a b =
    let e : bit_xor a b / 2 ≡ bit_xor (a / 2) (b / 2) = omega (arith, bit_xor_step a b) in
    rw e (bit-bit_xor i (a / 2) (b / 2))

-- A number is its digits.
ext_fuel : (n a b : ℕ) → a ≤ n → b ≤ n → ((i : ℕ) → bit i a ≡ bit i b) → a ≡ b
unfolding bit
ext_fuel zero a b p q h = omega arith
ext_fuel (suc n) a b p q h =
    omega (arith, h 0, ext_fuel n (a / 2) (b / 2) (omega arith) (omega arith) (λ i. h (suc i)))

pub bit_ext : (a b : ℕ) → ((i : ℕ) → bit i a ≡ bit i b) → a ≡ b
bit_ext a b h = ext_fuel (a + b) a b (omega arith) (omega arith) h

-- `1 << j` has one digit.
pub bit-pow_self : (j : ℕ) → bit j (2 ^ j) ≡ 1
unfolding bit
bit-pow_self zero = refl
bit-pow_self (suc j) =
    let e : 2 ^ suc j / 2 ≡ 2 ^ j = omega (arith, pow-suc 2 j) in rw e (bit-pow_self j)

pub bit-pow_ne : (i j : ℕ) → ¬ (i ≡ j) → bit i (2 ^ j) ≡ 0
unfolding bit
bit-pow_ne zero zero h = absurd (h refl)
bit-pow_ne zero (suc j) h = omega (arith, pow-suc 2 j)
bit-pow_ne (suc i) zero h = bit-zero i
bit-pow_ne (suc i) (suc j) h =
    let e : 2 ^ suc j / 2 ≡ 2 ^ j = omega (arith, pow-suc 2 j) in
    rw e (bit-pow_ne i j (λ p. h (ap suc p)))

-- `a & (1 << j)` is zero or `1 << j`, as digit `j` is.
pub bit_and-pow : (j a : ℕ) → bit_and a (2 ^ j) ≡ bit j a * 2 ^ j
unfolding bit
bit_and-pow zero a = omega (arith, bit_and_step a 1, bit_and-pow_zero (a / 2))
  where
    bit_and-pow_zero : (a : ℕ) → bit_and a 0 ≡ 0
    bit_and-pow_zero a = bit_ext _ _ λ i. rw (bit-bit_and i a 0, bit-zero i) (omega arith)
bit_and-pow (suc j) a =
    let e : 2 ^ suc j / 2 ≡ 2 ^ j = omega (arith, pow-suc 2 j) in
    omega (
      arith,
      bit_and_step a (2 ^ suc j),
      ap (λ (t : ℕ). bit_and (a / 2) t) e,
      bit_and-pow j (a / 2),
      ap (λ (t : ℕ). bit j (a / 2) * t) (pow-suc 2 j),
      pow-suc 2 j,
    )

-- Digits past the width are zero.
pub bit_above : (n i a : ℕ) → a < 2 ^ n → n ≤ i → bit i a ≡ 0
unfolding bit
bit_above zero i a h p = let e : a ≡ 0 = omega arith in rw e (bit-zero i)
bit_above (suc n) zero a h p = absurd (omega arith)
bit_above (suc n) (suc i) a h p = bit_above n i (a / 2) (omega (arith, pow-suc 2 n)) (omega arith)

-- `~a` at width `n`.
unfoldable pub bit_not : ℕ → ℕ → ℕ
bit_not n a = 2 ^ n - 1 - a

pub bit-bit_not : (n i a : ℕ) → a < 2 ^ n → i < n → bit i (bit_not n a) ≡ 1 - bit i a
unfolding bit bit_not
bit-bit_not zero i a h p = absurd (omega arith)
bit-bit_not (suc n) zero a h p = omega (arith, pow-suc 2 n, one-le-pow n 2)
bit-bit_not (suc n) (suc i) a h p =
    let e : (2 ^ suc n - 1 - a) / 2 ≡ 2 ^ n - 1 - a / 2 =
      omega (arith, pow-suc 2 n, one-le-pow n 2) in
    rw e (bit-bit_not n i (a / 2) (omega (arith, pow-suc 2 n)) (omega arith))
