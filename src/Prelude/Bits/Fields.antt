-- ===== src/Prelude/Bits/Fields.antt =====
-- Masks and fields of a word as arithmetic: `a & (2 ^ k - 1)`, `a & ~b`, and `|` of fields that do
-- not overlap.
use mesa_os.Prelude.Bits.Step.{bit_and_step, bit_or_step}
use Prim.Native.Nat.{ℕ, zero, suc, ◌+◌, ◌-◌, ◌*◌, ◌/◌, ◌%◌, ◌^◌, ◌<◌, bit_and, bit_or}
use mathlib.Core.Path.{◌≡◌, ap, ap₂, ◌∙◌}
use native.Mathlib.Nat.{pow-suc, one-le-pow}
use native.Mathlib.Omega.{arith}
use mesa_os.Prelude.Bits.{bit_not, bit_ext, bit-zero, bit-bit_and, bit-bit_or}

none_below : (a : ℕ) → bit_and a 0 ≡ 0
none_below a = bit_ext _ _ (λ i. omega (arith, bit-bit_and i a 0, bit-zero i))

same_below : (a : ℕ) → bit_or a 0 ≡ a
same_below a = bit_ext _ _ (λ i. omega (arith, bit-bit_or i a 0, bit-zero i))

twice : (q k : ℕ) → q * 2 ^ suc k ≡ q * 2 ^ k * 2
twice q k = omega (arith, ap (λ (p : ℕ). q * p) (pow-suc 2 k))

-- `(q << k) | r`
pub bit_or-add : (k q r : ℕ) → r < 2 ^ k → bit_or (q * 2 ^ k) r ≡ q * 2 ^ k + r
bit_or-add zero q r h =
    let e : r ≡ 0 = omega arith in
    let o : q * 2 ^ 0 ≡ q = omega arith in rw (e, o) (omega (arith, same_below q))
bit_or-add (suc k) q r h = omega (
  arith,
  twice q k,
  pow-suc 2 k,
  bit_or_step (q * 2 ^ suc k) r,
  ap (λ (p : ℕ). bit_or (p / 2) (r / 2)) (twice q k),
  halved,
  bit_or-add k q (r / 2) (omega (arith, pow-suc 2 k)),
)
  where
    halved : bit_or (q * 2 ^ k * 2 / 2) (r / 2) ≡ bit_or (q * 2 ^ k) (r / 2)
    halved = ap (λ (p : ℕ). bit_or p (r / 2)) (omega arith)

-- `a & ~b` is what `a & b` leaves of `a`.
pub bit_and-bit_not :
    (n a b : ℕ) → a < 2 ^ n → b < 2 ^ n → bit_and a (bit_not n b) + bit_and a b ≡ a
unfolding bit_not
bit_and-bit_not zero a b h k =
    let e : a ≡ 0 = omega arith in
    let o : b ≡ 0 = omega arith in rw (e, o) (omega (arith, none_below 0))
bit_and-bit_not (suc n) a b h k =
    let e : (2 ^ suc n - 1 - b) / 2 ≡ 2 ^ n - 1 - b / 2 =
      omega (arith, pow-suc 2 n, one-le-pow n 2) in
    omega (
      arith,
      bit_and_step a (2 ^ suc n - 1 - b),
      bit_and_step a b,
      ap (λ (p : ℕ). bit_and (a / 2) p) e,
      bit_and-bit_not n (a / 2) (b / 2) (omega (arith, pow-suc 2 n)) (omega (arith, pow-suc 2 n)),
      pow-suc 2 n,
      one-le-pow n 2,
    )

-- A mask of `k` ones takes the low field.
pub low_field : (k q r : ℕ) → r < 2 ^ k → bit_and (q * 2 ^ k + r) (2 ^ k - 1) ≡ r
low_field zero q r h = let e : r ≡ 0 = omega arith in omega (arith, none_below (q * 2 ^ 0 + r))
low_field (suc k) q r h =
    let half : (q * 2 ^ suc k + r) / 2 ≡ q * 2 ^ k + r / 2 = omega (arith, twice q k) in
    let mask : (2 ^ suc k - 1) / 2 ≡ 2 ^ k - 1 = omega (arith, pow-suc 2 k, one-le-pow k 2) in
    omega (
      arith,
      bit_and_step (q * 2 ^ suc k + r) (2 ^ suc k - 1),
      ap₂ bit_and half mask,
      low_field k q (r / 2) (omega (arith, pow-suc 2 k)),
      twice q k,
      pow-suc 2 k,
      one-le-pow k 2,
    )

-- The offset and the frame of a word with a field of 12 bits, and fields of other widths.
pub bit_and_1 : (a : ℕ) → bit_and a 1 ≡ a % 2
bit_and_1 a = ap (λ (p : ℕ). bit_and p 1) (omega arith) ∙ low_field 1 (a / 2) (a % 2) (omega arith)

pub bit_and_0x3ff : (a : ℕ) → bit_and a 0x3ff ≡ a % 2 ^ 10
bit_and_0x3ff a =
    ap (λ (p : ℕ). bit_and p 0x3ff) (omega arith)
    ∙ low_field 10 (a / 2 ^ 10) (a % 2 ^ 10) (omega arith)

pub bit_and_0xfff : (a : ℕ) → bit_and a 0xfff ≡ a % 2 ^ 12
bit_and_0xfff a =
    ap (λ (p : ℕ). bit_and p 0xfff) (omega arith)
    ∙ low_field 12 (a / 2 ^ 12) (a % 2 ^ 12) (omega arith)

pub frame_lem : (a : ℕ) → a < 2 ^ 32 → bit_and a (bit_not 32 0xfff) ≡ a - a % 2 ^ 12
frame_lem a h = omega (arith, bit_and-bit_not 32 a 0xfff h (omega arith), bit_and_0xfff a)

pub bit_or_page : (a f : ℕ) → a % 2 ^ 12 ≡ 0 → f < 2 ^ 12 → bit_or a f ≡ a + f
bit_or_page a f h k =
    let e : a ≡ a / 2 ^ 12 * 2 ^ 12 = omega arith in
    ap (λ (p : ℕ). bit_or p f) e ∙ bit_or-add 12 (a / 2 ^ 12) f k ∙ omega arith

pub bit_or-lt : (n a b : ℕ) → a < 2 ^ n → b < 2 ^ n → bit_or a b < 2 ^ n
bit_or-lt zero a b h k =
    let e : a ≡ 0 = omega arith in
    let o : b ≡ 0 = omega arith in rw (e, o) (omega (arith, same_below 0))
bit_or-lt (suc n) a b h k = omega (
  arith,
  bit_or_step a b,
  bit_or-lt n (a / 2) (b / 2) (omega (arith, pow-suc 2 n)) (omega (arith, pow-suc 2 n)),
  pow-suc 2 n,
)

pub bit_and_0x80 : (a : ℕ) → a < 2 ^ 8 → bit_and a 0x80 ≡ a / 128 * 128
unfolding bit_not
bit_and_0x80 a h =
    let low : bit_and a 0x7f ≡ a % 128 =
      ap (λ (p : ℕ). bit_and p 0x7f) (omega arith)
      ∙ low_field 7 (a / 128) (a % 128) (omega arith) in
    omega (arith, bit_and-bit_not 8 a 0x7f h (omega arith), low)
