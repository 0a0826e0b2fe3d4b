-- ===== src/Memory/Pmm/Frames.antt =====
-- The bitmap of kernel/memory/pmm.cpp read as a set of frames: what a write to one of its bits
-- does to the test of another.
use native.Mathlib.Nat.{one-le-pow, pow-le-pow_right}
use mesa_os.Prelude.Bits.{
  bit, bit_not, bit-lt, bit_and-pow, bit-bit_and, bit-bit_or, bit-bit_not, bit-pow_self, bit-pow_ne,
}
use mesa_os.Prelude.{
  ℕ, zero, suc, ◌*◌, ◌/◌, ◌%◌, ◌^◌, ◌≤◌, ◌<◌, ◌≡◌, ◌≢◌, ap, true, false, not, arith, ◌==◌,
  if◌then◌else◌, Bool-cases, inl, inr, ==_iff,
}
use mesa_os.Memory.Pmm.{word_test, word_set, word_unset}

-- Digit `b % 32` of the word at `b / 32`.
abbrev digit : (ℕ → ℕ) → ℕ → ℕ
digit bm b = bit (b % 32) (bm (b / 32))

nonzero_digit : (c k : ℕ) → c < 2 → not (c * 2 ^ k == 0) ≡ (c == 1)
nonzero_digit zero k h = ground arith
nonzero_digit (suc zero) k h = ground (arith, one-le-pow k 2)
nonzero_digit (suc (suc c)) k h = absurd (omega arith)

pub word_test_lem : (bm : ℕ → ℕ) (b : ℕ) → word_test bm b ≡ (bit (b % 32) (bm (b / 32)) == 1)
unfolding word_test
word_test_lem bm b =
    rw (bit_and-pow (b % 32) (bm (b / 32)))
      (nonzero_digit (digit bm b) (b % 32) (bit-lt (b % 32) (bm (b / 32))))

-- A set bit leaves the others as they were.
digit-word_set_self : (bm : ℕ → ℕ) (b : ℕ) → digit (word_set bm b) b ≡ 1
unfolding word_set
digit-word_set_self bm b = ground (
  arith,
  bit-bit_or (b % 32) (bm (b / 32)) (2 ^ (b % 32)),
  bit-pow_self (b % 32),
  bit-lt (b % 32) (bm (b / 32)),
)

digit-word_set_ne : (bm : ℕ → ℕ) (a b : ℕ) → a ≢ b → digit (word_set bm a) b ≡ digit bm b
unfolding word_set
digit-word_set_ne bm a b h = elim (Bool-cases (a / 32 == b / 32)) [
  | inl same ↦ ground (
    arith,
    bit-bit_or (b % 32) (bm (b / 32)) (2 ^ (a % 32)),
    bit-pow_ne (b % 32) (a % 32) (ground arith),
    ap bm ((==_iff (a / 32) (b / 32)).0 same),
  )
  | inr other ↦ rw other
]

pow-lt-word : (b : ℕ) → 2 ^ (b % 32) < 2 ^ 32
pow-lt-word b =
    let h : 2 ^ (b % 32) ≤ 2 ^ 31 = pow-le-pow_right (omega arith) {j = 31} (omega arith) in
    omega arith

digit-word_unset_self : (bm : ℕ → ℕ) (b : ℕ) → digit (word_unset bm b) b ≡ 0
unfolding word_unset
digit-word_unset_self bm b = ground (
  arith,
  bit-bit_and (b % 32) (bm (b / 32)) (bit_not 32 (2 ^ (b % 32))),
  bit-bit_not 32 (b % 32) (2 ^ (b % 32)) (pow-lt-word b),
  bit-pow_self (b % 32),
)

digit-word_unset_ne : (bm : ℕ → ℕ) (a b : ℕ) → a ≢ b → digit (word_unset bm a) b ≡ digit bm b
unfolding word_unset
digit-word_unset_ne bm a b h = elim (Bool-cases (a / 32 == b / 32)) [
  | inl same ↦ ground (
    arith,
    bit-bit_and (b % 32) (bm (b / 32)) (bit_not 32 (2 ^ (a % 32))),
    bit-bit_not 32 (b % 32) (2 ^ (a % 32)) (pow-lt-word a),
    bit-pow_ne (b % 32) (a % 32) (ground arith),
    bit-lt (b % 32) (bm (b / 32)),
    ap bm ((==_iff (a / 32) (b / 32)).0 same),
  )
  | inr other ↦ rw other
]

pub word_test-word_set :
    (bm : ℕ → ℕ) (a b : ℕ) → word_test (word_set bm a) b ≡ (if a == b then true else word_test bm b)
word_test-word_set bm a b =
    rw (word_test_lem (word_set bm a) b, word_test_lem bm b)
      (ground (arith, digit-word_set_self bm a, digit-word_set_ne bm a b))

pub word_test-word_unset :
    (bm : ℕ → ℕ) (a b : ℕ)
    → word_test (word_unset bm a) b ≡ (if a == b then false else word_test bm b)
word_test-word_unset bm a b =
    rw (word_test_lem (word_unset bm a) b, word_test_lem bm b)
      (ground (arith, digit-word_unset_self bm a, digit-word_unset_ne bm a b))
