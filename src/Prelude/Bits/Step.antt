-- ===== src/Prelude/Bits/Step.antt =====
-- The native operations mean `bitwise`, a recursion on digits with fuel. One equation for the
-- lowest digit drops the fuel.
use Prim.Native.Nat.{
  ℕ, zero, suc, ◌+◌, ◌-◌, ◌*◌, ◌/◌, ◌%◌, ◌≤◌, ◌<◌, min, max, bit_and, bit_or, bit_xor, digits,
  bitwise, differ, bit_and-bitwise, bit_or-bitwise, bit_xor-bitwise,
}
use mathlib.Core.Path.{◌≡◌, refl, ap, ◌∙◌}
use native.Mathlib.Omega.{arith}

module _ (rest : ℕ → ℕ) (digit : ℕ → ℕ → ℕ) where
  -- One more unit of fuel changes nothing once there is as much as the number.
  spare : (n a b : ℕ) → a ≤ n → digits rest digit (suc n) a b ≡ digits rest digit n a b
  spare zero zero b h = refl
  spare (suc n) zero b h = refl
  spare zero (suc a) b h = absurd (omega arith)
  spare (suc n) (suc a) b h =
      ap (λ t. t * 2 + digit (suc a % 2) (b % 2)) (spare n (suc a / 2) (b / 2) (omega arith))

  enough : (k n a b : ℕ) → n ≡ a + k → digits rest digit n a b ≡ bitwise rest digit a b
  enough zero n a b e = ap (λ t. digits rest digit t a b) (omega arith)
  enough (suc k) n a b e =
      let q : n ≡ suc (a + k) = omega arith in
      rw q (spare (a + k) a b (omega arith) ∙ enough k (a + k) a b refl)

  low_digit :
      (a b : ℕ)
      → bitwise rest digit (suc a) b
        ≡ bitwise rest digit (suc a / 2) (b / 2) * 2 + digit (suc a % 2) (b % 2)
  low_digit a b =
      ap (λ t. t * 2 + digit (suc a % 2) (b % 2))
        (enough (a - suc a / 2) a (suc a / 2) (b / 2) (omega arith))

pub bit_and_step : (m n : ℕ) → bit_and m n ≡ bit_and (m / 2) (n / 2) * 2 + min (m % 2) (n % 2)
bit_and_step zero n = simp bit_and-bitwise (omega arith)
bit_and_step (suc m) n = simp bit_and-bitwise (low_digit (λ y. 0) min m n)

pub bit_or_step : (m n : ℕ) → bit_or m n ≡ bit_or (m / 2) (n / 2) * 2 + max (m % 2) (n % 2)
bit_or_step zero n = simp bit_or-bitwise (omega arith)
bit_or_step (suc m) n = simp bit_or-bitwise (low_digit (λ y. y) max m n)

xor_digit : (x y : ℕ) → x < 2 → y < 2 → differ x y ≡ (x + y) % 2
xor_digit zero y p q = omega arith
xor_digit (suc zero) zero p q = refl
xor_digit (suc zero) (suc y) p q = omega arith
xor_digit (suc (suc x)) y p q = absurd (omega arith)

pub bit_xor_step : (m n : ℕ) → bit_xor m n ≡ bit_xor (m / 2) (n / 2) * 2 + (m % 2 + n % 2) % 2
bit_xor_step zero n = simp bit_xor-bitwise (omega arith)
bit_xor_step (suc m) n = simp bit_xor-bitwise (
    omega (
      arith,
      low_digit (λ y. y) differ m n,
      xor_digit (suc m % 2) (n % 2) (omega arith) (omega arith),
    ))
