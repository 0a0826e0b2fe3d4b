-- ===== src/Fs/Crypto/Aes128/Field.antt =====
-- The arithmetic of bytes in kernel/fs/crypto.cpp: the tables are inverse, and `multiply` is linear.
use mesa_os.Prelude.Bits.Fields.{bit_and_0x80}
use mesa_os.Prelude.Bits.Xor.{
  bit_xor_self, bit_xor_swap, bit_xor-lt, bit_xor-fields, bit_xor-byte, bit_xor-double,
}
use mesa_os.Prelude.{
  ℕ, zero, suc, ◌+◌, ◌*◌, ◌/◌, ◌%◌, ◌^◌, ◌<◌, ◌≡◌, refl, sym, ap, ap₂, ◌∙◌, true, bit_and, bit_xor,
  arith, ltb, ◌==◌, ==_iff, if◌then◌else◌, if_cases, Bool-cases, inl, inr, all_below, all_below_lem,
}
use mesa_os.Fs.Crypto.Tables.{s_box, inv_s_box}
use mesa_os.Fs.Crypto.Aes128.{xtime, multiply_from, multiply, xor4}

tables_inverse : all_below (λ x. inv_s_box (s_box x) == x) 256 ≡ true
unfolding s_box inv_s_box
tables_inverse = refl

pub inv_s_box-s_box : (x : ℕ) → x < 256 → inv_s_box (s_box x) ≡ x
inv_s_box-s_box x h =
    (==_iff (inv_s_box (s_box x)) x).0
      (all_below_lem (λ x. inv_s_box (s_box x) == x) 256 x tables_inverse h)

tables_bytes : all_below (λ x. ltb (s_box x) 256) 256 ≡ true
unfolding s_box
tables_bytes = refl

pub s_box-lt : (x : ℕ) → x < 256 → s_box x < 256
s_box-lt x h =
    let e = all_below_lem (λ x. ltb (s_box x) 256) 256 x tables_bytes h in ground (arith, e)

pub xtime-lt : (x : ℕ) → xtime x < 256
unfolding xtime
xtime-lt x = omega arith

-- The constant that is added where the shift loses a digit.
lost : ℕ → ℕ
lost x = if bit_and x 0x80 == 0 then 0x00 else 0x1b

lost_lem : (x : ℕ) → x < 256 → lost x ≡ x / 128 * 0x1b
unfolding lost
lost_lem x h = ground (arith, bit_and_0x80 x h, h)

-- A digit as a factor.
digit-xor : (p q : ℕ) → p < 2 → q < 2 → bit_xor p q * 0x1b ≡ bit_xor (p * 0x1b) (q * 0x1b)
digit-xor zero zero h k = refl
digit-xor zero (suc zero) h k = refl
digit-xor (suc zero) zero h k = refl
digit-xor (suc zero) (suc zero) h k = refl
digit-xor zero (suc (suc q)) h k = absurd (omega arith)
digit-xor (suc zero) (suc (suc q)) h k = absurd (omega arith)
digit-xor (suc (suc p)) q h k = absurd (omega arith)

top-xor : (x y : ℕ) → bit_xor x y / 128 ≡ bit_xor (x / 128) (y / 128)
top-xor x y =
    let u : x / 128 * 2 ^ 7 + x % 128 ≡ x = omega arith in
    let v : y / 128 * 2 ^ 7 + y % 128 ≡ y = omega arith in
    let low = bit_xor-lt 7 (x % 128) (y % 128) (omega arith) (omega arith) in
    omega (
      arith,
      bit_xor-fields 7 (x / 128) (x % 128) (y / 128) (y % 128) (omega arith) (omega arith),
      ap₂ bit_xor u v,
      low,
    )

lost-xor : (x y : ℕ) → x < 256 → y < 256 → lost (bit_xor x y) ≡ bit_xor (lost x) (lost y)
lost-xor x y h k =
    lost_lem (bit_xor x y) (bit_xor-lt 8 x y h k)
    ∙ ap (λ (q : ℕ). q * 0x1b) (top-xor x y)
    ∙ digit-xor (x / 128) (y / 128) (omega arith) (omega arith)
    ∙ sym (ap₂ bit_xor (lost_lem x h) (lost_lem y k))

pub xtime-xor : (x y : ℕ) → x < 256 → y < 256 → xtime (bit_xor x y) ≡ bit_xor (xtime x) (xtime y)
unfolding xtime lost
xtime-xor x y h k =
    ap (λ (z : ℕ). z % 2 ^ 8)
      (ap₂ bit_xor (sym (bit_xor-double x y)) (lost-xor x y h k)
        ∙ bit_xor_swap (x * 2) (y * 2) (lost x) (lost y))
    ∙ (bit_xor-byte (bit_xor (x * 2) (lost x)) (bit_xor (y * 2) (lost y))).0

-- The loop of `multiply` with any partial results.
multiply_from-xor :
    (n r s x y c : ℕ)
    → x < 256
    → y < 256
    → multiply_from (bit_xor r s) (bit_xor x y) c n
      ≡ bit_xor (multiply_from r x c n) (multiply_from s y c n)
unfolding multiply_from
multiply_from-xor zero r s x y c h k = refl
multiply_from-xor (suc n) r s x y c h k =
    let next = xtime-xor x y h k in
    elim (Bool-cases (bit_and c 1 == 0)) [
      | inl e ↦
          rw (e, next)
            (multiply_from-xor n r s (xtime x) (xtime y) (c / 2) (xtime-lt x) (xtime-lt y))
      | inr e ↦
          rw (e, next, bit_xor_swap r s x y)
            (multiply_from-xor n (bit_xor r x) (bit_xor s y) (xtime x) (xtime y) (c / 2)
              (xtime-lt x) (xtime-lt y))
    ]

pub multiply-xor :
    (x y c : ℕ)
    → x < 256
    → y < 256
    → multiply (bit_xor x y) c ≡ bit_xor (multiply x c) (multiply y c)
unfolding multiply
multiply-xor x y c h k =
    ap (λ (z : ℕ). multiply_from z (bit_xor x y) c 8) (sym (bit_xor_self 0))
    ∙ multiply_from-xor 8 0 0 x y c h k

multiply_from-lt : (n r x c : ℕ) → r < 256 → x < 256 → multiply_from r x c n < 256
unfolding multiply_from
multiply_from-lt zero r x c h k = h
multiply_from-lt (suc n) r x c h k =
    multiply_from-lt n (if bit_and c 1 == 0 then r else bit_xor r x) (xtime x) (c / 2)
      (if_cases (λ (z : ℕ). z < 256) (bit_and c 1 == 0) (λ e. h) (λ e. bit_xor-lt 8 r x h k))
      (xtime-lt x)

pub multiply-lt : (x c : ℕ) → x < 256 → multiply x c < 256
unfolding multiply
multiply-lt x c h = multiply_from-lt 8 0 x c (omega arith) h

pub xor4-lt : (a b c d : ℕ) → a < 256 → b < 256 → c < 256 → d < 256 → xor4 a b c d < 256
unfolding xor4
xor4-lt a b c d h k l m = bit_xor-lt 8 _ d (bit_xor-lt 8 _ c (bit_xor-lt 8 a b h k) l) m

-- Two sums of four, term by term.
xor4-xor :
    (a b c d e f g h : ℕ)
    → xor4 (bit_xor a e) (bit_xor b f) (bit_xor c g) (bit_xor d h)
      ≡ bit_xor (xor4 a b c d) (xor4 e f g h)
unfolding xor4
xor4-xor a b c d e f g h =
    ap (λ (z : ℕ). bit_xor (bit_xor z (bit_xor c g)) (bit_xor d h)) (bit_xor_swap a e b f)
    ∙ ap (λ (z : ℕ). bit_xor z (bit_xor d h)) (bit_xor_swap (bit_xor a b) (bit_xor e f) c g)
    ∙ bit_xor_swap (bit_xor (bit_xor a b) c) (bit_xor (bit_xor e f) g) d h

-- A square of terms, summed by rows and by columns.
pub xor4_transposed :
    (a0 a1 a2 a3 b0 b1 b2 b3 c0 c1 c2 c3 d0 d1 d2 d3 : ℕ)
    → xor4 (xor4 a0 b0 c0 d0) (xor4 a1 b1 c1 d1) (xor4 a2 b2 c2 d2) (xor4 a3 b3 c3 d3)
      ≡ xor4 (xor4 a0 a1 a2 a3) (xor4 b0 b1 b2 b3) (xor4 c0 c1 c2 c3) (xor4 d0 d1 d2 d3)
unfolding xor4
xor4_transposed a0 a1 a2 a3 b0 b1 b2 b3 c0 c1 c2 c3 d0 d1 d2 d3 =
    xor4-xor (bit_xor (bit_xor a0 b0) c0) (bit_xor (bit_xor a1 b1) c1) (bit_xor (bit_xor a2 b2) c2)
      (bit_xor (bit_xor a3 b3) c3) d0 d1 d2 d3
    ∙ ap (λ (z : ℕ). bit_xor z (xor4 d0 d1 d2 d3))
        (xor4-xor (bit_xor a0 b0) (bit_xor a1 b1) (bit_xor a2 b2) (bit_xor a3 b3) c0 c1 c2 c3
          ∙ ap (λ (z : ℕ). bit_xor z (xor4 c0 c1 c2 c3)) (xor4-xor a0 a1 a2 a3 b0 b1 b2 b3))

pub multiply-xor4 :
    (a b c d n : ℕ)
    → a < 256
    → b < 256
    → c < 256
    → d < 256
    → multiply (xor4 a b c d) n ≡ xor4 (multiply a n) (multiply b n) (multiply c n) (multiply d n)
unfolding xor4
multiply-xor4 a b c d n h k l m =
    let ab = bit_xor-lt 8 a b h k in
    let abc = bit_xor-lt 8 (bit_xor a b) c ab l in
    multiply-xor (bit_xor (bit_xor a b) c) d n abc m
    ∙ ap (λ (z : ℕ). bit_xor z (multiply d n))
        (multiply-xor (bit_xor a b) c n ab l
          ∙ ap (λ (z : ℕ). bit_xor z (multiply c n)) (multiply-xor a b n h k))
