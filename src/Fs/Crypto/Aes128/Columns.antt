-- ===== src/Fs/Crypto/Aes128/Columns.antt =====
-- `inv_mix_columns` of kernel/fs/crypto.cpp undoes `mix_columns`: the product of the two matrices is
-- computed byte by byte, and the rest is linear.
use mesa_os.Prelude.Bits.Xor.{bit_xor_zero, bit_xor_comm}
use mesa_os.Prelude.{
  ℕ, zero, suc, ◌+◌, ◌*◌, ◌/◌, ◌%◌, ◌<◌, ◌≡◌, refl, ap, ap₂, ◌∙◌, Bool, true, ◌&&◌, bit_xor, arith,
  ltb, ◌==◌, if◌then◌else◌, if_true, if_false, Bool-cases, inl, inr, all_below, all_below_lem,
  fun_ext,
}
use mesa_os.Fs.Crypto.Aes128.{
  multiply, xor4, mix_entry, inv_mix_entry, of_column, mix_columns, inv_mix_columns, multiply_from,
  xtime,
}
use mesa_os.Fs.Crypto.Aes128.Field.{multiply-xor4, multiply-lt, xor4_transposed}

-- A row of the inverse matrix times a column.
row : ℕ → ℕ → ℕ → ℕ → ℕ → ℕ → ℕ → ℕ → ℕ
row c0 c1 c2 c3 a b c d = xor4 (multiply a c0) (multiply b c1) (multiply c c2) (multiply d c3)

-- The four columns of the matrix, each times a byte.
column0 : (ℕ → ℕ → ℕ → ℕ → ℕ) → ℕ → ℕ
column0 f x = f (multiply x 2) x x (multiply x 3)

column1 : (ℕ → ℕ → ℕ → ℕ → ℕ) → ℕ → ℕ
column1 f x = f (multiply x 3) (multiply x 2) x x

column2 : (ℕ → ℕ → ℕ → ℕ → ℕ) → ℕ → ℕ
column2 f x = f x (multiply x 3) (multiply x 2) x

column3 : (ℕ → ℕ → ℕ → ℕ → ℕ) → ℕ → ℕ
column3 f x = f x x (multiply x 3) (multiply x 2)

-- What a row makes of a mixed column is what it makes of the columns of the matrix, summed.
row-mix_entry :
    (c0 c1 c2 c3 s0 s1 s2 s3 : ℕ)
    → s0 < 256
    → s1 < 256
    → s2 < 256
    → s3 < 256
    → row c0 c1 c2 c3
        (mix_entry 0 s0 s1 s2 s3)
        (mix_entry 1 s0 s1 s2 s3)
        (mix_entry 2 s0 s1 s2 s3)
        (mix_entry 3 s0 s1 s2 s3)
      ≡ xor4
          (column0 (row c0 c1 c2 c3) s0)
          (column1 (row c0 c1 c2 c3) s1)
          (column2 (row c0 c1 c2 c3) s2)
          (column3 (row c0 c1 c2 c3) s3)
unfolding mix_entry row column0 column1 column2 column3
row-mix_entry c0 c1 c2 c3 s0 s1 s2 s3 h k l m =
    let a0 = multiply s0 2 in
    let d0 = multiply s0 3 in
    let a1 = multiply s1 3 in
    let b1 = multiply s1 2 in
    let b2 = multiply s2 3 in
    let c2' = multiply s2 2 in
    let c3' = multiply s3 3 in
    let d3 = multiply s3 2 in
    let e0 = multiply-xor4 a0 a1 s2 s3 c0 (multiply-lt s0 2 h) (multiply-lt s1 3 k) l m in
    let e1 = multiply-xor4 s0 b1 b2 s3 c1 h (multiply-lt s1 2 k) (multiply-lt s2 3 l) m in
    let e2 = multiply-xor4 s0 s1 c2' c3' c2 h k (multiply-lt s2 2 l) (multiply-lt s3 3 m) in
    let e3 = multiply-xor4 d0 s1 s2 d3 c3 (multiply-lt s0 3 h) k l (multiply-lt s3 2 m) in
    (λ i. xor4 (e0 i) (e1 i) (e2 i) (e3 i))
    ∙ xor4_transposed (multiply a0 c0) (multiply s0 c1) (multiply s0 c2) (multiply d0 c3)
        (multiply a1 c0) (multiply b1 c1) (multiply s1 c2) (multiply s1 c3) (multiply s2 c0)
        (multiply b2 c1) (multiply c2' c2) (multiply s2 c3) (multiply s3 c0) (multiply s3 c1)
        (multiply c3' c2) (multiply d3 c3)

-- The product of a row with the matrix, at a byte.
product : ℕ → ℕ → ℕ → ℕ → ℕ → ℕ → ℕ → ℕ → ℕ → Bool
product c0 c1 c2 c3 t0 t1 t2 t3 x =
    column0 (row c0 c1 c2 c3) x == t0
    && column1 (row c0 c1 c2 c3) x == t1
    && column2 (row c0 c1 c2 c3) x == t2
    && column3 (row c0 c1 c2 c3) x == t3

product0 : all_below (λ x. product 0x0e 0x0b 0x0d 0x09 x 0 0 0 x) 256 ≡ true
unfolding product row column0 column1 column2 column3 multiply xor4 multiply_from xtime
product0 = refl

product1 : all_below (λ x. product 0x09 0x0e 0x0b 0x0d 0 x 0 0 x) 256 ≡ true
unfolding product row column0 column1 column2 column3 multiply xor4 multiply_from xtime
product1 = refl

product2 : all_below (λ x. product 0x0d 0x09 0x0e 0x0b 0 0 x 0 x) 256 ≡ true
unfolding product row column0 column1 column2 column3 multiply xor4 multiply_from xtime
product2 = refl

product3 : all_below (λ x. product 0x0b 0x0d 0x09 0x0e 0 0 0 x x) 256 ≡ true
unfolding product row column0 column1 column2 column3 multiply xor4 multiply_from xtime
product3 = refl

four :
    (a b c d w x y z : ℕ)
    → (a == w && b == x && c == y && d == z) ≡ true
    → (a ≡ w) × (b ≡ x) × (c ≡ y) × (d ≡ z)
four a b c d w x y z h =
    (ground (arith, h), ground (arith, h), ground (arith, h), ground (arith, h))

-- A row of the inverse matrix whose product with the matrix has the entries `t0` to `t3`.
module _ (c0 c1 c2 c3 : ℕ) (t0 t1 t2 t3 : ℕ → ℕ)
    (whole : all_below (λ x. product c0 c1 c2 c3 (t0 x) (t1 x) (t2 x) (t3 x) x) 256 ≡ true) where
  at_byte :
      (x : ℕ)
      → x < 256
      → (column0 (row c0 c1 c2 c3) x ≡ t0 x)
        × (column1 (row c0 c1 c2 c3) x ≡ t1 x)
        × (column2 (row c0 c1 c2 c3) x ≡ t2 x)
        × (column3 (row c0 c1 c2 c3) x ≡ t3 x)
  unfolding product
  at_byte x h =
      let e =
        all_below_lem (λ x. product c0 c1 c2 c3 (t0 x) (t1 x) (t2 x) (t3 x) x) 256 x whole h in
      four (column0 (row c0 c1 c2 c3) x) (column1 (row c0 c1 c2 c3) x) (column2 (row c0 c1 c2 c3) x)
        (column3 (row c0 c1 c2 c3) x) (t0 x) (t1 x) (t2 x) (t3 x) e

  row_lem :
      (s0 s1 s2 s3 : ℕ)
      → s0 < 256
      → s1 < 256
      → s2 < 256
      → s3 < 256
      → row c0 c1 c2 c3
          (mix_entry 0 s0 s1 s2 s3)
          (mix_entry 1 s0 s1 s2 s3)
          (mix_entry 2 s0 s1 s2 s3)
          (mix_entry 3 s0 s1 s2 s3)
        ≡ xor4 (t0 s0) (t1 s1) (t2 s2) (t3 s3)
  row_lem s0 s1 s2 s3 h k l m = row-mix_entry c0 c1 c2 c3 s0 s1 s2 s3 h k l m ∙ (λ i.
      xor4 ((at_byte s0 h).0 i) ((at_byte s1 k).1 i) ((at_byte s2 l).2 i) ((at_byte s3 m).3 i))

zero_xor : (a : ℕ) → bit_xor 0 a ≡ a
zero_xor a = bit_xor_comm 0 a ∙ bit_xor_zero a

-- The entry of a column with an index.
entry_of : ℕ → ℕ → ℕ → ℕ → ℕ → ℕ
entry_of j s0 s1 s2 s3 = if j == 0 then s0 else if j == 1 then s1 else if j == 2 then s2 else s3

unmixed :
    (j s0 s1 s2 s3 : ℕ)
    → j < 4
    → s0 < 256
    → s1 < 256
    → s2 < 256
    → s3 < 256
    → inv_mix_entry j
        (mix_entry 0 s0 s1 s2 s3)
        (mix_entry 1 s0 s1 s2 s3)
        (mix_entry 2 s0 s1 s2 s3)
        (mix_entry 3 s0 s1 s2 s3)
      ≡ entry_of j s0 s1 s2 s3
unfolding inv_mix_entry entry_of row xor4
unmixed zero s0 s1 s2 s3 lt h k l m =
    row_lem 0x0e 0x0b 0x0d 0x09 (λ x. x) (λ x. 0) (λ x. 0) (λ x. 0) product0 s0 s1 s2 s3 h k l m
    ∙ bit_xor_zero (bit_xor (bit_xor s0 0) 0)
    ∙ bit_xor_zero (bit_xor s0 0)
    ∙ bit_xor_zero s0
unmixed (suc zero) s0 s1 s2 s3 lt h k l m =
    row_lem 0x09 0x0e 0x0b 0x0d (λ x. 0) (λ x. x) (λ x. 0) (λ x. 0) product1 s0 s1 s2 s3 h k l m
    ∙ bit_xor_zero (bit_xor (bit_xor 0 s1) 0)
    ∙ bit_xor_zero (bit_xor 0 s1)
    ∙ zero_xor s1
unmixed (suc (suc zero)) s0 s1 s2 s3 lt h k l m =
    row_lem 0x0d 0x09 0x0e 0x0b (λ x. 0) (λ x. 0) (λ x. x) (λ x. 0) product2 s0 s1 s2 s3 h k l m
    ∙ bit_xor_zero (bit_xor (bit_xor 0 0) s2)
    ∙ zero_xor s2
unmixed (suc (suc (suc zero))) s0 s1 s2 s3 lt h k l m =
    row_lem 0x0b 0x0d 0x09 0x0e (λ x. 0) (λ x. 0) (λ x. 0) (λ x. x) product3 s0 s1 s2 s3 h k l m
    ∙ zero_xor s3
unmixed (suc (suc (suc (suc j)))) s0 s1 s2 s3 lt h k l m = absurd (omega arith)

entry_of_lem :
    (s : ℕ → ℕ) (c j : ℕ) → j < 4 → entry_of j (s c) (s (c + 1)) (s (c + 2)) (s (c + 3)) ≡ s (c + j)
unfolding entry_of
entry_of_lem s c zero h = ap s (omega arith)
entry_of_lem s c (suc zero) h = refl
entry_of_lem s c (suc (suc zero)) h = refl
entry_of_lem s c (suc (suc (suc zero))) h = refl
entry_of_lem s c (suc (suc (suc (suc j)))) h = absurd (omega arith)

-- A column of a state after `mix_columns`.
mixed :
    (s : ℕ → ℕ) (c j : ℕ)
    → c % 4 ≡ 0
    → c < 16
    → j < 4
    → mix_columns s (c + j) ≡ mix_entry j (s c) (s (c + 1)) (s (c + 2)) (s (c + 3))
unfolding mix_columns of_column
mixed s c j a h k =
    let in_ : ltb (c + j) 16 ≡ true = ground (arith, a, h, k) in
    let base : (c + j) / 4 * 4 ≡ c = omega (arith, a, k) in
    let offset : (c + j) % 4 ≡ j = omega (arith, a, k) in
    if_true _ _ in_
    ∙ ap₂ (λ (b r : ℕ). mix_entry r (s b) (s (b + 1)) (s (b + 2)) (s (b + 3))) base offset

pub inv_mix_columns-mix_columns :
    (s : ℕ → ℕ) → ((i : ℕ) → s i < 256) → inv_mix_columns (mix_columns s) ≡ s
unfolding inv_mix_columns mix_columns of_column
inv_mix_columns-mix_columns s bytes = fun_ext (λ i. elim (Bool-cases (ltb i 16)) [
  | inl e ↦
      let c = i / 4 * 4 in
      let j = i % 4 in
      let below : c < 16 = ground (arith, e) in
      let m0 = ap (mix_columns s) (omega arith) ∙ mixed s c 0 (omega arith) below (omega arith) in
      let m1 = mixed s c 1 (omega arith) below (omega arith) in
      let m2 = mixed s c 2 (omega arith) below (omega arith) in
      let m3 = mixed s c 3 (omega arith) below (omega arith) in
      if_true _ _ e
      ∙ (λ t. inv_mix_entry j (m0 t) (m1 t) (m2 t) (m3 t))
      ∙ unmixed j (s c) (s (c + 1)) (s (c + 2)) (s (c + 3)) (omega arith) (bytes c) (bytes (c + 1))
          (bytes (c + 2)) (bytes (c + 3))
      ∙ entry_of_lem s c j (omega arith)
      ∙ ap s (omega arith)
  | inr e ↦ if_false _ _ e ∙ if_false _ _ e
])
