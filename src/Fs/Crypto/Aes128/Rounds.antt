-- ===== src/Fs/Crypto/Aes128/Rounds.antt =====
-- `decrypt_block` of kernel/fs/crypto.cpp undoes `encrypt_block`, step by step.
use mesa_os.Prelude.Bits.Xor.{bit_xor_twice, bit_xor-lt}
use mesa_os.Prelude.{
  ℕ, zero, suc, ◌+◌, ◌-◌, ◌*◌, ◌/◌, ◌%◌, ◌^◌, ◌<◌, ◌≡◌, refl, ap, ◌∙◌, bit_xor, arith, ltb, ◌==◌,
  if◌then◌else◌, if_cases, Bool-cases, inl, inr, fun_ext, update,
}
use mesa_os.Fs.Crypto.Tables.{s_box}
use mesa_os.Fs.Crypto.Aes128.{
  multiply, mix_entry, of_column, add_round_key, sub_bytes, inv_sub_bytes, shift_rows,
  inv_shift_rows, mix_columns, inv_mix_columns, rcon, temp_byte, expand_from, key_expansion,
  round_key, encrypt_rounds, encrypt_block, decrypt_rounds, decrypt_block,
}
use mesa_os.Fs.Crypto.Aes128.Field.{inv_s_box-s_box, s_box-lt, multiply-lt, xor4-lt}
use mesa_os.Fs.Crypto.Aes128.Columns.{inv_mix_columns-mix_columns}

abbrev pub IsBytes : (ℕ → ℕ) → Type 0
IsBytes s = (i : ℕ) → s i < 256

add_round_key_twice : (s k : ℕ → ℕ) → add_round_key (add_round_key s k) k ≡ s
unfolding add_round_key
add_round_key_twice s k = fun_ext (λ i. elim (Bool-cases (ltb i 16)) [
  | inl e ↦ rw e (bit_xor_twice (s i) (k i))
  | inr e ↦ rw e refl
])

inv_sub_bytes-sub_bytes : (s : ℕ → ℕ) → IsBytes s → inv_sub_bytes (sub_bytes s) ≡ s
unfolding inv_sub_bytes sub_bytes
inv_sub_bytes-sub_bytes s h = fun_ext (λ i. elim (Bool-cases (ltb i 16)) [
  | inl e ↦ rw e (inv_s_box-s_box (s i) (h i))
  | inr e ↦ rw e refl
])

inv_shift_rows-shift_rows : (s : ℕ → ℕ) → inv_shift_rows (shift_rows s) ≡ s
unfolding inv_shift_rows shift_rows
inv_shift_rows-shift_rows s = fun_ext (λ i. ground arith)

sub_bytes-IsBytes : (s : ℕ → ℕ) → IsBytes s → IsBytes (sub_bytes s)
unfolding sub_bytes
sub_bytes-IsBytes s h i =
    if_cases (λ (x : ℕ). x < 256) (ltb i 16) (λ e. s_box-lt (s i) (h i)) (λ e. h i)

add_round_key-IsBytes : (s k : ℕ → ℕ) → IsBytes s → IsBytes k → IsBytes (add_round_key s k)
unfolding add_round_key
add_round_key-IsBytes s k h l i =
    if_cases (λ (x : ℕ). x < 256) (ltb i 16) (λ e. bit_xor-lt 8 (s i) (k i) (h i) (l i)) (λ e. h i)

update-IsBytes : (s : ℕ → ℕ) (j v : ℕ) → IsBytes s → v < 256 → IsBytes (update s j v)
update-IsBytes s j v h k i = if_cases (λ (x : ℕ). x < 256) (j == i) (λ e. k) (λ e. h i)

shift_rows-IsBytes : (s : ℕ → ℕ) → IsBytes s → IsBytes (shift_rows s)
unfolding shift_rows
shift_rows-IsBytes s h =
    let a = update s 1 (s 5) in
    let a' = update-IsBytes s 1 (s 5) h (h 5) in
    let b = update a 5 (s 9) in
    let b' = update-IsBytes a 5 (s 9) a' (h 9) in
    let c = update b 9 (s 13) in
    let c' = update-IsBytes b 9 (s 13) b' (h 13) in
    let d = update c 13 (s 1) in
    let d' = update-IsBytes c 13 (s 1) c' (h 1) in
    let e = update d 2 (s 10) in
    let e' = update-IsBytes d 2 (s 10) d' (h 10) in
    let f = update e 10 (s 2) in
    let f' = update-IsBytes e 10 (s 2) e' (h 2) in
    let g = update f 6 (s 14) in
    let g' = update-IsBytes f 6 (s 14) f' (h 14) in
    let k = update g 14 (s 6) in
    let k' = update-IsBytes g 14 (s 6) g' (h 6) in
    let l = update k 3 (s 15) in
    let l' = update-IsBytes k 3 (s 15) k' (h 15) in
    let m = update l 15 (s 11) in
    let m' = update-IsBytes l 15 (s 11) l' (h 11) in
    let n = update m 11 (s 7) in
    let n' = update-IsBytes m 11 (s 7) m' (h 7) in
    let o = update n 7 (s 3) in let o' = update-IsBytes n 7 (s 3) n' (h 3) in o'

mix_entry-lt : (j a b c d : ℕ) → a < 256 → b < 256 → c < 256 → d < 256 → mix_entry j a b c d < 256
unfolding mix_entry
mix_entry-lt j a b c d h k l m =
    let P = λ (x : ℕ). x < 256 in
    if_cases P (j == 0)
      (λ e. xor4-lt (multiply a 2) (multiply b 3) c d (multiply-lt a 2 h) (multiply-lt b 3 k) l m)
      (λ e.
        if_cases P (j == 1)
          (λ f.
            xor4-lt a (multiply b 2) (multiply c 3) d h (multiply-lt b 2 k) (multiply-lt c 3 l) m)
          (λ f.
            if_cases P (j == 2)
              (λ g.
                xor4-lt a b (multiply c 2) (multiply d 3) h k (multiply-lt c 2 l)
                  (multiply-lt d 3 m))
              (λ g.
                xor4-lt (multiply a 3) b c (multiply d 2) (multiply-lt a 3 h) k l
                  (multiply-lt d 2 m))))

mix_columns-IsBytes : (s : ℕ → ℕ) → IsBytes s → IsBytes (mix_columns s)
unfolding mix_columns of_column
mix_columns-IsBytes s h i =
    let c = i / 4 * 4 in
    if_cases (λ (x : ℕ). x < 256) (ltb i 16)
      (λ e.
        mix_entry-lt (i % 4) (s c) (s (c + 1)) (s (c + 2)) (s (c + 3)) (h c) (h (c + 1)) (h (c + 2))
          (h (c + 3)))
      (λ e. h i)

-- One round before the key is added, and what undoes it.
front : (ℕ → ℕ) → ℕ → ℕ
front s = shift_rows (sub_bytes s)

back : (ℕ → ℕ) → ℕ → ℕ
back s = inv_sub_bytes (inv_shift_rows s)

back-front : (s : ℕ → ℕ) → IsBytes s → back (front s) ≡ s
unfolding back front
back-front s h =
    ap inv_sub_bytes (inv_shift_rows-shift_rows (sub_bytes s)) ∙ inv_sub_bytes-sub_bytes s h

-- One whole round.
one_round : (ℕ → ℕ) → (ℕ → ℕ) → ℕ → ℕ
one_round s k = add_round_key (mix_columns (front s)) k

module _ (rk : ℕ → ℕ) (key_bytes : IsBytes rk) where
  one_round-IsBytes : (s : ℕ → ℕ) (r : ℕ) → IsBytes s → IsBytes (one_round s (round_key rk r))
  unfolding one_round front
  one_round-IsBytes s r h =
      add_round_key-IsBytes (mix_columns (front s)) (round_key rk r)
        (mix_columns-IsBytes (front s) (shift_rows-IsBytes (sub_bytes s) (sub_bytes-IsBytes s h)))
        (λ i. key_bytes (r * 16 + i))

  -- The state after the rounds 1 to `k`.
  rounds : (ℕ → ℕ) → ℕ → ℕ → ℕ
  rounds s zero = s
  rounds s (suc k) = one_round (rounds s k) (round_key rk (suc k))

  rounds-IsBytes : (s : ℕ → ℕ) (k : ℕ) → IsBytes s → IsBytes (rounds s k)
  unfolding rounds
  rounds-IsBytes s zero h = h
  rounds-IsBytes s (suc k) h = one_round-IsBytes (rounds s k) (suc k) (rounds-IsBytes s k h)

  -- The loop of `encrypt_block` comes to the same.
  encrypt_rounds-rounds :
      (n k : ℕ) (s : ℕ → ℕ) → encrypt_rounds (rounds s k) rk (suc k) n ≡ rounds s (n + k)
  unfolding encrypt_rounds rounds one_round front
  encrypt_rounds-rounds zero k s = ap (rounds s) (omega arith)
  encrypt_rounds-rounds (suc n) k s =
      let next : suc k + 1 ≡ suc (suc k) = omega arith in
      let sum : n + suc k ≡ suc n + k = omega arith in
      ap (λ (r : ℕ). encrypt_rounds (rounds s (suc k)) rk r n) next
      ∙ encrypt_rounds-rounds n (suc k) s
      ∙ ap (rounds s) sum

  all_rounds : (s : ℕ → ℕ) → encrypt_rounds s rk 1 9 ≡ rounds s 9
  unfolding rounds
  all_rounds s = encrypt_rounds-rounds 9 0 s

  undo_round :
      (s : ℕ → ℕ) (r : ℕ)
      → IsBytes s
      → inv_mix_columns (add_round_key (one_round s (round_key rk r)) (round_key rk r)) ≡ front s
  unfolding one_round front
  undo_round s r h =
      ap inv_mix_columns (add_round_key_twice (mix_columns (front s)) (round_key rk r))
      ∙ inv_mix_columns-mix_columns (front s)
          (shift_rows-IsBytes (sub_bytes s) (sub_bytes-IsBytes s h))

  decrypt_rounds-rounds :
      (k : ℕ) (s : ℕ → ℕ) → IsBytes s → decrypt_rounds (front (rounds s k)) rk k ≡ front s
  unfolding decrypt_rounds rounds back
  decrypt_rounds-rounds zero s h = refl
  decrypt_rounds-rounds (suc k) s h =
      let whole = rounds-IsBytes s (suc k) h in
      let one =
        ap (λ (x : ℕ → ℕ). inv_mix_columns (add_round_key x (round_key rk (suc k))))
          (back-front (rounds s (suc k)) whole)
        ∙ undo_round (rounds s k) (suc k) (rounds-IsBytes s k h) in
      ap (λ (x : ℕ → ℕ). decrypt_rounds x rk k) one ∙ decrypt_rounds-rounds k s h

temp_byte-lt : (rk : ℕ → ℕ) (i j : ℕ) → IsBytes rk → temp_byte rk i j < 256
unfolding temp_byte rcon
temp_byte-lt rk i j h =
    let rotated = s_box-lt (rk (i - 4 + (j + 1) % 4)) (h (i - 4 + (j + 1) % 4)) in
    let P = λ (x : ℕ). x < 256 in
    if_cases P (i % 16 == 0)
      (λ e.
        if_cases P (j == 0)
          (λ f.
            bit_xor-lt 8 (s_box (rk (i - 4 + (j + 1) % 4))) (2 ^ (i / 16 - 1) % 2 ^ 8) rotated
              (omega arith))
          (λ f. rotated))
      (λ e. h (i - 4 + j))

expand_from-IsBytes : (n i : ℕ) (rk : ℕ → ℕ) → IsBytes rk → IsBytes (expand_from rk i n)
unfolding expand_from
expand_from-IsBytes zero i rk h = h
expand_from-IsBytes (suc n) i rk h =
    let x0 = bit_xor-lt 8 (rk (i - 16)) (temp_byte rk i 0) (h (i - 16)) (temp_byte-lt rk i 0 h) in
    let a = update rk i (bit_xor (rk (i - 16)) (temp_byte rk i 0)) in
    let ha = update-IsBytes rk i (bit_xor (rk (i - 16)) (temp_byte rk i 0)) h x0 in
    let x1 = bit_xor-lt 8 (a (i - 15)) (temp_byte rk i 1) (ha (i - 15)) (temp_byte-lt rk i 1 h) in
    let b = update a (i + 1) (bit_xor (a (i - 15)) (temp_byte rk i 1)) in
    let hb = update-IsBytes a (i + 1) (bit_xor (a (i - 15)) (temp_byte rk i 1)) ha x1 in
    let x2 = bit_xor-lt 8 (b (i - 14)) (temp_byte rk i 2) (hb (i - 14)) (temp_byte-lt rk i 2 h) in
    let c = update b (i + 2) (bit_xor (b (i - 14)) (temp_byte rk i 2)) in
    let hc = update-IsBytes b (i + 2) (bit_xor (b (i - 14)) (temp_byte rk i 2)) hb x2 in
    let x3 = bit_xor-lt 8 (c (i - 13)) (temp_byte rk i 3) (hc (i - 13)) (temp_byte-lt rk i 3 h) in
    expand_from-IsBytes n (i + 4) (update c (i + 3) (bit_xor (c (i - 13)) (temp_byte rk i 3)))
      (update-IsBytes c (i + 3) (bit_xor (c (i - 13)) (temp_byte rk i 3)) hc x3)

key_expansion-IsBytes : (key : ℕ → ℕ) → IsBytes key → IsBytes (key_expansion key)
unfolding key_expansion
key_expansion-IsBytes key h =
    expand_from-IsBytes 40 16 (λ i. if ltb i 16 then key i else 0)
      (λ i. if_cases (λ (x : ℕ). x < 256) (ltb i 16) (λ e. h i) (λ e. omega arith))

-- For any block and any key of bytes, `decrypt_block` gives back the block that `encrypt_block`
-- was given, with the same key.
pub decrypt_block-encrypt_block :
    (block key : ℕ → ℕ)
    → IsBytes block
    → IsBytes key
    → decrypt_block (encrypt_block block key) key ≡ block
unfolding decrypt_block encrypt_block front back
decrypt_block-encrypt_block block key h k =
    let rk = key_expansion key in
    let rkb = key_expansion-IsBytes key k in
    let start = add_round_key block (round_key rk 0) in
    let sb = add_round_key-IsBytes block (round_key rk 0) h (λ i. rkb (0 * 16 + i)) in
    let state = all_rounds rk rkb start in
    let last = round_key rk 0 in
    ap (λ (x : ℕ → ℕ). add_round_key (back (decrypt_rounds x rk 9)) last)
      (add_round_key_twice (front (encrypt_rounds start rk 1 9)) (round_key rk 10) ∙ ap front state)
    ∙ ap (λ (x : ℕ → ℕ). add_round_key (back x) last) (decrypt_rounds-rounds rk rkb 9 start sb)
    ∙ ap (λ (x : ℕ → ℕ). add_round_key x last) (back-front start sb)
    ∙ add_round_key_twice block (round_key rk 0)
