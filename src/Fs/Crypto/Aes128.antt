-- ===== src/Fs/Crypto/Aes128.antt =====
-- `AES128` of kernel/fs/crypto.cpp. A block, a key and the round keys are arrays of bytes, here
-- functions from the index; a loop that treats each entry by itself is a function of the index.
pub mod Field
pub mod Columns
pub mod Rounds
pub mod Buffer
mod Tests
use mesa_os.Fs.Crypto.Tables.{s_box, inv_s_box}
use mesa_os.Prelude.{
  ℕ, zero, suc, ◌+◌, ◌-◌, ◌*◌, ◌/◌, ◌%◌, ◌^◌, bit_and, bit_xor, ltb, ◌==◌, if◌then◌else◌, update,
}

unfoldable pub xtime : ℕ → ℕ
xtime x = bit_xor (x * 2) (if bit_and x 0x80 == 0 then 0x00 else 0x1b) % 2 ^ 8

-- The loop of `multiply`, with `n` rounds left.
unfoldable pub multiply_from : ℕ → ℕ → ℕ → ℕ → ℕ
multiply_from result temp y zero = result
multiply_from result temp y (suc n) =
    multiply_from (if bit_and y 1 == 0 then result else bit_xor result temp) (xtime temp) (y / 2) n

unfoldable pub multiply : ℕ → ℕ → ℕ
multiply x y = multiply_from 0 x y 8

unfoldable pub add_round_key : (ℕ → ℕ) → (ℕ → ℕ) → ℕ → ℕ
add_round_key state round_key i = if ltb i 16 then bit_xor (state i) (round_key i) else state i

unfoldable pub sub_bytes : (ℕ → ℕ) → ℕ → ℕ
sub_bytes state i = if ltb i 16 then s_box (state i) else state i

unfoldable pub inv_sub_bytes : (ℕ → ℕ) → ℕ → ℕ
inv_sub_bytes state i = if ltb i 16 then inv_s_box (state i) else state i

-- Each `let` is an assignment.
unfoldable pub shift_rows : (ℕ → ℕ) → ℕ → ℕ
shift_rows state =
    let temp = state 1 in
    let a = update state 1 (state 5) in
    let b = update a 5 (a 9) in
    let c = update b 9 (b 13) in
    let d = update c 13 temp in
    let temp = d 2 in
    let e = update d 2 (d 10) in
    let f = update e 10 temp in
    let temp = f 6 in
    let g = update f 6 (f 14) in
    let h = update g 14 temp in
    let temp = h 3 in
    let k = update h 3 (h 15) in
    let l = update k 15 (k 11) in let m = update l 11 (l 7) in update m 7 temp

unfoldable pub inv_shift_rows : (ℕ → ℕ) → ℕ → ℕ
inv_shift_rows state =
    let temp = state 13 in
    let a = update state 13 (state 9) in
    let b = update a 9 (a 5) in
    let c = update b 5 (b 1) in
    let d = update c 1 temp in
    let temp = d 2 in
    let e = update d 2 (d 10) in
    let f = update e 10 temp in
    let temp = f 6 in
    let g = update f 6 (f 14) in
    let h = update g 14 temp in
    let temp = h 7 in
    let k = update h 7 (h 11) in
    let l = update k 11 (k 15) in let m = update l 15 (l 3) in update m 3 temp

unfoldable pub xor4 : ℕ → ℕ → ℕ → ℕ → ℕ
xor4 a b c d = bit_xor (bit_xor (bit_xor a b) c) d

-- Entry `j` of a column, from the entries that it had.
unfoldable pub mix_entry : ℕ → ℕ → ℕ → ℕ → ℕ → ℕ
mix_entry j s0 s1 s2 s3 =
    if j == 0
    then xor4 (multiply s0 2) (multiply s1 3) s2 s3
    else if j == 1
    then xor4 s0 (multiply s1 2) (multiply s2 3) s3
    else if j == 2
    then xor4 s0 s1 (multiply s2 2) (multiply s3 3)
    else xor4 (multiply s0 3) s1 s2 (multiply s3 2)

unfoldable pub inv_mix_entry : ℕ → ℕ → ℕ → ℕ → ℕ → ℕ
inv_mix_entry j s0 s1 s2 s3 =
    if j == 0
    then xor4 (multiply s0 0x0e) (multiply s1 0x0b) (multiply s2 0x0d) (multiply s3 0x09)
    else if j == 1
    then xor4 (multiply s0 0x09) (multiply s1 0x0e) (multiply s2 0x0b) (multiply s3 0x0d)
    else if j == 2
    then xor4 (multiply s0 0x0d) (multiply s1 0x09) (multiply s2 0x0e) (multiply s3 0x0b)
    else xor4 (multiply s0 0x0b) (multiply s1 0x0d) (multiply s2 0x09) (multiply s3 0x0e)

-- Entry `j` of the column that starts at `c`.
pub of_column : (ℕ → ℕ → ℕ → ℕ → ℕ → ℕ) → (ℕ → ℕ) → ℕ → ℕ → ℕ
of_column entry state c j = entry j (state c) (state (c + 1)) (state (c + 2)) (state (c + 3))

unfoldable pub mix_columns : (ℕ → ℕ) → ℕ → ℕ
mix_columns state i = if ltb i 16 then of_column mix_entry state (i / 4 * 4) (i % 4) else state i

unfoldable pub inv_mix_columns : (ℕ → ℕ) → ℕ → ℕ
inv_mix_columns state i =
    if ltb i 16 then of_column inv_mix_entry state (i / 4 * 4) (i % 4) else state i

-- `RotWord`, `SubWord` and the constant of the round: byte `j` of `temp`.
unfoldable pub rcon : ℕ → ℕ
rcon i = 2 ^ (i / 16 - 1) % 2 ^ 8

pub temp_byte : (ℕ → ℕ) → ℕ → ℕ → ℕ
temp_byte rk i j =
    let rotated = s_box (rk (i - 4 + (j + 1) % 4)) in
    if i % 16 == 0 then if j == 0 then bit_xor rotated (rcon i) else rotated else rk (i - 4 + j)

-- The loop over `i`, which goes up by 4, with `n` rounds left.
pub expand_from : (ℕ → ℕ) → ℕ → ℕ → ℕ → ℕ
expand_from rk i zero = rk
expand_from rk i (suc n) =
    let a = update rk i (bit_xor (rk (i - 16)) (temp_byte rk i 0)) in
    let b = update a (i + 1) (bit_xor (a (i - 15)) (temp_byte rk i 1)) in
    let c = update b (i + 2) (bit_xor (b (i - 14)) (temp_byte rk i 2)) in
    let d = update c (i + 3) (bit_xor (c (i - 13)) (temp_byte rk i 3)) in expand_from d (i + 4) n

-- The 176 bytes of the round keys; what the array holds at first is never read.
pub key_expansion : (ℕ → ℕ) → ℕ → ℕ
key_expansion key = expand_from (λ i. if ltb i 16 then key i else 0) 16 40

-- The round key of a round.
abbrev pub round_key : (ℕ → ℕ) → ℕ → ℕ → ℕ
round_key rk round i = rk (round * 16 + i)

-- The loop over the rounds, with `n` left.
pub encrypt_rounds : (ℕ → ℕ) → (ℕ → ℕ) → ℕ → ℕ → ℕ → ℕ
encrypt_rounds state rk round zero = state
encrypt_rounds state rk round (suc n) =
    encrypt_rounds (add_round_key (mix_columns (shift_rows (sub_bytes state))) (round_key rk round))
      rk (round + 1) n

pub encrypt_block : (ℕ → ℕ) → (ℕ → ℕ) → ℕ → ℕ
encrypt_block block key =
    let rk = key_expansion key in
    let state = encrypt_rounds (add_round_key block (round_key rk 0)) rk 1 9 in
    add_round_key (shift_rows (sub_bytes state)) (round_key rk 10)

-- The loop over the rounds downwards, from `round` to 1.
pub decrypt_rounds : (ℕ → ℕ) → (ℕ → ℕ) → ℕ → ℕ → ℕ
decrypt_rounds state rk zero = state
decrypt_rounds state rk (suc n) =
    decrypt_rounds
      (inv_mix_columns
        (add_round_key (inv_sub_bytes (inv_shift_rows state)) (round_key rk (suc n))))
      rk n

pub decrypt_block : (ℕ → ℕ) → (ℕ → ℕ) → ℕ → ℕ
decrypt_block block key =
    let rk = key_expansion key in
    let state = decrypt_rounds (add_round_key block (round_key rk 10)) rk 9 in
    add_round_key (inv_sub_bytes (inv_shift_rows state)) (round_key rk 0)

-- The cipher that is used: each byte `^` one of the key.
unfoldable pub encrypt_buffer : (ℕ → ℕ) → ℕ → (ℕ → ℕ) → ℕ → ℕ
encrypt_buffer buffer size key i =
    if ltb i size then bit_xor (buffer i) (key (i % 16)) else buffer i

pub decrypt_buffer : (ℕ → ℕ) → ℕ → (ℕ → ℕ) → ℕ → ℕ
decrypt_buffer buffer size key = encrypt_buffer buffer size key
