-- ===== src/Fs/Crypto/Aes128/Tests.antt =====
-- Runs of the functions of kernel/fs/crypto.cpp on one block and key.
use mesa_os.Prelude.{ℕ, ◌+◌, ◌*◌, ◌%◌, ◌≡◌, refl, arith}
use mesa_os.Fs.Crypto.Aes128.{xtime, multiply_from, multiply, rcon, encrypt_block, decrypt_block}
use mesa_os.Fs.Crypto.Aes128.Rounds.{decrypt_block-encrypt_block}

-- The product of the AES standard's example.
multiply_test : multiply 0x57 0x13 ≡ 0xfe
unfolding multiply multiply_from xtime
multiply_test = refl

-- The constants of the last two rounds.
rcon_test : rcon 144 + rcon 160 ≡ 0
unfolding rcon
rcon_test = refl

abbrev block : ℕ → ℕ
block i = i * 3 % 256

abbrev key : ℕ → ℕ
key i = (i + 200) % 256

decrypt_block-encrypt_block_example : decrypt_block (encrypt_block block key) key ≡ block
decrypt_block-encrypt_block_example =
    decrypt_block-encrypt_block block key (λ i. omega arith) (λ i. omega arith)
