-- ===== src/Fs/Crypto/Aes128/Buffer.antt =====
-- `encrypt_buffer` and `decrypt_buffer` of kernel/fs/crypto.cpp, and the bytes of a block.
use mesa_os.Prelude.Bits.Xor.{bit_xor_twice}
use mesa_os.Prelude.{ℕ, ◌%◌, ◌≡◌, refl, ltb, Bool-cases, inl, inr, fun_ext}
use mesa_os.Fs.Crypto.Aes128.{encrypt_buffer, decrypt_buffer}

-- What is decrypted is what was encrypted, whatever the key.
pub decrypt_buffer-encrypt_buffer :
    (buffer : ℕ → ℕ) (size : ℕ) (key : ℕ → ℕ)
    → decrypt_buffer (encrypt_buffer buffer size key) size key ≡ buffer
unfolding decrypt_buffer encrypt_buffer
decrypt_buffer-encrypt_buffer buffer size key = fun_ext (λ i.
    let old = buffer i in
    let pad = key (i % 16) in
    elim (Bool-cases (ltb i size)) [ inl e ↦ rw e (bit_xor_twice old pad) | inr e ↦ rw e refl ])
