-- ===== src/Fs/Crypto/AuthenticatedAes.antt =====
-- `AuthenticatedAES` of kernel/fs/crypto.cpp: the cipher with a code for integrity.
pub mod Sealed
mod Tests
use mesa_os.Prelude.{ℕ, Bool, true, false, if◌then◌else◌}
use mesa_os.Fs.Crypto.Aes128
use mesa_os.Fs.Crypto.HmacSha256.{compute, verify}
use mesa_os.Fs.Crypto.KeyManager.{KeyManager, get_hmac_key}

-- The keys, the buffer and `hmac_out` after `encrypt_buffer`, which always returns true.
pub record Encrypted : Type 0 where
  pub keys : KeyManager
  pub buffer : ℕ → ℕ
  pub hmac : ℕ → ℕ

unfoldable pub encrypt_buffer : (ℕ → ℕ) → KeyManager → (ℕ → ℕ) → ℕ → (ℕ → ℕ) → Encrypted
encrypt_buffer beyond km buffer size key =
    let encrypted = Aes128.encrypt_buffer buffer size key in
    let km = get_hmac_key km in
    record { keys = km; buffer = encrypted; hmac = compute beyond km.hmac_key 32 encrypted size }

-- The keys and the buffer after `decrypt_buffer`, and what it returns.
pub record Decrypted : Type 0 where
  pub keys : KeyManager
  pub buffer : ℕ → ℕ
  pub success : Bool

unfoldable pub decrypt_buffer : (ℕ → ℕ) → KeyManager → (ℕ → ℕ) → ℕ → (ℕ → ℕ) → (ℕ → ℕ) → Decrypted
decrypt_buffer beyond km buffer size key expected_hmac =
    let km = get_hmac_key km in
    if verify beyond km.hmac_key 32 buffer size expected_hmac
    then record { keys = km; buffer = Aes128.decrypt_buffer buffer size key; success = true }
    else record { keys = km; buffer = buffer; success = false }
