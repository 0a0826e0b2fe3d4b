-- ===== src/Fs/Crypto/AuthenticatedAes/Tests.antt =====
-- A buffer of 100 bytes, sealed by kernel/fs/crypto.cpp and then changed behind byte 64.
use mesa_os.Prelude.{ℕ, ◌*◌, ◌%◌, ◌≡◌, true, arith, ltb, if◌then◌else◌}
use mesa_os.Fs.Crypto.Aes128
use mesa_os.Fs.Crypto.KeyManager.{at_boot, get_hmac_key}
use mesa_os.Fs.Crypto.AuthenticatedAes.{encrypt_buffer, decrypt_buffer}
use mesa_os.Fs.Crypto.AuthenticatedAes.Sealed.{decrypt_buffer_accepts}

abbrev bytes : ℕ → ℕ
bytes i = i * 5 % 256

abbrev sent : ℕ → ℕ
sent i = if ltb i 64 then (encrypt_buffer bytes at_boot bytes 100 bytes).buffer i else 0

decrypt_buffer_accepts_example :
    decrypt_buffer bytes
      ((encrypt_buffer bytes at_boot bytes 100 bytes).keys)
      sent
      100
      bytes
      ((encrypt_buffer bytes at_boot bytes 100 bytes).hmac)
    ≡ record {
      keys = get_hmac_key at_boot;
      buffer = Aes128.decrypt_buffer sent 100 bytes;
      success = true;
    }
decrypt_buffer_accepts_example =
    decrypt_buffer_accepts bytes at_boot bytes sent 100 bytes (λ i h. ground arith)
