-- ===== src/Fs/Crypto/AuthenticatedAes/Sealed.antt =====
-- What `AuthenticatedAES` of kernel/fs/crypto.cpp accepts and gives back.
use mesa_os.Prelude.{ℕ, ◌≡◌, refl, ap, ◌∙◌, true, if_true, if_cases}
use mesa_os.Fs.Crypto.Aes128
use mesa_os.Fs.Crypto.HmacSha256.{compute, verify}
use mesa_os.Fs.Crypto.HmacSha256.Reads.{AgreeBelow, verify-compute}
use mesa_os.Fs.Crypto.KeyManager.{KeyManager, initialize, get_hmac_key}
use mesa_os.Fs.Crypto.AuthenticatedAes.{encrypt_buffer, decrypt_buffer}

fixed : (km : KeyManager) → km.initialized ≡ true → get_hmac_key km ≡ km
unfolding get_hmac_key
fixed km h = if_true km (initialize km) h

get_hmac_key-initialized : (km : KeyManager) → (get_hmac_key km).initialized ≡ true
unfolding get_hmac_key initialize
get_hmac_key-initialized km =
    if_cases (λ (k : KeyManager). k.initialized ≡ true) km.initialized (λ e. e)
      (λ e. if_cases (λ (k : KeyManager). k.initialized ≡ true) km.initialized (λ f. f) (λ f. refl))

get_hmac_key_twice : (km : KeyManager) → get_hmac_key (get_hmac_key km) ≡ get_hmac_key km
get_hmac_key_twice km = fixed (get_hmac_key km) (get_hmac_key-initialized km)

-- The result for a buffer that passes.
accepted :
    (beyond : ℕ → ℕ) (km : KeyManager) (buffer : ℕ → ℕ) (size : ℕ) (key expected_hmac : ℕ → ℕ)
    → verify beyond ((get_hmac_key km).hmac_key) 32 buffer size expected_hmac ≡ true
    → decrypt_buffer beyond km buffer size key expected_hmac ≡ record {
      keys = get_hmac_key km;
      buffer = Aes128.decrypt_buffer buffer size key;
      success = true;
    }
unfolding decrypt_buffer
accepted beyond km buffer size key expected_hmac h = if_true _ _ h

-- A buffer that has the first 64 bytes of an encrypted one passes the test of its integrity,
-- whatever its other bytes are: `decrypt_buffer` decrypts it and returns true, where the stack
-- behind `inner_hash` holds the same bytes in both calls.
pub decrypt_buffer_accepts :
    (beyond : ℕ → ℕ) (km : KeyManager) (buffer sent : ℕ → ℕ) (size : ℕ) (key : ℕ → ℕ)
    → AgreeBelow 64 ((encrypt_buffer beyond km buffer size key).buffer) sent
    → decrypt_buffer beyond
        ((encrypt_buffer beyond km buffer size key).keys)
        sent
        size
        key
        ((encrypt_buffer beyond km buffer size key).hmac)
      ≡ record {
        keys = get_hmac_key km;
        buffer = Aes128.decrypt_buffer sent size key;
        success = true;
      }
unfolding encrypt_buffer
decrypt_buffer_accepts beyond km buffer sent size key h =
    let encrypted = Aes128.encrypt_buffer buffer size key in
    let k = get_hmac_key km in
    accepted beyond k sent size key (compute beyond k.hmac_key 32 encrypted size) (
      ap
        (λ (j : KeyManager).
          verify beyond j.hmac_key 32 sent size (compute beyond k.hmac_key 32 encrypted size))
        (get_hmac_key_twice km)
      ∙ verify-compute beyond k.hmac_key 32 encrypted sent size h)
    ∙ ap
        (λ (j : KeyManager). record {
          keys = j;
          buffer = Aes128.decrypt_buffer sent size key;
          success = true;
        })
        (get_hmac_key_twice km)
