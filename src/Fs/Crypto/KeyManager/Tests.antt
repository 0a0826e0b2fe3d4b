-- ===== src/Fs/Crypto/KeyManager/Tests.antt =====
-- Calls of the `KeyManager` of kernel/fs/crypto.cpp, as the file system starts it.
use mesa_os.Prelude.{ℕ, arith, ◌≡◌, refl, List, [], ◌∷◌}
use mesa_os.Fs.Crypto.KeyManager.{at_boot, initialize}
use mesa_os.Fs.Crypto.KeyManager.Passwords.{derive_key_injective}
use mesa_os.Fs.Crypto.KeyManager.Keys.{
  call, calls, initialize_call, hmac_key_call, password_call, calls-at_boot,
}

calls-at_boot_example :
    calls (initialize_call ∷ password_call (97 ∷ 98 ∷ []) ∷ hmac_key_call ∷ []) at_boot
    ≡ call initialize_call at_boot
calls-at_boot_example =
    calls-at_boot initialize_call (password_call (97 ∷ 98 ∷ []) ∷ hmac_key_call ∷ [])

-- The key of the code for integrity stays all zero.
hmac_key_test : (call initialize_call at_boot).hmac_key ≡ λ i. 0
unfolding call initialize
hmac_key_test = refl

abbrev word : List ℕ
word = 97 ∷ 98 ∷ []

derive_key_injective_example : word ≡ word
derive_key_injective_example =
    derive_key_injective word word (omega arith, (omega arith, tt)) (omega arith, (omega arith, tt))
      refl (omega arith) refl
