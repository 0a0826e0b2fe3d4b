-- ===== src/Fs/Crypto/KeyManager.antt =====
-- `KeyManager` of kernel/fs/crypto.cpp. A password is the list of its characters, as bytes.
pub mod Keys
pub mod Passwords
mod Tests
use mesa_os.Prelude.{
  ℕ, zero, suc, ◌+◌, ◌-◌, ◌*◌, ◌%◌, Bool, true, false, List, [], ◌∷◌, bit_and, bit_xor, ltb,
  if◌then◌else◌, update,
}

pub record KeyManager : Type 0 where
  pub master_key : ℕ → ℕ
  pub hmac_key : ℕ → ℕ
  pub initialized : Bool

-- What the static variables hold at first.
abbrev pub at_boot : KeyManager
at_boot = record { master_key = λ i. 0; hmac_key = λ i. 0; initialized = false }

-- The mixing of one character.
unfoldable pub mix : ℕ → ℕ → ℕ
mix k c = bit_and (bit_xor k c * 7 + 13) 0xff

-- The loop over the password from its character `i` on, for a key of `size` bytes.
unfoldable pub derive_from : ℕ → (ℕ → ℕ) → ℕ → List ℕ → ℕ → ℕ
derive_from size key i [] = key
derive_from size key i (c ∷ password) =
    derive_from size (update key (i % size) (mix (key (i % size)) c)) (i + 1) password

unfoldable pub derive_key : List ℕ → ℕ → ℕ
derive_key password = derive_from 16 (λ i. 0) 0 password

-- "MesaOS_Encrypted".
abbrev pub default_key : List ℕ
default_key =
    77 ∷ 101 ∷ 115 ∷ 97 ∷ 79 ∷ 83 ∷ 95 ∷ 69 ∷ 110 ∷ 99 ∷ 114 ∷ 121 ∷ 112 ∷ 116 ∷ 101 ∷ 100 ∷ []

unfoldable pub initialize : KeyManager → KeyManager
initialize km =
    if km.initialized
    then km
    else record { master_key = derive_key default_key; hmac_key = km.hmac_key; initialized = true }

-- The state afterwards, whose key the caller gets.
unfoldable pub get_master_key : KeyManager → KeyManager
get_master_key km = if km.initialized then km else initialize km

unfoldable pub get_hmac_key : KeyManager → KeyManager
get_hmac_key km = if km.initialized then km else initialize km

unfoldable pub derive_keys_from_password : List ℕ → KeyManager → KeyManager
derive_keys_from_password password km =
    let combined_key = derive_from 48 (λ i. 0) 0 password in
    if km.initialized then km else record {
      master_key = λ i. if ltb i 16 then combined_key i else 0;
      hmac_key = λ i. if ltb i 32 then combined_key (16 + i) else 0;
      initialized = true;
    }
