-- ===== src/Fs/Crypto/KeyManager/Keys.antt =====
-- Which keys the calls of kernel/fs/crypto.cpp's `KeyManager` leave.
use mesa_os.Prelude.{ℕ, ◌≡◌, refl, ap, ◌∙◌, true, List, [], ◌∷◌, if_true}
use mesa_os.Fs.Crypto.KeyManager.{
  KeyManager, at_boot, initialize, get_master_key, get_hmac_key, derive_keys_from_password,
}

-- A call of one of the functions that change the state.
pub data Call : Type 0 where
  initialize_call : Call
  master_key_call : Call
  hmac_key_call : Call
  password_call : List ℕ → Call

unfoldable pub call : Call → KeyManager → KeyManager
call initialize_call km = initialize km
call master_key_call km = get_master_key km
call hmac_key_call km = get_hmac_key km
call (password_call password) km = derive_keys_from_password password km

-- The calls in their order.
unfoldable pub calls : List Call → KeyManager → KeyManager
calls [] km = km
calls (c ∷ cs) km = calls cs (call c km)

call_fixed : (c : Call) (km : KeyManager) → km.initialized ≡ true → call c km ≡ km
unfolding call initialize get_master_key get_hmac_key derive_keys_from_password
call_fixed initialize_call km h = if_true km _ h
call_fixed master_key_call km h = if_true km _ h
call_fixed hmac_key_call km h = if_true km _ h
call_fixed (password_call password) km h = if_true km _ h

call-initialized : (c : Call) → (call c at_boot).initialized ≡ true
unfolding call initialize get_master_key get_hmac_key derive_keys_from_password
call-initialized initialize_call = refl
call-initialized master_key_call = refl
call-initialized hmac_key_call = refl
call-initialized (password_call password) = refl

calls_fixed : (cs : List Call) (km : KeyManager) → km.initialized ≡ true → calls cs km ≡ km
unfolding calls
calls_fixed [] km h = refl
calls_fixed (c ∷ cs) km h = ap (calls cs) (call_fixed c km h) ∙ calls_fixed cs km h

-- After boot the first call of `initialize`, of a getter or of `derive_keys_from_password` settles
-- the keys: no sequence of later calls, whatever their passwords, changes them.
pub calls-at_boot : (c : Call) (cs : List Call) → calls (c ∷ cs) at_boot ≡ call c at_boot
unfolding calls
calls-at_boot c cs = calls_fixed cs (call c at_boot) (call-initialized c)
