-- ===== src/Fs/Crypto/KeyManager/Passwords.antt =====
-- `derive_key` of kernel/fs/crypto.cpp on passwords that fit into a key.
use mesa_os.Prelude.Bits.Xor.{bit_xor_zero, bit_xor_comm}
use mesa_os.Prelude.Bits.Fields.{low_field}
use mesa_os.Prelude.{
  ℕ, suc, ◌+◌, ◌*◌, ◌/◌, ◌%◌, ◌^◌, ◌<◌, ◌≤◌, ◌≡◌, refl, sym, ap, ap₂, ◌∙◌, List, [], ◌∷◌, bit_and,
  arith, update, length, ◌==◌, true, false, if_true, if_false,
}
use mesa_os.Fs.Crypto.KeyManager.{mix, derive_from, derive_key}

-- Every character is a byte.
abbrev pub AreBytes : List ℕ → Type 0
AreBytes [] = Unit {0}
AreBytes (c ∷ password) = (c < 256) × AreBytes password

mix_lem : (c : ℕ) → mix 0 c ≡ (c * 7 + 13) % 256
unfolding mix
mix_lem c =
    let x = c * 7 + 13 in
    let e : x / 2 ^ 8 * 2 ^ 8 + x % 2 ^ 8 ≡ x = omega arith in
    let z = bit_xor_comm 0 c ∙ bit_xor_zero c in
    ap (λ (y : ℕ). bit_and (y * 7 + 13) 0xff) z
    ∙ ap (λ (y : ℕ). bit_and y 0xff) (sym e)
    ∙ low_field 8 (x / 2 ^ 8) (x % 2 ^ 8) (omega arith)

mix_injective : (c d : ℕ) → c < 256 → d < 256 → mix 0 c ≡ mix 0 d → c ≡ d
mix_injective c d h k e = omega (arith, mix_lem c, mix_lem d)

-- The bytes in front of the character are not changed any more.
derive_from_front :
    (password : List ℕ) (key : ℕ → ℕ) (i j : ℕ)
    → i + length password ≤ 16
    → j < i
    → derive_from 16 key i password j ≡ key j
unfolding derive_from
derive_from_front [] key i j h k = refl
derive_from_front (c ∷ password) key i j h k =
    let other : (i % 16 == j) ≡ false = ground arith in
    derive_from_front password (update key (i % 16) (mix (key (i % 16)) c)) (i + 1) j (omega arith)
      (omega arith)
    ∙ if_false (mix (key (i % 16)) c) (key j) other

-- The character at `i` alone makes up the byte there.
derive_from_here :
    (c : ℕ) (password : List ℕ) (key : ℕ → ℕ) (i : ℕ)
    → i + suc (length password) ≤ 16
    → key i ≡ 0
    → derive_from 16 key i (c ∷ password) i ≡ mix 0 c
unfolding derive_from
derive_from_here c password key i h z =
    let m : i % 16 ≡ i = omega arith in
    let same : (i % 16 == i) ≡ true = ground arith in
    derive_from_front password (update key (i % 16) (mix (key (i % 16)) c)) (i + 1) i (omega arith)
      (omega arith)
    ∙ if_true (mix (key (i % 16)) c) (key i) same
    ∙ ap (λ (x : ℕ). mix (key x) c) m
    ∙ ap (λ (x : ℕ). mix x c) z

behind :
    (key : ℕ → ℕ) (i v : ℕ)
    → i < 16
    → ((j : ℕ) → i ≤ j → key j ≡ 0)
    → (j : ℕ) → i + 1 ≤ j
    → update key (i % 16) v j ≡ 0
behind key i v h z j k =
    let other : (i % 16 == j) ≡ false = ground arith in if_false v (key j) other ∙ z j (omega arith)

derive_from_injective :
    (p q : List ℕ) (k l : ℕ → ℕ) (i : ℕ)
    → AreBytes p
    → AreBytes q
    → length p ≡ length q
    → i + length p ≤ 16
    → ((j : ℕ) → i ≤ j → k j ≡ 0)
    → ((j : ℕ) → i ≤ j → l j ≡ 0)
    → derive_from 16 k i p ≡ derive_from 16 l i q
    → p ≡ q
unfolding derive_from
derive_from_injective [] [] k l i hp hq n m zk zl e = refl
derive_from_injective [] (d ∷ q) k l i hp hq n m zk zl e = absurd (omega arith)
derive_from_injective (c ∷ p) [] k l i hp hq n m zk zl e = absurd (omega arith)
derive_from_injective (c ∷ p) (d ∷ q) k l i hp hq n m zk zl e =
    let here =
      sym (derive_from_here c p k i m (zk i (omega arith)))
      ∙ ap (λ (t : ℕ → ℕ). t i) e
      ∙ derive_from_here d q l i (omega arith) (zl i (omega arith)) in
    ap₂ (λ (x : ℕ) (xs : List ℕ). x ∷ xs) (mix_injective c d (hp.0) (hq.0) here)
      (derive_from_injective p q (update k (i % 16) (mix (k (i % 16)) c))
        (update l (i % 16) (mix (l (i % 16)) d)) (i + 1) (hp.1) (hq.1) (omega arith) (omega arith)
        (behind k i (mix (k (i % 16)) c) (omega arith) zk)
        (behind l i (mix (l (i % 16)) d) (omega arith) zl) e)

-- Two passwords of bytes, of the same length of at most 16, from which `derive_key` makes the same
-- key, are the same.
pub derive_key_injective :
    (p q : List ℕ)
    → AreBytes p
    → AreBytes q
    → length p ≡ length q
    → length p ≤ 16
    → derive_key p ≡ derive_key q
    → p ≡ q
unfolding derive_key
derive_key_injective p q hp hq n m e =
    derive_from_injective p q (λ i. 0) (λ i. 0) 0 hp hq n (omega arith) (λ j h. refl) (λ j h. refl)
      e
