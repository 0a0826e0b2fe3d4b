-- ===== src/Fs/Crypto/HmacSha256/Reads.antt =====
-- What `compute` and `verify` of kernel/fs/crypto.cpp read of the message.
use mesa_os.Prelude.{
  ℕ, zero, suc, ◌+◌, ◌*◌, ◌<◌, ◌≤◌, ◌≡◌, refl, ap, ◌∙◌, true, ◌-◌, ltb, ==_refl, arith, update,
  if◌then◌else◌,
}
use mesa_os.Fs.Crypto.HmacSha256.{
  word_at, first_words, more_words, schedule, compress, sha256_transform, sha256_init, sha256_final,
  padded_key, inner_hash, compute, same_bytes, verify,
}

abbrev pub AgreeBelow : ℕ → (ℕ → ℕ) → (ℕ → ℕ) → Type 0
AgreeBelow n a b = (i : ℕ) → i < n → a i ≡ b i

word_at-agree : (m m' : ℕ → ℕ) (i : ℕ) → AgreeBelow 64 m m' → i < 16 → word_at m i ≡ word_at m' i
unfolding word_at
word_at-agree m m' i h k =
    rw
      (
        h (i * 4) (omega arith),
        h (i * 4 + 1) (omega arith),
        h (i * 4 + 2) (omega arith),
        h (i * 4 + 3) (omega arith),
      )
      refl

first_words-agree :
    (n i : ℕ) (m m' w : ℕ → ℕ)
    → AgreeBelow 64 m m'
    → i + n ≤ 16
    → first_words m w i n ≡ first_words m' w i n
unfolding first_words
first_words-agree zero i m m' w h k = refl
first_words-agree (suc n) i m m' w h k =
    ap (λ (x : ℕ). first_words m (update w i x) (i + 1) n) (word_at-agree m m' i h (omega arith))
    ∙ first_words-agree n (i + 1) m m' (update w i (word_at m' i)) h (omega arith)

pub sha256_transform-agree :
    (state m m' : ℕ → ℕ) → AgreeBelow 64 m m' → sha256_transform state m ≡ sha256_transform state m'
unfolding sha256_transform schedule
sha256_transform-agree state m m' h =
    ap (λ (w : ℕ → ℕ). compress state (more_words w 16 48))
      (first_words-agree 16 0 m m' (λ i. 0) h (omega arith))

-- The code depends on the first 64 bytes of the message, and on its length.
pub compute-agree :
    (beyond key : ℕ → ℕ) (key_len : ℕ) (message message' : ℕ → ℕ) (data_len : ℕ)
    → AgreeBelow 64 message message'
    → compute beyond key key_len message data_len ≡ compute beyond key key_len message' data_len
unfolding compute inner_hash
compute-agree beyond key key_len message message' data_len h =
    let state = sha256_transform sha256_init (padded_key key key_len 0x36) in
    let outer = sha256_transform sha256_init (padded_key key key_len 0x5c) in
    ap
      (λ (t : ℕ → ℕ).
        sha256_final
          (sha256_transform outer
            (λ i. if ltb i 32 then sha256_final t (64 + data_len) i else beyond (i - 32)))
          (64 + 32))
      (sha256_transform-agree state message message' h)

-- A code that is verified is that of the message, on its 32 bytes.
same_bytes_refl : (n : ℕ) (a : ℕ → ℕ) → same_bytes a a n ≡ true
unfolding same_bytes
same_bytes_refl zero a = refl
same_bytes_refl (suc n) a = rw (same_bytes_refl n a, ==_refl (a n)) refl

pub verify-compute :
    (beyond key : ℕ → ℕ) (key_len : ℕ) (message message' : ℕ → ℕ) (data_len : ℕ)
    → AgreeBelow 64 message message'
    → verify beyond key key_len message' data_len (compute beyond key key_len message data_len)
      ≡ true
unfolding verify
verify-compute beyond key key_len message message' data_len h =
    let own = compute beyond key key_len message' data_len in
    ap (λ (x : ℕ → ℕ). same_bytes own x 32)
      (compute-agree beyond key key_len message message' data_len h)
    ∙ same_bytes_refl 32 own
