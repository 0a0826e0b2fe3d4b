-- ===== src/Fs/Crypto/HmacSha256/Tests.antt =====
-- SHA-256 of "abc" by kernel/fs/crypto.cpp.
use mesa_os.Prelude.{ℕ, ◌≡◌, refl, ◌==◌, if◌then◌else◌, nth}
use mesa_os.Fs.Crypto.HmacSha256.{
  word_at, sha256_init, sha256_transform, schedule, compress, first_words, more_words, next_word,
  word_at, shifted, rounds, round, variable,
}
use mesa_os.Fs.Crypto.Tables.{sha256_k, sha256_k_table}

-- One block, with its padding.
abbrev abc : ℕ → ℕ
abc i =
    if i == 0
    then 97
    else if i == 1
    then 98
    else if i == 2
    then 99
    else if i == 3
    then 0x80
    else if i == 63
    then 24
    else 0

-- The first word of the digest.
abc_test : sha256_transform sha256_init abc 0 ≡ 0xba7816bf
unfolding sha256_transform schedule compress sha256_init first_words more_words next_word word_at
    shifted rounds round variable sha256_k nth sha256_k_table
abc_test = refl
