-- ===== src/Net/Checksum/Verify.antt =====
-- The checksum of kernel/net/ipv4.cpp: its sum does not wrap, the loop on the carries ends, and a
-- packet with its checksum in place sums up to 0xffff.
use native.Mathlib.Nat.{zero-add}
use mesa_os.Prelude.Bits.{bit_not}
use mesa_os.Prelude.{
  ℕ, zero, suc, ◌+◌, ◌-◌, ◌*◌, ◌/◌, ◌%◌, ◌^◌, ◌≤◌, ◌<◌, ◌≡◌, ◌≢◌, ◌↔◌, ◌∙◌, List, [], ◌∷◌, ◌++◌,
  arith, ◌==◌, if◌then◌else◌, length,
}
use mesa_os.Net.Checksum.{sum_words, fold_carries, calculate_checksum}

-- The sum of the words with no bound on its width.
pub word_sum : List ℕ → ℕ
word_sum [] = 0
word_sum (a ∷ []) = a
word_sum (a ∷ b ∷ bs) = a + b * 256 + word_sum bs

abbrev pub AllBytes : List ℕ → Type 0
AllBytes [] = Unit {0}
AllBytes (b ∷ bs) = (b < 256) × AllBytes bs

word_sum-le : (bs : List ℕ) → AllBytes bs → word_sum bs ≤ length bs * 2 ^ 16
unfolding word_sum
word_sum-le [] h = omega arith
word_sum-le (a ∷ []) h = omega arith
word_sum-le (a ∷ b ∷ bs) h = omega (arith, word_sum-le bs h.1.1)

sum_words-eq-add :
    (sum : ℕ) (bs : List ℕ) → sum + word_sum bs < 2 ^ 32 → sum_words sum bs ≡ sum + word_sum bs
unfolding sum_words word_sum
sum_words-eq-add sum [] h = omega arith
sum_words-eq-add sum (a ∷ []) h = omega arith
sum_words-eq-add sum (a ∷ b ∷ bs) h =
    let e : (sum + (a + b * 256)) % 2 ^ 32 ≡ sum + (a + b * 256) = omega arith in
    rw e (omega (arith, sum_words-eq-add (sum + (a + b * 256)) bs (omega arith)))

-- What one round does: the sum gets smaller, keeps its remainder and does not become 0.
pub fold_carries-suc :
    (f sum : ℕ)
    → fold_carries (suc f) sum
      ≡ (if sum / 2 ^ 16 == 0 then sum else fold_carries f (sum % 2 ^ 16 + sum / 2 ^ 16))
unfolding fold_carries
fold_carries-suc f sum = ground arith

-- Any 32-bit sum is folded into 16 bits within three rounds, with its remainder modulo 0xffff, and
-- to 0 only if it is 0.
pub fold_carries_lem :
    (f sum : ℕ)
    → sum < 2 ^ 32
    → (fold_carries (suc (suc (suc f))) sum < 2 ^ 16)
      × (fold_carries (suc (suc (suc f))) sum % 0xffff ≡ sum % 0xffff)
      × ((fold_carries (suc (suc (suc f))) sum ≡ 0) ↔ (sum ≡ 0))
fold_carries_lem f sum h = ground (
  arith,
  fold_carries-suc (suc (suc f)) sum,
  fold_carries-suc (suc f) (sum % 2 ^ 16 + sum / 2 ^ 16),
  fold_carries-suc f
      ((sum % 2 ^ 16 + sum / 2 ^ 16) % 2 ^ 16 + (sum % 2 ^ 16 + sum / 2 ^ 16) / 2 ^ 16),
)

-- The field that the checksum is written to, at the even offset after `pre`.
word_sum-insert :
    (n c : ℕ) (pre post : List ℕ)
    → length pre ≡ 2 * n
    → word_sum (pre ++ c % 256 ∷ c / 256 ∷ post) ≡ word_sum (pre ++ 0 ∷ 0 ∷ post) + c
unfolding word_sum
word_sum-insert zero c [] post e = omega arith
word_sum-insert (suc n) c [] post e = absurd (omega arith)
word_sum-insert zero c (x ∷ xs) post e = absurd (omega arith)
word_sum-insert (suc n) c (x ∷ []) post e = absurd (omega arith)
word_sum-insert (suc n) c (x ∷ y ∷ xs) post e =
    omega (arith, word_sum-insert n c xs post (omega arith))

-- A packet of at most 2 ^ 15 bytes whose checksum field, at an even offset, is filled with the
-- checksum of the packet with that field 0 passes the receiver's test: its own checksum is 0. The
-- checksum fits the 16-bit field.
pub calculate_checksum_verifies :
    (n : ℕ) (pre post : List ℕ)
    → length pre ≡ 2 * n
    → AllBytes (pre ++ 0 ∷ 0 ∷ post)
    → length (pre ++ 0 ∷ 0 ∷ post) ≤ 2 ^ 15
    → let c = calculate_checksum (pre ++ 0 ∷ 0 ∷ post) in
      (c < 2 ^ 16) × (calculate_checksum (pre ++ c % 256 ∷ c / 256 ∷ post) ≡ 0)
unfolding calculate_checksum bit_not
calculate_checksum_verifies n pre post e b l =
    let s = word_sum (pre ++ 0 ∷ 0 ∷ post) in
    let le : s ≤ 2 ^ 31 = omega (arith, word_sum-le (pre ++ 0 ∷ 0 ∷ post) b) in
    let q : sum_words 0 (pre ++ 0 ∷ 0 ∷ post) ≡ s =
      sum_words-eq-add 0 (pre ++ 0 ∷ 0 ∷ post) (omega arith) ∙ zero-add s in
    let f : (fold_carries 3 s < 2 ^ 16)
        × (fold_carries 3 s % 0xffff ≡ s % 0xffff)
        × ((fold_carries 3 s ≡ 0) ↔ (s ≡ 0)) =
      fold_carries_lem 0 s (omega arith) in
    let c = 2 ^ 16 - 1 - fold_carries 3 s % 2 ^ 16 in
    let t : word_sum (pre ++ c % 256 ∷ c / 256 ∷ post) ≡ s + c = word_sum-insert n c pre post e in
    let r : sum_words 0 (pre ++ c % 256 ∷ c / 256 ∷ post) ≡ s + c =
      omega (arith, sum_words-eq-add 0 (pre ++ c % 256 ∷ c / 256 ∷ post), t) in
    let g : (fold_carries 3 (s + c) < 2 ^ 16)
        × (fold_carries 3 (s + c) % 0xffff ≡ (s + c) % 0xffff)
        × ((fold_carries 3 (s + c) ≡ 0) ↔ (s + c ≡ 0)) =
      fold_carries_lem 0 (s + c) (omega arith) in
    let some_sum : fold_carries 3 (s + c) ≢ 0 = λ z.
      let both : s + c ≡ 0 = g.2.0 z in
      let none : fold_carries 3 s ≡ 0 = f.2.1 (omega arith) in omega arith in
    rw (q, r) (omega arith, omega (arith, f.0, f.1, g.0, g.1))
