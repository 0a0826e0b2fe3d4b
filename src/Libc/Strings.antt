-- ===== src/Libc/Strings.antt =====
-- The string routines of kernel/libc/string.cpp on strings that end.
use mesa_os.Prelude.{
  ℕ, zero, suc, ◌+◌, ◌-◌, ◌^◌, ◌≤◌, ◌<◌, ◌≡◌, ◌≢◌, ◌⊎◌, ◌↔◌, refl, sym, ap, ap₂, ◌∙◌, true, false,
  ◌&&◌, arith, leb, ◌==◌, if◌then◌else◌, update, Bool-cases, ==_iff, inl, inr, List, [], ◌∷◌,
}
use mesa_os.Libc.{Memory, strlen_from, strlen, strcmp_from, strcmp, strcpy_from, strcpy}

-- A string of `n` characters stands at `s`, with the zero that ends it.
pub record IsString (m : Memory) (s n : ℕ) : Type 0 where
  pub chars : (i : ℕ) → i < n → m (s + i) ≢ 0
  pub end : m (s + n) ≡ 0
  pub short : n < 2 ^ 32

-- The `n` bytes from `s` on.
unfoldable pub text : Memory → ℕ → ℕ → List ℕ
text m s zero = []
text m s (suc n) = m s ∷ text m (s + 1) n

strlen_from_lem :
    (m : Memory) (s n len f : ℕ)
    → ((i : ℕ) → len ≤ i → i < n → m (s + i) ≢ 0)
    → m (s + n) ≡ 0
    → len ≤ n
    → n < len + f
    → strlen_from m s len f ≡ n
unfolding strlen_from
strlen_from_lem m s n len zero c e l h = absurd (omega arith)
strlen_from_lem m s n len (suc f) c e l h = elim (Bool-cases (len == n)) [
  | inl last ↦
      let q : len ≡ n = (==_iff len n).0 last in
      let z : m (s + len) ≡ 0 = ap (λ k. m (s + k)) q ∙ e in ground (arith, z, q)
  | inr more ↦
      let lt : len < n = ground arith in
      let rest =
        strlen_from_lem m s n (len + 1) f (λ i p q. c i (omega arith) q) e (omega arith)
          (omega arith) in
      ground (arith, c len (omega arith) lt, rest)
]

-- For a string that ends within the address space `strlen` stops there: it returns the number of
-- characters before the first zero.
pub strlen_lem : (m : Memory) (s n : ℕ) → IsString m s n → strlen m s ≡ n
unfolding strlen
strlen_lem m s n w =
    strlen_from_lem m s n 0 (2 ^ 32) (λ i p q. w.chars i q) w.end (omega arith)
      (omega (arith, w.short))

kept : (m : Memory) (p v x y : ℕ) → p ≢ x → x ≡ y → update m p v x ≡ m y
kept m p v x y h e = ground (arith, ap m e)

-- `strcpy` copies the characters of a string and the zero after them.
pub strcpy_from_lem :
    (m : Memory) (dst src n f : ℕ)
    → ((i : ℕ) → i < n → m (src + i) ≢ 0)
    → m (src + n) ≡ 0
    → (dst ≤ src) ⊎ (src + n < dst)
    → n < f
    → (a : ℕ)
    → strcpy_from m dst src f a
      ≡ (if leb dst a && leb a (dst + n) then m (src + (a - dst)) else m a)
unfolding strcpy_from
strcpy_from_lem m dst src n zero c e h l a = absurd (omega arith)
strcpy_from_lem m dst src zero (suc f) c e h l a =
    let at_end : m src ≡ 0 = ap m (omega arith) ∙ e in
    let stops : (m src == 0) ≡ true = ground (arith, at_end) in
    elim (Bool-cases (dst == a)) [
      | inl here ↦
          let from : src ≡ src + (a - dst) = ground (arith, here) in
          ground (arith, stops, ap m from)
      | inr away ↦ ground (arith, stops)
    ]
strcpy_from_lem m dst src (suc n) (suc f) c e h l a =
    let some_char : m src ≢ 0 = λ z. c 0 (omega arith) (ap m (omega arith) ∙ z) in
    let goes_on : (m src == 0) ≡ false = ground (arith, some_char) in
    let away : (i : ℕ) → i ≤ n → update m dst (m src) (src + 1 + i) ≡ m (src + suc i) =
      λ i q. kept m dst (m src) (src + 1 + i) (src + suc i) (omega (arith, h)) (omega arith) in
    let apart : (dst + 1 ≤ src + 1) ⊎ (src + 1 + n < dst + 1) = elim h [
      | inl before ↦ inl (omega arith)
      | inr behind ↦ inr (omega arith)
    ] in
    let rest =
      strcpy_from_lem (update m dst (m src)) (dst + 1) (src + 1) n f
        (λ i q z. c (suc i) (omega arith) (sym (away i (omega arith)) ∙ z))
        (away n (omega arith) ∙ e) apart (omega arith) a in
    elim (Bool-cases (dst == a)) [
      | inl here ↦
          let from : src ≡ src + (a - dst) = ground (arith, here) in
          rw goes_on (rest ∙ ground (arith, here, ap m from))
      | inr other ↦ rw goes_on (
          rest ∙ elim (Bool-cases (leb (dst + 1) a && leb a (dst + 1 + n))) [
            | inl inside ↦
                let from : src + suc (a - (dst + 1)) ≡ src + (a - dst) = ground (arith, inside) in
                let same = away (a - (dst + 1)) (ground (arith, inside)) ∙ ap m from in
                ground (arith, inside, same)
            | inr outside ↦ ground (arith, outside, other)
          ])
    ]

-- For a string that ends within the address space, and a destination that is not behind its start
-- and in it, `strcpy` copies the string with the zero that ends it, and leaves all other memory as
-- it was.
pub strcpy_lem :
    (m : Memory) (dst src n : ℕ)
    → IsString m src n
    → (dst ≤ src) ⊎ (src + n < dst)
    → (a : ℕ)
    → strcpy m dst src a ≡ (if leb dst a && leb a (dst + n) then m (src + (a - dst)) else m a)
unfolding strcpy
strcpy_lem m dst src n w h a =
    strcpy_from_lem m dst src n (2 ^ 32) w.chars w.end h (omega (arith, w.short)) a

at_place : (m : Memory) (s i a : ℕ) → m (s + i) ≡ 0 → a ≡ s + i → m a ≡ 0
at_place m s i a e h = ap m h ∙ e

char_at : (m : Memory) (s i a : ℕ) → m (s + i) ≢ 0 → a ≡ s + i → m a ≢ 0
char_at m s i a c h z = c (sym (ap m h) ∙ z)

strcmp_from_lem :
    (m : Memory) (s1 s2 n k f : ℕ)
    → ((a : ℕ) → m a < 256)
    → ((i : ℕ) → i < n → m (s1 + i) ≢ 0)
    → m (s1 + n) ≡ 0
    → ((i : ℕ) → i < k → m (s2 + i) ≢ 0)
    → m (s2 + k) ≡ 0
    → n < f
    → (strcmp_from m s1 s2 f ≡ 0) ↔ (text m s1 n ≡ text m s2 k)
unfolding strcmp_from text
strcmp_from_lem m s1 s2 n k zero b c1 e1 c2 e2 h = absurd (omega arith)
strcmp_from_lem m s1 s2 zero zero (suc f) b c1 e1 c2 e2 h =
    let end1 = at_place m s1 0 s1 e1 (omega arith) in
    let end2 = at_place m s2 0 s2 e2 (omega arith) in (λ d. refl, λ q. ground (arith, end1, end2))
strcmp_from_lem m s1 s2 zero (suc k) (suc f) b c1 e1 c2 e2 h =
    let end1 = at_place m s1 0 s1 e1 (omega arith) in
    let char2 = char_at m s2 0 s2 (c2 0 (omega arith)) (omega arith) in
    (λ d. absurd (ground (arith, end1, char2, b s2, d)), λ q. cc)
strcmp_from_lem m s1 s2 (suc n) zero (suc f) b c1 e1 c2 e2 h =
    let char1 = char_at m s1 0 s1 (c1 0 (omega arith)) (omega arith) in
    let end2 = at_place m s2 0 s2 e2 (omega arith) in
    (λ d. absurd (ground (arith, char1, end2, b s1, d)), λ q. cc)
strcmp_from_lem m s1 s2 (suc n) (suc k) (suc f) b c1 e1 c2 e2 h =
    let char1 = char_at m s1 0 s1 (c1 0 (omega arith)) (omega arith) in
    let rest =
      strcmp_from_lem m (s1 + 1) (s2 + 1) n k f b
        (λ i q. char_at m s1 (suc i) (s1 + 1 + i) (c1 (suc i) (omega arith)) (omega arith))
        (at_place m s1 (suc n) (s1 + 1 + n) e1 (omega arith))
        (λ i q. char_at m s2 (suc i) (s2 + 1 + i) (c2 (suc i) (omega arith)) (omega arith))
        (at_place m s2 (suc k) (s2 + 1 + k) e2 (omega arith)) (omega arith) in
    elim (Bool-cases (m s1 == m s2)) [
      | inl same ↦
          let e : m s1 ≡ m s2 = (==_iff (m s1) (m s2)).0 same in
          let some_char : (m s1 == 0) ≡ false = ground (arith, char1) in
          rw (some_char, same) (λ d. ap₂ ◌∷◌ e (rest.0 d), λ q. rest.1 cc)
      | inr other ↦
          let some_char : (m s1 == 0) ≡ false = ground (arith, char1) in
          rw (some_char, other)
            (
              λ d. absurd (ground (arith, other, b s1, b s2, d)),
              λ q. absurd (let e : m s1 ≡ m s2 = cc in ground (arith, other, e)),
            )
    ]

-- On memory of bytes, `strcmp` on two strings that end within the address space returns 0 exactly
-- if they are the same characters.
pub strcmp_lem :
    (m : Memory) (s1 s2 n k : ℕ)
    → ((a : ℕ) → m a < 256)
    → IsString m s1 n
    → IsString m s2 k
    → (strcmp m s1 s2 ≡ 0) ↔ (text m s1 n ≡ text m s2 k)
unfolding strcmp
strcmp_lem m s1 s2 n k b v w =
    strcmp_from_lem m s1 s2 n k (2 ^ 32) b v.chars v.end w.chars w.end (omega (arith, v.short))
