-- ===== src/Libc/Move.antt =====
-- The routines of kernel/libc/string.cpp on regions of memory.
use mesa_os.Prelude.{
  ℕ, zero, suc, ◌+◌, ◌-◌, ◌%◌, ◌≤◌, ◌<◌, ◌≡◌, ◌⊎◌, ◌↔◌, refl, sym, ap, ◌∙◌, Bool, ◌&&◌, arith, ltb,
  leb, ◌==◌, if◌then◌else◌, update, Bool-cases, ==_iff, inl, inr,
}
use mesa_os.Libc.{
  Memory, set_bytes, memset, copy_forward, memcpy, copy_backward, memmove, memcmp_from, memcmp,
}

-- The address lies among the `n` bytes from `start` on.
abbrev pub within : ℕ → ℕ → ℕ → Bool
within start n a = leb start a && ltb a (start + n)

set_bytes_lem :
    (m : Memory) (buf value i n a : ℕ)
    → set_bytes m buf value i n a ≡ (if within (buf + i) n a then value % 256 else m a)
unfolding set_bytes
set_bytes_lem m buf value i zero a = ground arith
set_bytes_lem m buf value i (suc n) a =
    ground (arith, set_bytes_lem (update m (buf + i) (value % 256)) buf value (i + 1) n a)

pub memset_lem :
    (m : Memory) (buf value size a : ℕ)
    → memset m buf value size a ≡ (if within buf size a then value % 256 else m a)
unfolding memset
memset_lem m buf value size a = ground (arith, set_bytes_lem m buf value 0 size a)

pub copy_forward_lem :
    (m : Memory) (dst src i n a : ℕ)
    → (dst ≤ src) ⊎ (src + i + n ≤ dst)
    → copy_forward m dst src i n a ≡ (if within (dst + i) n a then m (src + (a - dst)) else m a)
unfolding copy_forward
copy_forward_lem m dst src i zero a h = ground arith
copy_forward_lem m dst src i (suc n) a h =
    let apart : (dst ≤ src) ⊎ (src + (i + 1) + n ≤ dst) = elim h [
      | inl before ↦ inl before
      | inr behind ↦ inr (omega arith)
    ] in
    let rest = copy_forward_lem (update m (dst + i) (m (src + i))) dst src (i + 1) n a apart in
    elim (Bool-cases (dst + i == a)) [
      | inl here ↦
          let place : dst + i ≡ a = (==_iff (dst + i) a).0 here in
          let from : src + i ≡ src + (a - dst) = omega arith in rest ∙ ground (arith, ap m from)
      | inr away ↦ rest ∙ ground arith
    ]

pub memcpy_lem :
    (m : Memory) (dst src size a : ℕ)
    → (dst ≤ src) ⊎ (src + size ≤ dst)
    → memcpy m dst src size a ≡ (if within dst size a then m (src + (a - dst)) else m a)
unfolding memcpy
memcpy_lem m dst src size a h =
    let apart : (dst ≤ src) ⊎ (src + 0 + size ≤ dst) = elim h [
      | inl before ↦ inl before
      | inr behind ↦ inr (omega arith)
    ] in
    ground (arith, copy_forward_lem m dst src 0 size a apart)

copy_backward_lem :
    (m : Memory) (dst src n a : ℕ)
    → src < dst
    → copy_backward m dst src n a ≡ (if within dst n a then m (src + (a - dst)) else m a)
unfolding copy_backward
copy_backward_lem m dst src zero a h = ground arith
copy_backward_lem m dst src (suc i) a h =
    let rest = copy_backward_lem (update m (dst + i) (m (src + i))) dst src i a h in
    elim (Bool-cases (dst + i == a)) [
      | inl here ↦
          let place : dst + i ≡ a = (==_iff (dst + i) a).0 here in
          let from : src + i ≡ src + (a - dst) = omega arith in rest ∙ ground (arith, ap m from)
      | inr away ↦ rest ∙ ground arith
    ]

-- A copy of memory onto itself changes nothing.
stays_put :
    (m : Memory) (dst src n a : ℕ)
    → dst ≡ src
    → m a ≡ (if within dst n a then m (src + (a - dst)) else m a)
stays_put m dst src n a e = elim (Bool-cases (within dst n a)) [
  | inl inside ↦ let here : a ≡ src + (a - dst) = ground (arith, inside) in rw inside (ap m here)
  | inr outside ↦ rw outside refl
]

-- After `memmove` the `n` bytes from the destination on are those that stood at the source before,
-- and all other memory is as it was, however the two regions overlap.
pub memmove_lem :
    (m : Memory) (dst src n a : ℕ)
    → memmove m dst src n a ≡ (if within dst n a then m (src + (a - dst)) else m a)
unfolding memmove
memmove_lem m dst src n a = elim (Bool-cases (ltb dst src)) [
  | inl before ↦
      let apart : (dst ≤ src) ⊎ (src + 0 + n ≤ dst) = inl (ground arith) in
      ground (arith, before, copy_forward_lem m dst src 0 n a apart)
  | inr rest ↦ elim (Bool-cases (ltb src dst)) [
    | inl behind ↦
        let lt : src < dst = ground arith in
        ground (arith, rest, behind, copy_backward_lem m dst src n a lt)
    | inr same ↦ rw (rest, same) (stays_put m dst src n a (ground arith))
  ]
]

memcmp_from_lem :
    (m : Memory) (s1 s2 i n : ℕ)
    → (memcmp_from m s1 s2 i n ≡ 0) ↔ ((j : ℕ) → i ≤ j → j < i + n → m (s1 + j) ≡ m (s2 + j))
unfolding memcmp_from
memcmp_from_lem m s1 s2 i zero = (λ e j h l. absurd (omega arith), λ h. refl)
memcmp_from_lem m s1 s2 i (suc n) =
    let rest = memcmp_from_lem m s1 s2 (i + 1) n in
    (
      λ e j h l. elim (Bool-cases (i == j)) [
        | inl here ↦
            let q : i ≡ j = (==_iff i j).0 here in
            let same : m (s1 + i) ≡ m (s2 + i) = ground (arith, e) in
            ap (λ k. m (s1 + k)) (sym q) ∙ same ∙ ap (λ k. m (s2 + k)) q
        | inr later ↦ rest.0 (ground (arith, e)) j (ground (arith, later)) (omega arith)
      ],
      λ h.
          let same : m (s1 + i) ≡ m (s2 + i) = h i (omega arith) (omega arith) in
          let others = rest.1 (λ j p q. h j (omega arith) (omega arith)) in
          ground (arith, same, others),
    )

-- `memcmp` returns 0 exactly if the two regions agree in each of their `n` bytes.
pub memcmp_lem :
    (m : Memory) (s1 s2 n : ℕ)
    → (memcmp m s1 s2 n ≡ 0) ↔ ((j : ℕ) → j < n → m (s1 + j) ≡ m (s2 + j))
unfolding memcmp
memcmp_lem m s1 s2 n =
    let whole = memcmp_from_lem m s1 s2 0 n in
    (λ e j l. whole.0 e j (omega arith) (omega arith), λ h. whole.1 (λ j p q. h j (omega arith)))
