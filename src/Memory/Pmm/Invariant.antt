-- ===== src/Memory/Pmm/Invariant.antt =====
-- kernel/memory/pmm.cpp: what each operation does to the set of used frames, and the bookkeeping
-- that all of them keep.
use mesa_os.Prelude.{
  ℕ, zero, suc, ◌+◌, ◌-◌, ◌*◌, ◌/◌, ◌%◌, ◌^◌, ◌≤◌, ◌<◌, ◌≡◌, ◌≢◌, refl, Bool, true, false, not,
  ◌&&◌, none, arith, ltb, ◌==◌, if◌then◌else◌, Bool-cases, Option-cases, inl, inr, ==_iff,
}
use mesa_os.Memory.Pmm.Frames.{word_test-word_set, word_test-word_unset}
use mesa_os.Memory.Pmm.{Pmm, block_size, test_block, set_block, unset_block, free_block}

-- The bitmap is there, and a block number fits 20 bits, as an address has 32.
pub record IsReady (p : Pmm) : Type 0 where
  pub mapped : p.bitmap ≢ none
  pub small : p.max_blocks ≤ 2 ^ 20

-- The number of `b` below `n` that pass the test.
pub count : (ℕ → Bool) → ℕ → ℕ
count f zero = 0
count f (suc n) = count f n + (if f n then 1 else 0)

pub count_ext : (f g : ℕ → Bool) (n : ℕ) → ((b : ℕ) → b < n → f b ≡ g b) → count f n ≡ count g n
unfolding count
count_ext f g zero h = refl
count_ext f g (suc n) h = ground (arith, h n, count_ext f g n (λ b q. h b (omega arith)))

pub count-le : (f : ℕ → Bool) (n : ℕ) → count f n ≤ n
unfolding count
count-le f zero = omega arith
count-le f (suc n) = ground (arith, count-le f n)

pub count_all : (f : ℕ → Bool) (n : ℕ) → ((b : ℕ) → b < n → f b ≡ true) → count f n ≡ n
unfolding count
count_all f zero h = refl
count_all f (suc n) h = ground (arith, h n, count_all f n (λ b q. h b (omega arith)))

-- Changing one test changes the count by that one.
pub count_change :
    (f g : ℕ → Bool) (n a : ℕ)
    → a < n
    → ((b : ℕ) → b < n → a ≢ b → f b ≡ g b)
    → count f n + (if g a then 1 else 0) ≡ count g n + (if f a then 1 else 0)
unfolding count
count_change f g zero a h q = absurd (omega arith)
count_change f g (suc n) a h q = elim (Bool-cases (a == n)) [
  | inl last ↦
      let e : a ≡ n = (==_iff a n).0 last in
      rw e (omega (arith, count_ext f g n (λ b r. q b (omega arith) (λ t. omega arith))))
  | inr before ↦
      let lt : a < n = ground arith in
      ground (arith, q n, count_change f g n a lt (λ b r s. q b (omega arith) s))
]

-- `used_blocks` is the number of used blocks.
pub record IsCounted (p : Pmm) : Type 0 where
  pub ready : IsReady p
  pub counted : p.used_blocks ≡ count (test_block p) p.max_blocks

module _ (p : Pmm) (r : IsReady p) where
  -- `set_block` adds the block to the used ones if it is in range, and changes no other.
  pub test_block-set_block :
      (a b : ℕ)
      → test_block (set_block p a) b
        ≡ (if a == b && ltb a p.max_blocks then true else test_block p b)
  unfolding test_block set_block
  test_block-set_block a b = elim (Option-cases p.bitmap) [
    | inl e ↦ absurd (r.mapped e)
    | inr (bm, e) ↦ ground (arith, word_test-word_set bm a b)
  ]

  -- `unset_block` takes it from them.
  pub test_block-unset_block :
      (a b : ℕ)
      → test_block (unset_block p a) b
        ≡ (if a == b && ltb a p.max_blocks then false else test_block p b)
  unfolding test_block unset_block
  test_block-unset_block a b = elim (Option-cases p.bitmap) [
    | inl e ↦ absurd (r.mapped e)
    | inr (bm, e) ↦ ground (arith, word_test-word_unset bm a b)
  ]

  -- With the bitmap in place and at most 2 ^ 20 blocks, `free_block` makes the block free whose
  -- aligned address other than 0 it is given, if that block is in range, and changes no other
  -- block.
  pub test_block-free_block :
      (addr b : ℕ)
      → test_block (free_block p addr) b ≡ (
          if addr == b * block_size && ltb 0 addr && ltb b p.max_blocks
          then false
          else test_block p b)
  unfolding free_block
  test_block-free_block addr b = elim (Option-cases p.bitmap) [
    | inl e ↦ absurd (r.mapped e)
    | inr (bm, e) ↦ ground (arith, test_block-unset_block (addr / block_size) b)
  ]

  pub set_block-IsReady :
      (a : ℕ) → IsReady (set_block p a) × ((set_block p a).max_blocks ≡ p.max_blocks)
  unfolding set_block
  set_block-IsReady a = elim (Option-cases p.bitmap) [
    | inl e ↦ absurd (r.mapped e)
    | inr (bm, e) ↦
        (record { mapped = ground arith; small = ground (arith, r.small) }, ground arith)
  ]

  pub unset_block-IsReady :
      (a : ℕ) → IsReady (unset_block p a) × ((unset_block p a).max_blocks ≡ p.max_blocks)
  unfolding unset_block
  unset_block-IsReady a = elim (Option-cases p.bitmap) [
    | inl e ↦ absurd (r.mapped e)
    | inr (bm, e) ↦
        (record { mapped = ground arith; small = ground (arith, r.small) }, ground arith)
  ]

  used-set_block :
      (a : ℕ)
      → (set_block p a).used_blocks ≡ (
          if ltb a p.max_blocks && not (test_block p a)
          then (p.used_blocks + 1) % 2 ^ 32
          else p.used_blocks)
  unfolding set_block
  used-set_block a = elim (Option-cases p.bitmap) [
    | inl e ↦ absurd (r.mapped e)
    | inr (bm, e) ↦ ground arith
  ]

  used-unset_block :
      (a : ℕ)
      → (unset_block p a).used_blocks ≡ (
          if ltb a p.max_blocks && test_block p a
          then (p.used_blocks + 2 ^ 32 - 1) % 2 ^ 32
          else p.used_blocks)
  unfolding unset_block
  used-unset_block a = elim (Option-cases p.bitmap) [
    | inl e ↦ absurd (r.mapped e)
    | inr (bm, e) ↦ ground arith
  ]

-- Two states whose used blocks differ at `a` only have counts that differ by `a`.
count_blocks :
    (p q : Pmm) (a : ℕ)
    → ((b : ℕ) → a ≢ b → test_block p b ≡ test_block q b)
    → count (test_block p) p.max_blocks + (if ltb a p.max_blocks && test_block q a then 1 else 0)
      ≡ count (test_block q) p.max_blocks + (if ltb a p.max_blocks && test_block p a then 1 else 0)
count_blocks p q a h = elim (Bool-cases (ltb a p.max_blocks)) [
  | inl below ↦
      rw below
        (count_change (test_block p) (test_block q) p.max_blocks a (ground arith) (λ b _ n. h b n))
  | inr above ↦ rw above (
      omega (
        arith,
        count_ext (test_block p) (test_block q) p.max_blocks (λ b l. h b (λ e. ground arith)),
      ))
]

pub set_block-IsCounted : (p : Pmm) (a : ℕ) → IsCounted p → IsCounted (set_block p a)
set_block-IsCounted p a c = record {
  ready = (set_block-IsReady p c.ready a).0;
  counted = ground (
    arith,
    set_block-IsReady p c.ready a,
    used-set_block p c.ready a,
    c.counted,
    c.ready.small,
    count-le (test_block (set_block p a)) p.max_blocks,
    test_block-set_block p c.ready a a,
    count_blocks p (set_block p a) a (λ b n. ground (arith, test_block-set_block p c.ready a b)),
  );
}

pub unset_block-IsCounted : (p : Pmm) (a : ℕ) → IsCounted p → IsCounted (unset_block p a)
unset_block-IsCounted p a c = record {
  ready = (unset_block-IsReady p c.ready a).0;
  counted = ground (
    arith,
    unset_block-IsReady p c.ready a,
    used-unset_block p c.ready a,
    c.counted,
    c.ready.small,
    count-le (test_block p) p.max_blocks,
    test_block-unset_block p c.ready a a,
    count_blocks p (unset_block p a) a
        (λ b n. ground (arith, test_block-unset_block p c.ready a b)),
  );
}

-- `free_block` keeps `used_blocks` the number of used blocks, for any address, also an unaligned
-- one or one out of range, and also if the block was free already.
pub free_block-IsCounted : (p : Pmm) (addr : ℕ) → IsCounted p → IsCounted (free_block p addr)
unfolding free_block
free_block-IsCounted p addr c = elim (Option-cases p.bitmap) [
  | inl e ↦ absurd (c.ready.mapped e)
  | inr (bm, e) ↦ ground (arith, unset_block-IsCounted p (addr / block_size) c, c)
]
