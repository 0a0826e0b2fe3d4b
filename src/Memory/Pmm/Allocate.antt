-- ===== src/Memory/Pmm/Allocate.antt =====
-- `first_free_block` and `allocate_block` of kernel/memory/pmm.cpp: what the scan finds, and what
-- it leaves out.
use native.Mathlib.Nat.{zero-add}
use mesa_os.Prelude.Bits.{bit-bit_not, bit-zero, bit_not}
use mesa_os.Prelude.{
  ℕ, zero, suc, ◌+◌, ◌*◌, ◌/◌, ◌%◌, ◌^◌, ◌≤◌, ◌<◌, ◌≡◌, ◌⊎◌, refl, sym, ◌∙◌, Bool, true, false, not,
  Option, none, some, arith, ltb, ◌==◌, if◌then◌else◌, Bool-cases, Option-cases, inl, inr, ==_iff,
  bit_and,
}
use mesa_os.Memory.Pmm.Frames.{word_test_lem}
use mesa_os.Memory.Pmm.Invariant.{IsReady, IsCounted, test_block-set_block, set_block-IsCounted}
use mesa_os.Memory.Pmm.{
  Pmm, block_size, word_test, test_block, set_block, scan_bucket, scan_buckets, first_free_block,
  allocate_block,
}

-- The least index from `lo` on, below `hi`, at which the test fails; `none` if there is no such.
abbrev pub IsLeastFree : (ℕ → Bool) → ℕ → ℕ → Option ℕ → Type 0
IsLeastFree f lo hi none = (b : ℕ) → lo ≤ b → b < hi → f b ≡ true
IsLeastFree f lo hi (some b) =
    (lo ≤ b) × (b < hi) × (f b ≡ false) × ((c : ℕ) → lo ≤ c → c < b → f c ≡ true)

-- The search of a range is that of its first part and then, if that finds nothing, of the rest.
IsLeastFree-append :
    (f : ℕ → Bool) (lo mid hi : ℕ) (r : Option ℕ)
    → lo ≤ mid
    → ((b : ℕ) → lo ≤ b → b < mid → f b ≡ true)
    → IsLeastFree f mid hi r
    → IsLeastFree f lo hi r
IsLeastFree-append f lo mid hi none p h k = λ b x y. elim (Bool-cases (ltb b mid)) [
  | inl e ↦ h b x (ground arith)
  | inr e ↦ k b (ground arith) y
]
IsLeastFree-append f lo mid hi (some a) p h k = (
  omega (arith, k.0),
  k.1,
  k.2,
  λ c x y. elim (Bool-cases (ltb c mid)) [
    | inl e ↦ h c x (ground arith)
    | inr e ↦ k.3 c (ground arith) y
  ],
)

module _ (bm : ℕ → ℕ) where
  word_test_at : (i j : ℕ) → j < 32 → not (bit_and (bm i) (2 ^ j) == 0) ≡ word_test bm (i * 32 + j)
  unfolding word_test
  word_test_at i j h =
      let e : (i * 32 + j) / 32 ≡ i = omega arith in
      let q : (i * 32 + j) % 32 ≡ j = omega arith in rw (e, q)

  full_bucket :
      (i b : ℕ) → bm i ≡ 0xffff_ffff → i * 32 ≤ b → b < i * 32 + 32 → word_test bm b ≡ true
  full_bucket i b e p q =
      let d : b / 32 ≡ i = omega arith in
      rw (word_test_lem bm b, d, e)
        (ground (arith, bit-bit_not 32 (b % 32) 0, bit-zero (b % 32), ones))
    where
      ones : bit_not 32 0 ≡ 0xffff_ffff
      ones = unfold bit_not in refl

  scan_bucket-IsLeastFree :
      (max i j n : ℕ)
      → j + n ≤ 32
      → i * 32 + j + n ≤ max
      → IsLeastFree (word_test bm) (i * 32 + j) (i * 32 + j + n) (scan_bucket bm max i j n)
  unfolding scan_bucket
  scan_bucket-IsLeastFree max i j zero h k = λ b x y. absurd (omega arith)
  scan_bucket-IsLeastFree max i j (suc n) h k = elim (Bool-cases (bit_and (bm i) (2 ^ j) == 0)) [
    | inl free ↦
        let below : ltb (i * 32 + j) max ≡ true = ground arith in
        let t : word_test bm (i * 32 + j) ≡ false = rw (← word_test_at i j (omega arith), free) in
        rw (free, below) (omega arith, omega arith, t, λ c x y. absurd (omega arith))
    | inr used ↦
        let t : word_test bm (i * 32 + j) ≡ true = rw (← word_test_at i j (omega arith), used) in
        let e : i * 32 + (j + 1) + n ≡ i * 32 + j + suc n = omega arith in
        let s : i * 32 + (j + 1) ≡ i * 32 + j + 1 = omega arith in
        rw used (
          IsLeastFree-append (word_test bm) (i * 32 + j) (i * 32 + (j + 1)) (i * 32 + j + suc n)
            (scan_bucket bm max i (j + 1) n) (omega arith)
            (λ b x y. let q : b ≡ i * 32 + j = omega arith in rw q t)
            (rw e at (scan_bucket-IsLeastFree max i (j + 1) n (omega arith) (omega arith))))
  ]

  -- A bucket is skipped only if it is full, and left only if nothing in it is free.
  bucket-IsLeastFree :
      (max i : ℕ)
      → i * 32 + 32 ≤ max
      → IsLeastFree
          (word_test bm)
          (i * 32)
          (i * 32 + 32)
          (if bm i == 0xffff_ffff then none else scan_bucket bm max i 0 32)
  bucket-IsLeastFree max i h = elim (Bool-cases (bm i == 0xffff_ffff)) [
    | inl full ↦ rw full (λ b x y. full_bucket i b ((==_iff _ _).0 full) x y)
    | inr part ↦
        let e : i * 32 + 0 ≡ i * 32 = omega arith in
        rw part (rw e at (scan_bucket-IsLeastFree max i 0 32 (omega arith) (omega arith)))
  ]

  scan_buckets-suc :
      (max i n : ℕ)
      → scan_buckets bm max i (suc n)
        ≡ elim (if bm i == 0xffff_ffff then none else scan_bucket bm max i 0 32) [
          | some b ↦ some b
          | none ↦ scan_buckets bm max (i + 1) n
        ]
  unfolding scan_buckets
  scan_buckets-suc max i n = ground arith

  or_else-IsLeastFree :
      (lo mid hi : ℕ) (r t : Option ℕ)
      → lo ≤ mid
      → mid ≤ hi
      → IsLeastFree (word_test bm) lo mid r
      → IsLeastFree (word_test bm) mid hi t
      → IsLeastFree (word_test bm) lo hi (elim r [ some b ↦ some b | none ↦ t ])
  or_else-IsLeastFree lo mid hi none t p q k l = IsLeastFree-append (word_test bm) lo mid hi t p k l
  or_else-IsLeastFree lo mid hi (some b) t p q k l = (k.0, omega (arith, k.1), k.2, k.3)

  scan_buckets-IsLeastFree :
      (max i n : ℕ)
      → (i + n) * 32 ≤ max
      → IsLeastFree (word_test bm) (i * 32) ((i + n) * 32) (scan_buckets bm max i n)
  unfolding scan_buckets
  scan_buckets-IsLeastFree max i zero h = λ b x y. absurd (omega arith)
  scan_buckets-IsLeastFree max i (suc n) h =
      let e : (i + 1) * 32 ≡ i * 32 + 32 = omega arith in
      let q : (i + 1 + n) * 32 ≡ (i + suc n) * 32 = omega arith in
      rw (scan_buckets-suc max i n) (
        or_else-IsLeastFree (i * 32) (i * 32 + 32) ((i + suc n) * 32) _ _ (omega arith)
          (omega arith) (bucket-IsLeastFree max i (omega arith))
          (rw (e, q) at (scan_buckets-IsLeastFree max (i + 1) n (omega arith))))

test_block-mapped :
    (p : Pmm) (bm : ℕ → ℕ) (b : ℕ)
    → p.bitmap ≡ some bm
    → b < p.max_blocks
    → test_block p b ≡ word_test bm b
unfolding test_block
test_block-mapped p bm b e h = ground arith

IsLeastFree-ext :
    (f g : ℕ → Bool) (hi : ℕ) (r : Option ℕ)
    → ((b : ℕ) → b < hi → f b ≡ g b)
    → IsLeastFree f 0 hi r
    → IsLeastFree g 0 hi r
IsLeastFree-ext f g hi none e k = λ b x y. sym (e b y) ∙ k b x y
IsLeastFree-ext f g hi (some a) e k =
    (k.0, k.1, sym (e a k.1) ∙ k.2, λ c x y. sym (e c (omega (arith, k.1))) ∙ k.3 c x y)

-- The number of blocks that the scan looks at: those of the whole buckets.
abbrev pub scanned : Pmm → ℕ
scanned p = p.max_blocks / 32 * 32

first_free_block-empty : (p : Pmm) → p.max_blocks ≡ 0 → first_free_block p ≡ none
unfolding first_free_block
first_free_block-empty p h = ground arith

first_free_block-mapped :
    (p : Pmm) (bm : ℕ → ℕ)
    → p.bitmap ≡ some bm
    → (p.max_blocks == 0) ≡ false
    → first_free_block p ≡ scan_buckets bm p.max_blocks 0 (p.max_blocks / 32)
unfolding first_free_block
first_free_block-mapped p bm e h = ground arith

-- With the bitmap in place and at most 2 ^ 20 blocks, the search of `first_free_block`, bucket by
-- bucket and bit by bit, returns the least free block among those of the whole buckets of 32, and
-- -1 exactly if all of them are used.
pub first_free_block_least :
    (p : Pmm) → IsReady p → IsLeastFree (test_block p) 0 (scanned p) (first_free_block p)
first_free_block_least p r = elim (Option-cases p.bitmap) [
  | inl e ↦ absurd (r.mapped e)
  | inr (bm, e) ↦ elim (Bool-cases (p.max_blocks == 0)) [
    | inl none_at_all ↦
        rw (first_free_block-empty p ((==_iff p.max_blocks 0).0 none_at_all))
          (λ b x y. absurd (ground arith))
    | inr some_there ↦ rw (first_free_block-mapped p bm e some_there) (
        IsLeastFree-ext (word_test bm) (test_block p) (scanned p)
          (scan_buckets bm p.max_blocks 0 (p.max_blocks / 32))
          (λ b h. sym (test_block-mapped p bm b e (omega arith)))
          (rw (zero-add (p.max_blocks / 32)) at
            (scan_buckets-IsLeastFree bm p.max_blocks 0 (p.max_blocks / 32) (omega arith))))
  ]
]

-- What one call returns: null when nothing is found, and otherwise the address of the block that
-- the scan found, which is now used.
pub allocate_block-none : (p : Pmm) → first_free_block p ≡ none → allocate_block p ≡ (p, 0)
unfolding allocate_block
allocate_block-none p e = ground arith

pub allocate_block-some :
    (p : Pmm) (b : ℕ)
    → IsReady p
    → first_free_block p ≡ some b
    → b < p.max_blocks
    → allocate_block p ≡ (set_block p b, b * block_size)
unfolding allocate_block
allocate_block-some p b r e h = elim (Option-cases p.bitmap) [
  | inl q ↦ absurd (r.mapped q)
  | inr (bm, q) ↦ ground arith
]

-- With the bitmap in place and at most 2 ^ 20 blocks: if every block of the whole buckets of 32 is
-- used, `allocate_block` returns null and changes nothing, whatever the blocks after the whole
-- buckets are; otherwise it returns the address of the least free block of the whole buckets,
-- which is used from then on, and no other block changes.
pub allocate_block_lem :
    (p : Pmm)
    → IsReady p
    → (((b : ℕ) → b < scanned p → test_block p b ≡ true) × (allocate_block p ≡ (p, 0)))
      ⊎ ((b : ℕ) × (b < scanned p)
          × (test_block p b ≡ false)
          × ((c : ℕ) → c < b → test_block p c ≡ true)
          × ((allocate_block p).1 ≡ b * block_size)
          × ((c : ℕ)
              → test_block (allocate_block p).0 c ≡ (if b == c then true else test_block p c)))
allocate_block_lem p r = elim (Option-cases (first_free_block p)) [
  | inl e ↦
      inl (λ b h. (rw e at (first_free_block_least p r)) b (omega arith) h, allocate_block-none p e)
  | inr (b, e) ↦
      let l : IsLeastFree (test_block p) 0 (scanned p) (some b) =
        rw e at (first_free_block_least p r) in
      let below : b < p.max_blocks = omega (arith, l.1) in
      inr (
        b,
        l.1,
        l.2,
        λ c h. l.3 c (omega arith) h,
        rw (allocate_block-some p b r e below),
        λ c. rw (allocate_block-some p b r e below) (ground (arith, test_block-set_block p r b c)),
      )
]

-- `allocate_block` keeps the books: if `used_blocks` was the number of used blocks, it is so
-- afterwards, whether the call succeeds or not.
pub allocate_block-IsCounted : (p : Pmm) → IsCounted p → IsCounted (allocate_block p).0
allocate_block-IsCounted p c = elim (Option-cases (first_free_block p)) [
  | inl e ↦ rw (allocate_block-none p e) c
  | inr (b, e) ↦
      let l : IsLeastFree (test_block p) 0 (scanned p) (some b) =
        rw e at (first_free_block_least p c.ready) in
      rw (allocate_block-some p b c.ready e (omega (arith, l.1))) (set_block-IsCounted p b c)
]
