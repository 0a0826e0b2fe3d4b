-- ===== src/Memory/Pmm/MemoryMap.antt =====
-- `initialize` and `load_memory_map` of kernel/memory/pmm.cpp: which blocks are free once the
-- memory map is read.
use native.Mathlib.Nat.{one-le-pow, add-zero}
use mesa_os.Prelude.Bits.{bit, bit_not, bit-bit_or, bit-bit_not, bit-zero, bit-lt}
use mesa_os.Prelude.{
  ℕ, zero, suc, ◌+◌, ◌-◌, ◌*◌, ◌/◌, ◌%◌, ◌^◌, ◌≤◌, ◌<◌, ◌≡◌, ◌≢◌, refl, sym, ◌∙◌, Bool, true, false,
  ◌&&◌, ◌||◌, Option, none, some, arith, ltb, leb, ◌==◌, if◌then◌else◌, Bool-cases, Option-cases,
  inl, inr,
}
use mesa_os.Memory.Pmm.Frames.{word_test_lem}
use mesa_os.Memory.Pmm.Invariant.{
  IsReady, IsCounted, count_all, test_block-set_block, test_block-free_block, set_block-IsReady,
  set_block-IsCounted, free_block-IsCounted, unset_block-IsReady,
}
use mesa_os.Memory.Pmm.{
  Pmm, MultibootMmapEntry, block_size, word_test, test_block, set_block, free_block, fill_ff,
  lock_bitmap, initialize, free_region, load_entry, walk_map, load_memory_map,
}

bit_ones : (n i : ℕ) → i < n → bit i (2 ^ n - 1) ≡ 1
unfolding bit_not
bit_ones n i h =
    let e : 2 ^ n - 1 - 0 ≡ 2 ^ n - 1 = omega arith in
    rw (← e) (omega (arith, bit-bit_not n i 0 (one-le-pow n 2 (omega arith)) h, bit-zero i))

-- `memset` with `0xFF` sets every bit of the bytes that it covers.
word_test-fill_ff : (mem : ℕ → ℕ) (n b : ℕ) → b < 8 * n → word_test (fill_ff mem n) b ≡ true
unfolding fill_ff
word_test-fill_ff mem n b h =
    rw (word_test_lem (fill_ff mem n) b) (elim (Bool-cases (leb (4 * (b / 32) + 4) n)) [
      | inl whole ↦ rw (whole, fill_ff) (ground (arith, bit_ones 32 (b % 32) (omega arith)))
      | inr part ↦ ground (
        arith,
        bit-bit_or (b % 32) (mem (b / 32)) (2 ^ (8 * (n - 4 * (b / 32))) - 1),
        bit_ones (8 * (n - 4 * (b / 32))) (b % 32) (ground arith),
        bit-lt (b % 32) (mem (b / 32)),
      )
    ])

abbrev AllUsed : Pmm → Type 0
AllUsed p = (b : ℕ) → b < p.max_blocks → test_block p b ≡ true

-- The books are right, every block is used, and there are `max` of them.
pub record IsLocked (max : ℕ) (p : Pmm) : Type 0 where
  pub books : IsCounted p
  pub all_used : AllUsed p
  pub size : p.max_blocks ≡ max

set_block-IsLocked : (max : ℕ) (p : Pmm) (a : ℕ) → IsLocked max p → IsLocked max (set_block p a)
set_block-IsLocked max p a l = record {
  books = set_block-IsCounted p a l.books;
  all_used = λ b h. ground (
    arith,
    test_block-set_block p l.books.ready a b,
    set_block-IsReady p l.books.ready a,
    l.all_used b,
  );
  size = (set_block-IsReady p l.books.ready a).1 ∙ l.size;
}

lock_bitmap-IsLocked :
    (max : ℕ) (p : Pmm) (start i n : ℕ) → IsLocked max p → IsLocked max (lock_bitmap p start i n)
unfolding lock_bitmap
lock_bitmap-IsLocked max p start i zero l = l
lock_bitmap-IsLocked max p start i (suc n) l =
    lock_bitmap-IsLocked max (if ltb (start + i) p.max_blocks then set_block p (start + i) else p)
      start (i + 1) n
      (one_step (ltb (start + i) p.max_blocks) (set_block-IsLocked max p (start + i) l))
  where
    one_step :
        (c : Bool)
        → IsLocked max (set_block p (start + i))
        → IsLocked max (if c then set_block p (start + i) else p)
    one_step true k = k
    one_step false k = l

-- The state that the locking loop starts from.
abbrev filled : (ℕ → ℕ) → ℕ → Pmm
filled mem max = record {
  bitmap = some (fill_ff mem ((max + 7) / 8));
  max_blocks = max;
  used_blocks = max;
}

filled-AllUsed : (mem : ℕ → ℕ) (max : ℕ) → AllUsed (filled mem max)
unfolding test_block
filled-AllUsed mem max =
    λ b h. ground (arith, word_test-fill_ff mem ((max + 7) / 8) b (omega arith))

filled-IsLocked : (mem : ℕ → ℕ) (max : ℕ) → max ≤ 2 ^ 20 → IsLocked max (filled mem max)
filled-IsLocked mem max h = record {
  books = record {
    ready = record { mapped = λ e. cc; small = h };
    counted = sym (count_all (test_block (filled mem max)) max (filled-AllUsed mem max));
  };
  all_used = filled-AllUsed mem max;
  size = refl;
}

-- After `initialize` with a start other than null, at least one block and a 32-bit size, the
-- bitmap is there, every one of the `size / 4096` blocks is used, and `used_blocks` is their
-- number, whatever the memory held before.
pub initialize-IsLocked :
    (p : Pmm) (mem : ℕ → ℕ) (start_addr size : ℕ)
    → start_addr ≢ 0
    → block_size ≤ size
    → size < 2 ^ 32
    → IsLocked (size / block_size) (initialize p mem start_addr size)
unfolding initialize
initialize-IsLocked p mem start_addr size h k l =
    let t : (start_addr == 0 || ltb size block_size) ≡ false = ground arith in
    rw t (
      lock_bitmap-IsLocked (size / block_size) (filled mem (size / block_size)) _ 0 _
        (filled-IsLocked mem (size / block_size) (omega arith)))

-- What `free_region` frees: the blocks of the region from `first` on that lie below the end of the
-- address space, where the region is aligned.
abbrev pub is_freed : Pmm → ℕ → ℕ → ℕ → Bool
is_freed p first end b =
    first % block_size == 0
    && leb first (b * block_size)
    && ltb (b * block_size) end
    && ltb (b * block_size) (0xffff_ffff - block_size)
    && ltb 0 b
    && ltb b p.max_blocks

pub free_block-same :
    (p : Pmm) (addr : ℕ)
    → IsReady p
    → IsReady (free_block p addr) × ((free_block p addr).max_blocks ≡ p.max_blocks)
unfolding free_block
free_block-same p addr r = elim (Option-cases p.bitmap) [
  | inl e ↦ absurd (r.mapped e)
  | inr (bm, e) ↦ (
    ground (arith, unset_block-IsReady p r (addr / block_size), r),
    ground (arith, unset_block-IsReady p r (addr / block_size)),
  )
]

free_region_from :
    (f : ℕ) (p : Pmm) (addr len i b : ℕ)
    → IsReady p
    → addr + i < 2 ^ 32
    → 2 ^ 32 ≤ i + f * block_size
    → test_block (free_region f p addr len i) b
      ≡ (if is_freed p (addr + i) (addr + len) b then false else test_block p b)
unfolding free_region
free_region_from zero p addr len i b r h k = absurd (omega arith)
free_region_from (suc f) p addr len i b r h k =
    elim (Bool-cases (ltb i len && ltb ((addr + i) % 2 ^ 32) (0xffff_ffff - block_size))) [
      | inl more ↦
          let e : (addr + i) % 2 ^ 32 ≡ addr + i = omega arith in
          let lim : addr + i < 0xffff_ffff - block_size = ground arith in
          let q : (i + block_size) % 2 ^ 32 ≡ i + block_size = omega arith in
          rw (more, e, q)
            (ground (
              arith,
              free_block-same p (addr + i) r,
              test_block-free_block p r (addr + i) b,
              free_region_from f (free_block p (addr + i)) addr len (i + block_size) b
                  (free_block-same p (addr + i) r).0 (omega arith) (omega arith),
            ))
      | inr done ↦ rw done (ground arith)
    ]

-- With the bitmap in place and at most 2 ^ 20 blocks, the loop of `load_memory_map` over one
-- region at a 32-bit address frees the blocks of the region other than block 0, as far as they lie
-- below 0xffffffff - 4096 and in range, and changes no other block; of a region whose start is not
-- aligned it frees nothing. The fuel of 2 ^ 20 + 1 rounds is enough for every region.
pub free_region_lem :
    (p : Pmm) (addr len b : ℕ)
    → IsReady p
    → addr < 2 ^ 32
    → test_block (free_region (2 ^ 20 + 1) p addr len 0) b
      ≡ (if is_freed p addr (addr + len) b then false else test_block p b)
free_region_lem p addr len b r h =
    rw (add-zero addr) at
      (free_region_from (2 ^ 20 + 1) p addr len 0 b r (omega arith) (omega arith))

-- A state on which a property of frames holds that no operation breaks.
module _ {ℓ} (P : Pmm → Type ℓ) (keep : (p : Pmm) (addr : ℕ) → P p → P (free_block p addr)) where
  pub free_region-keeps : (f : ℕ) (p : Pmm) (addr len i : ℕ) → P p → P (free_region f p addr len i)
  unfolding free_region
  free_region-keeps zero p addr len i h = h
  free_region-keeps (suc f) p addr len i h =
      elim (Bool-cases (ltb i len && ltb ((addr + i) % 2 ^ 32) (0xffff_ffff - block_size))) [
        | inl more ↦ rw more (
            free_region-keeps f (free_block p ((addr + i) % 2 ^ 32)) addr len
              ((i + block_size) % 2 ^ 32) (keep p ((addr + i) % 2 ^ 32) h))
        | inr done ↦ rw done h
      ]

  pub load_entry-keeps : (p : Pmm) (e : MultibootMmapEntry) → P p → P (load_entry p e)
  unfolding load_entry
  load_entry-keeps p e h = elim (Bool-cases (e.type == 1 && ltb 0 e.len_low)) [
    | inl t ↦ rw t (free_region-keeps (2 ^ 20 + 1) p e.addr_low e.len_low 0 h)
    | inr t ↦ rw t h
  ]

  pub walk_map-keeps :
      (f : ℕ) (entry_at : ℕ → MultibootMmapEntry) (end_addr : ℕ) (p : Pmm) (mmap : ℕ)
      → P p
      → P (walk_map f entry_at end_addr p mmap)
  unfolding walk_map
  walk_map-keeps zero entry_at end_addr p mmap h = h
  walk_map-keeps (suc f) entry_at end_addr p mmap h =
      elim (Bool-cases (leb ((mmap + 24) % 2 ^ 32) end_addr)) [
        | inr out ↦ rw out h
        | inl fits ↦ elim (Bool-cases (leb ((mmap + (entry_at mmap).size + 4) % 2 ^ 32) mmap)) [
          | inl back ↦ rw (fits, back) (load_entry-keeps p (entry_at mmap) h)
          | inr ahead ↦
              rw (fits, ahead)
                (walk_map-keeps f entry_at end_addr (load_entry p (entry_at mmap))
                  ((mmap + (entry_at mmap).size + 4) % 2 ^ 32)
                  (load_entry-keeps p (entry_at mmap) h))
        ]
      ]

-- `load_memory_map` keeps `used_blocks` the number of used blocks, whatever the map says, and also
-- without a map.
pub load_memory_map-IsCounted :
    (entry_at : ℕ → MultibootMmapEntry) (p : Pmm) (mbt : Option (ℕ × ℕ))
    → IsCounted p
    → IsCounted (load_memory_map entry_at p mbt)
unfolding load_memory_map
load_memory_map-IsCounted entry_at p none c = c
load_memory_map-IsCounted entry_at p (some (addr, len)) c =
    elim (Bool-cases (addr == 0 || len == 0)) [
      | inl absent ↦ rw absent c
      | inr there ↦ rw there (
          set_block-IsCounted _ 0 (
            walk_map-keeps IsCounted free_block-IsCounted (2 ^ 32 + 1) entry_at
              ((addr + len) % 2 ^ 32) p addr c))
    ]
