-- ===== src/Memory/Pmm.antt =====
-- kernel/memory/pmm.cpp: the allocator of physical frames of 4096 bytes, over a bitmap.
-- A record stands for the static fields of `PMM`. Memory from `bitmap` on is a function from the
-- index of a 32-bit word; words and addresses are numbers below 2 ^ 32.
pub mod Frames
pub mod Invariant
pub mod Allocate
pub mod MemoryMap
pub mod Walk
mod Tests
use mesa_os.Prelude.Bits.{bit_not}
use mesa_os.Prelude.{
  ℕ, zero, suc, ◌+◌, ◌-◌, ◌*◌, ◌/◌, ◌%◌, ◌^◌, Bool, true, false, not, ◌&&◌, ◌||◌, Option, none,
  some, List, [], ◌∷◌, bit_and, bit_or, ltb, leb, ◌==◌, if◌then◌else◌, update,
}

abbrev pub block_size : ℕ
block_size = 4096

abbrev pub blocks_per_bucket : ℕ
blocks_per_bucket = 32

-- `bitmap` is `none` while the pointer is null.
pub record Pmm : Type 0 where
  pub bitmap : Option (ℕ → ℕ)
  pub max_blocks : ℕ
  pub used_blocks : ℕ

-- `bitmap[bit / 32] & (1U << (bit % 32))`, as a truth value.
pub word_test : (ℕ → ℕ) → ℕ → Bool
word_test bm b = not (bit_and (bm (b / 32)) (2 ^ (b % 32)) == 0)

pub test_block : Pmm → ℕ → Bool
test_block p b = elim p.bitmap [
  | none ↦ false
  | some bm ↦ if leb p.max_blocks b then false else word_test bm b
]

-- `bitmap[bit / 32] |= (1U << (bit % 32))`
pub word_set : (ℕ → ℕ) → ℕ → ℕ → ℕ
word_set bm b = update bm (b / 32) (bit_or (bm (b / 32)) (2 ^ (b % 32)))

-- `bitmap[bit / 32] &= ~(1U << (bit % 32))`
pub word_unset : (ℕ → ℕ) → ℕ → ℕ → ℕ
word_unset bm b = update bm (b / 32) (bit_and (bm (b / 32)) (bit_not 32 (2 ^ (b % 32))))

pub set_block : Pmm → ℕ → Pmm
set_block p b = elim p.bitmap [
  | none ↦ p
  | some bm ↦
      if leb p.max_blocks b
      then p
      else if test_block p b
      then p
      else record p { bitmap = some (word_set bm b); used_blocks = (p.used_blocks + 1) % 2 ^ 32 }
]

pub unset_block : Pmm → ℕ → Pmm
unset_block p b = elim p.bitmap [
  | none ↦ p
  | some bm ↦
      if leb p.max_blocks b
      then p
      else if test_block p b
      then record p {
        bitmap = some (word_unset bm b);
        used_blocks = (p.used_blocks + 2 ^ 32 - 1) % 2 ^ 32;
      }
      else p
]

-- The inner loop of `first_free_block`, over `j` with `n` rounds left.
pub scan_bucket : (ℕ → ℕ) → ℕ → ℕ → ℕ → ℕ → Option ℕ
scan_bucket bm max i j zero = none
scan_bucket bm max i j (suc n) =
    let rest = scan_bucket bm max i (j + 1) n in
    if bit_and (bm i) (2 ^ j) == 0 && ltb (i * 32 + j) max then some (i * 32 + j) else rest

-- The outer loop, over the bucket `i` with `n` rounds left.
pub scan_buckets : (ℕ → ℕ) → ℕ → ℕ → ℕ → Option ℕ
scan_buckets bm max i zero = none
scan_buckets bm max i (suc n) =
    let rest = scan_buckets bm max (i + 1) n in
    if bm i == 0xffff_ffff
    then rest
    else elim (scan_bucket bm max i 0 32) [ some b ↦ some b | none ↦ rest ]

-- `none` is the result -1.
pub first_free_block : Pmm → Option ℕ
first_free_block p = elim p.bitmap [
  | none ↦ none
  | some bm ↦
      if p.max_blocks == 0
      then none
      else scan_buckets bm p.max_blocks 0 (p.max_blocks / blocks_per_bucket)
]

-- `memset(bitmap, 0xFF, n)` on the word at index `i`: whole words, and the low bytes of the last.
pub fill_ff : (ℕ → ℕ) → ℕ → ℕ → ℕ
fill_ff mem n i =
    if leb (4 * i + 4) n
    then 0xffff_ffff
    else if leb n (4 * i)
    then mem i
    else bit_or (mem i) (2 ^ (8 * (n - 4 * i)) - 1)

-- The loop that locks the blocks of the bitmap, over `i` with `n` rounds left.
pub lock_bitmap : Pmm → ℕ → ℕ → ℕ → Pmm
lock_bitmap p start i zero = p
lock_bitmap p start i (suc n) =
    lock_bitmap (if ltb (start + i) p.max_blocks then set_block p (start + i) else p) start (i + 1)
      n

-- `mem` is what the memory at `start_addr` holds before the call.
pub initialize : Pmm → (ℕ → ℕ) → ℕ → ℕ → Pmm
initialize p mem start_addr size =
    if start_addr == 0 || ltb size block_size
    then p
    else let max = size / block_size in
      lock_bitmap
        (record {
          bitmap = some (fill_ff mem ((max + 7) / 8));
          max_blocks = max;
          used_blocks = max;
        })
        (start_addr / block_size) 0 ((max + blocks_per_bucket - 1) / blocks_per_bucket)

-- The pointer that is returned, 0 for null. A block number fits an `int`, as there are below
-- 2 ^ 20 of them.
pub allocate_block : Pmm → Pmm × ℕ
allocate_block p = elim p.bitmap [
  | none ↦ (p, 0)
  | some bm ↦ elim (first_free_block p) [
    | none ↦ (p, 0)
    | some b ↦ if leb p.max_blocks b then (p, 0) else (set_block p b, b * block_size)
  ]
]

pub free_block : Pmm → ℕ → Pmm
free_block p addr = if addr == 0 then p else elim p.bitmap [
  | none ↦ p
  | some bm ↦
      if not (addr % block_size == 0)
      then p
      else if leb p.max_blocks (addr / block_size)
      then p
      else unset_block p (addr / block_size)
]

-- One entry of the multiboot memory map.
pub record MultibootMmapEntry : Type 0 where
  pub size : ℕ
  pub addr_low : ℕ
  pub addr_high : ℕ
  pub len_low : ℕ
  pub len_high : ℕ
  pub type : ℕ

-- The inner loop of `load_memory_map`, over `i` in steps of a block, on fuel. Both `addr + i` and
-- `i += BLOCK_SIZE` wrap.
pub free_region : ℕ → Pmm → ℕ → ℕ → ℕ → Pmm
free_region zero p addr len i = p
free_region (suc f) p addr len i =
    let rest =
      free_region f (free_block p ((addr + i) % 2 ^ 32)) addr len ((i + block_size) % 2 ^ 32) in
    if ltb i len && ltb ((addr + i) % 2 ^ 32) (0xffff_ffff - block_size) then rest else p

-- The body of the walk of `load_memory_map` on one entry.
pub load_entry : Pmm → MultibootMmapEntry → Pmm
load_entry p e =
    if e.type == 1 && ltb 0 e.len_low then free_region (2 ^ 20 + 1) p e.addr_low e.len_low 0 else p

-- The walk over the entries from address `mmap` on, on fuel. `entry_at` reads the entry that
-- stands at an address; an entry has 24 bytes.
pub walk_map : ℕ → (ℕ → MultibootMmapEntry) → ℕ → Pmm → ℕ → Pmm
walk_map zero entry_at end_addr p mmap = p
walk_map (suc f) entry_at end_addr p mmap =
    let next_addr = (mmap + (entry_at mmap).size + 4) % 2 ^ 32 in
    let rest = walk_map f entry_at end_addr (load_entry p (entry_at mmap)) next_addr in
    if leb ((mmap + 24) % 2 ^ 32) end_addr
    then (if leb next_addr mmap then load_entry p (entry_at mmap) else rest)
    else p

-- `mbt` is the fields `mmap_addr` and `mmap_length` of the multiboot information, if it is not null.
pub load_memory_map : (ℕ → MultibootMmapEntry) → Pmm → Option (ℕ × ℕ) → Pmm
load_memory_map entry_at p none = p
load_memory_map entry_at p (some (mmap_addr, mmap_length)) =
    if mmap_addr == 0 || mmap_length == 0
    then p
    else set_block (walk_map (2 ^ 32 + 1) entry_at ((mmap_addr + mmap_length) % 2 ^ 32) p mmap_addr)
        0
