-- ===== src/Memory/Pmm/Tests.antt =====
-- Runs of kernel/memory/pmm.cpp on 64 blocks, and the theorems at these inputs.
use mesa_os.Prelude.{ℕ, ◌+◌, ◌*◌, ◌^◌, ◌<◌, ◌≡◌, ◌⊎◌, true, false, none, arith, ◌==◌, if◌then◌else◌}
use mesa_os.Memory.Pmm.Invariant.{IsCounted, free_block-IsCounted}
use mesa_os.Memory.Pmm.Allocate.{scanned, allocate_block_lem}
use mesa_os.Memory.Pmm.MemoryMap.{IsLocked, initialize-IsLocked}
use mesa_os.Memory.Pmm.Walk.{walk_map_fuel}
use mesa_os.Memory.Pmm.{
  Pmm, block_size, test_block, initialize, allocate_block, free_block, MultibootMmapEntry, walk_map,
}

abbrev blank : Pmm
blank = record { bitmap = none; max_blocks = 0; used_blocks = 0 }

-- 64 blocks, all of them used.
abbrev locked : Pmm
locked = initialize blank (λ i. 0) 4096 (64 * 4096)

-- Block 2 is free.
abbrev opened : Pmm
opened = free_block locked 8192

-- A map with one entry, at address 4096, for the first 64 blocks.
abbrev entry : MultibootMmapEntry
entry = record {
  size = 20;
  addr_low = 0;
  addr_high = 0;
  len_low = 64 * 4096;
  len_high = 0;
  type = 1;
}

locked-IsLocked : IsLocked 64 locked
locked-IsLocked =
    initialize-IsLocked blank (λ i. 0) 4096 (64 * 4096) (λ e. omega (arith, e)) (omega arith)
      (omega arith)

opened-IsCounted : IsCounted opened
opened-IsCounted = free_block-IsCounted locked 8192 locked-IsLocked.books

free_block-IsCounted_example : IsCounted (free_block locked 8192)
free_block-IsCounted_example = free_block-IsCounted locked 8192 locked-IsLocked.books

allocate_block_lem_example :
    (((b : ℕ) → b < scanned opened → test_block opened b ≡ true)
      × (allocate_block opened ≡ (opened, 0)))
    ⊎ ((b : ℕ) × (b < scanned opened)
        × (test_block opened b ≡ false)
        × ((c : ℕ) → c < b → test_block opened c ≡ true)
        × ((allocate_block opened).1 ≡ b * block_size)
        × ((c : ℕ)
            → test_block (allocate_block opened).0 c
              ≡ (if b == c then true else test_block opened c)))
allocate_block_lem_example = allocate_block_lem opened opened-IsCounted.ready

walk_map_fuel_example :
    walk_map (2 ^ 32) (λ a. entry) 8192 locked 4096
    ≡ walk_map (2 ^ 32 + 1) (λ a. entry) 8192 locked 4096
walk_map_fuel_example =
    walk_map_fuel (λ a. entry) 8192 (2 ^ 32) (2 ^ 32 + 1) locked 4096 (omega arith) (omega arith)
      (omega arith)
