-- ===== src/Memory/Pmm/Walk.antt =====
-- The walk over the multiboot memory map in kernel/memory/pmm.cpp.
use mesa_os.Prelude.{
  ℕ, zero, suc, ◌+◌, ◌*◌, ◌%◌, ◌^◌, ◌≤◌, ◌<◌, ◌≡◌, false, arith, leb, Bool-cases, inl, inr,
}
use mesa_os.Memory.Pmm.Invariant.{IsReady}
use mesa_os.Memory.Pmm.{Pmm, MultibootMmapEntry, test_block, load_entry, walk_map}

module _ (entry_at : ℕ → MultibootMmapEntry) (end_addr : ℕ) where
  abbrev next_addr : ℕ → ℕ
  next_addr a = (a + (entry_at a).size + 4) % 2 ^ 32

  -- The walk over the memory map goes on only to higher addresses, so it ends: from a 32-bit
  -- address `a` on, any two amounts of fuel above `2 ^ 32 - a` give the same state.
  pub walk_map_fuel :
      (f g : ℕ) (p : Pmm) (a : ℕ)
      → 2 ^ 32 < f + a
      → 2 ^ 32 < g + a
      → a < 2 ^ 32
      → walk_map f entry_at end_addr p a ≡ walk_map g entry_at end_addr p a
  unfolding walk_map
  walk_map_fuel zero g p a h k l = absurd (omega arith)
  walk_map_fuel (suc f) zero p a h k l = absurd (omega arith)
  walk_map_fuel (suc f) (suc g) p a h k l = elim (Bool-cases (leb (next_addr a) a)) [
    | inl back ↦ rw back
    | inr ahead ↦
        let up : a < next_addr a = ground arith in
        rw (
          walk_map_fuel f g (load_entry p (entry_at a)) (next_addr a) (omega arith) (omega arith)
            (omega arith))
  ]

  -- The walk from `a` reaches the entry at `x`.
  pub data Visits (x : ℕ) : ℕ → Type 0 where
    here : {a : ℕ} → a ≡ x → (a + 24) % 2 ^ 32 ≤ end_addr → Visits x a
    later :
        {a : ℕ}
        → (a + 24) % 2 ^ 32 ≤ end_addr
        → a < next_addr a
        → Visits x (next_addr a)
        → Visits x a

-- What stays true of a block `b` that is free, among `m` blocks.
record IsFree (m b : ℕ) (p : Pmm) : Type 0 where
  ready : IsReady p
  size : p.max_blocks ≡ m
  free : test_block p b ≡ false

-- The same of a block that may be used.
record IsSized (m : ℕ) (p : Pmm) : Type 0 where
  ready : IsReady p
  size : p.max_blocks ≡ m

-- An entry for available memory that covers the start of the block `b` of `m` blocks. The start of the
-- entry may be anywhere.
pub record Covers (m b : ℕ) (e : MultibootMmapEntry) : Type 0 where
  pub available : e.type ≡ 1
  pub start : e.addr_low < 2 ^ 32
  pub from : e.addr_low ≤ b * 4096
  pub to : b * 4096 < e.addr_low + e.len_low
  pub below_end : b * 4096 < 0xffff_efff
  pub not_null : 0 < b
  pub managed : b < m
