-- ===== src/Memory/Kheap.antt =====
-- kernel/memory/kheap.cpp: the bump allocator of the kernel heap, and `kmalloc` with its OOM killer.
-- Memory is a function from addresses to bytes; addresses and sizes are numbers below 2 ^ 32.
pub mod Blocks
pub mod Kmalloc
mod Tests
use mesa_os.Prelude.{
  ℕ, ◌+◌, ◌-◌, ◌%◌, ◌^◌, Bool, ◌&&◌, not, Option, none, some, List, [], ◌∷◌, ltb, leb, ◌==◌,
  if◌then◌else◌,
}

pub record Kheap : Type 0 where
  pub current_addr : ℕ
  pub end_addr : ℕ
  pub memory : ℕ → ℕ

-- `memset(ptr, 0, size)`
abbrev pub clear : (ℕ → ℕ) → ℕ → ℕ → ℕ → ℕ
clear mem ptr size a = if leb ptr a && ltb a (ptr + size) then 0 else mem a

pub initialize : Kheap → ℕ → ℕ → Kheap
initialize h start_addr size = record h {
  current_addr = start_addr;
  end_addr = (start_addr + size) % 2 ^ 32;
}

pub align : ℕ → ℕ
align a = if a % 8 == 0 then a else (a + (8 - a % 8)) % 2 ^ 32

-- The new state and the pointer that is returned, 0 for null. A call that fails still moves
-- `current_addr` up to the boundary.
pub malloc : Kheap → ℕ → Kheap × ℕ
malloc h size =
    let ptr = align h.current_addr in
    if ltb h.end_addr ((ptr + size) % 2 ^ 32)
    then (record h { current_addr = ptr }, 0)
    else (record h { current_addr = (ptr + size) % 2 ^ 32; memory = clear h.memory ptr size }, ptr)

pub free : Kheap → ℕ → Kheap
free h ptr = h

-- A run of allocations, with the blocks that were handed out.
pub run : Kheap → List ℕ → List (ℕ × ℕ)
run h [] = []
run h (size ∷ sizes) =
    let (h', ptr) = malloc h size in
    let rest = run h' sizes in if ptr == 0 then rest else (ptr, size) ∷ rest

-- `kmalloc` over the scheduler's state, which it reads and changes through `get_current` and
-- `remove_process`. The result is `none` where the kernel panics. A pid is that of the process
-- which `get_current` returns, if it returns one.
module _ {S : Type 0} (get_current : S → Option ℕ) (remove_process : S → ℕ → S) where
  pub kill_current : S → Option S
  kill_current s = elim (get_current s) [
    | none ↦ none
    | some pid ↦ if pid == 0 then none else some (remove_process s pid)
  ]

  -- The pointer after the second attempt; a null pointer is a panic.
  abbrev pub or_panic : S → Kheap × ℕ → Option (S × Kheap × ℕ)
  or_panic s (h, ptr) = if ptr == 0 then none else some (s, h, ptr)

  pub kmalloc : S → Kheap → ℕ → Option (S × Kheap × ℕ)
  kmalloc s h size =
      let (h', ptr) = malloc h size in
      if ptr == 0
      then elim (kill_current s) [ none ↦ none | some s' ↦ or_panic s' (malloc h' size) ]
      else some (s, h', ptr)
