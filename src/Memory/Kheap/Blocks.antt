-- ===== src/Memory/Kheap/Blocks.antt =====
-- The blocks that kernel/memory/kheap.cpp hands out: aligned, cleared, inside the heap and apart.
use mesa_os.Prelude.{
  ℕ, ◌+◌, ◌%◌, ◌^◌, ◌≤◌, ◌<◌, ◌≡◌, ◌⊎◌, refl, false, List, [], ◌∷◌, arith, ltb, ◌==◌, Bool-cases,
  inl, inr,
}
use mesa_os.Memory.Kheap.{Kheap, align, malloc, initialize, run}

-- The heap lies inside the address space, away from address 0 and from the last 32 bytes.
pub record IsValid (h : Kheap) : Type 0 where
  pub start : 0 < h.current_addr
  pub near : h.current_addr ≤ h.end_addr + 7
  pub room : align h.current_addr ≤ h.end_addr + 7
  pub last : h.end_addr + 32 < 2 ^ 32

pub align_lem : (a : ℕ) → a + 8 < 2 ^ 32 → (align a % 8 ≡ 0) × (a ≤ align a) × (align a ≤ a + 7)
unfolding align
align_lem a h = ground arith

-- What a call of `malloc` with result `r` has done.
pub record IsBlock (h : Kheap) (size : ℕ) (r : Kheap × ℕ) : Type 0 where
  pub aligned : r.1 % 8 ≡ 0
  pub above : h.current_addr ≤ r.1
  pub fresh : r.1 + size ≡ r.0.current_addr
  pub inside : r.0.current_addr ≤ h.end_addr
  pub same_end : r.0.end_addr ≡ h.end_addr
  pub cleared : (a : ℕ) → r.1 ≤ a → a < r.1 + size → r.0.memory a ≡ 0
  pub kept : (a : ℕ) → (a < r.1) ⊎ (r.1 + size ≤ a) → r.0.memory a ≡ h.memory a

-- What it has done if it failed.
pub record IsFull (h : Kheap) (size : ℕ) (r : Kheap × ℕ) : Type 0 where
  pub null : r.1 ≡ 0
  pub no_room : h.end_addr < r.0.current_addr + size
  pub moved : (h.current_addr ≤ r.0.current_addr) × (r.0.current_addr ≤ h.current_addr + 7)
  pub same_end : r.0.end_addr ≡ h.end_addr
  pub same_memory : r.0.memory ≡ h.memory

-- On a valid heap and for a size that does not reach past the address space, `malloc` hands out an
-- aligned block inside the heap, above all that was handed out before, clears it and leaves other
-- memory alone; or, where the block does not fit, it returns null and leaves all memory alone.
pub malloc_lem :
    (h : Kheap) (size : ℕ)
    → IsValid h
    → h.end_addr + size + 16 < 2 ^ 32
    → IsBlock h size (malloc h size) ⊎ IsFull h size (malloc h size)
unfolding malloc
malloc_lem h size v l =
    let a : (align h.current_addr % 8 ≡ 0)
        × (h.current_addr ≤ align h.current_addr)
        × (align h.current_addr ≤ h.current_addr + 7) =
      align_lem h.current_addr (omega (arith, v.near, v.room, v.last)) in
    elim (Bool-cases (ltb h.end_addr ((align h.current_addr + size) % 2 ^ 32))) [
      | inl out ↦ rw out (
          inr (record {
            null = refl;
            no_room = ground (arith, v.near, v.room, v.last);
            moved = (a.1, a.2);
            same_end = refl;
            same_memory = refl;
          }))
      | inr fits ↦ rw fits (
          inl (record {
            aligned = a.0;
            above = a.1;
            fresh = ground (arith, v.near, v.room, v.last);
            inside = ground (arith, v.near, v.room, v.last);
            same_end = refl;
            cleared = λ b x y. ground arith;
            kept = λ b x. ground arith;
          }))
    ]

align-align : (a : ℕ) → a + 16 < 2 ^ 32 → align (align a) ≡ align a
unfolding align
align-align a h = ground arith

-- `malloc` with a size that does not reach past the address space keeps the heap valid, whether it
-- succeeds or not.
pub malloc-IsValid :
    (h : Kheap) (size : ℕ) → IsValid h → h.end_addr + size + 16 < 2 ^ 32 → IsValid (malloc h size).0
unfolding malloc
malloc-IsValid h size v l =
    let a : (align h.current_addr % 8 ≡ 0)
        × (h.current_addr ≤ align h.current_addr)
        × (align h.current_addr ≤ h.current_addr + 7) =
      align_lem h.current_addr (omega (arith, v.near, v.last)) in
    elim (Bool-cases (ltb h.end_addr ((align h.current_addr + size) % 2 ^ 32))) [
      | inl out ↦ rw out (record {
        start = omega (arith, v.start);
        near = v.room;
        room = rw (align-align h.current_addr (omega (arith, v.near, v.last))) v.room;
        last = v.last;
      })
      | inr fits ↦
          let e : (align h.current_addr + size) % 2 ^ 32 ≡ align h.current_addr + size =
            omega (arith, v.room) in
          let le : align h.current_addr + size ≤ h.end_addr = ground arith in
          let b : (align (align h.current_addr + size) % 8 ≡ 0)
              × (align h.current_addr + size ≤ align (align h.current_addr + size))
              × (align (align h.current_addr + size) ≤ align h.current_addr + size + 7) =
            align_lem (align h.current_addr + size) (omega (arith, v.last)) in
          rw (fits, e)
            (record {
              start = omega (arith, v.start);
              near = omega arith;
              room = omega arith;
              last = v.last;
            })
    ]

-- A heap as `initialize` leaves it.
pub initialize-IsValid :
    (h : Kheap) (start_addr size : ℕ)
    → 0 < start_addr
    → start_addr + size + 32 < 2 ^ 32
    → IsValid (initialize h start_addr size)
unfolding initialize
initialize-IsValid h start_addr size p l =
    let a : (align start_addr % 8 ≡ 0)
        × (start_addr ≤ align start_addr)
        × (align start_addr ≤ start_addr + 7) =
      align_lem start_addr (omega arith) in
    record { start = p; near = omega arith; room = omega arith; last = omega arith }

-- The blocks lie one above the other, from `lo` on and up to `hi`, at multiples of 8.
abbrev pub Stacked : ℕ → ℕ → List (ℕ × ℕ) → Type 0
Stacked lo hi [] = Unit {0}
Stacked lo hi ((ptr, size) ∷ bs) =
    (lo ≤ ptr) × (ptr % 8 ≡ 0) × (ptr + size ≤ hi) × Stacked (ptr + size) hi bs

-- The sizes of a run do not reach past the address space.
abbrev pub AllFit : ℕ → List ℕ → Type 0
AllFit hi [] = Unit {0}
AllFit hi (size ∷ sizes) = (hi + size + 16 < 2 ^ 32) × AllFit hi sizes

lower_stack : (lo lo' hi : ℕ) (bs : List (ℕ × ℕ)) → lo ≤ lo' → Stacked lo' hi bs → Stacked lo hi bs
lower_stack lo lo' hi [] h s = tt
lower_stack lo lo' hi ((ptr, size) ∷ bs) h s = (omega arith, s.1, s.2, s.3)

-- On a valid heap, the blocks of any run of allocations whose sizes do not reach past the address
-- space are aligned, lie inside the heap and do not overlap.
pub run-Stacked :
    (h : Kheap) (sizes : List ℕ)
    → IsValid h
    → AllFit h.end_addr sizes
    → Stacked h.current_addr h.end_addr (run h sizes)
unfolding run
run-Stacked h [] v l = tt
run-Stacked h (size ∷ sizes) v l = elim (malloc_lem h size v l.0) [
  | inl b ↦
      let more : Stacked (malloc h size).0.current_addr h.end_addr (run (malloc h size).0 sizes) =
        rw b.same_end at
          (run-Stacked (malloc h size).0 sizes (malloc-IsValid h size v l.0) (rw b.same_end l.1)) in
      let ne : ((malloc h size).1 == 0) ≡ false = ground (arith, b.above, v.start) in
      rw ne (b.above, b.aligned, omega (arith, b.fresh, b.inside), rw b.fresh more)
  | inr f ↦
      let more : Stacked (malloc h size).0.current_addr h.end_addr (run (malloc h size).0 sizes) =
        rw f.same_end at
          (run-Stacked (malloc h size).0 sizes (malloc-IsValid h size v l.0) (rw f.same_end l.1)) in
      rw f.null
        (lower_stack h.current_addr (malloc h size).0.current_addr h.end_addr _ f.moved.0 more)
]
