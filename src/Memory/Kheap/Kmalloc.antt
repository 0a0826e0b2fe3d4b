-- ===== src/Memory/Kheap/Kmalloc.antt =====
-- `kmalloc` of kernel/memory/kheap.cpp: what its OOM killer can do.
use mesa_os.Prelude.{
  ℕ, ◌+◌, ◌^◌, ◌<◌, ◌≡◌, Option, none, some, arith, ◌==◌, if◌then◌else◌, Bool-cases, inl, inr,
}
use mesa_os.Memory.Kheap.{Kheap, malloc, kmalloc}
use mesa_os.Memory.Kheap.Blocks.{IsValid, malloc_lem, malloc-IsValid}

-- A size that did not fit does not fit at the second attempt: nothing is ever given back.
malloc_twice :
    (h : Kheap) (size : ℕ)
    → IsValid h
    → h.end_addr + size + 16 < 2 ^ 32
    → (malloc h size).1 ≡ 0
    → (malloc (malloc h size).0 size).1 ≡ 0
malloc_twice h size v l e = elim (malloc_lem h size v l) [
  | inl b ↦ absurd (omega (arith, b.above, v.start))
  | inr f ↦ elim (malloc_lem (malloc h size).0 size (malloc-IsValid h size v l) (rw f.same_end l)) [
    | inl b ↦ absurd (omega (arith, b.above, b.fresh, b.inside, f.no_room, f.same_end))
    | inr g ↦ g.null
  ]
]

module _ {S : Type 0} (get_current : S → Option ℕ) (remove_process : S → ℕ → S) where
  -- On a valid heap and for a size that does not reach past the address space, `kmalloc` returns
  -- what the first `malloc` returns and leaves the processes alone, if that is not null; and if it
  -- is null, the kernel panics, whichever process the OOM killer has removed before: a second
  -- attempt never succeeds.
  pub kmalloc_lem :
      (s : S) (h : Kheap) (size : ℕ)
      → IsValid h
      → h.end_addr + size + 16 < 2 ^ 32
      → kmalloc get_current remove_process s h size
        ≡ (if (malloc h size).1 == 0 then none else some (s, (malloc h size).0, (malloc h size).1))
  unfolding kmalloc
  kmalloc_lem s h size v l = elim (Bool-cases ((malloc h size).1 == 0)) [
    | inl null ↦
        let z : (malloc h size).1 ≡ 0 = ground arith in ground (arith, malloc_twice h size v l z)
    | inr there ↦ rw there
  ]
