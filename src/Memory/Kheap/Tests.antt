-- ===== src/Memory/Kheap/Tests.antt =====
-- Runs of kernel/memory/kheap.cpp on a heap of 1 MiB, and the theorems at these inputs.
use mesa_os.Prelude.{ℕ, ◌+◌, ◌^◌, ◌<◌, ◌≡◌, refl, [], ◌∷◌, arith}
use mesa_os.Memory.Kheap.Blocks.{IsValid, initialize-IsValid, Stacked, run-Stacked}
use mesa_os.Memory.Kheap.{Kheap, initialize, align, malloc, run}

abbrev blank : Kheap
blank = record { current_addr = 0; end_addr = 0; memory = λ a. 0xaa }

abbrev heap : Kheap
heap = initialize blank (2 ^ 20) (2 ^ 20)

-- The addresses of four blocks of uneven sizes, and the refusal of a fifth.
run_five :
    run heap (1 ∷ 10 ∷ 8 ∷ 3 ∷ 2 ^ 20 ∷ [])
    ≡ (1048576, 1) ∷ (1048584, 10) ∷ (1048600, 8) ∷ (1048608, 3) ∷ []
unfolding run malloc initialize align
run_five = refl

heap-IsValid : IsValid heap
heap-IsValid = initialize-IsValid blank (2 ^ 20) (2 ^ 20) (omega arith) (omega arith)

-- The sizes of the theorems fit the address space.
fits : (size : ℕ) → size < 2 ^ 20 → heap.end_addr + size + 16 < 2 ^ 32
unfolding initialize
fits size h = omega arith

run-Stacked_example : Stacked heap.current_addr heap.end_addr (run heap (1 ∷ 10 ∷ 8 ∷ []))
run-Stacked_example =
    run-Stacked heap (1 ∷ 10 ∷ 8 ∷ []) heap-IsValid
      (fits 1 (omega arith), (fits 10 (omega arith), (fits 8 (omega arith), tt)))
