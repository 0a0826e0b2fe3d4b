-- ===== src/Memory/Vmm/Tests.antt =====
-- One address space of kernel/memory/vmm.cpp, and the theorems at it.
use mesa_os.Prelude.{◌*◌, ◌/◌, ◌≡◌, refl, ◌∙◌, true, false, none, arith, ◌==◌, if◌then◌else◌}
use mesa_os.Memory.Pmm.{Pmm, initialize, free_block}
use mesa_os.Memory.Pmm.Invariant.{free_block-IsCounted, test_block-free_block}
use mesa_os.Memory.Pmm.MemoryMap.{IsLocked, initialize-IsLocked}
use mesa_os.Memory.Vmm.{Vmm, present, map_page_in_space, unmap_page, get_physical_address}
use mesa_os.Memory.Vmm.Tables.{present_lem}
use mesa_os.Memory.Vmm.Space.{IsSpace}
use mesa_os.Memory.Vmm.Map.{map_page_in_space-IsSpace, unmap_page_lem}

abbrev locked : Pmm
locked =
    initialize (record { bitmap = none; max_blocks = 0; used_blocks = 0 }) (λ i. 0) 4096 (64 * 4096)

-- Of 64 frames the one at 8192 is free, and the directory stands at 20480.
abbrev space : Vmm
space = record {
  pmm = free_block locked 8192;
  memory = λ a. 0;
  kernel_directory = 0;
  aslr_seed = 0x12345678;
}

locked-IsLocked : IsLocked 64 locked
locked-IsLocked =
    initialize-IsLocked _ (λ i. 0) 4096 (64 * 4096) (λ e. omega (arith, e)) (omega arith)
      (omega arith)

nothing_present : present 0 ≡ false
nothing_present = present_lem 0

space-IsSpace : IsSpace space 20480
space-IsSpace = record {
  layout = record {
    words = λ a. omega arith;
    aligned = refl;
    apart = λ i h p. absurd (let e = nothing_present in cc);
    distinct = λ i j h l ne p q. absurd (let e = nothing_present in cc);
  };
  books = free_block-IsCounted locked 8192 locked-IsLocked.books;
  not_null = λ e. omega (arith, e);
  dir_used =
      test_block-free_block locked locked-IsLocked.books.ready 8192 5
      ∙ locked-IsLocked.all_used 5 (omega (arith, locked-IsLocked.size));
  tables_used = λ i h p. absurd (let e = nothing_present in cc);
}

map_page_in_space-IsSpace_example :
    IsSpace (map_page_in_space space 20480 0x1000 0x3000 true true) 20480
map_page_in_space-IsSpace_example =
    map_page_in_space-IsSpace space 20480 0x1000 0x3000 true true space-IsSpace (omega arith) refl
      (omega arith) refl

unmap_page_lem_example :
    IsSpace (unmap_page space 20480 0x1000) 20480
    × (get_physical_address (unmap_page space 20480 0x1000) 20480 0x1234
        ≡ (if 0x1000 / 4096 == 0x1234 / 4096 then 0 else get_physical_address space 20480 0x1234))
unmap_page_lem_example =
    unmap_page_lem space 20480 0x1000 0x1234 space-IsSpace refl (omega arith) (omega arith)
