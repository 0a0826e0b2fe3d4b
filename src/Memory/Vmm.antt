-- ===== src/Memory/Vmm.antt =====
-- kernel/memory/vmm.cpp: address spaces over page directories and page tables, with frames from the
-- physical memory manager. Physical memory is identity mapped; here it is a function from the address
-- of a 32-bit word to the word. The bitmap of the manager is kept apart from it. The processor's
-- cache of translations is left out, and so is `Paging::switch_page_directory`.
pub mod Tables
pub mod Fresh
pub mod Space
pub mod Translate
pub mod Map
pub mod Clone
mod Tests
use mesa_os.Prelude.Bits.{bit_not}
use mesa_os.Prelude.{
  ℕ, zero, suc, ◌+◌, ◌-◌, ◌*◌, ◌/◌, ◌%◌, ◌^◌, Bool, true, false, not, ◌&&◌, ◌||◌, Option, none,
  some, bit_and, bit_or, ltb, leb, ◌==◌, if◌then◌else◌, update,
}
use mesa_os.Memory.Pmm.{Pmm, allocate_block, free_block}

-- `kernel_directory` is 0 while the pointer is null.
pub record Vmm : Type 0 where
  pub pmm : Pmm
  pub memory : ℕ → ℕ
  pub kernel_directory : ℕ
  pub aslr_seed : ℕ

abbrev pub page_size : ℕ
page_size = 4096

abbrev pub page_table_entries : ℕ
page_table_entries = 1024

abbrev pub kernel_space_entries : ℕ
kernel_space_entries = 768

-- The result is a multiple of 64 KiB.
pub get_random_offset : Vmm → Vmm × ℕ
get_random_offset v =
    let seed = bit_and ((v.aslr_seed * 1103515245 + 12345) % 2 ^ 32) 0x7fff_ffff in
    (record v { aslr_seed = seed }, seed % 256 * 0x10000)

-- `entry & 1`, as a truth value.
unfoldable pub present : ℕ → Bool
present entry = not (bit_and entry 1 == 0)

-- `entry & ~0xFFF`
unfoldable pub frame : ℕ → ℕ
frame entry = bit_and entry (bit_not 32 0xfff)

-- The index of a virtual address in the directory, and in the page table.
abbrev pub dir_idx : ℕ → ℕ
dir_idx addr = addr / 2 ^ 22

unfoldable pub table_idx : ℕ → ℕ
table_idx addr = bit_and (addr / 2 ^ 12) 0x3ff

-- `addr & 0xFFF`
unfoldable pub page_offset : ℕ → ℕ
page_offset addr = bit_and addr 0xfff

-- The address of an entry of a directory or a table.
abbrev pub slot : ℕ → ℕ → ℕ
slot table i = table + 4 * i

-- `memset(page, 0, PAGE_SIZE)` and `memcpy(dst, src, PAGE_SIZE)` on words.
unfoldable pub clear_page : (ℕ → ℕ) → ℕ → ℕ → ℕ
clear_page m page a = if leb page a && ltb a (page + page_size) then 0 else m a

pub copy_page : (ℕ → ℕ) → ℕ → ℕ → ℕ → ℕ
copy_page m dst src a = if leb dst a && ltb a (dst + page_size) then m (src + (a - dst)) else m a

abbrev pub user_flags : Bool → ℕ
user_flags user = if user then 7 else 3

-- The page table for an index of a directory, made if it is not there; `none` if no frame is free.
pub open_table : Vmm → ℕ → ℕ → Bool → Vmm × Option ℕ
open_table v directory i user =
    let entry = v.memory (slot directory i) in
    if present entry
    then (v, some (frame entry))
    else let (pmm, table) = allocate_block v.pmm in
      if table == 0 then (record v { pmm = pmm }, none) else (
        record v {
          pmm = pmm;
          memory =
              update (clear_page v.memory table) (slot directory i)
                (bit_or table (user_flags user));
        },
        some table,
      )

-- The flags of a page; a page that is both writable and executable is let through.
unfoldable pub page_flags : Bool → Bool → ℕ
page_flags user rw = if rw then user_flags user else bit_and (user_flags user) (bit_not 32 2)

pub map_page_in_space : Vmm → ℕ → ℕ → ℕ → Bool → Bool → Vmm
map_page_in_space v directory virtual_addr physical_addr user rw =
    if directory == 0
      || not (page_offset virtual_addr == 0)
      || not (page_offset physical_addr == 0)
      || leb page_table_entries (dir_idx virtual_addr)
    then v
    else let (v', table) = open_table v directory (dir_idx virtual_addr) user in
      elim table [
        | none ↦ v'
        | some t ↦ record v' {
          memory =
              update v'.memory (slot t (table_idx virtual_addr))
                (bit_or (frame physical_addr) (page_flags user rw));
        }
      ]

pub unmap_page : Vmm → ℕ → ℕ → Vmm
unmap_page v directory virtual_addr =
    let entry = v.memory (slot directory (dir_idx virtual_addr)) in
    if directory == 0
      || not (page_offset virtual_addr == 0)
      || leb page_table_entries (dir_idx virtual_addr)
      || not (present entry)
    then v
    else record v { memory = update v.memory (slot (frame entry) (table_idx virtual_addr)) 0 }

pub get_physical_address : Vmm → ℕ → ℕ → ℕ
get_physical_address v directory virtual_addr =
    let entry = v.memory (slot directory (dir_idx virtual_addr)) in
    let page = v.memory (slot (frame entry) (table_idx virtual_addr)) in
    if directory == 0 || leb page_table_entries (dir_idx virtual_addr) || not (present entry)
    then 0
    else if present page
    then bit_or (frame page) (page_offset virtual_addr)
    else 0

-- The physical address, 0 if no frame is free.
pub allocate_page : Vmm → ℕ → ℕ → Bool → Bool → Vmm × ℕ
allocate_page v directory virtual_addr user rw =
    let (pmm, page) = allocate_block v.pmm in
    if directory == 0
    then (v, 0)
    else if page == 0
    then (record v { pmm = pmm }, 0)
    else (map_page_in_space (record v { pmm = pmm }) directory virtual_addr page user rw, page)

pub free_page : Vmm → ℕ → ℕ → Vmm
free_page v directory virtual_addr =
    let physical_addr = get_physical_address v directory virtual_addr in
    if directory == 0 || physical_addr == 0
    then v
    else unmap_page (record v { pmm = free_block v.pmm physical_addr }) directory virtual_addr

pub free_page_table : Vmm → ℕ → Vmm
free_page_table v table = if table == 0 then v else record v { pmm = free_block v.pmm table }

-- The loop of `destroy_address_space`, over `i` with `n` rounds left.
pub free_tables : Vmm → ℕ → ℕ → ℕ → Vmm
free_tables v directory i zero = v
free_tables v directory i (suc n) =
    let entry = v.memory (slot directory i) in
    free_tables (if present entry then free_page_table v (frame entry) else v) directory (i + 1) n

pub destroy_address_space : Vmm → ℕ → Vmm
destroy_address_space v directory =
    if directory == 0 || directory == v.kernel_directory
    then v
    else let v' =
        free_tables v directory kernel_space_entries (page_table_entries - kernel_space_entries) in
      record v' { pmm = free_block v'.pmm directory }

-- The loop that copies the kernel's tables, over `i` with `n` rounds left. The result is the
-- directory, or 0 where a frame is missing and all is destroyed again.
pub copy_kernel_tables : Vmm → ℕ → ℕ → ℕ → Vmm × ℕ
copy_kernel_tables v directory i zero = (v, directory)
copy_kernel_tables v directory i (suc n) =
    let entry = v.memory (slot v.kernel_directory i) in
    let (pmm, table) = allocate_block v.pmm in
    let copied : Vmm = record v {
      pmm = pmm;
      memory =
          update (copy_page v.memory table (frame entry)) (slot directory i)
            (bit_or table (bit_and entry 0xfff));
    } in
    elim (present entry) [
      | false ↦ copy_kernel_tables v directory (i + 1) n
      | true ↦ elim (table == 0) [
        | true ↦ (destroy_address_space (record v { pmm = pmm }) directory, 0)
        | false ↦ copy_kernel_tables copied directory (i + 1) n
      ]
    ]

pub create_address_space : Vmm → Vmm × ℕ
create_address_space v =
    let (pmm, directory) = allocate_block v.pmm in
    if v.kernel_directory == 0
    then (v, 0)
    else if directory == 0
    then (record v { pmm = pmm }, 0)
    else copy_kernel_tables (record v { pmm = pmm; memory = clear_page v.memory directory })
        directory 0 kernel_space_entries

-- An entry of a table in the clone: read-only, and marked in bit 9 for copy on write.
unfoldable pub cow_entry : ℕ → ℕ
cow_entry entry =
    let flags = bit_and (bit_and entry 0xfff) (bit_not 32 2) in
    bit_or (frame entry) (bit_or flags (2 ^ 9))

-- The loop over one table, over `j` with `n` rounds left.
pub clone_table : (ℕ → ℕ) → ℕ → ℕ → ℕ → ℕ → ℕ → ℕ
clone_table m src dst j zero = m
clone_table m src dst j (suc n) =
    let entry = m (slot src j) in
    clone_table (if present entry then update m (slot dst j) (cow_entry entry) else m) src dst
      (j + 1) n

-- The loop over the user's part of the directory, over `i` with `n` rounds left.
pub clone_tables : Vmm → ℕ → ℕ → ℕ → ℕ → Vmm × ℕ
clone_tables v src directory i zero = (v, directory)
clone_tables v src directory i (suc n) =
    let entry = v.memory (slot src i) in
    let (pmm, table) = allocate_block v.pmm in
    let cleared = clear_page v.memory table in
    let cloned : Vmm = record v {
      pmm = pmm;
      memory =
          update (clone_table cleared (frame entry) table 0 page_table_entries) (slot directory i)
            (bit_or table (bit_and entry 0xfff));
    } in
    elim (present entry) [
      | false ↦ clone_tables v src directory (i + 1) n
      | true ↦ elim (table == 0) [
        | true ↦ (destroy_address_space (record v { pmm = pmm }) directory, 0)
        | false ↦ clone_tables cloned src directory (i + 1) n
      ]
    ]

pub clone_address_space : Vmm → ℕ → Vmm × ℕ
clone_address_space v src =
    let (v', directory) = create_address_space v in
    if src == 0 || src == v.kernel_directory
    then (v, 0)
    else if directory == 0
    then (v', 0)
    else clone_tables v' src directory kernel_space_entries
        (page_table_entries - kernel_space_entries)
