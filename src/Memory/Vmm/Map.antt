-- ===== src/Memory/Vmm/Map.antt =====
-- The operations of kernel/memory/vmm.cpp that change one page of an address space.
use mesa_os.Prelude.Bits.Fields.{bit_and_0xfff}
use mesa_os.Prelude.{
  ℕ, ◌/◌, ◌%◌, ◌^◌, ◌<◌, ◌≡◌, ◌≢◌, refl, sym, ap, ◌∙◌, Bool, true, false, Option, none, some,
  bit_and, bit_or, arith, leb, ◌==◌, if◌then◌else◌, update, Bool-cases, inl, inr,
}
use mesa_os.Memory.Vmm.{
  Vmm, present, frame, slot, dir_idx, table_idx, page_offset, page_flags, open_table,
  map_page_in_space, unmap_page, get_physical_address, allocate_page,
}
use mesa_os.Memory.Pmm.{allocate_block}
use mesa_os.Memory.Vmm.Tables.{page}
use mesa_os.Memory.Vmm.Space.{IsSpace, Opens, no_frame, opened, open_table-Opens}
use mesa_os.Memory.Vmm.Translate.{
  resolve, absent_zero, get_physical_address-resolve, mapped_entry, written-IsSpace, get-written,
}

pub is_some : {A : Type 0} → Option A → Bool
is_some none = false
is_some (some a) = true

-- What `map_page_in_space` does with the table that `open_table` finds.
enter : Vmm × Option ℕ → ℕ → ℕ → Bool → Bool → Vmm
enter (v, none) va pa user rw_ = v
enter (v, some t) va pa user rw_ = record v {
  memory = update v.memory (slot t (table_idx va)) (bit_or (frame pa) (page_flags user rw_));
}

aligned_offset : (a : ℕ) → a % 4096 ≡ 0 → (page_offset a == 0) ≡ true
unfolding page_offset
aligned_offset a h = ground (arith, bit_and_0xfff a)

map-enter :
    (v : Vmm) (dir va pa : ℕ) (user rw_ : Bool)
    → dir ≢ 0
    → va % 4096 ≡ 0
    → va < 2 ^ 32
    → pa % 4096 ≡ 0
    → map_page_in_space v dir va pa user rw_
      ≡ enter (open_table v dir (dir_idx va) user) va pa user rw_
unfolding map_page_in_space enter
map-enter v dir va pa user rw_ n a h b =
    let some_dir : (dir == 0) ≡ false = ground (arith, n) in
    let low : leb 1024 (dir_idx va) ≡ false = ground arith in
    rw (some_dir, aligned_offset va a, aligned_offset pa b, low)
      (by_table (open_table v dir (dir_idx va) user))
  where
    by_table :
        (o : Vmm × Option ℕ)
        → (elim o.1 as (λ t. Vmm) [
          | none ↦ o.0
          | some t ↦ record o.0 {
            memory =
                update o.0.memory (slot t (table_idx va)) (bit_or (frame pa) (page_flags user rw_));
          }
        ])
          ≡ enter o va pa user rw_
    by_table (v', none) = refl
    by_table (v', some t) = refl

module _ (v : Vmm) (dir va pa : ℕ) (user rw_ : Bool) (s : IsSpace v dir) (va_in : va < 2 ^ 32)
    (pa_aligned : pa % 4096 ≡ 0) (pa_in : pa < 2 ^ 32) where
  enter-IsSpace :
      (o : Vmm × Option ℕ) → Opens v dir (dir_idx va) o → IsSpace (enter o va pa user rw_) dir
  unfolding enter
  enter-IsSpace o (no_frame v' s' e) = s'
  enter-IsSpace o (opened v' t s' there at same) = rw (sym at) (
      written-IsSpace v' dir va (bit_or (frame pa) (page_flags user rw_)) s' va_in
        (mapped_entry pa va user rw_ pa_aligned pa_in).0 there)

  module _ (va_aligned : va % 4096 ≡ 0) where
    -- `map_page_in_space` of an aligned page keeps an address space well-formed, also where it has
    -- to take a frame for a new table: the directory and its tables stay distinct frames that the
    -- physical memory manager counts as used.
    pub map_page_in_space-IsSpace : IsSpace (map_page_in_space v dir va pa user rw_) dir
    map_page_in_space-IsSpace =
        rw (map-enter v dir va pa user rw_ s.not_null va_aligned va_in pa_aligned) (
          enter-IsSpace (open_table v dir (dir_idx va) user)
            (open_table-Opens v dir (dir_idx va) user s (omega arith)))

resolve_zero : (wa : ℕ) → resolve 0 wa ≡ 0
unfolding resolve
resolve_zero wa = rw absent_zero refl

-- Without a table nothing is mapped.
no_table :
    (v : Vmm) (dir va wa : ℕ)
    → IsSpace v dir
    → wa < 2 ^ 32
    → present (v.memory (slot dir (dir_idx va))) ≡ false
    → get_physical_address v dir wa
      ≡ (if va / 4096 == wa / 4096 then 0 else get_physical_address v dir wa)
unfolding page
no_table v dir va wa s k f = elim (Bool-cases (va / 4096 == wa / 4096)) [
  | inl here ↦
      let same : dir_idx va ≡ dir_idx wa = ground (arith, here) in
      rw here
        (get_physical_address-resolve v dir wa s.not_null k ∙ rw (sym same, f) (resolve_zero wa))
  | inr away ↦ rw away refl
]

-- In a well-formed address space, `unmap_page` of an aligned address keeps the space well-formed,
-- makes the addresses of that page translate to nothing, and leaves the translation of all others
-- as it was.
pub unmap_page_lem :
    (v : Vmm) (dir va wa : ℕ)
    → IsSpace v dir
    → va % 4096 ≡ 0
    → va < 2 ^ 32
    → wa < 2 ^ 32
    → IsSpace (unmap_page v dir va) dir
      × (get_physical_address (unmap_page v dir va) dir wa
          ≡ (if va / 4096 == wa / 4096 then 0 else get_physical_address v dir wa))
unfolding unmap_page
unmap_page_lem v dir va wa s a h k =
    let some_dir : (dir == 0) ≡ false = ground (arith, s.not_null) in
    let low : leb 1024 (dir_idx va) ≡ false = ground arith in
    elim (Bool-cases (present (v.memory (slot dir (dir_idx va))))) [
      | inl there ↦
          rw (some_dir, aligned_offset va a, low, there)
            (
              written-IsSpace v dir va 0 s h (omega arith) there,
              get-written v dir va 0 s h (omega arith) there wa k
                  ∙ ap (λ p. if va / 4096 == wa / 4096 then p else get_physical_address v dir wa)
                      (resolve_zero wa),
            )
      | inr none_there ↦
          rw (some_dir, aligned_offset va a, low, none_there)
            (s, no_table v dir va wa s k none_there)
    ]

-- `allocate_page` at an address that is not that of a page takes a frame, returns it, and maps
-- nothing.
pub allocate_page_lost :
    (v : Vmm) (dir va : ℕ) (user rw_ : Bool)
    → dir ≢ 0
    → va % 4096 ≢ 0
    → (allocate_block v.pmm).1 ≢ 0
    → allocate_page v dir va user rw_
      ≡ (record v { pmm = (allocate_block v.pmm).0 }, (allocate_block v.pmm).1)
unfolding allocate_page map_page_in_space page_offset
allocate_page_lost v dir va user rw_ n a t =
    let some_dir : (dir == 0) ≡ false = ground (arith, n) in
    let some_frame : ((allocate_block v.pmm).1 == 0) ≡ false = ground (arith, t) in
    let off : (bit_and va 0xfff == 0) ≡ false = ground (arith, a, bit_and_0xfff va) in
    rw (some_dir, some_frame, off) refl
