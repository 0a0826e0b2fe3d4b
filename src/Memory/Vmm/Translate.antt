-- ===== src/Memory/Vmm/Translate.antt =====
-- Address translation in kernel/memory/vmm.cpp: what mapping and unmapping a page change of it.
use mesa_os.Prelude.Bits.{bit_not}
use mesa_os.Prelude.Bits.Fields.{bit_and_0x3ff, bit_and_0xfff, bit_or_page}
use mesa_os.Prelude.{
  ℕ, ◌+◌, ◌/◌, ◌%◌, ◌^◌, ◌<◌, ◌≡◌, ◌≢◌, refl, sym, ap, ◌∙◌, Bool, true, false, ◌&&◌, bit_or, arith,
  leb, ◌==◌, if◌then◌else◌, update, Bool-cases, inl, inr,
}
use mesa_os.Memory.Vmm.{
  Vmm, present, frame, slot, dir_idx, table_idx, page_offset, page_flags, get_physical_address,
}
use mesa_os.Memory.Vmm.Tables.{
  present_lem, frame-eq, table_idx-lt, page, write-entry, write-IsLayout, write-page,
}
use mesa_os.Memory.Vmm.Space.{IsSpace}

-- A page entry as the physical address of a virtual one, 0 if it is not present.
unfoldable pub resolve : ℕ → ℕ → ℕ
resolve e addr = if present e then bit_or (frame e) (page_offset addr) else 0

not_zero : (n : ℕ) → n ≢ 0 → (n == 0) ≡ false
not_zero n h = ground (arith, h)

pub absent_zero : present 0 ≡ false
absent_zero = present_lem 0

pub get_physical_address-resolve :
    (v : Vmm) (dir addr : ℕ)
    → dir ≢ 0
    → addr < 2 ^ 32
    → get_physical_address v dir addr
      ≡ resolve (page v.memory dir (dir_idx addr) (table_idx addr)) addr
unfolding get_physical_address resolve page
get_physical_address-resolve v dir addr n h =
    let here = not_zero dir n in
    let low : leb 1024 (dir_idx addr) ≡ false = ground arith in
    elim (Bool-cases (present (v.memory (slot dir (dir_idx addr))))) [
      | inl p ↦ rw (here, low, p) refl
      | inr p ↦ rw (here, low, p, absent_zero) refl
    ]

-- The two indices are the number of the page.
same_page :
    (va wa : ℕ)
    → (dir_idx va == dir_idx wa && table_idx va == table_idx wa) ≡ (va / 4096 == wa / 4096)
unfolding table_idx
same_page va wa = ground (arith, bit_and_0x3ff (va / 2 ^ 12), bit_and_0x3ff (wa / 2 ^ 12))

flags_lem : (user rw_ : Bool) → (page_flags user rw_ % 2 ≡ 1) × (page_flags user rw_ < 4096)
unfolding page_flags bit_not
flags_lem true true = (refl, omega arith)
flags_lem true false = (refl, omega arith)
flags_lem false true = (refl, omega arith)
flags_lem false false = (refl, omega arith)

-- The entry that `map_page_in_space` writes.
pub mapped_entry :
    (pa wa : ℕ) (user rw_ : Bool)
    → pa % 4096 ≡ 0
    → pa < 2 ^ 32
    → (bit_or (frame pa) (page_flags user rw_) < 2 ^ 32)
      × (resolve (bit_or (frame pa) (page_flags user rw_)) wa ≡ pa + wa % 4096)
unfolding resolve page_offset
mapped_entry pa wa user rw_ a h =
    let (odd, small) = flags_lem user rw_ in
    let at : frame pa ≡ pa = frame-eq pa h ∙ omega arith in
    let e : bit_or (frame pa) (page_flags user rw_) ≡ pa + page_flags user rw_ =
      ap (λ p. bit_or p (page_flags user rw_)) at ∙ bit_or_page pa (page_flags user rw_) a small in
    let there : present (pa + page_flags user rw_) ≡ true = present_lem _ ∙ ground arith in
    let back : frame (pa + page_flags user rw_) ≡ pa = frame-eq _ (omega arith) ∙ omega arith in
    (
      omega (arith, e),
      rw (e, there, back)
          (ap (bit_or pa) (bit_and_0xfff wa) ∙ bit_or_page pa (wa % 4096) a (omega arith)),
    )

-- The translation of `wa` after a write of `e` to the entry for `va`.
module _ (v : Vmm) (dir va e : ℕ) (s : IsSpace v dir) (va_in : va < 2 ^ 32) (e_in : e < 2 ^ 32)
    (there : present (v.memory (slot dir (dir_idx va))) ≡ true) where
  abbrev written : Vmm
  written = record v {
    memory = update v.memory (slot (frame (v.memory (slot dir (dir_idx va)))) (table_idx va)) e;
  }

  in_directory : (a : ℕ) → a < 2 ^ 32 → dir_idx a < 1024
  in_directory a h = omega arith

  pub written-IsSpace : IsSpace written dir
  written-IsSpace =
      let keeps =
        write-entry v.memory dir (dir_idx va) (table_idx va) e s.layout (in_directory va va_in)
          (table_idx-lt va) there e_in in
      record {
        layout =
            write-IsLayout v.memory dir (dir_idx va) (table_idx va) e s.layout
              (in_directory va va_in) (table_idx-lt va) there e_in;
        books = s.books;
        not_null = s.not_null;
        dir_used = s.dir_used;
        tables_used = λ j h. rw (keeps j h) (s.tables_used j h);
      }

  pub get-written :
      (wa : ℕ)
      → wa < 2 ^ 32
      → get_physical_address written dir wa
        ≡ (if va / 4096 == wa / 4096 then resolve e wa else get_physical_address v dir wa)
  get-written wa h =
      let change =
        write-page v.memory dir (dir_idx va) (table_idx va) e s.layout (in_directory va va_in)
          (table_idx-lt va) there e_in (dir_idx wa) (table_idx wa) (in_directory wa h)
          (table_idx-lt wa) in
      get_physical_address-resolve written dir wa s.not_null h
      ∙ ap (λ p. resolve p wa)
          (change
            ∙ ap (λ b. if b then e else page v.memory dir (dir_idx wa) (table_idx wa))
                (same_page va wa))
      ∙ elim (Bool-cases (va / 4096 == wa / 4096)) [
        | inl here ↦ rw here refl
        | inr away ↦ rw away (sym (get_physical_address-resolve v dir wa s.not_null h))
      ]
