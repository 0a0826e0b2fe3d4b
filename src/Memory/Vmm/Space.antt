-- ===== src/Memory/Vmm/Space.antt =====
-- Address spaces of kernel/memory/vmm.cpp whose frames the physical memory manager counts as used.
use mesa_os.Prelude.{
  ℕ, ◌+◌, ◌/◌, ◌%◌, ◌^◌, ◌≤◌, ◌<◌, ◌≡◌, ◌≢◌, refl, sym, ap, ◌∙◌, Bool, true, false, Option, none,
  some, bit_or, arith, ◌==◌, if◌then◌else◌, update, Bool-cases, inl, inr,
}
use mesa_os.Memory.Pmm.{Pmm, test_block, allocate_block}
use mesa_os.Memory.Pmm.Invariant.{IsCounted}
use mesa_os.Memory.Pmm.Allocate.{allocate_block_lem, allocate_block-IsCounted}
use mesa_os.Memory.Vmm.{Vmm, present, frame, slot, clear_page, user_flags, open_table}
use mesa_os.Memory.Vmm.Tables.{IsLayout, page}
use mesa_os.Memory.Vmm.Fresh.{added-there, added-IsLayout, added-page, frame-added}

-- The directory and its tables are frames that are used.
pub record IsSpace (v : Vmm) (dir : ℕ) : Type 0 where
  pub layout : IsLayout v.memory dir
  pub books : IsCounted v.pmm
  pub not_null : dir ≢ 0
  pub dir_used : test_block v.pmm (dir / 4096) ≡ true
  pub tables_used :
      (i : ℕ)
      → i < 1024
      → present (v.memory (slot dir i)) ≡ true
      → test_block v.pmm (frame (v.memory (slot dir i)) / 4096) ≡ true

-- A frame that the manager gives out was free, and is used from then on.
pub record IsGiven (p : Pmm) (t : ℕ) : Type 0 where
  pub aligned : t % 4096 ≡ 0
  pub inside : t + 4096 ≤ 2 ^ 32
  pub was_free : test_block p (t / 4096) ≡ false
  pub now_used :
      (c : ℕ) → test_block (allocate_block p).0 c ≡ (if t / 4096 == c then true else test_block p c)

pub allocate_block-IsGiven :
    (p : Pmm) → IsCounted p → (allocate_block p).1 ≢ 0 → IsGiven p (allocate_block p).1
allocate_block-IsGiven p c n = elim (allocate_block_lem p c.ready) [
  | inl (full, e) ↦ absurd (n (ap (λ r. r.1) e))
  | inr (b, lt, f, least, at, used) ↦
      let place : (allocate_block p).1 / 4096 ≡ b = omega (arith, at) in
      record {
        aligned = omega (arith, at);
        inside = omega (arith, at, lt, c.ready.small);
        was_free = rw place f;
        now_used = λ d. rw place (used d);
      }
]

-- Used frames stay used.
pub used-allocate_block :
    (p : Pmm) (c : ℕ)
    → IsCounted p
    → test_block p c ≡ true
    → test_block (allocate_block p).0 c ≡ true
used-allocate_block p c k u = elim (allocate_block_lem p k.ready) [
  | inl (full, e) ↦ rw e u
  | inr (b, lt, f, least, at, used) ↦ used c ∙ ground (arith, u)
]

allocated-IsSpace :
    (v : Vmm) (dir : ℕ) → IsSpace v dir → IsSpace (record v { pmm = (allocate_block v.pmm).0 }) dir
allocated-IsSpace v dir s = record {
  layout = s.layout;
  books = allocate_block-IsCounted v.pmm s.books;
  not_null = s.not_null;
  dir_used = used-allocate_block v.pmm _ s.books s.dir_used;
  tables_used = λ i h p. used-allocate_block v.pmm _ s.books (s.tables_used i h p);
}

-- What `open_table` has done, where it has a table and where it has none.
pub data Opens (v : Vmm) (dir i : ℕ) : Vmm × Option ℕ → Type 0 where
  no_frame : (v' : Vmm) → IsSpace v' dir → v'.memory ≡ v.memory → Opens v dir i (v', none)
  opened :
      (v' : Vmm) (t : ℕ)
      → IsSpace v' dir
      → present (v'.memory (slot dir i)) ≡ true
      → frame (v'.memory (slot dir i)) ≡ t
      → ((j k : ℕ) → j < 1024 → k < 1024 → page v'.memory dir j k ≡ page v.memory dir j k)
      → Opens v dir i (v', some t)

-- A used frame is none that was free.
used_ne_free :
    (p : Pmm) (q t : ℕ) → test_block p (q / 4096) ≡ true → test_block p (t / 4096) ≡ false → q ≢ t
used_ne_free p q t u f e =
    let same : test_block p (q / 4096) ≡ test_block p (t / 4096) =
      ap (λ a. test_block p (a / 4096)) e in
    cc

module _ (v : Vmm) (dir i : ℕ) (user : Bool) (s : IsSpace v dir) (i_in : i < 1024)
    (absent : present (v.memory (slot dir i)) ≡ false) (n : (allocate_block v.pmm).1 ≢ 0) where
  abbrev t : ℕ
  t = (allocate_block v.pmm).1

  abbrev with_table : Vmm
  with_table = record v {
    pmm = (allocate_block v.pmm).0;
    memory = update (clear_page v.memory t) (slot dir i) (bit_or t (user_flags user));
  }

  given : IsGiven v.pmm t
  given = allocate_block-IsGiven v.pmm s.books n

  t_ne : t ≢ dir
  t_ne e = used_ne_free v.pmm dir t s.dir_used given.was_free (sym e)

  fresh :
      (j : ℕ)
      → j < 1024
      → present (v.memory (slot dir j)) ≡ true
      → frame (v.memory (slot dir j)) ≢ t
  fresh j h p = used_ne_free v.pmm _ t (s.tables_used j h p) given.was_free

  odd : user_flags user % 2 ≡ 1
  odd = ground arith

  small : user_flags user < 4096
  small = ground arith

  with_table-used :
      (j : ℕ)
      → j < 1024
      → present (with_table.memory (slot dir j)) ≡ true
      → test_block with_table.pmm (frame (with_table.memory (slot dir j)) / 4096) ≡ true
  with_table-used j h p =
      let (e, old) =
        frame-added v.memory dir t i (user_flags user) s.layout given.aligned given.inside t_ne
          fresh i_in absent odd small j h p in
      elim (Bool-cases (i == j)) [
        | inl here ↦
            ap (λ q. test_block with_table.pmm (q / 4096)) (e ∙ rw here refl)
            ∙ given.now_used (t / 4096)
            ∙ ground arith
        | inr away ↦
            ap (λ q. test_block with_table.pmm (q / 4096)) (e ∙ rw away refl)
            ∙ used-allocate_block v.pmm _ s.books (s.tables_used j h (old away))
      ]

  with_table-IsSpace : IsSpace with_table dir
  with_table-IsSpace = record {
    layout =
        added-IsLayout v.memory dir t i (user_flags user) s.layout given.aligned given.inside t_ne
          fresh i_in absent odd small;
    books = allocate_block-IsCounted v.pmm s.books;
    not_null = s.not_null;
    dir_used = used-allocate_block v.pmm _ s.books s.dir_used;
    tables_used = with_table-used;
  }

  new_table : Opens v dir i (with_table, some t)
  new_table =
      let (there, at) =
        added-there v.memory dir t i (user_flags user) s.layout given.aligned given.inside t_ne
          fresh i_in absent odd small in
      opened with_table t with_table-IsSpace there at (
        added-page v.memory dir t i (user_flags user) s.layout given.aligned given.inside t_ne fresh
          i_in absent odd small)

pub open_table-Opens :
    (v : Vmm) (dir i : ℕ) (user : Bool)
    → IsSpace v dir
    → i < 1024
    → Opens v dir i (open_table v dir i user)
unfolding open_table
open_table-Opens v dir i user s h = elim (Bool-cases (present (v.memory (slot dir i)))) [
  | inl there ↦ rw there (opened v _ s there refl (λ j k a b. refl))
  | inr absent ↦ elim (Bool-cases ((allocate_block v.pmm).1 == 0)) [
    | inl null ↦
        rw (absent, null)
          (no_frame (record v { pmm = (allocate_block v.pmm).0 }) (allocated-IsSpace v dir s) refl)
    | inr some_frame ↦
        rw (absent, some_frame) (new_table v dir i user s h absent (ground (arith, some_frame)))
  ]
]
