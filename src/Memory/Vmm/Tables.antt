-- ===== src/Memory/Vmm/Tables.antt =====
-- Page directories and page tables of kernel/memory/vmm.cpp as they lie in memory: what a write to
-- one of them changes.
use mesa_os.Prelude.Bits.Fields.{bit_and_1, bit_and_0x3ff, frame_lem}
use mesa_os.Prelude.{
  ℕ, ◌+◌, ◌-◌, ◌/◌, ◌%◌, ◌^◌, ◌<◌, ◌≡◌, ◌≢◌, refl, sym, true, false, ◌&&◌, arith, ltb, leb, ◌==◌,
  if◌then◌else◌, update, Bool-cases, ==_iff, inl, inr,
}
use mesa_os.Memory.Vmm.{present, frame, table_idx, slot, clear_page}

pub present_lem : (e : ℕ) → present e ≡ (e % 2 == 1)
unfolding present
present_lem e = ground (arith, bit_and_1 e)

pub frame-eq : (e : ℕ) → e < 2 ^ 32 → frame e ≡ e - e % 4096
unfolding frame
frame-eq e h = frame_lem e h

pub table_idx-lt : (a : ℕ) → table_idx a < 1024
unfolding table_idx
table_idx-lt a = omega (arith, bit_and_0x3ff (a / 2 ^ 12))

-- Two frames that differ do not overlap.
pub slot_ne :
    (p q i k : ℕ) → p % 4096 ≡ 0 → q % 4096 ≡ 0 → p ≢ q → i < 1024 → k < 1024 → slot p i ≢ slot q k
slot_ne p q i k a b n h l = λ e. absurd (n (omega arith))

pub clear_page-outside :
    (m : ℕ → ℕ) (p q i : ℕ)
    → p % 4096 ≡ 0
    → q % 4096 ≡ 0
    → p ≢ q
    → i < 1024
    → clear_page m q (slot p i) ≡ m (slot p i)
unfolding clear_page
clear_page-outside m p q i a b n h =
    let out : (leb q (slot p i) && ltb (slot p i) (q + 4096)) ≡ false = ground arith in rw out refl

pub clear_page-inside : (m : ℕ → ℕ) (q i : ℕ) → i < 1024 → clear_page m q (slot q i) ≡ 0
unfolding clear_page
clear_page-inside m q i h =
    let inside : (leb q (slot q i) && ltb (slot q i) (q + 4096)) ≡ true = ground arith in
    rw inside refl

-- A directory with its tables: words of 32 bits, and every table a frame of its own.
pub record IsLayout (m : ℕ → ℕ) (dir : ℕ) : Type 0 where
  pub words : (a : ℕ) → m a < 2 ^ 32
  pub aligned : dir % 4096 ≡ 0
  pub apart : (i : ℕ) → i < 1024 → present (m (slot dir i)) ≡ true → frame (m (slot dir i)) ≢ dir
  pub distinct :
      (i j : ℕ)
      → i < 1024
      → j < 1024
      → i ≢ j
      → present (m (slot dir i)) ≡ true
      → present (m (slot dir j)) ≡ true
      → frame (m (slot dir i)) ≢ frame (m (slot dir j))

-- The entry for a page, 0 where there is no table.
unfoldable pub page : (ℕ → ℕ) → ℕ → ℕ → ℕ → ℕ
page m dir i k = if present (m (slot dir i)) then m (slot (frame (m (slot dir i))) k) else 0

pub frame-aligned : (e : ℕ) → e < 2 ^ 32 → frame e % 4096 ≡ 0
frame-aligned e h = omega (arith, frame-eq e h)

-- A write to an entry of the table at index `i`.
module _ (m : ℕ → ℕ) (dir i k w : ℕ) (s : IsLayout m dir) (i_in : i < 1024) (k_in : k < 1024)
    (there : present (m (slot dir i)) ≡ true) (w_in : w < 2 ^ 32) where
  abbrev table : ℕ
  table = frame (m (slot dir i))

  abbrev after : ℕ → ℕ
  after = update m (slot table k) w

  pub write-entry : (j : ℕ) → j < 1024 → after (slot dir j) ≡ m (slot dir j)
  write-entry j h = ground (
    arith,
    slot_ne table dir k j (frame-aligned _ (s.words _)) s.aligned (s.apart i i_in there) k_in h,
  )

  pub write-IsLayout : IsLayout after dir
  write-IsLayout = record {
    words = λ a. ground (arith, s.words a);
    aligned = s.aligned;
    apart = λ j h. rw (write-entry j h) (s.apart j h);
    distinct = λ j l h q. rw (write-entry j h, write-entry l q) (s.distinct j l h q);
  }

  -- The entry that is read in the same table, and in another one.
  same_table : (l : ℕ) → after (slot table l) ≡ (if k == l then w else m (slot table l))
  same_table l = elim (Bool-cases (k == l)) [
    | inl here ↦ let e : k ≡ l = (==_iff k l).0 here in rw (here, e) (ground arith)
    | inr away ↦ let off : slot table k ≢ slot table l = ground (arith, away) in ground (arith, off)
  ]

  other_table :
      (j l : ℕ)
      → j < 1024
      → l < 1024
      → i ≢ j
      → present (m (slot dir j)) ≡ true
      → after (slot (frame (m (slot dir j))) l) ≡ m (slot (frame (m (slot dir j))) l)
  other_table j l h q ne t =
      let off =
        slot_ne table (frame (m (slot dir j))) k l (frame-aligned _ (s.words _))
          (frame-aligned _ (s.words _)) (s.distinct i j i_in h ne there t) k_in q in
      ground (arith, off)

  pub write-page :
      (j l : ℕ)
      → j < 1024
      → l < 1024
      → page after dir j l ≡ (if i == j && k == l then w else page m dir j l)
  unfolding page
  write-page j l h q = rw (write-entry j h) (elim (Bool-cases (i == j)) [
    | inl here ↦ let e : i ≡ j = (==_iff i j).0 here in rw (here, sym e, there) (same_table l)
    | inr away ↦ elim (Bool-cases (present (m (slot dir j)))) [
      | inl t ↦ rw (away, t) (other_table j l h q (ground (arith, away)) t)
      | inr f ↦ rw (away, f) refl
    ]
  ])
