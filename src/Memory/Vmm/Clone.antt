-- ===== src/Memory/Vmm/Clone.antt =====
-- Copy on write in kernel/memory/vmm.cpp: the tables of a cloned address space.
use mesa_os.Prelude.Bits.{bit, bit_not, bit-bit_and, bit-bit_or, bit-lt}
use mesa_os.Prelude.Bits.Fields.{bit_and_0xfff, bit_and-bit_not, bit_or-lt, bit_or_page}
use mesa_os.Prelude.{
  ℕ, zero, suc, ◌+◌, ◌%◌, ◌^◌, ◌≤◌, ◌<◌, ◌≡◌, ◌≢◌, refl, sym, ap, ◌∙◌, ◌&&◌, bit_and, min, max,
  bit_or, arith, ltb, leb, ◌==◌, if◌then◌else◌, update, Bool-cases, ==_iff, inl, inr,
}
use mesa_os.Memory.Vmm.{present, frame, slot, cow_entry, clone_table}
use mesa_os.Memory.Vmm.Tables.{present_lem, frame-eq, frame-aligned, slot_ne}

-- The flags of an entry of a clone.
abbrev cow_flags : ℕ → ℕ
cow_flags e = bit_or (bit_and (bit_and e 0xfff) (bit_not 32 2)) (2 ^ 9)

cow_flags-lt : (e : ℕ) → cow_flags e < 2 ^ 12
cow_flags-lt e =
    bit_or-lt 12 (bit_and (bit_and e 0xfff) (bit_not 32 2)) (2 ^ 9)
      (omega (
        arith,
        bit_and_0xfff e,
        bit_and-bit_not 32 (bit_and e 0xfff) 2 (omega (arith, bit_and_0xfff e)) (omega arith),
      ))
      (omega arith)

flag_bit :
    (i e : ℕ)
    → bit i (cow_flags e)
      ≡ max (min (min (bit i e) (bit i 0xfff)) (bit i (bit_not 32 2))) (bit i (2 ^ 9))
flag_bit i e =
    bit-bit_or i (bit_and (bit_and e 0xfff) (bit_not 32 2)) (2 ^ 9)
    ∙ ap (λ b. max b (bit i (2 ^ 9)))
        (bit-bit_and i (bit_and e 0xfff) (bit_not 32 2)
          ∙ ap (λ b. min b (bit i (bit_not 32 2))) (bit-bit_and i e 0xfff))

low_flags :
    (e : ℕ) → (cow_flags e % 2 ≡ e % 2) × (bit 1 (cow_flags e) ≡ 0) × (bit 9 (cow_flags e) ≡ 1)
unfolding bit bit_not
low_flags e = (
  omega (arith, flag_bit 0 e),
  omega (arith, flag_bit 1 e, bit-lt 1 e),
  omega (arith, flag_bit 9 e, bit-lt 9 e),
)

-- The entry of a clone names the frame of the source and is present exactly if the source is; it
-- is not writable, and its bit for copy on write is set.
pub cow_entry_lem :
    (e : ℕ)
    → e < 2 ^ 32
    → (frame (cow_entry e) ≡ frame e)
      × (present (cow_entry e) ≡ present e)
      × (bit 1 (cow_entry e) ≡ 0)
      × (bit 9 (cow_entry e) ≡ 1)
unfolding cow_entry bit
cow_entry_lem e h =
    let sum : cow_entry e ≡ frame e + cow_flags e =
      bit_or_page (frame e) (cow_flags e) (frame-aligned e h) (cow_flags-lt e) in
    let at = frame-aligned e h in
    let le = frame-eq e h in
    let small = cow_flags-lt e in
    let (odd, read_only, marked) = low_flags e in
    (
      frame-eq (cow_entry e) (omega (arith, sum, at, le, small)) ∙ omega (arith, sum, at, small),
      present_lem (cow_entry e)
          ∙ ap (λ b. b == 1) (omega (arith, sum, at, odd))
          ∙ sym (present_lem e),
      omega (arith, sum, at, read_only),
      omega (arith, sum, at, marked),
    )

-- One round of the loop, at the entries with index `k`.
one_entry :
    (m : ℕ → ℕ) (src dst j k : ℕ)
    → src % 4096 ≡ 0
    → dst % 4096 ≡ 0
    → src ≢ dst
    → j < 1024
    → k < 1024
    → let m' =
        if present (m (slot src j))
        then update m (slot dst j) (cow_entry (m (slot src j)))
        else m in
      (m' (slot src k) ≡ m (slot src k))
      × (m' (slot dst k) ≡ (
          if j == k && present (m (slot src j))
          then cow_entry (m (slot src j))
          else m (slot dst k)))
one_entry m src dst j k a b ne h q =
    let off = slot_ne dst src j k b a (λ e. ne (sym e)) h q in
    elim (Bool-cases (present (m (slot src j)))) [
      | inl p ↦ rw p (ground (arith, off), ground arith)
      | inr p ↦ rw p (refl, ground arith)
    ]

-- The loop that clones a page table into another frame sets each entry in its range, where the
-- entry of the source is present, to the read-only copy that is marked for copy on write, and
-- leaves each other entry of the clone as it was.
pub clone_table_lem :
    (m : ℕ → ℕ) (src dst j n k : ℕ)
    → src % 4096 ≡ 0
    → dst % 4096 ≡ 0
    → src ≢ dst
    → j + n ≤ 1024
    → k < 1024
    → clone_table m src dst j n (slot dst k) ≡ (
        if leb j k && ltb k (j + n) && present (m (slot src k))
        then cow_entry (m (slot src k))
        else m (slot dst k))
unfolding clone_table
clone_table_lem m src dst j zero k a b ne h q = ground arith
clone_table_lem m src dst j (suc n) k a b ne h q =
    let (src_same, dst_new) = one_entry m src dst j k a b ne (omega arith) q in
    let rest =
      clone_table_lem
        (if present (m (slot src j)) then update m (slot dst j) (cow_entry (m (slot src j))) else m)
        src dst (j + 1) n k a b ne (omega arith) q in
    rest
    ∙ rw (src_same, dst_new)
        (elim (Bool-cases (j == k)) [
          | inl here ↦ let e : j ≡ k = (==_iff j k).0 here in rw (sym e) (ground arith)
          | inr away ↦ ground (arith, away)
        ])
