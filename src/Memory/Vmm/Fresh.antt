-- ===== src/Memory/Vmm/Fresh.antt =====
-- A page table that kernel/memory/vmm.cpp adds to a directory.
use mesa_os.Prelude.{
  ℕ, ◌+◌, ◌%◌, ◌^◌, ◌≤◌, ◌<◌, ◌≡◌, ◌≢◌, refl, sym, ap, ◌∙◌, true, false, bit_or, arith, ◌==◌,
  if◌then◌else◌, update, Bool-cases, ==_iff, inl, inr,
}
use mesa_os.Prelude.Bits.Fields.{bit_or_page}
use mesa_os.Memory.Vmm.{present, frame, slot, clear_page}
use mesa_os.Memory.Vmm.Tables.{
  present_lem, frame-eq, slot_ne, clear_page-outside, clear_page-inside, IsLayout, page,
  frame-aligned,
}

-- The frame `t` is that of no table yet; `f` are the flags, bit 0 among them.
module _ (m : ℕ → ℕ) (dir t i f : ℕ) (s : IsLayout m dir) (t_aligned : t % 4096 ≡ 0)
    (t_in : t + 4096 ≤ 2 ^ 32) (t_ne : t ≢ dir)
    (fresh : (j : ℕ) → j < 1024 → present (m (slot dir j)) ≡ true → frame (m (slot dir j)) ≢ t)
    (i_in : i < 1024) (absent : present (m (slot dir i)) ≡ false) (f_odd : f % 2 ≡ 1)
    (f_in : f < 4096) where
  abbrev pub added : ℕ → ℕ
  added = update (clear_page m t) (slot dir i) (bit_or t f)

  fields : bit_or t f ≡ t + f
  fields = bit_or_page t f t_aligned f_in

  added-entry : (j : ℕ) → j < 1024 → added (slot dir j) ≡ (if i == j then t + f else m (slot dir j))
  added-entry j h =
      ground (arith, fields, clear_page-outside m dir t j s.aligned t_aligned (λ e. t_ne (sym e)) h)

  new_present : present (t + f) ≡ true
  new_present = present_lem (t + f) ∙ ground arith

  new_frame : frame (t + f) ≡ t
  new_frame = frame-eq (t + f) (omega arith) ∙ omega arith

  pub added-there : (present (added (slot dir i)) ≡ true) × (frame (added (slot dir i)) ≡ t)
  added-there =
      let e : added (slot dir i) ≡ t + f = added-entry i i_in ∙ ground arith in
      rw e (new_present, new_frame)

  -- An entry that is present afterwards is the new one or an old one.
  pub frame-added :
      (j : ℕ)
      → j < 1024
      → present (added (slot dir j)) ≡ true
      → (frame (added (slot dir j)) ≡ (if i == j then t else frame (m (slot dir j))))
        × ((i == j) ≡ false → present (m (slot dir j)) ≡ true)
  frame-added j h p = elim (Bool-cases (i == j)) [
    | inl here ↦
        let e : added (slot dir j) ≡ t + f = added-entry j h ∙ rw here refl in
        (rw (e, here) new_frame, λ q. cc)
    | inr away ↦
        let e : added (slot dir j) ≡ m (slot dir j) = added-entry j h ∙ rw away refl in
        (rw (e, away) refl, λ q. sym (ap present e) ∙ p)
  ]

  added-word : (a : ℕ) → added a < 2 ^ 32
  unfolding clear_page
  added-word a = ground (arith, fields, s.words a)

  added-apart :
      (j : ℕ) → j < 1024 → present (added (slot dir j)) ≡ true → frame (added (slot dir j)) ≢ dir
  added-apart j h p =
      let (e, old) = frame-added j h p in
      elim (Bool-cases (i == j)) [
        | inl here ↦ λ q. t_ne (sym (e ∙ rw here refl) ∙ q)
        | inr away ↦ λ q. s.apart j h (old away) (sym (e ∙ rw away refl) ∙ q)
      ]

  -- The frame of the new table is that of no other entry.
  new_distinct :
      (j l : ℕ)
      → l < 1024
      → (i == j) ≡ true
      → (i == l) ≡ false
      → frame (added (slot dir j)) ≡ (if i == j then t else frame (m (slot dir j)))
      → frame (added (slot dir l)) ≡ (if i == l then t else frame (m (slot dir l)))
      → present (m (slot dir l)) ≡ true
      → frame (added (slot dir j)) ≢ frame (added (slot dir l))
  new_distinct j l h a b d e p = λ q. fresh l h p (sym (e ∙ rw b refl) ∙ sym q ∙ d ∙ rw a refl)

  added-distinct :
      (j l : ℕ)
      → j < 1024
      → l < 1024
      → j ≢ l
      → present (added (slot dir j)) ≡ true
      → present (added (slot dir l)) ≡ true
      → frame (added (slot dir j)) ≢ frame (added (slot dir l))
  added-distinct j l h q ne p r =
      let (d, old_j) = frame-added j h p in
      let (e, old_l) = frame-added l q r in
      elim (Bool-cases (i == j)) [
        | inl a ↦ elim (Bool-cases (i == l)) [
          | inl b ↦ absurd (ne (ground (arith, a, b)))
          | inr b ↦ new_distinct j l q a b d e (old_l b)
        ]
        | inr a ↦ elim (Bool-cases (i == l)) [
          | inl b ↦ λ z. new_distinct l j h b a e d (old_j a) (sym z)
          | inr b ↦ λ z.
              s.distinct j l h q ne (old_j a) (old_l b) (sym (d ∙ rw a refl) ∙ z ∙ e ∙ rw b refl)
        ]
      ]

  pub added-IsLayout : IsLayout added dir
  added-IsLayout = record {
    words = added-word;
    aligned = s.aligned;
    apart = added-apart;
    distinct = added-distinct;
  }

  -- The places of a frame that is neither the directory nor the new table.
  old_place :
      (p k : ℕ) → p % 4096 ≡ 0 → p ≢ t → p ≢ dir → k < 1024 → added (slot p k) ≡ m (slot p k)
  old_place p k a n d h =
      let off = slot_ne dir p i k s.aligned a (λ e. d (sym e)) i_in h in
      ground (arith, off, clear_page-outside m p t k a t_aligned n h)

  new_place : (k : ℕ) → k < 1024 → added (slot t k) ≡ 0
  new_place k h =
      let off = slot_ne dir t i k s.aligned t_aligned (λ e. t_ne (sym e)) i_in h in
      ground (arith, off, clear_page-inside m t k h)

  pub added-page : (j k : ℕ) → j < 1024 → k < 1024 → page added dir j k ≡ page m dir j k
  unfolding page
  added-page j k h q = elim (Bool-cases (i == j)) [
    | inl here ↦
        let e : i ≡ j = (==_iff i j).0 here in
        rw (sym e, absent, added-there.0, added-there.1) (new_place k q)
    | inr away ↦
        let same : added (slot dir j) ≡ m (slot dir j) = added-entry j h ∙ rw away refl in
        rw same (elim (Bool-cases (present (m (slot dir j)))) [
          | inl p ↦ rw p (
              old_place (frame (m (slot dir j))) k (frame-aligned _ (s.words _)) (fresh j h p)
                (s.apart j h p) q)
          | inr p ↦ rw p refl
        ])
  ]
