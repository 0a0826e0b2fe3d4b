-- ===== src/Fs/Mesafs/Create.antt =====
-- New files of kernel/fs/mesafs.cpp are found by their names.
use mesa_os.Prelude.{
  ℕ, zero, suc, ◌+◌, ◌*◌, ◌≤◌, ◌<◌, ◌≡◌, ◌≢◌, refl, sym, ap, ap₂, ◌∙◌, true, false, ◌&&◌, none,
  some, List, length, arith, ltb, ◌==◌, if◌then◌else◌, update, Bool-cases, if_true, if_false, inl,
  inr, ==_iff,
}
use mesa_os.Fs.Ramfs.{same_name}
use mesa_os.Fs.Ramfs.Names.{same_name_refl, same_name_ne}
use mesa_os.Fs.Mesafs.Metadata.{MesaFs, MesaFsEntry}
use mesa_os.Fs.Mesafs.{
  node_of, find_from, finddir, free_entry, new_entry, new_node, enter, enter_file, create_file,
  place_file,
}
use mesa_os.Fs.Mesafs.Files.{save_metadata_lem}

-- The search finds the first entry that is free.
free_entry-first :
    (f : MesaFs) (i n k : ℕ)
    → (f.entries i).present ≡ false
    → ((j : ℕ) → j < i → (f.entries j).present ≡ true)
    → k ≤ i
    → i < k + n
    → free_entry f k n ≡ some i
unfolding free_entry
free_entry-first f i zero k free used lo hi = absurd (omega (arith, lo, hi))
free_entry-first f i (suc n) k free used lo hi = elim (Bool-cases (k == i)) [
  | inl here ↦ let place : k ≡ i = (==_iff k i).0 here in rw (place, free) refl
  | inr away ↦
      let below : k < i = ground (arith, lo, away) in
      rw (used k below) (free_entry-first f i n (k + 1) free used (omega arith) (omega arith))
]

-- Where no entry has the name, `finddir` finds none.
find_from-missing :
    (f : MesaFs) (name : List ℕ) (n k : ℕ)
    → ((j : ℕ) → j < k + n → (f.entries j).present ≡ true → (f.entries j).name ≢ name)
    → find_from f name k n ≡ none
unfolding find_from
find_from-missing f name zero k all = refl
find_from-missing f name (suc n) k all =
    let rest = find_from-missing f name n (k + 1) (λ j h. all j (omega arith)) in
    elim (Bool-cases (f.entries k).present) [
      | inl used ↦
          let miss = same_name_ne (f.entries k).name name (all k (omega arith) used) in
          rw (used, miss) rest
      | inr free ↦ rw free rest
    ]

-- The loop of `finddir` over a table with a new entry at `i`.
find_from-new :
    (f g : MesaFs) (name : List ℕ) (i : ℕ) (e : MesaFsEntry) (n k : ℕ)
    → g.entries ≡ update f.entries i e
    → e.present ≡ true
    → e.name ≡ name
    → k ≤ i
    → i < k + n
    → find_from f name k n ≡ none
    → find_from g name k n ≡ some (node_of e i)
unfolding find_from
find_from-new f g name i e zero k same there named lo hi missing = absurd (omega (arith, lo, hi))
find_from-new f g name i e (suc n) k same there named lo hi missing = elim (Bool-cases (i == k)) [
  | inl at ↦
      let entry : g.entries k ≡ e = ap (λ (h : ℕ → MesaFsEntry). h k) same ∙ if_true _ _ at in
      let hit : ((g.entries k).present && same_name (g.entries k).name name) ≡ true =
        rw (entry, there, named) (same_name_refl name) in
      let place : k ≡ i = ground (arith, at) in
      if_true _ _ hit ∙ ap₂ (λ (x : MesaFsEntry) (j : ℕ). some (node_of x j)) entry place
  | inr at ↦
      let entry : g.entries k ≡ f.entries k =
        ap (λ (h : ℕ → MesaFsEntry). h k) same ∙ if_false _ _ at in
      elim (Bool-cases ((f.entries k).present && same_name (f.entries k).name name)) [
        | inl hit ↦
            let found : some (node_of (f.entries k) k) ≡ none = sym (if_true _ _ hit) ∙ missing in
            cc
        | inr miss ↦
            let miss' : ((g.entries k).present && same_name (g.entries k).name name) ≡ false =
              ap (λ (x : MesaFsEntry). x.present && same_name x.name name) entry ∙ miss in
            if_false _ _ miss'
            ∙ find_from-new f g name i e n (k + 1) same there named (ground (arith, lo, at))
                (omega (arith, hi)) (sym (if_false _ _ miss) ∙ missing)
      ]
]

-- A new entry does not change what `finddir` finds under other names.
find_from-other :
    (f g : MesaFs) (name other : List ℕ) (i : ℕ) (e : MesaFsEntry) (n k : ℕ)
    → g.entries ≡ update f.entries i e
    → e.name ≡ name
    → (f.entries i).present ≡ false
    → name ≢ other
    → find_from g other k n ≡ find_from f other k n
unfolding find_from
find_from-other f g name other i e zero k same named free ne = refl
find_from-other f g name other i e (suc n) k same named free ne =
    let rest = find_from-other f g name other i e n (k + 1) same named free ne in
    elim (Bool-cases (i == k)) [
      | inl at ↦
          let place : i ≡ k = (==_iff i k).0 at in
          let entry : g.entries k ≡ e = ap (λ (h : ℕ → MesaFsEntry). h k) same ∙ if_true _ _ at in
          let old : ((f.entries k).present && same_name (f.entries k).name other) ≡ false =
            rw (← place, free) refl in
          let new : ((g.entries k).present && same_name (g.entries k).name other) ≡ false =
            rw (entry, named, same_name_ne name other ne) (ground arith) in
          if_false _ _ new ∙ rest ∙ sym (if_false _ _ old)
      | inr away ↦
          let entry : g.entries k ≡ f.entries k =
            ap (λ (h : ℕ → MesaFsEntry). h k) same ∙ if_false _ _ away in
          rw (entry, rest) refl
    ]

-- The file system that `create_file` has made before it saves the metadata.
abbrev pub entered : MesaFs → List ℕ → ℕ → ℕ → ℕ → ℕ → MesaFs
entered f name i uid gid mode = record f {
  entries = update f.entries i (new_entry (f.entries i) name (100 + i * 10) 1 uid gid mode);
  metadata_valid = true;
}

enter_file_lem :
    (f : MesaFs) (name : List ℕ) (i uid gid mode : ℕ)
    → enter_file f name i uid gid mode
      ≡ (if ltb (length name) 64 then some (entered f name i uid gid mode) else none)
unfolding enter_file enter
enter_file_lem f name i uid gid mode = elim (Bool-cases (ltb (length name) 64)) [
  | inl fits ↦ rw (fits, enter_file, enter) refl
  | inr long ↦ rw (long, enter_file, enter) refl
]

-- With a free entry `create_file` does not come to its end: it copies a name that is too long past
-- the end of its field, or else the table past the end of the buffer.
create_file-overruns :
    (unset : ℕ → ℕ) (f : MesaFs) (name : List ℕ) (uid gid mode i : ℕ)
    → free_entry f 0 8 ≡ some i
    → create_file unset f name uid gid mode ≡ none
unfolding create_file place_file
create_file-overruns unset f name uid gid mode i free =
    let saved = save_metadata_lem unset (entered f name i uid gid mode) in
    let filled = enter_file_lem f name i uid gid mode in
    elim (Bool-cases (ltb (length name) 64)) [
      | inl fits ↦ rw (free, place_file, filled, fits, saved) refl
      | inr long ↦ rw (free, place_file, filled, long) refl
    ]

-- Let `i` be the first of the eight entries that is free, and let none of them that is present have
-- the name, of fewer than 64 characters. What `create_file` does before it saves the metadata fills in
-- that entry: `finddir` then finds under the name a file with the number of the entry and the given
-- owner, group and mode, and under every other name what it found before. `create_file` itself does
-- not return it, as `save_metadata` then copies past the end of its buffer.
pub finddir-create_file :
    (unset : ℕ → ℕ) (f : MesaFs) (name other : List ℕ) (uid gid mode i : ℕ)
    → i < 8
    → (f.entries i).present ≡ false
    → ((j : ℕ) → j < i → (f.entries j).present ≡ true)
    → ((j : ℕ) → j < 8 → (f.entries j).present ≡ true → (f.entries j).name ≢ name)
    → length name < 64
    → name ≢ other
    → (g : MesaFs) × (free_entry f 0 8 ≡ some i)
      × (enter_file f name i uid gid mode ≡ some g)
      × (finddir g name ≡ some (new_node name i false uid gid mode))
      × (finddir g other ≡ finddir f other)
      × (create_file unset f name uid gid mode ≡ none)
unfolding new_entry new_node node_of
finddir-create_file unset f name other uid gid mode i hi free used missing short ne =
    let e = new_entry (f.entries i) name (100 + i * 10) 1 uid gid mode in
    let g = entered f name i uid gid mode in
    let first = free_entry-first f i 8 0 free used (omega arith) (omega (arith, hi)) in
    let fits : ltb (length name) 64 ≡ true = ground (arith, short) in
    (
      g,
      first,
      enter_file_lem f name i uid gid mode ∙ if_true _ _ fits,
      find_from-new f g name i e 8 0 refl refl refl (omega arith) (omega (arith, hi))
          (find_from-missing f name 8 0 (λ j h. missing j (omega (arith, h)))),
      find_from-other f g name other i e 8 0 refl refl free ne,
      create_file-overruns unset f name uid gid mode i first,
    )
