-- ===== src/Fs/Ramfs/Names.antt =====
-- The comparison of names in kernel/fs/ramfs.cpp, and the search by it.
use mesa_os.Prelude.{
  ℕ, zero, suc, ◌+◌, ◌≤◌, ◌<◌, ◌≡◌, ◌≢◌, refl, sym, ap₂, ◌∙◌, true, false, none, some, List, [],
  ◌∷◌, ◌==◌, arith, Bool-cases, if_true, if_false, inl, inr, ==_iff, ==_refl,
}
use mesa_os.Fs.Ramfs.{Ramfs, same_name, index_from}

pub same_name_refl : (s : List ℕ) → same_name s s ≡ true
unfolding same_name
same_name_refl [] = refl
same_name_refl (c ∷ s) = rw (==_refl c) (same_name_refl s)

-- Names are taken for the same only if they are.
pub same_name_eq : (s t : List ℕ) → same_name s t ≡ true → s ≡ t
unfolding same_name
same_name_eq [] [] e = refl
same_name_eq [] (y ∷ t) e = cc
same_name_eq (x ∷ s) [] e = cc
same_name_eq (x ∷ s) (y ∷ t) e = elim (Bool-cases (x == y)) [
  | inl head ↦ ap₂ ◌∷◌ ((==_iff x y).0 head) (same_name_eq s t (rw head at e))
  | inr other ↦ let no_match : false ≡ true = rw other at e in cc
]

pub same_name_ne : (s t : List ℕ) → s ≢ t → same_name s t ≡ false
same_name_ne s t ne = elim (Bool-cases (same_name s t)) [
  | inl same ↦ absurd (ne (same_name_eq s t same))
  | inr other ↦ other
]

-- The search finds the first file with the name.
pub index_from-first :
    (f : Ramfs) (name : List ℕ) (i n k : ℕ)
    → (f.nodes (f.files i)).name ≡ name
    → ((j : ℕ) → j < i → (f.nodes (f.files j)).name ≢ name)
    → k ≤ i
    → i < k + n
    → index_from f name k n ≡ some i
unfolding index_from
index_from-first f name i zero k at before lo hi = absurd (omega (arith, lo, hi))
index_from-first f name i (suc n) k at before lo hi = elim (Bool-cases (k == i)) [
  | inl here ↦
      let place : k ≡ i = (==_iff k i).0 here in
      let hit : same_name name (f.nodes (f.files k)).name ≡ true =
        rw (place, at) (same_name_refl name) in
      if_true _ _ hit ∙ rw place refl
  | inr away ↦
      let below : k < i = ground (arith, lo, away) in
      let miss : same_name name (f.nodes (f.files k)).name ≡ false =
        same_name_ne name (f.nodes (f.files k)).name (λ e. before k below (sym e)) in
      if_false _ _ miss ∙ index_from-first f name i n (k + 1) at before (omega arith) (omega arith)
]

-- Where no file has the name, the search finds none.
pub index_from-missing :
    (f : Ramfs) (name : List ℕ) (n k : ℕ)
    → ((j : ℕ) → j < k + n → (f.nodes (f.files j)).name ≢ name)
    → index_from f name k n ≡ none
unfolding index_from
index_from-missing f name zero k all = refl
index_from-missing f name (suc n) k all =
    let miss : same_name name (f.nodes (f.files k)).name ≡ false =
      same_name_ne name (f.nodes (f.files k)).name (λ e. all k (omega arith) (sym e)) in
    if_false _ _ miss ∙ index_from-missing f name n (k + 1) (λ j h. all j (omega arith))
