-- ===== src/Fs/Vfs/Path.antt =====
-- The path lookup of kernel/fs/vfs.cpp on paths of names that fit.
use mesa_os.Prelude.{
  ℕ, zero, suc, ◌≤◌, ◌<◌, ◌≡◌, ◌≢◌, refl, ap, ◌∙◌, false, Option, none, some, List, [], ◌∷◌, ◌++◌,
  arith, ◌==◌, length, length-append, Option-cases, inl, inr,
}
use mesa_os.Fs.Ramfs.{same_name}
use mesa_os.Fs.Vfs.{slash, take_name, skip_slash, find_path, find_rest, find_path_fs}

abbrev pub NoSlash : List ℕ → Type 0
NoSlash [] = Unit {0}
NoSlash (c ∷ p) = (c ≢ slash) × NoSlash p

-- A name is not empty, has no slash and fits the buffer.
pub record IsName (n : List ℕ) : Type 0 where
  pub some_char : 0 < length n
  pub fits : length n ≤ 31
  pub plain : NoSlash n

abbrev pub AllNames : List (List ℕ) → Type 0
AllNames [] = Unit {0}
AllNames (n ∷ ns) = IsName n × AllNames ns

-- Each name with a slash before it.
abbrev pub join : List (List ℕ) → List ℕ
join [] = []
join (n ∷ ns) = slash ∷ n ++ join ns

take_name-join :
    (k : ℕ) (n : List ℕ) (ns : List (List ℕ))
    → length n ≤ k
    → NoSlash n
    → take_name k (n ++ join ns) ≡ (n, join ns)
unfolding take_name
take_name-join zero [] ns h q = refl
take_name-join zero (c ∷ n) ns h q = absurd (omega arith)
take_name-join (suc k) [] [] h q = refl
take_name-join (suc k) [] (n ∷ ns) h q = refl
take_name-join (suc k) (c ∷ n) ns h q =
    let other : (c == slash) ≡ false = ground (arith, q.0) in
    rw (other, take_name-join k n ns (omega arith) q.1)

name_taken :
    (c : ℕ) (n : List ℕ) (ns : List (List ℕ))
    → IsName (c ∷ n)
    → take_name 31 (skip_slash (c ∷ (n ++ join ns))) ≡ (c ∷ n, join ns)
unfolding skip_slash
name_taken c n ns q =
    let other : (c == slash) ≡ false = ground (arith, q.plain.0) in
    rw other (take_name-join 31 (c ∷ n) ns q.fits q.plain)

no_root : (c : ℕ) (p : List ℕ) → c ≢ slash → same_name (c ∷ p) (slash ∷ []) ≡ false
unfolding same_name
no_root c p h = let other : (c == slash) ≡ false = ground (arith, h) in rw other refl

module _ {N : Type 0} (finddir_fs : N → List ℕ → Option N) where
  -- The lookup name by name.
  pub walk : N → List (List ℕ) → Option N
  walk root [] = some root
  walk root (n ∷ ns) = elim (finddir_fs root n) [ none ↦ none | some next ↦ walk next ns ]

  find_path-step :
      (f : ℕ) (root : N) (c : ℕ) (p name rest : List ℕ)
      → take_name 31 (skip_slash (c ∷ p)) ≡ (name, rest)
      → same_name (c ∷ p) (slash ∷ []) ≡ false
      → find_path finddir_fs (suc f) root (c ∷ p) ≡ elim (finddir_fs root name) [
        | none ↦ none
        | some next ↦ find_rest (λ n q. find_path finddir_fs f n q) next rest
      ]
  unfolding find_path
  find_path-step f root c p name rest e s = rw s (
      ap
        (λ (t : List ℕ × List ℕ). elim (finddir_fs root t.0) as (λ x. Option N) [
          | none ↦ none
          | some next ↦ find_rest (λ n q. find_path finddir_fs f n q) next t.1
        ])
        e)

  -- One name of the path: found or not, and the rest of the names after it.
  found-walk :
      (f : ℕ) (root : N) (n rest : List ℕ) (ns : List (List ℕ))
      → ((next : N) → find_rest (λ m q. find_path finddir_fs f m q) next rest ≡ walk next ns)
      → (elim (finddir_fs root n) [
        | none ↦ none
        | some next ↦ find_rest (λ m q. find_path finddir_fs f m q) next rest
      ])
        ≡ walk root (n ∷ ns)
  unfolding walk
  found-walk f root n rest ns g = elim (Option-cases (finddir_fs root n)) [
    | inl missing ↦ rw (missing, walk) refl
    | inr (next, found) ↦ rw (found, walk) (g next)
  ]

  find_path-name :
      (f : ℕ) (root : N) (n : List ℕ) (ns : List (List ℕ))
      → length (n ++ join ns) < f
      → IsName n
      → AllNames ns
      → find_path finddir_fs f root (n ++ join ns) ≡ walk root (n ∷ ns)
  unfolding find_rest walk
  find_path-name zero root n ns h q a = absurd (omega arith)
  find_path-name (suc f) root [] ns h q a = absurd (omega (arith, q.some_char))
  find_path-name (suc f) root (c ∷ n) [] h q a =
      find_path-step f root c (n ++ []) (c ∷ n) [] (name_taken c n [] q)
        (no_root c (n ++ []) q.plain.0)
      ∙ found-walk f root (c ∷ n) [] [] (λ next. refl)
  find_path-name (suc f) root (c ∷ n) (k ∷ ns) h q a =
      find_path-step f root c (n ++ join (k ∷ ns)) (c ∷ n) (join (k ∷ ns))
        (name_taken c n (k ∷ ns) q) (no_root c (n ++ join (k ∷ ns)) q.plain.0)
      ∙ found-walk f root (c ∷ n) (join (k ∷ ns)) (k ∷ ns) (λ next.
        find_path-name f next k ns (omega (arith, h, length-append n (join (k ∷ ns)))) a.0 a.1)

  -- For a path of names that each follow a slash, are not empty, hold no slash and have at most 31
  -- characters, `find_path_fs` finds what a lookup of one name after the other finds, and nothing
  -- where one of them is missing; the length of the path is fuel enough.
  pub find_path_fs-join :
      (root : N) (ns : List (List ℕ))
      → AllNames ns
      → find_path_fs finddir_fs root (join ns) ≡ walk root ns
  unfolding find_path_fs find_path walk find_rest skip_slash same_name
  find_path_fs-join root [] a = refl
  find_path_fs-join root ([] ∷ ns) a = absurd (omega (arith, a.0.some_char))
  find_path_fs-join root ((c ∷ n) ∷ []) a =
      find_path-step (suc (length (c ∷ (n ++ [])))) root slash (c ∷ (n ++ [])) (c ∷ n) []
        (take_name-join 31 (c ∷ n) [] a.0.fits a.0.plain) refl
      ∙ found-walk (suc (length (c ∷ (n ++ [])))) root (c ∷ n) [] [] (λ next. refl)
  find_path_fs-join root ((c ∷ n) ∷ k ∷ ns) a =
      let f = suc (length (c ∷ (n ++ join (k ∷ ns)))) in
      find_path-step f root slash (c ∷ (n ++ join (k ∷ ns))) (c ∷ n) (join (k ∷ ns))
        (take_name-join 31 (c ∷ n) (k ∷ ns) a.0.fits a.0.plain) refl
      ∙ found-walk f root (c ∷ n) (join (k ∷ ns)) (k ∷ ns) (λ next.
        find_path-name f next k ns (omega (arith, length-append n (join (k ∷ ns)))) a.1.0 a.1.1)
