-- ===== src/Fs/Vfs.antt =====
-- The path lookup of kernel/fs/vfs.cpp. A path is its bytes before the zero. `finddir_fs`, which
-- goes through the function pointers of a node, is an argument.
pub mod Path
mod Tests
use mesa_os.Fs.Ramfs.{same_name}
use mesa_os.Prelude.{
  ℕ, zero, suc, Bool, Option, none, some, List, [], ◌∷◌, ◌==◌, if◌then◌else◌, length,
}

abbrev pub slash : ℕ
slash = b'/'

-- The loop that copies a name of at most `n` characters, with the rest of the path.
pub take_name : ℕ → List ℕ → List ℕ × List ℕ
take_name zero p = ([], p)
take_name (suc n) [] = ([], [])
take_name (suc n) (c ∷ p) =
    let (name, rest) = take_name n p in if c == slash then ([], c ∷ p) else (c ∷ name, rest)

pub skip_slash : List ℕ → List ℕ
skip_slash [] = []
skip_slash (c ∷ p) = if c == slash then p else c ∷ p

-- What is left after a name: the lookup goes on behind a slash, by `go`, and otherwise ends.
pub find_rest : {N : Type 0} → (N → List ℕ → Option N) → N → List ℕ → Option N
find_rest go next [] = some next
find_rest go next (c ∷ p) = if c == slash then go next p else some next

module _ {N : Type 0} (finddir_fs : N → List ℕ → Option N) where
  -- On fuel. A name of 31 characters that goes on ends the lookup there.
  pub find_path : ℕ → N → List ℕ → Option N
  find_path zero root path = none
  find_path (suc f) root [] = some root
  find_path (suc f) root (c ∷ p) =
      let (name, rest) = take_name 31 (skip_slash (c ∷ p)) in
      if same_name (c ∷ p) (slash ∷ []) then some root else elim (finddir_fs root name) [
        | none ↦ none
        | some next ↦ find_rest (λ n q. find_path f n q) next rest
      ]

  pub find_path_fs : N → List ℕ → Option N
  find_path_fs root path = find_path (suc (length path)) root path
