-- ===== src/Fs/Vfs/Tests.antt =====
-- Runs of the path lookup of kernel/fs/vfs.cpp, and the theorem at one path.
use mesa_os.Prelude.{ℕ, ◌+◌, ◌*◌, ◌≡◌, Option, some, List, [], ◌∷◌, arith, length}
use mesa_os.Fs.Vfs.{find_path_fs}
use mesa_os.Fs.Vfs.Path.{IsName, join, walk, find_path_fs-join}

-- A directory whose entries are found by the length of the name.
abbrev by_length : ℕ → List ℕ → Option ℕ
by_length d name = some (d * 10 + length name)

-- "/ab/c"
abbrev names : List (List ℕ)
names = (b'a' ∷ b'b' ∷ []) ∷ (b'c' ∷ []) ∷ []

ab-IsName : IsName (b'a' ∷ b'b' ∷ [])
ab-IsName = record { some_char = omega arith; fits = omega arith; plain = ground arith }

c-IsName : IsName (b'c' ∷ [])
c-IsName = record { some_char = omega arith; fits = omega arith; plain = ground arith }

find_path_fs-join_example : find_path_fs by_length 0 (join names) ≡ walk by_length 0 names
find_path_fs-join_example = find_path_fs-join by_length 0 names (ab-IsName, (c-IsName, tt))
