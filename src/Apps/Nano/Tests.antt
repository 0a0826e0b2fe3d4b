-- ===== src/Apps/Nano/Tests.antt =====
-- Keys in the editor of kernel/apps/nano.cpp, over a file system without files.
use mesa_os.Prelude.{
  ℕ, refl, ltb, if◌then◌else◌, Bool, true, false, Option, none, List, [], ◌∷◌, arith,
}
use mesa_os.Apps.Nano.{Nano}
use mesa_os.Apps.Nano.Editing.{IsEditing, keys, keys-IsEditing}

-- Two letters.
abbrev hi : Nano
hi = record {
  buffer = λ i. if ltb i 2 then 104 else 0;
  clipboard = λ i. 0;
  current_file = [];
  cursor_pos = 2;
  running = true;
  show_help = false;
}

hi-IsEditing : IsEditing hi
hi-IsEditing = record {
  end = refl;
  full = λ i h e. ground (arith, h, e);
  room = omega arith;
  empty = refl;
}

-- No file is found or made.
abbrev find : ℕ → List ℕ → Option ℕ
find s path = none

abbrev node_length : ℕ → ℕ → ℕ
node_length s node = 0

abbrev read_fs : ℕ → ℕ → ℕ → ℕ → (ℕ → ℕ) → ℕ → ℕ
read_fs s node offset size b = b

abbrev create_file : ℕ → List ℕ → ℕ × Option ℕ
create_file s path = (s, none)

abbrev write_fs : ℕ → ℕ → ℕ → ℕ → (ℕ → ℕ) → ℕ
write_fs s node offset size b = s

abbrev press : List (Bool × ℕ) → ℕ × Nano
press = keys find node_length read_fs create_file write_fs 0 hi

keys-IsEditing_example : IsEditing (press ((false, 33) ∷ (true, 107) ∷ (false, 8) ∷ [])).1
keys-IsEditing_example =
    keys-IsEditing find node_length read_fs create_file write_fs 0 hi
      ((false, 33) ∷ (true, 107) ∷ (false, 8) ∷ []) hi-IsEditing refl
