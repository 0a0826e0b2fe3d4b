-- ===== src/Fs/Mesafs/Tests.antt =====
-- A file system of kernel/fs/mesafs.cpp with one file, on an empty disk.
use mesa_os.Prelude.{
  ℕ, zero, suc, ◌+◌, ◌<◌, ◌≡◌, ◌≢◌, refl, inl, true, false, none, some, [], ◌∷◌, arith, ◌==◌,
  if◌then◌else◌,
}
use mesa_os.Fs.Mesafs.Metadata.{MesaFs, MesaFsEntry}
use mesa_os.Fs.Mesafs.{
  Node, empty_entry, new_node, read, write_data, write, finddir, free_entry, enter_file,
  create_file, check_permission,
}
use mesa_os.Fs.Mesafs.Sectors.{file_byte}
use mesa_os.Fs.Mesafs.Files.{read-write_disk, write_apart, start_of}
use mesa_os.Fs.Mesafs.Create.{finddir-create_file}

abbrev entry : ℕ → MesaFsEntry
entry lba = record {
  name = 97 ∷ [];
  lba_start = lba;
  length = 0;
  uid = 7;
  gid = 0;
  mode = 0o640;
  flags = 1;
  present = true;
  hmac = λ i. 0;
}

-- Two files, `a` in both entries.
abbrev disk : MesaFs
disk = record {
  base_lba = 2048;
  metadata_valid = true;
  entries = λ i. if i == 0 then entry 100 else if i == 1 then entry 110 else empty_entry;
  disk = λ s b. 0;
}

abbrev file : Node
file = new_node (97 ∷ []) 0 false 7 0 0o640

read-write_disk_example :
    let w = write_data disk file 510 4 (λ i. i + 65) in
    (w.1 ≡ 4)
    × ((read w.0 file 510 4 (λ a. 0) 1000).1 ≡ 4)
    × ((read w.0 file 510 4 (λ a. 0) 1000).0 (1000 + 3) ≡ 3 + 65)
    × (write (λ i. 0) disk file 510 4 (λ i. i + 65) ≡ none)
unfolding new_node
read-write_disk_example =
    read-write_disk (λ i. 0) disk file 510 4 (λ i. i + 65) (λ a. 0) 1000 3 (omega arith)
      (omega arith) (omega arith)

write_apart_example :
    file_byte (write_data disk file 5000 120 (λ i. i + 65)).0.disk (start_of disk (entry 110)) 0
    ≡ file_byte (λ s b. 0) (start_of disk (entry 110)) 0
unfolding new_node
write_apart_example =
    write_apart disk file 5000 120 (λ i. i + 65) 1 0 (omega arith) (omega arith) (omega arith)
      (inl (omega arith)) (omega arith) (omega arith) (omega arith)

used : (j : ℕ) → j < 2 → (disk.entries j).present ≡ true
used zero h = refl
used (suc zero) h = refl
used (suc (suc j)) h = absurd (omega (arith, h))

not_used : (j : ℕ) → j < 8 → (disk.entries j).present ≡ true → (disk.entries j).name ≢ 98 ∷ []
not_used zero h p e = ground (arith, e)
not_used (suc zero) h p e = ground (arith, e)
not_used (suc (suc j)) h p e = ground (arith, e)

-- A file `b` beside the two files `a`.
finddir-create_file_example :
    (g : MesaFs) × (free_entry disk 0 8 ≡ some 2)
    × (enter_file disk (98 ∷ []) 2 7 7 0o640 ≡ some g)
    × (finddir g (98 ∷ []) ≡ some (new_node (98 ∷ []) 2 false 7 7 0o640))
    × (finddir g (97 ∷ []) ≡ finddir disk (97 ∷ []))
    × (create_file (λ i. 0) disk (98 ∷ []) 7 7 0o640 ≡ none)
finddir-create_file_example =
    finddir-create_file (λ i. 0) disk (98 ∷ []) (97 ∷ []) 7 7 0o640 2 (omega arith) refl used
      not_used (omega arith) (λ e. ground (arith, e))

-- The owner may read and not execute.
owner_may : check_permission (some file) 7 4 ≡ true
unfolding check_permission new_node
owner_may = refl
