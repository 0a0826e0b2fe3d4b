-- ===== src/Fs/Ramfs/Tests.antt =====
-- Runs of kernel/fs/ramfs.cpp, and the theorems at these inputs.
use mesa_os.Prelude.{◌≡◌, refl, List, [], ◌∷◌, arith}
use mesa_os.Fs.Ramfs.{
  FsNode, fs_file, Ramfs, same_name, bytes_at, read, write, index_from, create_file, delete_file,
  shift_down, put_bytes,
}
use mesa_os.Fs.Ramfs.Data.{read-write, Call, file, delete, run, step}

abbrev blank : FsNode
blank = record { name = []; flags = fs_file; inode = 0; length = 0 }

abbrev empty : Ramfs
empty = record {
  nodes = λ a. blank;
  files = λ i. 0;
  file_contents = λ i. 0;
  file_count = 0;
  memory = λ a. 0;
}

-- Two files, "a" and "b", with the contents 1 and 2.
abbrev two : List Call
two = file (b'a' ∷ []) (1 ∷ []) 100 0x1000 ∷ file (b'b' ∷ []) (2 ∷ []) 200 0x2000 ∷ []

-- After "a" is deleted and "c" with the content 3 is made, the node of "b" still has the inode 1,
-- and a read of it returns the content of "c".
stale_inode :
    read
      (run (run empty two) (delete (b'a' ∷ []) ∷ file (b'c' ∷ []) (3 ∷ []) 300 0x3000 ∷ []))
      200
      0
      1
    ≡ (1, 3 ∷ [])
unfolding read run step create_file delete_file index_from same_name shift_down put_bytes bytes_at
stale_inode = refl

read-write_example : read (write empty 100 10 3 (λ i. 7)).0 100 10 3 ≡ (3, bytes_at (λ i. 7) 0 3)
read-write_example = read-write empty 100 10 3 (λ i. 7) (omega arith) (omega arith)
