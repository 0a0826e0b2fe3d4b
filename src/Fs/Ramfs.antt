-- ===== src/Fs/Ramfs.antt =====
-- kernel/fs/ramfs.cpp: files in memory, one block of 4096 bytes each. A node is known by its
-- address, so that the table and a caller can hold the same one. The addresses of new nodes and
-- blocks, which `kmalloc` and `PMM::allocate_block` return, are arguments; names and contents are
-- the bytes before their zero. Of the function pointers of a node only whether they are those of
-- a file or of a directory is kept.
pub mod Names
pub mod Data
mod Tests
use mesa_os.Prelude.{
  ℕ, zero, suc, ◌+◌, ◌-◌, ◌%◌, ◌^◌, Bool, true, false, ◌&&◌, Option, none, some, List, [], ◌∷◌, ltb,
  leb, ◌==◌, if◌then◌else◌, length, update,
}

pub data FsNodeType : Type 0 where
  fs_file fs_directory : FsNodeType

pub record FsNode : Type 0 where
  pub name : List ℕ
  pub flags : FsNodeType
  pub inode : ℕ
  pub length : ℕ

pub record Ramfs : Type 0 where
  pub nodes : ℕ → FsNode
  pub files : ℕ → ℕ
  pub file_contents : ℕ → ℕ
  pub file_count : ℕ
  pub memory : ℕ → ℕ

abbrev pub max_files : ℕ
max_files = 64

-- `strcmp(…) == 0`
unfoldable pub same_name : List ℕ → List ℕ → Bool
same_name [] [] = true
same_name [] (y ∷ ys) = false
same_name (x ∷ xs) [] = false
same_name (x ∷ xs) (y ∷ ys) = x == y && same_name xs ys

pub bytes_at : (ℕ → ℕ) → ℕ → ℕ → List ℕ
bytes_at m a zero = []
bytes_at m a (suc n) = m a ∷ bytes_at m (a + 1) n

-- `memcpy` of `n` bytes of `buffer`, another object, to the address `p`.
abbrev pub copy_in : (ℕ → ℕ) → ℕ → (ℕ → ℕ) → ℕ → ℕ → ℕ
copy_in m p buffer n a = if leb p a && ltb a (p + n) then buffer (a - p) else m a

-- The size that is returned, with the bytes that go to the buffer.
pub read : Ramfs → ℕ → ℕ → ℕ → ℕ × List ℕ
read f node offset size =
    let nd = f.nodes node in
    let n = if ltb nd.length ((offset + size) % 2 ^ 32) then nd.length - offset else size in
    if ltb nd.length offset
    then (0, [])
    else (n, bytes_at f.memory (f.file_contents nd.inode + offset) n)

-- `4096 - offset` wraps where the offset is past the block.
abbrev pub write_size : ℕ → ℕ → ℕ
write_size offset size =
    if ltb 4096 ((offset + size) % 2 ^ 32) then (4096 + 2 ^ 32 - offset) % 2 ^ 32 else size

pub write : Ramfs → ℕ → ℕ → ℕ → (ℕ → ℕ) → Ramfs × ℕ
write f node offset size buffer =
    let nd = f.nodes node in
    let n = write_size offset size in
    let end = (offset + n) % 2 ^ 32 in
    (
      record f {
        memory = copy_in f.memory (f.file_contents nd.inode + offset) buffer n;
        nodes =
            update f.nodes node
              (record nd { length = if ltb nd.length end then end else nd.length });
      },
      n,
    )

-- The name and the inode of an entry; `none` is null.
pub readdir : Ramfs → ℕ → Option (List ℕ × ℕ)
readdir f index =
    if leb f.file_count index
    then none
    else some ((f.nodes (f.files index)).name, (f.nodes (f.files index)).inode)

-- The search of `finddir` and of `delete_file`: the index, over `i` with `n` rounds left.
pub index_from : Ramfs → List ℕ → ℕ → ℕ → Option ℕ
index_from f name i zero = none
index_from f name i (suc n) =
    let rest = index_from f name (i + 1) n in
    if same_name name (f.nodes (f.files i)).name then some i else rest

pub finddir : Ramfs → List ℕ → Option ℕ
finddir f name = elim (index_from f name 0 f.file_count) [ none ↦ none | some i ↦ some (f.files i) ]

-- `strcpy` of a string, with the zero that ends it, to the address `p`.
pub put_bytes : (ℕ → ℕ) → ℕ → List ℕ → ℕ → ℕ
put_bytes m p [] = update m p 0
put_bytes m p (b ∷ bs) = put_bytes (update m p b) (p + 1) bs

-- `content` is empty for a null pointer too. The result is the node, or null.
pub create_file : Ramfs → List ℕ → List ℕ → ℕ → ℕ → Ramfs × Option ℕ
create_file f name content node block = if leb max_files f.file_count then (f, none) else (
  record {
    nodes =
        update f.nodes node
          (record { name = name; flags = fs_file; inode = f.file_count; length = length content });
    files = update f.files f.file_count node;
    file_contents = update f.file_contents f.file_count block;
    file_count = f.file_count + 1;
    memory = put_bytes (copy_in f.memory block (λ i. 0) 4096) block content;
  },
  some node,
)

pub create_dir : Ramfs → List ℕ → ℕ → Ramfs × Option ℕ
create_dir f name node = if leb max_files f.file_count then (f, none) else (
  record f {
    nodes =
        update f.nodes node (record { name = name; flags = fs_directory; inode = 0; length = 0 });
    files = update f.files f.file_count node;
    file_count = f.file_count + 1;
  },
  some node,
)

pub mount : Ramfs → ℕ → Ramfs
mount f node =
    if ltb f.file_count max_files
    then record f { files = update f.files f.file_count node; file_count = f.file_count + 1 }
    else f

-- The loop that moves the entries after `j` down by one, with `n` rounds left.
pub shift_down : (ℕ → ℕ) → ℕ → ℕ → ℕ → ℕ
shift_down t j zero = t
shift_down t j (suc n) = shift_down (update t j (t (j + 1))) (j + 1) n

pub delete_file : Ramfs → List ℕ → Ramfs × Bool
delete_file f name = elim (index_from f name 0 f.file_count) [
  | none ↦ (f, false)
  | some i ↦ (
    record f {
      files = shift_down f.files i (f.file_count - 1 - i);
      file_contents = shift_down f.file_contents i (f.file_count - 1 - i);
      file_count = f.file_count - 1;
    },
    true,
  )
]
