-- ===== src/Fs/Mesafs.antt =====
-- kernel/fs/mesafs.cpp: eight entries and their sectors on a disk. The disk is a function from the
-- sector and the byte in it; a name is its characters before the zero, with zeros behind it, as no
-- entry is used twice. The nodes that `kmalloc` would hold are values. A copy past the end of an array
-- is undefined in C++: the operation that makes it has the result `none`. `save_metadata` makes one
-- whenever the metadata is valid, so what an operation does before that has a definition of its own.
pub mod Metadata
pub mod Sectors
pub mod Files
pub mod Create
mod Tests
use mesa_os.Prelude.{
  ℕ, zero, suc, ◌+◌, ◌-◌, ◌*◌, ◌/◌, ◌%◌, ◌^◌, Bool, true, false, not, ◌&&◌, ◌||◌, Option, none,
  some, List, [], ◌∷◌, length, get_elem?, bit_and, ltb, leb, ◌==◌, if◌then◌else◌, update,
}
use mesa_os.Fs.Ramfs.{same_name, copy_in}
use mesa_os.Fs.Mesafs.Metadata.{MesaFsEntry, MesaFs, save_metadata}

-- What a node of this file system holds, but the function pointers.
pub record Node : Type 0 where
  pub name : List ℕ
  pub inode : ℕ
  pub directory : Bool
  pub uid : ℕ
  pub gid : ℕ
  pub mask : ℕ
  pub length : ℕ

abbrev pub empty_entry : MesaFsEntry
empty_entry = record {
  name = [];
  lba_start = 0;
  length = 0;
  uid = 0;
  gid = 0;
  mode = 0;
  flags = 0;
  present = false;
  hmac = λ i. 0;
}

-- The metadata on the disk is never loaded.
abbrev pub load_metadata : MesaFs → Bool
load_metadata f = false

abbrev pub root_node : Node
root_node = record {
  name = 100 ∷ 105 ∷ 115 ∷ 107 ∷ [];
  inode = 0;
  directory = true;
  uid = 0;
  gid = 0;
  mask = 0o755;
  length = 0;
}

pub initialize : MesaFs → ℕ → MesaFs × Node
initialize f partition_lba =
    let f' : MesaFs = record f { base_lba = partition_lba } in
    (
      if load_metadata f' then f' else record f' {
        entries = λ i. if ltb i 8 then empty_entry else f.entries i;
        metadata_valid = true;
      },
      root_node,
    )

-- The name and the number of an entry.
pub readdir : MesaFs → ℕ → Option (List ℕ × ℕ)
readdir f index =
    let e = f.entries index in
    if leb 8 index then none else if not e.present then none else some (e.name, index)

pub node_of : MesaFsEntry → ℕ → Node
node_of e i = record {
  name = e.name;
  inode = i;
  directory = e.flags == 2;
  uid = e.uid;
  gid = e.gid;
  mask = e.mode;
  length = e.length;
}

-- The loop of `finddir`, over `i` with `n` rounds left.
pub find_from : MesaFs → List ℕ → ℕ → ℕ → Option Node
find_from f name i zero = none
find_from f name i (suc n) =
    let rest = find_from f name (i + 1) n in
    let e = f.entries i in if e.present && same_name e.name name then some (node_of e i) else rest

abbrev pub finddir : MesaFs → List ℕ → Option Node
finddir f name = find_from f name 0 8

-- How much is copied within one sector.
pub chunk : ℕ → ℕ → ℕ
chunk file_offset rest =
    if ltb rest (512 - file_offset % 512) then rest else 512 - file_offset % 512

-- The loop of `read`, on fuel: the memory `m`, with the buffer at `buffer`, and `bytes_read`.
pub read_from : (ℕ → ℕ → ℕ) → ℕ → (ℕ → ℕ) → ℕ → ℕ → ℕ → ℕ → ℕ → (ℕ → ℕ) × ℕ
read_from disk start m buffer size file_offset bytes_read zero = (m, bytes_read)
read_from disk start m buffer size file_offset bytes_read (suc fuel) =
    let to_copy = chunk file_offset (size - bytes_read) in
    let sector = disk ((start + file_offset / 512) % 2 ^ 32) in
    let m' = copy_in m (buffer + bytes_read) (λ k. sector (file_offset % 512 + k)) to_copy in
    let rest =
      read_from disk start m' buffer size ((file_offset + to_copy) % 2 ^ 32) (bytes_read + to_copy)
        fuel in
    if ltb bytes_read size then rest else (m, bytes_read)

-- The size that is read: up to the end of the file.
pub read_size : MesaFsEntry → ℕ → ℕ → ℕ
read_size e offset size =
    if leb e.length offset
    then 0
    else if ltb e.length ((offset + size) % 2 ^ 32)
    then e.length - offset
    else size

-- The memory afterwards, and how many bytes were read.
pub read : MesaFs → Node → ℕ → ℕ → (ℕ → ℕ) → ℕ → (ℕ → ℕ) × ℕ
read f node offset size m buffer =
    let e = f.entries node.inode in
    let n = read_size e offset size in
    read_from f.disk ((f.base_lba + e.lba_start) % 2 ^ 32) m buffer n offset 0 n

-- The loop of `write`, on fuel: the disk, and `bytes_written`.
pub write_from : (ℕ → ℕ → ℕ) → ℕ → (ℕ → ℕ) → ℕ → ℕ → ℕ → ℕ → (ℕ → ℕ → ℕ) × ℕ
write_from disk start buffer size file_offset bytes_written zero = (disk, bytes_written)
write_from disk start buffer size file_offset bytes_written (suc fuel) =
    let to_copy = chunk file_offset (size - bytes_written) in
    let lba = (start + file_offset / 512) % 2 ^ 32 in
    let old : ℕ → ℕ =
      if ltb 0 (file_offset % 512) || ltb (size - bytes_written) 512 then disk lba else (λ k. 0) in
    let sector = copy_in old (file_offset % 512) (λ k. buffer (bytes_written + k)) to_copy in
    let rest =
      write_from (update disk lba sector) start buffer size ((file_offset + to_copy) % 2 ^ 32)
        (bytes_written + to_copy) fuel in
    if ltb bytes_written size then rest else (disk, bytes_written)

pub set_length : MesaFsEntry → ℕ → MesaFsEntry
set_length e end = record e { length = if ltb e.length end then end else e.length }

-- `write` up to its call of `save_metadata`, with `bytes_written`.
pub write_data : MesaFs → Node → ℕ → ℕ → (ℕ → ℕ) → MesaFs × ℕ
write_data f node offset size buffer =
    let e = f.entries node.inode in
    let start = (f.base_lba + e.lba_start) % 2 ^ 32 in
    let (disk, bytes_written) = write_from f.disk start buffer size offset 0 size in
    (
      record f {
        disk = disk;
        entries = update f.entries node.inode (set_length e ((offset + size) % 2 ^ 32));
      },
      bytes_written,
    )

-- `unset` is the part of the header that nothing sets.
pub write : (ℕ → ℕ) → MesaFs → Node → ℕ → ℕ → (ℕ → ℕ) → Option (MesaFs × ℕ)
write unset f node offset size buffer =
    let (f', bytes_written) = write_data f node offset size buffer in
    elim (save_metadata unset f') [ none ↦ none | some (f'', saved) ↦ some (f'', bytes_written) ]

-- The first entry that is free, from `i` on with `n` left.
pub free_entry : MesaFs → ℕ → ℕ → Option ℕ
free_entry f i zero = none
free_entry f i (suc n) =
    let rest = free_entry f (i + 1) n in if not (f.entries i).present then some i else rest

pub new_entry : MesaFsEntry → List ℕ → ℕ → ℕ → ℕ → ℕ → ℕ → MesaFsEntry
new_entry e name lba flags uid gid mode = record {
  name = name;
  lba_start = lba;
  length = 0;
  uid = uid;
  gid = gid;
  mode = mode;
  flags = flags;
  present = true;
  hmac = λ i. if ltb i 32 then 0 else e.hmac i;
}

pub new_node : List ℕ → ℕ → Bool → ℕ → ℕ → ℕ → Node
new_node name i directory uid gid mode = record {
  name = name;
  inode = i;
  directory = directory;
  uid = uid;
  gid = gid;
  mask = mode;
  length = 0;
}

-- The entry `i` is filled in. `strcpy` of a name of 64 characters or more, with its zero, runs past the
-- end of the field.
pub enter : MesaFs → List ℕ → ℕ → ℕ → ℕ → ℕ → ℕ → ℕ → Option MesaFs
enter f name i lba flags uid gid mode =
    if ltb (length name) 64
    then some (record f {
      entries = update f.entries i (new_entry (f.entries i) name lba flags uid gid mode);
    })
    else none

-- What `create_file` does in the entry `i` before it saves the metadata.
pub enter_file : MesaFs → List ℕ → ℕ → ℕ → ℕ → ℕ → Option MesaFs
enter_file f name i uid gid mode = elim (enter f name i (100 + i * 10) 1 uid gid mode) [
  | none ↦ none
  | some f' ↦ some (record f' { metadata_valid = true })
]

-- A file in the entry that the loop has found; the result is null if it found none, or if the metadata
-- is not saved.
pub place_file : (ℕ → ℕ) → MesaFs → List ℕ → ℕ → ℕ → ℕ → Option ℕ → Option (MesaFs × Option Node)
place_file unset f name uid gid mode none = some (f, none)
place_file unset f name uid gid mode (some i) = elim (enter_file f name i uid gid mode) [
  | none ↦ none
  | some f' ↦ elim (save_metadata unset f') [
    | none ↦ none
    | some (f'', saved) ↦ some (
        if not saved
        then (
          record f'' {
            entries = update f''.entries i (record (f''.entries i) { present = false });
          },
          none,
        )
        else (f'', some (new_node name i false uid gid mode)))
  ]
]

pub create_file : (ℕ → ℕ) → MesaFs → List ℕ → ℕ → ℕ → ℕ → Option (MesaFs × Option Node)
create_file unset f name uid gid mode = place_file unset f name uid gid mode (free_entry f 0 8)

-- A directory in the entry that the loop has found.
pub place_dir : (ℕ → ℕ) → MesaFs → List ℕ → ℕ → ℕ → ℕ → Option ℕ → Option (MesaFs × Option Node)
place_dir unset f name uid gid mode none = some (f, none)
place_dir unset f name uid gid mode (some i) = elim (enter f name i 0 2 uid gid mode) [
  | none ↦ none
  | some f' ↦ elim (save_metadata unset f') [
    | none ↦ none
    | some (f'', saved) ↦ some (f'', some (new_node name i true uid gid mode))
  ]
]

pub create_dir : (ℕ → ℕ) → MesaFs → List ℕ → ℕ → ℕ → ℕ → Option (MesaFs × Option Node)
create_dir unset f name uid gid mode = place_dir unset f name uid gid mode (free_entry f 0 8)

-- A null node is `none`.
pub check_permission : Option Node → ℕ → ℕ → Bool
check_permission none uid perm = false
check_permission (some node) uid perm =
    if uid == 0
    then true
    else if node.uid == uid
    then not (bit_and node.mask (perm * 2 ^ 6 % 2 ^ 32) == 0)
    else if node.gid == 0
    then not (bit_and node.mask (perm * 2 ^ 3 % 2 ^ 32) == 0)
    else not (bit_and node.mask perm == 0)
