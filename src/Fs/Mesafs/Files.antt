-- ===== src/Fs/Mesafs/Files.antt =====
-- What kernel/fs/mesafs.cpp keeps in its files.
use mesa_os.Prelude.{
  ℕ, ◌+◌, ◌-◌, ◌/◌, ◌%◌, ◌^◌, ◌≤◌, ◌<◌, ◌≡◌, ◌≢◌, ◌⊎◌, refl, ap, ap₂, ◌∙◌, true, false, ◌&&◌, arith,
  ltb, leb, ◌==◌, if◌then◌else◌, none, some, Bool-cases, if_true, if_false, inl, inr,
}
use mesa_os.Fs.Mesafs.Metadata.{MesaFs, MesaFsEntry, copy_within, save_metadata, metadata_sector}
use mesa_os.Fs.Mesafs.{Node, read_from, read_size, read, write_from, set_length, write_data, write}
use mesa_os.Fs.Mesafs.Sectors.{
  file_byte, read_from_lem, write_from_lem, write_from_other, read_from_ends, write_from_ends,
}

-- The first sector of the file with an entry.
abbrev pub start_of : MesaFs → MesaFsEntry → ℕ
start_of f e = (f.base_lba + e.lba_start) % 2 ^ 32

-- The header and the eight entries do not fit into the buffer.
metadata_sector-overruns :
    (unset : ℕ → ℕ) (entries : ℕ → MesaFsEntry) → metadata_sector unset entries ≡ none
unfolding metadata_sector copy_within
metadata_sector-overruns unset entries = refl

-- Metadata that is valid is never saved: the copy runs past the end of the buffer.
pub save_metadata_lem :
    (unset : ℕ → ℕ) (f : MesaFs)
    → save_metadata unset f ≡ (if f.metadata_valid then none else some (f, false))
unfolding save_metadata
save_metadata_lem unset f = elim (Bool-cases f.metadata_valid) [
  | inl valid ↦ rw (valid, metadata_sector-overruns unset f.entries)
  | inr invalid ↦ rw invalid
]

write_lem :
    (unset : ℕ → ℕ) (f : MesaFs) (node : Node) (offset size : ℕ) (buffer : ℕ → ℕ)
    → write unset f node offset size buffer
      ≡ (if f.metadata_valid then none else some (write_data f node offset size buffer))
unfolding write write_data save_metadata set_length write_from
write_lem unset f node offset size buffer =
    let saved = save_metadata_lem unset (write_data f node offset size buffer).0 in
    elim (Bool-cases f.metadata_valid) [
      | inl valid ↦ rw (saved, valid)
      | inr invalid ↦ rw (saved, invalid)
    ]

read_size-set_length :
    (e : MesaFsEntry) (offset size : ℕ)
    → 0 < size
    → offset + size < 2 ^ 32
    → read_size (set_length e ((offset + size) % 2 ^ 32)) offset size ≡ size
unfolding read_size set_length
read_size-set_length e offset size h k =
    let n =
      if ltb e.length ((offset + size) % 2 ^ 32) then (offset + size) % 2 ^ 32 else e.length in
    let long : leb n offset ≡ false = ground (arith, h, k) in
    let whole : ltb n ((offset + size) % 2 ^ 32) ≡ false = ground (arith, h, k) in
    if_false _ _ long ∙ if_false _ _ whole

-- For a node of one of the eight entries and a write that ends below 2 ^ 32: what it does up to its call of `save_metadata` (`write_data`)
-- reports the whole size, and a read at the same offset and of the same size then reports the whole
-- size too and gives byte by byte what was written, across any number of sectors, wherever the file
-- lies. The whole of `write` returns this only where the metadata is not valid; where it is,
-- `save_metadata` copies past the end of its buffer.
pub read-write_disk :
    (unset : ℕ → ℕ) (f : MesaFs) (node : Node) (offset size : ℕ) (buffer m : ℕ → ℕ) (dest i : ℕ)
    → node.inode < 8
    → offset + size < 2 ^ 32
    → i < size
    → ((write_data f node offset size buffer).1 ≡ size)
      × ((read (write_data f node offset size buffer).0 node offset size m dest).1 ≡ size)
      × ((read (write_data f node offset size buffer).0 node offset size m dest).0 (dest + i)
          ≡ buffer i)
      × (write unset f node offset size buffer
          ≡ (if f.metadata_valid then none else some (write_data f node offset size buffer)))
unfolding read write_data set_length
read-write_disk unset f node offset size buffer m dest i known fits l =
    let e = f.entries node.inode in
    let start = start_of f e in
    let w = (write_data f node offset size buffer).0 in
    let same : (node.inode == node.inode) ≡ true = ground arith in
    let entry : w.entries node.inode ≡ set_length e ((offset + size) % 2 ^ 32) = if_true _ _ same in
    let all : read_size (w.entries node.inode) offset size ≡ size =
      ap (λ (x : MesaFsEntry). read_size x offset size) entry
      ∙ read_size-set_length e offset size (omega (arith, l)) fits in
    let place_of = (w.base_lba + (w.entries node.inode).lba_start) % 2 ^ 32 in
    let place : (w.base_lba + (w.entries node.inode).lba_start) % 2 ^ 32 ≡ start =
      ap (λ (x : MesaFsEntry). (f.base_lba + x.lba_start) % 2 ^ 32) entry in
    let inside : (leb (dest + 0) (dest + i) && ltb (dest + i) (dest + size)) ≡ true =
      ground (arith, l) in
    let at : offset + (dest + i - (dest + 0)) ≡ offset + i = omega arith in
    let there : (leb offset (offset + i) && ltb (offset + i) (offset + (size - 0))) ≡ true =
      ground (arith, l) in
    let below : offset + i < 2 ^ 32 = omega (arith, l, fits) in
    (
      write_from_ends size f.disk start buffer size offset 0 (omega arith) (omega arith),
      ap (λ (n : ℕ). (read_from w.disk place_of m dest n offset 0 n).1) all
          ∙ read_from_ends size w.disk place_of m dest size offset 0 (omega arith) (omega arith),
      ap₂ (λ (s n : ℕ). (read_from w.disk s m dest n offset 0 n).0 (dest + i)) place all
          ∙ read_from_lem size w.disk start m dest size offset 0 (dest + i) (omega arith)
              (omega (arith, fits))
          ∙ if_true _ _ inside
          ∙ ap (file_byte w.disk start) at
          ∙ write_from_lem size f.disk start buffer size offset 0 (offset + i) (omega arith)
              (omega (arith, fits)) below
          ∙ if_true _ _ there
          ∙ ap buffer (omega arith),
      write_lem unset f node offset size buffer,
    )

-- Places in files that start ten sectors apart are in different sectors.
different :
    (base a b x y : ℕ)
    → x < 10
    → y < 10
    → a ≤ 170
    → b ≤ 170
    → (b + 10 ≤ a) ⊎ (a + 10 ≤ b)
    → ((base + a) % 2 ^ 32 + x) % 2 ^ 32 ≢ ((base + b) % 2 ^ 32 + y) % 2 ^ 32
different base a b x y hx hy ha hb (inl far) e = omega (arith, hx, hy, ha, hb, far, e)
different base a b x y hx hy ha hb (inr far) e = omega (arith, hx, hy, ha, hb, far, e)

-- For two of the eight entries whose first sectors lie at most 170 behind that of the partition, as those of all
-- files and directories do, and at least ten apart: what a write that ends within the first 5120 bytes
-- of one does up to its call of `save_metadata` leaves the first 5120 bytes of the other as they were.
pub write_apart :
    (f : MesaFs) (node : Node) (offset size : ℕ) (buffer : ℕ → ℕ) (j p : ℕ)
    → node.inode < 8
    → j < 8
    → (f.entries j).lba_start ≤ 170
    → ((f.entries node.inode).lba_start + 10 ≤ (f.entries j).lba_start)
      ⊎ ((f.entries j).lba_start + 10 ≤ (f.entries node.inode).lba_start)
    → (f.entries node.inode).lba_start ≤ 170
    → offset + size ≤ 5120
    → p < 5120
    → file_byte (write_data f node offset size buffer).0.disk (start_of f (f.entries j)) p
      ≡ file_byte f.disk (start_of f (f.entries j)) p
unfolding write_data file_byte
write_apart f node offset size buffer j p known other_known k far low fits l =
    let e = f.entries node.inode in
    let start = start_of f e in
    let s = (start_of f (f.entries j) + p / 512) % 2 ^ 32 in
    let away : (x : ℕ) → x < 10 → s ≢ (start + x) % 2 ^ 32 = λ x b.
      different f.base_lba (f.entries j).lba_start e.lba_start (p / 512) x (omega (arith, l)) b k
        low far in
    ap (λ (g : ℕ → ℕ). g (p % 512))
      (write_from_other size f.disk start buffer size offset 0 s (omega (arith, fits)) away)
