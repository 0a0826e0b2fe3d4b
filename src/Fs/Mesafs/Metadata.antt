-- ===== src/Fs/Mesafs/Metadata.antt =====
-- The table of entries of kernel/fs/mesafs.cpp, and `save_metadata`, which copies it behind a header
-- into a buffer of 512 bytes for the disk.
use mesa_os.Prelude.{
  ℕ, ◌+◌, ◌-◌, ◌*◌, ◌/◌, ◌%◌, ◌^◌, Bool, true, false, not, Option, none, some, List, get_elem?, ltb,
  ◌==◌, if◌then◌else◌, update,
}
use mesa_os.Fs.Ramfs.{copy_in}

pub record MesaFsEntry : Type 0 where
  pub name : List ℕ
  pub lba_start : ℕ
  pub length : ℕ
  pub uid : ℕ
  pub gid : ℕ
  pub mode : ℕ
  pub flags : ℕ
  pub present : Bool
  pub hmac : ℕ → ℕ

pub record MesaFs : Type 0 where
  pub base_lba : ℕ
  pub metadata_valid : Bool
  pub entries : ℕ → MesaFsEntry
  pub disk : ℕ → ℕ → ℕ

-- Byte `i` of a word, the lowest first.
abbrev pub word_byte : ℕ → ℕ → ℕ
word_byte w i = w / 2 ^ (8 * i) % 2 ^ 8

abbrev pub or_zero : Option ℕ → ℕ
or_zero none = 0
or_zero (some c) = c

-- An entry as its 120 bytes in memory, the last two of which are padding.
unfoldable pub entry_byte : MesaFsEntry → ℕ → ℕ
entry_byte e j =
    if ltb j 64
    then or_zero (get_elem? e.name j)
    else if ltb j 68
    then word_byte e.lba_start (j - 64)
    else if ltb j 72
    then word_byte e.length (j - 68)
    else if ltb j 76
    then word_byte e.uid (j - 72)
    else if ltb j 80
    then word_byte e.gid (j - 76)
    else if ltb j 84
    then word_byte e.mode (j - 80)
    else if j == 84
    then e.flags
    else if j == 85
    then if e.present then 1 else 0
    else if ltb j 118
    then e.hmac (j - 86)
    else 0

-- The header: magic, version, directory, blocks, and a field that nothing sets, here `unset`.
unfoldable pub header_byte : (ℕ → ℕ) → ℕ → ℕ
header_byte unset i =
    if ltb i 4
    then word_byte 0x5341534d i
    else if ltb i 8
    then word_byte 1 (i - 4)
    else if ltb i 12
    then 0
    else if ltb i 16
    then word_byte 1000 (i - 12)
    else unset (i - 16)

-- The table of entries as its bytes in memory.
unfoldable pub table_byte : (ℕ → MesaFsEntry) → ℕ → ℕ
table_byte entries j = entry_byte (entries (j / 120)) (j % 120)

-- `memcpy` of `n` bytes to the place `at` of an array of `size` bytes: `none` if it runs past the end.
unfoldable pub copy_within : ℕ → (ℕ → ℕ) → ℕ → (ℕ → ℕ) → ℕ → Option (ℕ → ℕ)
copy_within size m at source n = if ltb size (at + n) then none else some (copy_in m at source n)

-- The buffer of 512 bytes once the table of eight entries, behind the place of the header, and the
-- header are copied into it.
unfoldable pub metadata_sector : (ℕ → ℕ) → (ℕ → MesaFsEntry) → Option (ℕ → ℕ)
metadata_sector unset entries = elim (copy_within 512 (λ i. 0) 48 (table_byte entries) (8 * 120)) [
  | none ↦ none
  | some buffer ↦ copy_within 512 buffer 0 (header_byte unset) 48
]

unfoldable pub save_metadata : (ℕ → ℕ) → MesaFs → Option (MesaFs × Bool)
save_metadata unset f =
    if not f.metadata_valid then some (f, false) else elim (metadata_sector unset f.entries) [
      | none ↦ none
      | some buffer ↦
          some (record f { disk = update f.disk ((f.base_lba + 1) % 2 ^ 32) buffer }, true)
    ]
