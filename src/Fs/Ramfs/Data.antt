-- ===== src/Fs/Ramfs/Data.antt =====
-- What kernel/fs/ramfs.cpp keeps of the data that is written to a file, and the table of files.
use mesa_os.Prelude.{
  ℕ, zero, suc, ◌+◌, ◌-◌, ◌%◌, ◌^◌, ◌≤◌, ◌<◌, ◌≡◌, refl, ap, ap₂, ◌∙◌, true, false, ◌&&◌, List, [],
  ◌∷◌, arith, ltb, leb, if◌then◌else◌, Option-cases, ==_refl, inl, inr,
}
use mesa_os.Fs.Ramfs.{
  Ramfs, bytes_at, copy_in, read, write_size, write, index_from, create_file, create_dir, mount,
  delete_file,
}

bytes_at-copy_in :
    (m buffer : ℕ → ℕ) (p n j k : ℕ)
    → j + k ≤ n
    → bytes_at (copy_in m p buffer n) (p + j) k ≡ bytes_at buffer j k
unfolding bytes_at
bytes_at-copy_in m buffer p n j zero h = refl
bytes_at-copy_in m buffer p n j (suc k) h =
    let inside : (leb p (p + j) && ltb (p + j) (p + n)) ≡ true = ground arith in
    let place : p + j - p ≡ j = omega arith in
    let next : p + j + 1 ≡ p + (j + 1) = omega arith in
    ap₂ ◌∷◌ (rw inside (ap buffer place)) (
      ap (λ a. bytes_at (copy_in m p buffer n) a k) next
      ∙ bytes_at-copy_in m buffer p n (j + 1) k (omega arith))

read-inside :
    (f : Ramfs) (node offset size : ℕ)
    → offset + size ≤ (f.nodes node).length
    → (f.nodes node).length < 2 ^ 32
    → read f node offset size
      ≡ (size, bytes_at f.memory (f.file_contents (f.nodes node).inode + offset) size)
unfolding read
read-inside f node offset size h l =
    let there : ltb (f.nodes node).length offset ≡ false = ground arith in
    let all : ltb (f.nodes node).length ((offset + size) % 2 ^ 32) ≡ false = ground arith in
    rw (there, all)

-- The node that was written to.
nodes-write :
    (f : Ramfs) (node offset size : ℕ) (buffer : ℕ → ℕ)
    → offset + size ≤ 4096
    → (write f node offset size buffer).0.nodes node ≡ record (f.nodes node) {
      length =
          if ltb (f.nodes node).length (offset + size)
          then offset + size
          else (f.nodes node).length;
    }
unfolding write
nodes-write f node offset size buffer h =
    let all : write_size offset size ≡ size = ground arith in
    let whole : (offset + size) % 2 ^ 32 ≡ offset + size = omega arith in
    rw (==_refl node, all, whole)

memory-write :
    (f : Ramfs) (node offset size : ℕ) (buffer : ℕ → ℕ)
    → offset + size ≤ 4096
    → (write f node offset size buffer).0.memory
      ≡ copy_in f.memory (f.file_contents (f.nodes node).inode + offset) buffer size
unfolding write
memory-write f node offset size buffer h =
    let all : write_size offset size ≡ size = ground arith in
    ap (copy_in f.memory (f.file_contents (f.nodes node).inode + offset) buffer) all

contents-write :
    (f : Ramfs) (node offset size : ℕ) (buffer : ℕ → ℕ)
    → (write f node offset size buffer).0.file_contents ≡ f.file_contents
unfolding write
contents-write f node offset size buffer = refl

-- For a node whose length fits 32 bits, and a range within the 4096 bytes of a block: what `write`
-- puts into the file is what `read` at the same offset and of the same size returns, and all of
-- it, also if the file was shorter before.
pub read-write :
    (f : Ramfs) (node offset size : ℕ) (buffer : ℕ → ℕ)
    → offset + size ≤ 4096
    → (f.nodes node).length < 2 ^ 32
    → read (write f node offset size buffer).0 node offset size ≡ (size, bytes_at buffer 0 size)
read-write f node offset size buffer h l =
    let g = (write f node offset size buffer).0 in
    let nd = f.nodes node in
    let written = nodes-write f node offset size buffer h in
    let grown : (g.nodes node).length
        ≡ (if ltb nd.length (offset + size) then offset + size else nd.length) =
      ap (λ d. d.length) written in
    let same_inode : (g.nodes node).inode ≡ nd.inode = ap (λ d. d.inode) written in
    let p = f.file_contents nd.inode + offset in
    let start : p ≡ p + 0 = omega arith in
    read-inside g node offset size (ground (arith, grown)) (ground (arith, grown))
    ∙ ap (λ b. (size, b))
        (ap (λ i. bytes_at g.memory (g.file_contents i + offset) size) same_inode
          ∙ ap (λ c. bytes_at g.memory (c nd.inode + offset) size)
              (contents-write f node offset size buffer)
          ∙ ap (λ m. bytes_at m p size) (memory-write f node offset size buffer h)
          ∙ ap (λ a. bytes_at (copy_in f.memory p buffer size) a size) start
          ∙ bytes_at-copy_in f.memory buffer p size 0 size (omega arith))

-- The calls that change the table of files.
pub data Call : Type 0 where
  file : List ℕ → List ℕ → ℕ → ℕ → Call
  dir : List ℕ → ℕ → Call
  mounted : ℕ → Call
  delete : List ℕ → Call
  written : ℕ → ℕ → ℕ → (ℕ → ℕ) → Call

unfoldable pub step : Ramfs → Call → Ramfs
step f (file name content node block) = (create_file f name content node block).0
step f (dir name node) = (create_dir f name node).0
step f (mounted node) = mount f node
step f (delete name) = (delete_file f name).0
step f (written node offset size buffer) = (write f node offset size buffer).0

unfoldable pub run : Ramfs → List Call → Ramfs
run f [] = f
run f (c ∷ cs) = run (step f c) cs

step-le : (f : Ramfs) (c : Call) → f.file_count ≤ 64 → (step f c).file_count ≤ 64
unfolding step create_file create_dir mount delete_file write
step-le f (file name content node block) h = ground arith
step-le f (dir name node) h = ground arith
step-le f (mounted node) h = ground arith
step-le f (delete name) h = elim (Option-cases (index_from f name 0 f.file_count)) [
  | inl missing ↦ rw (missing, step, delete_file) h
  | inr (i, found) ↦ rw (found, step, delete_file) (omega arith)
]
step-le f (written node offset size buffer) h = h

-- From a table of at most 64 files, no sequence of calls of `create_file`, `create_dir`, `mount`,
-- `delete_file` and `write` gets one of more than 64.
pub file_count-le : (f : Ramfs) (cs : List Call) → f.file_count ≤ 64 → (run f cs).file_count ≤ 64
unfolding run
file_count-le f [] h = h
file_count-le f (c ∷ cs) h = file_count-le (step f c) cs (step-le f c h)
