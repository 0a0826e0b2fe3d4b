-- ===== src/Apps/Nano.antt =====
-- kernel/apps/nano.cpp: the text of the editor with its cursor and clipboard, and what a key does. An
-- array is a function from the index. What is drawn is left out; the files are arguments.
pub mod Editing
mod Tests
use mesa_os.Prelude.{
  ℕ, zero, suc, ◌+◌, ◌-◌, ◌*◌, ◌^◌, Bool, true, false, not, ◌&&◌, ◌||◌, Option, none, some, List,
  [], ◌∷◌, length, ltb, leb, ◌==◌, if◌then◌else◌, update,
}
use mesa_os.Libc.{strlen}

-- `current_file` is its characters before the zero, of which an array of 128 must have room.
pub record Nano : Type 0 where
  pub buffer : ℕ → ℕ
  pub clipboard : ℕ → ℕ
  pub current_file : List ℕ
  pub cursor_pos : ℕ
  pub running : Bool
  pub show_help : Bool

-- The loop that moves the text behind `j` to the left, on fuel.
pub shift_left : (ℕ → ℕ) → ℕ → ℕ → ℕ → ℕ
shift_left b j zero = b
shift_left b j (suc f) =
    let rest = shift_left (update b j (b (j + 1))) (j + 1) f in if b j == 0 then b else rest

-- The loop of `cut_line`, over `i` with `n` rounds left: the buffer, the clipboard and `i`.
pub cut_from : (ℕ → ℕ) → (ℕ → ℕ) → ℕ → ℕ → ℕ → (ℕ → ℕ) × (ℕ → ℕ) × ℕ
cut_from b clip cursor i zero = (b, clip, i)
cut_from b clip cursor i (suc n) =
    let rest =
      cut_from (shift_left b cursor (2 ^ 12)) (update clip i (b cursor)) cursor (i + 1) n in
    if not (b cursor == 0) && not (b cursor == 10) then rest else (b, clip, i)

pub cut_line : Nano → Nano
cut_line n =
    let (b, clip, i) = cut_from n.buffer n.clipboard n.cursor_pos 0 511 in
    record n { buffer = b; clipboard = update clip i 0 }

-- The loop that moves the text from `cursor` on to the right, from its end with `k` characters left.
pub shift_right : (ℕ → ℕ) → ℕ → ℕ → ℕ → ℕ → ℕ
shift_right b cursor len zero = b
shift_right b cursor len (suc k) =
    shift_right (update b (cursor + k + len) (b (cursor + k))) cursor len k

pub insert_from : (ℕ → ℕ) → (ℕ → ℕ) → ℕ → ℕ → ℕ → ℕ → ℕ
insert_from b clip cursor i zero = b
insert_from b clip cursor i (suc k) =
    insert_from (update b (cursor + i) (clip i)) clip cursor (i + 1) k

pub paste_line : Nano → Nano
paste_line n =
    let len = strlen n.clipboard 0 in
    let buf_len = strlen n.buffer 0 in
    let shifted = shift_right n.buffer n.cursor_pos len (buf_len + 1 - n.cursor_pos) in
    if leb 4095 (n.cursor_pos + len) then n else record n {
      buffer = insert_from shifted n.clipboard n.cursor_pos 0 len;
      cursor_pos = n.cursor_pos + len;
    }

-- A key that is no command.
pub type_char : Nano → ℕ → Nano
type_char n c =
    if c == 8
    then if ltb 0 n.cursor_pos
      then record n { cursor_pos = n.cursor_pos - 1; buffer = update n.buffer (n.cursor_pos - 1) 0 }
      else n
    else if ltb n.cursor_pos 4095
    then record n {
      cursor_pos = n.cursor_pos + 1;
      buffer = update (update n.buffer n.cursor_pos c) (n.cursor_pos + 1) 0;
    }
    else n

pub starts_with : List ℕ → List ℕ → Bool
starts_with s [] = true
starts_with [] (p ∷ ps) = false
starts_with (c ∷ s) (p ∷ ps) = c == p && starts_with s ps

abbrev pub drop : ℕ → List ℕ → List ℕ
drop zero s = s
drop (suc k) [] = []
drop (suc k) (c ∷ s) = drop k s

-- `/disk/` and `disk/` are taken off the path of a new file.
pub new_name : List ℕ → List ℕ
new_name path =
    let disk = 100 ∷ 105 ∷ 115 ∷ 107 ∷ 47 ∷ [] in
    if starts_with path (47 ∷ disk)
    then drop 6 path
    else if starts_with path disk
    then drop 5 path
    else path

abbrev pub upper : ℕ → ℕ
upper c = if leb 97 c && leb c 122 then c - 97 + 65 else c

-- The file system: `find_path_fs` from the root, the length of a node, `read_fs` into an array,
-- `MesaFS::create_file`, and `write_fs` of the start of an array.
module _ {S N : Type 0} (find : S → List ℕ → Option N) (node_length : S → N → ℕ)
    (read_fs : S → N → ℕ → ℕ → (ℕ → ℕ) → (ℕ → ℕ)) (create_file : S → List ℕ → S × Option N)
    (write_fs : S → N → ℕ → ℕ → (ℕ → ℕ) → S) where
  pub open_node : S → List ℕ → S × Option N
  open_node s path = elim (find s path) [
    | some node ↦ (s, some node)
    | none ↦ create_file s (new_name path)
  ]

  pub save : S → Nano → S
  save s n =
      let (s', node) = open_node s n.current_file in
      if length n.current_file == 0
      then s
      else elim node [ none ↦ s' | some x ↦ write_fs s' x 0 (strlen n.buffer 0) n.buffer ]

  -- A null `filename` is `none`.
  pub start : S → Option (List ℕ) → Nano
  start s filename =
      let empty : Nano = record {
        buffer = λ i. 0;
        clipboard = λ i. 0;
        current_file = [];
        cursor_pos = 0;
        running = true;
        show_help = false;
      } in
      elim filename [
        | none ↦ empty
        | some path ↦ elim (find s path) [
          | none ↦ record empty { current_file = path }
          | some node ↦
              let b = read_fs s node 0 (node_length s node) (λ i. 0) in
              record empty { current_file = path; buffer = b; cursor_pos = strlen b 0 }
        ]
      ]

  -- A key without control.
  pub plain_input : S → Nano → ℕ → S × Nano
  plain_input s n c =
      if n.show_help
      then (s, n)
      else if c == 27
      then (save s n, record n { running = false })
      else (s, type_char n c)

  -- `ctrl` is `Keyboard::is_ctrl_pressed()`.
  pub handle_input : S → Nano → Bool → ℕ → S × Nano
  handle_input s n ctrl c =
      let key = upper c in
      if not n.running
      then (s, n)
      else if ctrl && key == 79
      then (save s n, n)
      else if ctrl && key == 88
      then (s, record n { running = false })
      else if ctrl && key == 71
      then (s, record n { show_help = not n.show_help })
      else if ctrl && key == 75
      then (s, cut_line n)
      else if ctrl && key == 85
      then (s, paste_line n)
      else if ctrl && (key == 67 || key == 87)
      then (s, n)
      else plain_input s n c
