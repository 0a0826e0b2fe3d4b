-- ===== src/Drivers/Vga.antt =====
-- kernel/drivers/vga.cpp and kernel/drivers/vga.hpp: the text screen with its four terminals, its
-- history of lines, and the escape sequences for colours. An array is a function from the index, a
-- character an unsigned byte. The pointer to the screen is a constant and never null.
pub mod Color
pub mod Cursor
pub mod Ttys
pub mod Text
pub mod History
mod Tests
use Color.{vga_entry_color, vga_entry, VgaColor, set_color_from_ansi}
use mesa_os.Prelude.{
  ℕ, zero, suc, ◌+◌, ◌-◌, ◌*◌, ◌/◌, ◌%◌, ◌^◌, Bool, true, false, not, ◌&&◌, ◌||◌, List, [], ◌∷◌,
  bit_and, ltb, leb, ◌==◌, if◌then◌else◌, update,
}
use mesa_os.Libc.{strlen}

-- The place of the hardware's cursor, which the ports set, is `cursor`.
pub record Vga : Type 0 where
  pub terminal_row : ℕ
  pub terminal_column : ℕ
  pub terminal_color : ℕ
  pub terminal_buffer : ℕ → ℕ
  pub current_tty : ℕ
  pub tty_buffers : ℕ → ℕ → ℕ
  pub tty_rows : ℕ → ℕ
  pub tty_columns : ℕ → ℕ
  pub tty_colors : ℕ → ℕ
  pub scroll_buffer : ℕ → ℕ → ℕ
  pub scroll_write_line : ℕ
  pub scroll_view_offset : ℕ
  pub scroll_mode : Bool
  pub in_escape : Bool
  pub escape_buffer : ℕ → ℕ
  pub escape_index : ℕ
  pub cursor : ℕ

abbrev pub buffer_size : ℕ
buffer_size = 2000

abbrev pub scroll_buffer_lines : ℕ
scroll_buffer_lines = 200

-- `vga_entry(' ', …)` in light grey on black.
abbrev pub blank_entry : ℕ
blank_entry = vga_entry 32 (vga_entry_color VgaColor.light_grey VgaColor.black)

pub clear_ttys : (ℕ → ℕ → ℕ) → ℕ → ℕ → ℕ
clear_ttys b t i = if ltb t 4 && ltb i buffer_size then blank_entry else b t i

pub initialize : Vga → Vga
initialize v = record v {
  terminal_row = 0;
  terminal_column = 0;
  terminal_color = vga_entry_color VgaColor.light_grey VgaColor.black;
  tty_buffers = clear_ttys v.tty_buffers;
  terminal_buffer = λ i. if ltb i buffer_size then blank_entry else v.terminal_buffer i;
  current_tty = 0;
  scroll_buffer = λ l i. if ltb l scroll_buffer_lines && ltb i 80 then 32 else v.scroll_buffer l i;
  scroll_write_line = 0;
  scroll_view_offset = 0;
  scroll_mode = false;
}

-- The bytes of the position that go to the two ports, put together again by the hardware.
abbrev pub cursor_at : ℕ → ℕ → ℕ
cursor_at row col = (row * 80 + col) % 2 ^ 16

-- `memcpy` of a whole screen.
abbrev pub copy_screen : (ℕ → ℕ) → (ℕ → ℕ) → ℕ → ℕ
copy_screen dst src i = if ltb i buffer_size then src i else dst i

pub save_tty : Vga → Vga
save_tty v = record v {
  tty_rows = update v.tty_rows v.current_tty v.terminal_row;
  tty_columns = update v.tty_columns v.current_tty v.terminal_column;
  tty_colors = update v.tty_colors v.current_tty v.terminal_color;
  tty_buffers =
      update v.tty_buffers v.current_tty
        (copy_screen (v.tty_buffers v.current_tty) v.terminal_buffer);
}

pub load_tty : Vga → ℕ → Vga
load_tty v t = record v {
  current_tty = t;
  terminal_row = v.tty_rows t;
  terminal_column = v.tty_columns t;
  terminal_color = v.tty_colors t;
  terminal_buffer = copy_screen v.terminal_buffer (v.tty_buffers t);
  cursor = cursor_at (v.tty_rows t) (v.tty_columns t);
}

-- A negative number of a terminal is one from 2 ^ 31 on.
pub switch_tty : Vga → ℕ → Vga
switch_tty v t = if leb 4 t || t == v.current_tty then v else load_tty (save_tty v) t

-- `line` is the address of a string in the memory `m`, and not null.
pub add_line_to_buffer : Vga → (ℕ → ℕ) → ℕ → Vga
add_line_to_buffer v m line =
    let line_len = strlen m line in
    record v {
      scroll_buffer = update v.scroll_buffer v.scroll_write_line (λ i.
          if ltb i 80
          then if ltb i line_len then m (line + i) else 32
          else v.scroll_buffer v.scroll_write_line i);
      scroll_write_line = (v.scroll_write_line + 1) % scroll_buffer_lines;
    }

-- The first line of the view; the sum is one of 32-bit words.
pub start_line : Vga → ℕ
start_line v =
    (v.scroll_write_line + (2 ^ 32 - v.scroll_view_offset) + (2 ^ 32 - 25) + scroll_buffer_lines)
    % 2 ^ 32
    % scroll_buffer_lines

-- The entry of the view at an index of the screen.
pub view_entry : Vga → ℕ → ℕ
view_entry v i =
    let c = v.scroll_buffer ((start_line v + i / 80) % scroll_buffer_lines) (i % 80) in
    vga_entry (if c == 0 then 32 else c) v.terminal_color

pub render_view : Vga → Vga
render_view v = if not v.scroll_mode || leb 4 v.current_tty then v else record v {
  terminal_buffer = copy_screen v.terminal_buffer (view_entry v);
  tty_buffers =
      update v.tty_buffers v.current_tty (copy_screen (v.tty_buffers v.current_tty) (view_entry v));
}

-- `[SCROLL-  ]`, with the offset where it has two digits.
pub scroll_message : ℕ → List ℕ
scroll_message offset =
    let tens = if ltb offset 100 then 48 + offset / 10 else 32 in
    let ones = if ltb offset 100 then 48 + offset % 10 else 32 in
    91 ∷ 83 ∷ 67 ∷ 82 ∷ 79 ∷ 76 ∷ 76 ∷ 45 ∷ tens ∷ ones ∷ 93 ∷ []

pub print_message : (ℕ → ℕ) → ℕ → List ℕ → ℕ → ℕ
print_message b i [] = b
print_message b i (c ∷ msg) =
    let entry = vga_entry c (vga_entry_color VgaColor.black VgaColor.light_grey) in
    print_message (if ltb i buffer_size then update b i entry else b) (i + 1) msg

pub scroll_up : Vga → Vga
scroll_up v =
    let v' : Vga = record v { scroll_view_offset = v.scroll_view_offset + 1; scroll_mode = true } in
    let shown = render_view v' in
    if leb (scroll_buffer_lines - 25 - 1) v.scroll_view_offset then v else record shown {
      terminal_buffer =
          print_message shown.terminal_buffer 68 (scroll_message shown.scroll_view_offset);
    }

pub scroll_down : Vga → Vga
scroll_down v =
    let v' : Vga = record v { scroll_view_offset = v.scroll_view_offset - 1 } in
    if v.scroll_view_offset == 0
    then v
    else if v.scroll_view_offset - 1 == 0
    then record v' {
      scroll_mode = false;
      terminal_buffer =
          if ltb v.current_tty 4
          then copy_screen v.terminal_buffer (v.tty_buffers v.current_tty)
          else v.terminal_buffer;
    }
    else render_view v'

pub set_color : Vga → ℕ → Vga
set_color v color = record v { terminal_color = color }

pub put_entry_at : Vga → ℕ → ℕ → ℕ → ℕ → Vga
put_entry_at v c color x y =
    let i = y * 80 + x in
    if leb 80 x || leb 25 y || leb 4 v.current_tty || leb buffer_size i then v else record v {
      terminal_buffer = update v.terminal_buffer i (vga_entry c color);
      tty_buffers =
          update v.tty_buffers v.current_tty
            (update (v.tty_buffers v.current_tty) i (vga_entry c color));
    }

pub update_cursor : Vga → Vga
update_cursor v =
    if leb 25 v.terminal_row || leb 80 v.terminal_column
    then v
    else record v { cursor = cursor_at v.terminal_row v.terminal_column }

-- The screen one line up, with a blank last line.
unfoldable pub scroll_screen : (ℕ → ℕ) → ℕ → ℕ
scroll_screen b i =
    if ltb i (24 * 80) then b (i + 80) else if ltb i buffer_size then blank_entry else b i

pub scroll : Vga → Vga
scroll v =
    if ltb v.terminal_row 25
    then v
    else record v { terminal_buffer = scroll_screen v.terminal_buffer; terminal_row = 24 }

-- The characters of the current row as a string of at most 80, in an array of 81.
pub current_line : Vga → ℕ → ℕ
current_line v i =
    let place = v.terminal_row * 80 + i in
    if ltb i 80 && ltb place buffer_size then bit_and (v.terminal_buffer place) 0xff else 0

abbrev pub capture_line : Vga → Vga
capture_line v = add_line_to_buffer v (current_line v) 0

-- `escape_buffer` from `i` on, with `n` characters left: the codes of a sequence for colours.
pub parse_codes : (ℕ → ℕ) → ℕ → ℕ → ℕ → Bool → ℕ → ℕ
parse_codes s i zero code parsing color = if parsing then set_color_from_ansi code else color
parse_codes s i (suc n) code parsing color =
    let c = s i in
    elim (leb 48 c && leb c 57) [
      | true ↦ parse_codes s (i + 1) n ((code * 10 + (c - 48)) % 2 ^ 32) true color
      | false ↦ elim (c == 59) [
        | true ↦ parse_codes s (i + 1) n 0 false (set_color_from_ansi code)
        | false ↦ parse_codes s (i + 1) n code parsing color
      ]
    ]

pub process_ansi_sequence : Vga → (ℕ → ℕ) → ℕ → Vga
process_ansi_sequence v s length =
    if ltb length 3 || not (s 0 == 27) || not (s 1 == 91)
    then v
    else if s (length - 1) == 109
    then record v { terminal_color = parse_codes s 2 (length - 1 - 2) 0 false v.terminal_color }
    else v

-- `A` to `Z`, `a` to `z`, `@` and the back quote.
abbrev pub ends_sequence : ℕ → Bool
ends_sequence c = leb 65 c && leb c 90 || leb 97 c && leb c 122 || c == 64 || c == 96

pub start_escape : Vga → Vga
start_escape v = record v {
  in_escape = true;
  escape_index = 1;
  escape_buffer = update v.escape_buffer 0 27;
}

pub collect_escape : Vga → ℕ → Vga
collect_escape v c =
    let v' : Vga = record v {
      escape_buffer = update v.escape_buffer v.escape_index c;
      escape_index = v.escape_index + 1;
    } in
    let done = process_ansi_sequence v' v'.escape_buffer v'.escape_index in
    if leb 15 v'.escape_index
    then record v' { in_escape = false }
    else if ends_sequence c
    then record done { in_escape = false }
    else v'

-- The test of `scroll_mode` at its end is never true, as `put_char` returns before.
pub new_line : Vga → Vga
new_line v =
    let v' = capture_line v in
    let v'' : Vga = record v' { terminal_column = 0; terminal_row = v.terminal_row + 1 } in
    if v'.scroll_mode then record v'' { scroll_mode = false; scroll_view_offset = 0 } else v''

pub print_char : Vga → ℕ → Vga
print_char v c =
    let v' = put_entry_at v c v.terminal_color v.terminal_column v.terminal_row in
    if leb 80 (v.terminal_column + 1)
    then record v' { terminal_column = 0; terminal_row = v.terminal_row + 1 }
    else record v' { terminal_column = v.terminal_column + 1 }

-- A character outside of an escape sequence, before the screen is scrolled.
pub put_visible : Vga → ℕ → Vga
put_visible v c =
    if c == 10
    then new_line v
    else if c == 8
    then if ltb 0 v.terminal_column then record v { terminal_column = v.terminal_column - 1 } else v
    else if leb 32 c
    then print_char v c
    else v

pub put_char : Vga → ℕ → Vga
put_char v c =
    if v.scroll_mode
    then if c == 10 then capture_line v else v
    else if c == 27
    then start_escape v
    else if v.in_escape
    then collect_escape v c
    else update_cursor (scroll (put_visible v c))

-- The loop of `write`, over `i` with `n` rounds left.
pub write_from : Vga → (ℕ → ℕ) → ℕ → ℕ → Vga
write_from v data_ i zero = v
write_from v data_ i (suc n) = write_from (put_char v (data_ i)) data_ (i + 1) n

pub write : Vga → (ℕ → ℕ) → ℕ → Vga
write v data_ size = write_from v data_ 0 size

-- The characters of the string, without the zero that ends it.
pub write_string : Vga → List ℕ → Vga
write_string v [] = v
write_string v (c ∷ s) = write_string (put_char v c) s
