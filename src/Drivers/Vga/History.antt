-- ===== src/Drivers/Vga/History.antt =====
-- The end of a line in kernel/drivers/vga.cpp, and the view back into the history.
use mesa_os.Prelude.{
  ℕ, ◌+◌, ◌-◌, ◌*◌, ◌%◌, ◌≤◌, ◌<◌, ◌≡◌, ◌≢◌, refl, sym, ap, ◌∙◌, true, false, not, ◌&&◌, ◌||◌,
  arith, ltb, leb, bit_and, ◌==◌, if◌then◌else◌, update, Bool-cases, if_true, if_false, inl, inr,
  min,
}
use mesa_os.Libc.{strlen}
use mesa_os.Libc.Strings.{strlen_lem, IsString}
use mesa_os.Drivers.Vga.{
  Vga, put_char, put_visible, new_line, capture_line, current_line, add_line_to_buffer, scroll,
  scroll_screen, update_cursor, scroll_up, scroll_down, render_view, view_entry, copy_screen,
  blank_entry, cursor_at, print_message, scroll_message, start_line,
}
use mesa_os.Drivers.Vga.Text.{IsLive}

-- A row whose characters are none of them zero.
abbrev pub IsFilled : Vga → Type 0
IsFilled v = (i : ℕ) → i < 80 → bit_and (v.terminal_buffer (v.terminal_row * 80 + i)) 0xff ≢ 0

current_line_lem :
    (v : Vga) (i : ℕ)
    → v.terminal_row ≤ 24
    → i < 80
    → current_line v i ≡ bit_and (v.terminal_buffer (v.terminal_row * 80 + i)) 0xff
unfolding current_line
current_line_lem v i r h =
    let in_ : (ltb i 80 && ltb (v.terminal_row * 80 + i) 2000) ≡ true = ground (arith, r, h) in
    if_true _ _ in_

-- As `strlen` reads it.
line_from : (v : Vga) (i : ℕ) → current_line v (0 + i) ≡ current_line v i
line_from v i = ap (current_line v) (omega arith)

current_line-IsString :
    (v : Vga) → v.terminal_row ≤ 24 → IsFilled v → IsString (current_line v) 0 80
unfolding current_line
current_line-IsString v r full = record {
  chars = λ i h e. full i h (sym (current_line_lem v i r h) ∙ sym (line_from v i) ∙ e);
  end = refl;
  short = omega arith;
}

-- The line that `put_char` takes into the history.
capture_line_lem :
    (v : Vga) (i : ℕ)
    → v.terminal_row ≤ 24
    → IsFilled v
    → i < 80
    → (capture_line v).scroll_buffer v.scroll_write_line i
      ≡ bit_and (v.terminal_buffer (v.terminal_row * 80 + i)) 0xff
unfolding add_line_to_buffer
capture_line_lem v i r full h =
    let whole : strlen (current_line v) 0 ≡ 80 =
      strlen_lem (current_line v) 0 80 (current_line-IsString v r full) in
    let same : (v.scroll_write_line == v.scroll_write_line) ≡ true = ground arith in
    let in_ : ltb i 80 ≡ true = ground (arith, h) in
    rw (same, whole, in_) (line_from v i ∙ current_line_lem v i r h)

-- The screen after a line feed.
pub fed : (ℕ → ℕ) → ℕ → ℕ → ℕ
fed b row i = if ltb row 24 then b i else if ltb i 1920 then b (i + 80) else blank_entry

ended : Vga → Vga
ended v =
    let w = capture_line v in record w { terminal_column = 0; terminal_row = v.terminal_row + 1 }

put_char-ended : (v : Vga) → IsLive v → put_char v 10 ≡ update_cursor (scroll (ended v))
unfolding put_char put_visible new_line ended add_line_to_buffer
put_char-ended v s =
    if_false _ _ s.live
    ∙ if_false _ _ s.plain
    ∙ ap (λ (w : Vga). update_cursor (scroll w)) (if_false _ _ s.live)

-- On a terminal that is neither scrolled back nor in an escape sequence, in a row without zero
-- characters, a line feed puts that row into the history and goes to the start of the next row;
-- from the last row the screen moves up by one row instead, with a blank row at its end.
pub put_char_newline :
    (v : Vga) (i : ℕ)
    → IsLive v
    → IsFilled v
    → i < 2000
    → ((put_char v 10).terminal_column ≡ 0)
      × ((put_char v 10).terminal_row ≡ min (v.terminal_row + 1) 24)
      × ((put_char v 10).terminal_buffer i ≡ fed v.terminal_buffer v.terminal_row i)
      × ((put_char v 10).scroll_write_line ≡ (v.scroll_write_line + 1) % 200)
      × ((c : ℕ)
          → c < 80
          → (put_char v 10).scroll_buffer v.scroll_write_line c
            ≡ bit_and (v.terminal_buffer (v.terminal_row * 80 + c)) 0xff)
unfolding ended scroll update_cursor add_line_to_buffer fed scroll_screen
put_char_newline v i s full h = elim (Bool-cases (ltb (v.terminal_row + 1) 25)) [
  | inl e ↦
      let shown : (leb 25 (v.terminal_row + 1) || leb 80 0) ≡ false = ground arith in
      let at : put_char v 10 ≡ record (ended v) { cursor = cursor_at (v.terminal_row + 1) 0 } =
        put_char-ended v s ∙ ap update_cursor (if_true _ _ e) ∙ if_false _ _ shown in
      let stays : ltb v.terminal_row 24 ≡ true = ground arith in
      rw at (
        refl,
        ground arith,
        sym (if_true _ _ stays),
        refl,
        λ c k. capture_line_lem v c s.row full k,
      )
  | inr e ↦
      let bottom : ltb v.terminal_row 24 ≡ false = ground arith in
      let low : leb 25 24 || leb 80 0 ≡ false = refl in
      let inside : ltb i 2000 ≡ true = ground (arith, h) in
      let at : put_char v 10 ≡ record (ended v) {
        terminal_buffer = scroll_screen v.terminal_buffer;
        terminal_row = 24;
        cursor = cursor_at 24 0;
      } =
        put_char-ended v s ∙ ap update_cursor (if_false _ _ e) in
      rw at (
        refl,
        ground (arith, s.row),
        rw (bottom, inside) refl,
        refl,
        λ c k. capture_line_lem v c s.row full k,
      )
]

-- From the live view, a scroll up and down again leaves the screen at the view one line back into
-- the history, and does not bring back what it showed.
pub scroll_down-scroll_up :
    (v : Vga) (i : ℕ)
    → v.scroll_view_offset ≡ 0
    → v.current_tty < 4
    → i < 2000
    → (scroll_down (scroll_up v)).terminal_buffer i
      ≡ view_entry (record v { scroll_view_offset = 1 }) i
unfolding scroll_up scroll_down render_view view_entry start_line
scroll_down-scroll_up v i e h k =
    let above : Vga = record v {
      scroll_view_offset = v.scroll_view_offset + 1;
      scroll_mode = true;
    } in
    let mirror = v.tty_buffers v.current_tty in
    let shown : Vga = record above {
      terminal_buffer = copy_screen v.terminal_buffer (view_entry above);
      tty_buffers = update v.tty_buffers v.current_tty (copy_screen mirror (view_entry above));
    } in
    let message : Vga → Vga = λ w. record w {
      terminal_buffer = print_message w.terminal_buffer 68 (scroll_message w.scroll_view_offset);
    } in
    let first : leb (200 - 25 - 1) v.scroll_view_offset ≡ false = ground arith in
    let tty : (not true || leb 4 v.current_tty) ≡ false = ground (arith, h) in
    let up : scroll_up v ≡ message shown = if_false _ _ first ∙ ap message (if_false _ _ tty) in
    let scrolled : (v.scroll_view_offset + 1 == 0) ≡ false = ground arith in
    let last : (v.scroll_view_offset + 1 - 1 == 0) ≡ true = ground (arith, e) in
    let same : (v.current_tty == v.current_tty) ≡ true = ground arith in
    let good : ltb v.current_tty 4 ≡ true = ground (arith, h) in
    let inside : ltb i 2000 ≡ true = ground (arith, k) in
    let one : v.scroll_view_offset + 1 ≡ 1 = omega (arith, e) in
    ap (λ (w : Vga). (scroll_down w).terminal_buffer i) up
    ∙ ap (λ (w : Vga). w.terminal_buffer i) (if_false _ _ scrolled ∙ if_true _ _ last)
    ∙ ap (λ (b : ℕ → ℕ). b i) (if_true _ _ good)
    ∙ if_true _ _ inside
    ∙ ap (λ (b : ℕ → ℕ). b i) (if_true (copy_screen mirror (view_entry above)) mirror same)
    ∙ if_true _ _ inside
    ∙ ap (λ (o : ℕ). view_entry (record v { scroll_view_offset = o }) i) one
