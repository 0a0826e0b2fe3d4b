-- ===== src/Drivers/Vga/Cursor.antt =====
-- The bounds of the terminal in kernel/drivers/vga.cpp: the cursor, the terminals and the history.
use mesa_os.Prelude.{
  ℕ, ◌+◌, ◌-◌, ◌*◌, ◌≤◌, ◌<◌, ◌≡◌, refl, Bool, true, false, not, ◌||◌, List, [], ◌∷◌, arith, ltb,
  leb, ◌==◌, update, Bool-cases, if_cases, inl, inr,
}
use mesa_os.Drivers.Vga.{
  Vga, switch_tty, save_tty, load_tty, add_line_to_buffer, capture_line, render_view, scroll_up,
  scroll_down, set_color, put_entry_at, update_cursor, scroll, process_ansi_sequence, start_escape,
  collect_escape, new_line, print_char, put_visible, put_char, write_string, ends_sequence,
}

-- The bounds of the fields. The row is at most `bottom`: 24, or 25 while a line is to be scrolled.
pub record Bounds (bottom r c t : ℕ) (rs cs : ℕ → ℕ) (line offset : ℕ) (escape : Bool)
    (index place : ℕ) : Type 0 where
  pub row : r ≤ bottom
  pub column : c < 80
  pub tty : t < 4
  pub rows : (i : ℕ) → i < 4 → rs i ≤ 24
  pub columns : (i : ℕ) → i < 4 → cs i < 80
  pub history : line < 200
  pub view : offset ≤ 174
  pub sequence : escape ≡ true → index < 15
  pub at : place < 2000

abbrev pub IsOnScreen : ℕ → Vga → Type 0
IsOnScreen bottom v =
    Bounds bottom v.terminal_row v.terminal_column v.current_tty v.tty_rows v.tty_columns
      v.scroll_write_line v.scroll_view_offset v.in_escape v.escape_index v.cursor

-- What a user or a program does to the terminal.
pub data Op : Type 0 where
  put : ℕ → Op
  print : List ℕ → Op
  switch : ℕ → Op
  paint : ℕ → Op
  up down : Op

unfoldable pub step : Vga → Op → Vga
step v (put c) = put_char v c
step v (print s) = write_string v s
step v (switch t) = switch_tty v t
step v (paint color) = set_color v color
step v up = scroll_up v
step v down = scroll_down v

unfoldable pub run : Vga → List Op → Vga
run v [] = v
run v (o ∷ os) = run (step v o) os

module _ {b : ℕ} (v : Vga) (s : IsOnScreen b v) where
  capture_line-IsOnScreen : IsOnScreen b (capture_line v)
  unfolding add_line_to_buffer
  capture_line-IsOnScreen = record {
    row = s.row;
    column = s.column;
    tty = s.tty;
    rows = s.rows;
    columns = s.columns;
    history = omega arith;
    view = s.view;
    sequence = s.sequence;
    at = s.at;
  }

  put_entry_at-IsOnScreen : (c color x y : ℕ) → IsOnScreen b (put_entry_at v c color x y)
  unfolding put_entry_at
  put_entry_at-IsOnScreen c color x y =
      elim (Bool-cases (leb 80 x || leb 25 y || leb 4 v.current_tty || leb 2000 (y * 80 + x))) [
        | inl e ↦ rw e s
        | inr e ↦ rw e s
      ]

  moved :
      (r c : ℕ)
      → r ≤ 25
      → c < 80
      → IsOnScreen 25 (record v { terminal_row = r; terminal_column = c })
  moved r c p q = record {
    row = p;
    column = q;
    tty = s.tty;
    rows = s.rows;
    columns = s.columns;
    history = s.history;
    view = s.view;
    sequence = s.sequence;
    at = s.at;
  }

  render_view-IsOnScreen : IsOnScreen b (render_view v)
  unfolding render_view
  render_view-IsOnScreen = elim (Bool-cases (not v.scroll_mode || leb 4 v.current_tty)) [
    | inl e ↦ rw e s
    | inr e ↦ rw e s
  ]

  process_ansi_sequence-IsOnScreen :
      (q : ℕ → ℕ) (n : ℕ) → IsOnScreen b (process_ansi_sequence v q n)
  unfolding process_ansi_sequence
  process_ansi_sequence-IsOnScreen q n =
      elim (Bool-cases (ltb n 3 || not (q 0 == 27) || not (q 1 == 91))) [
        | inl e ↦ rw e s
        | inr e ↦ elim (Bool-cases (q (n - 1) == 109)) [ inl g ↦ rw (e, g) s | inr g ↦ rw (e, g) s ]
      ]

  update_cursor-IsOnScreen : b ≡ 24 → IsOnScreen 24 (update_cursor v)
  unfolding update_cursor
  update_cursor-IsOnScreen eq =
      elim (Bool-cases (leb 25 v.terminal_row || leb 80 v.terminal_column)) [
        | inl e ↦ absurd (ground (arith, s.row, s.column))
        | inr e ↦ rw e (record {
          row = omega (arith, s.row);
          column = s.column;
          tty = s.tty;
          rows = s.rows;
          columns = s.columns;
          history = s.history;
          view = s.view;
          sequence = s.sequence;
          at = omega (arith, s.row, s.column);
        })
      ]

  scroll-IsOnScreen : IsOnScreen 24 (scroll v)
  unfolding scroll
  scroll-IsOnScreen = elim (Bool-cases (ltb v.terminal_row 25)) [
    | inl e ↦ rw e (record {
      row = ground arith;
      column = s.column;
      tty = s.tty;
      rows = s.rows;
      columns = s.columns;
      history = s.history;
      view = s.view;
      sequence = s.sequence;
      at = s.at;
    })
    | inr e ↦ rw e (record {
      row = omega arith;
      column = s.column;
      tty = s.tty;
      rows = s.rows;
      columns = s.columns;
      history = s.history;
      view = s.view;
      sequence = s.sequence;
      at = s.at;
    })
  ]

-- Out of an escape sequence.
closed :
    {r c t line offset index place : ℕ} {rs cs : ℕ → ℕ} {esc : Bool}
    → Bounds 24 r c t rs cs line offset esc index place
    → (k : ℕ) → Bounds 24 r c t rs cs line offset false k place
closed s k = record {
  row = s.row;
  column = s.column;
  tty = s.tty;
  rows = s.rows;
  columns = s.columns;
  history = s.history;
  view = s.view;
  sequence = λ f. cc;
  at = s.at;
}

module _ (v : Vga) (s : IsOnScreen 24 v) where
  print_char-IsOnScreen : (c : ℕ) → IsOnScreen 25 (print_char v c)
  unfolding print_char
  print_char-IsOnScreen c =
      let v' = put_entry_at v c v.terminal_color v.terminal_column v.terminal_row in
      let put = put_entry_at-IsOnScreen v s c v.terminal_color v.terminal_column v.terminal_row in
      elim (Bool-cases (leb 80 (v.terminal_column + 1))) [
        | inl e ↦ rw e (moved v' put (v.terminal_row + 1) 0 (omega (arith, s.row)) (omega arith))
        | inr e ↦ rw e (
            moved v' put v'.terminal_row (v.terminal_column + 1) (omega (arith, put.row))
              (ground arith))
      ]

  new_line-IsOnScreen : v.scroll_mode ≡ false → IsOnScreen 25 (new_line v)
  unfolding new_line add_line_to_buffer
  new_line-IsOnScreen e = rw e (
      moved (capture_line v) (capture_line-IsOnScreen v s) (v.terminal_row + 1) 0
        (omega (arith, s.row)) (omega arith))

  put_visible-IsOnScreen : (c : ℕ) → v.scroll_mode ≡ false → IsOnScreen 25 (put_visible v c)
  unfolding put_visible
  put_visible-IsOnScreen c live = elim (Bool-cases (c == 10)) [
    | inl e ↦ rw e (new_line-IsOnScreen live)
    | inr e ↦ elim (Bool-cases (c == 8)) [
      | inl g ↦ elim (Bool-cases (ltb 0 v.terminal_column)) [
        | inl h ↦
            rw (e, g, h)
              (moved v s v.terminal_row (v.terminal_column - 1) (omega (arith, s.row))
                (omega (arith, s.column)))
        | inr h ↦
            rw (e, g, h)
              (moved v s v.terminal_row v.terminal_column (omega (arith, s.row)) s.column)
      ]
      | inr g ↦ elim (Bool-cases (leb 32 c)) [
        | inl h ↦ rw (e, g, h) (print_char-IsOnScreen c)
        | inr h ↦
            rw (e, g, h)
              (moved v s v.terminal_row v.terminal_column (omega (arith, s.row)) s.column)
      ]
    ]
  ]

  collect_escape-IsOnScreen : (c : ℕ) → IsOnScreen 24 (collect_escape v c)
  unfolding collect_escape
  collect_escape-IsOnScreen c =
      let q = update v.escape_buffer v.escape_index c in
      let longer : Vga = record v { escape_buffer = q; escape_index = v.escape_index + 1 } in
      if_cases (IsOnScreen 24) (leb 15 (v.escape_index + 1)) (λ e. closed s (v.escape_index + 1))
        (λ e.
          let safe : v.in_escape ≡ true → v.escape_index + 1 < 15 = λ f. ground arith in
          let s' : IsOnScreen 24 longer = record {
            row = s.row;
            column = s.column;
            tty = s.tty;
            rows = s.rows;
            columns = s.columns;
            history = s.history;
            view = s.view;
            sequence = safe;
            at = s.at;
          } in
          if_cases (IsOnScreen 24) (ends_sequence c)
            (λ f.
              let w = process_ansi_sequence longer q (v.escape_index + 1) in
              closed (process_ansi_sequence-IsOnScreen longer s' q (v.escape_index + 1))
                w.escape_index)
            (λ f. s'))

  start_escape-IsOnScreen : IsOnScreen 24 (start_escape v)
  unfolding start_escape
  start_escape-IsOnScreen = record {
    row = s.row;
    column = s.column;
    tty = s.tty;
    rows = s.rows;
    columns = s.columns;
    history = s.history;
    view = s.view;
    sequence = λ f. omega arith;
    at = s.at;
  }

  pub put_char-IsOnScreen : (c : ℕ) → IsOnScreen 24 (put_char v c)
  unfolding put_char
  put_char-IsOnScreen c =
      let next = put_visible v c in
      if_cases (IsOnScreen 24) v.scroll_mode
        (λ e. if_cases (IsOnScreen 24) (c == 10) (λ f. capture_line-IsOnScreen v s) (λ f. s))
        (λ e.
          if_cases (IsOnScreen 24) (c == 27) (λ f. start_escape-IsOnScreen)
            (λ f.
              if_cases (IsOnScreen 24) v.in_escape (λ g. collect_escape-IsOnScreen c)
                (λ g.
                  update_cursor-IsOnScreen (scroll next)
                    (scroll-IsOnScreen next (put_visible-IsOnScreen c e)) refl)))

  switch_tty-IsOnScreen : (t : ℕ) → IsOnScreen 24 (switch_tty v t)
  unfolding switch_tty load_tty save_tty
  switch_tty-IsOnScreen t = elim (Bool-cases (leb 4 t || t == v.current_tty)) [
    | inl e ↦ rw e s
    | inr e ↦
        let saved_rows : (i : ℕ) → i < 4 → update v.tty_rows v.current_tty v.terminal_row i ≤ 24 =
          λ i h. ground (arith, s.rows i h, s.row) in
        let saved_columns : (i : ℕ)
            → i < 4
            → update v.tty_columns v.current_tty v.terminal_column i < 80 =
          λ i h. ground (arith, s.columns i h, s.column) in
        let low : t < 4 = ground arith in
        rw e (record {
          row = saved_rows t low;
          column = saved_columns t low;
          tty = low;
          rows = saved_rows;
          columns = saved_columns;
          history = s.history;
          view = s.view;
          sequence = s.sequence;
          at = omega (arith, saved_rows t low, saved_columns t low);
        })
  ]

  shifted :
      (o : ℕ) (m : Bool)
      → o ≤ 174
      → IsOnScreen 24 (record v { scroll_view_offset = o; scroll_mode = m })
  shifted o m h = record {
    row = s.row;
    column = s.column;
    tty = s.tty;
    rows = s.rows;
    columns = s.columns;
    history = s.history;
    view = h;
    sequence = s.sequence;
    at = s.at;
  }

  scroll_up-IsOnScreen : IsOnScreen 24 (scroll_up v)
  unfolding scroll_up
  scroll_up-IsOnScreen = elim (Bool-cases (leb (200 - 25 - 1) v.scroll_view_offset)) [
    | inl e ↦ rw e s
    | inr e ↦
        rw e (render_view-IsOnScreen _ (shifted (v.scroll_view_offset + 1) true (ground arith)))
  ]

  scroll_down-IsOnScreen : IsOnScreen 24 (scroll_down v)
  unfolding scroll_down
  scroll_down-IsOnScreen =
      let less : v.scroll_view_offset - 1 ≤ 174 = omega (arith, s.view) in
      elim (Bool-cases (v.scroll_view_offset == 0)) [
        | inl e ↦ rw e s
        | inr e ↦ elim (Bool-cases (v.scroll_view_offset - 1 == 0)) [
          | inl g ↦ rw (e, g) (shifted (v.scroll_view_offset - 1) false less)
          | inr g ↦
              rw (e, g)
                (render_view-IsOnScreen _ (shifted (v.scroll_view_offset - 1) v.scroll_mode less))
        ]
      ]

write_string-IsOnScreen :
    (q : List ℕ) (v : Vga) → IsOnScreen 24 v → IsOnScreen 24 (write_string v q)
unfolding write_string
write_string-IsOnScreen [] v s = s
write_string-IsOnScreen (c ∷ q) v s =
    write_string-IsOnScreen q (put_char v c) (put_char-IsOnScreen v s c)

step-IsOnScreen : (o : Op) (v : Vga) → IsOnScreen 24 v → IsOnScreen 24 (step v o)
unfolding step set_color
step-IsOnScreen (put c) v s = put_char-IsOnScreen v s c
step-IsOnScreen (print q) v s = write_string-IsOnScreen q v s
step-IsOnScreen (switch t) v s = switch_tty-IsOnScreen v s t
step-IsOnScreen (paint color) v s = s
step-IsOnScreen up v s = scroll_up-IsOnScreen v s
step-IsOnScreen down v s = scroll_down-IsOnScreen v s

-- Whatever is printed, in whatever colours, and however one switches between the terminals and
-- scrolls: the cursor stays within the 25 rows and 80 columns of the screen, in each terminal, and
-- the indices into the terminals, the history and the buffer of an escape sequence stay within
-- their arrays, if they are at the start.
pub run-IsOnScreen : (v : Vga) (os : List Op) → IsOnScreen 24 v → IsOnScreen 24 (run v os)
unfolding run
run-IsOnScreen v [] s = s
run-IsOnScreen v (o ∷ os) s = run-IsOnScreen (step v o) os (step-IsOnScreen o v s)
