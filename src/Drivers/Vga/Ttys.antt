-- ===== src/Drivers/Vga/Ttys.antt =====
-- The four terminals of kernel/drivers/vga.cpp do not disturb each other.
use mesa_os.Prelude.{
  ℕ, ◌+◌, ◌-◌, ◌*◌, ◌<◌, ◌≡◌, ◌≢◌, refl, sym, ap, ◌∙◌, Bool, true, false, not, ◌&&◌, ◌||◌, List, [],
  ◌∷◌, arith, ltb, leb, ◌==◌, update, Bool-cases, if_cases, inl, inr,
}
use mesa_os.Drivers.Vga.{
  Vga, switch_tty, save_tty, load_tty, add_line_to_buffer, render_view, scroll_up, scroll_down,
  set_color, put_entry_at, update_cursor, scroll, process_ansi_sequence, start_escape,
  collect_escape, new_line, print_char, put_visible, put_char, write_string, ends_sequence,
  copy_screen,
}
use mesa_os.Drivers.Vga.Cursor.{Op, step, run, IsOnScreen}

-- The saved state of the terminals other than the current one.
record Same (t t' : ℕ) (rs rs' cs cs' ks ks' : ℕ → ℕ) (bs bs' : ℕ → ℕ → ℕ) : Type 0 where
  tty : t' ≡ t
  rows : rs' ≡ rs
  columns : cs' ≡ cs
  colors : ks' ≡ ks
  others : (u i : ℕ) → u ≢ t → bs' u i ≡ bs u i

abbrev Keeps : Vga → Vga → Type 0
Keeps v w =
    Same v.current_tty w.current_tty v.tty_rows w.tty_rows v.tty_columns w.tty_columns v.tty_colors
      w.tty_colors v.tty_buffers w.tty_buffers

kept : (v : Vga) → Keeps v v
kept v = record { tty = refl; rows = refl; columns = refl; colors = refl; others = λ u i n. refl }

then_ : (u v w : Vga) → Keeps u v → Keeps v w → Keeps u w
then_ u v w p q = record {
  tty = q.tty ∙ p.tty;
  rows = q.rows ∙ p.rows;
  columns = q.columns ∙ p.columns;
  colors = q.colors ∙ p.colors;
  others = λ t i n. q.others t i (λ e. n (e ∙ p.tty)) ∙ p.others t i n;
}

other : (b : ℕ → ℕ → ℕ) (t u i : ℕ) (s : ℕ → ℕ) → u ≢ t → update b t s u i ≡ b u i
other b t u i s n = elim (Bool-cases (t == u)) [
  | inl e ↦ absurd (ground (arith, e, n))
  | inr e ↦ rw e refl
]

module _ (v : Vga) where
  written : (s : ℕ → ℕ) → Keeps v (record v { tty_buffers = update v.tty_buffers v.current_tty s })
  written s = record {
    tty = refl;
    rows = refl;
    columns = refl;
    colors = refl;
    others = λ u i n. other v.tty_buffers v.current_tty u i s n;
  }

  put_entry_at-Keeps : (c color x y : ℕ) → Keeps v (put_entry_at v c color x y)
  unfolding put_entry_at
  put_entry_at-Keeps c color x y =
      if_cases (Keeps v) (leb 80 x || leb 25 y || leb 4 v.current_tty || leb 2000 (y * 80 + x))
        (λ e. kept v) (λ e. written _)

  render_view-Keeps : Keeps v (render_view v)
  unfolding render_view
  render_view-Keeps =
      if_cases (Keeps v) (not v.scroll_mode || leb 4 v.current_tty) (λ e. kept v) (λ e. written _)

  process_ansi_sequence-Keeps : (s : ℕ → ℕ) (n : ℕ) → Keeps v (process_ansi_sequence v s n)
  unfolding process_ansi_sequence
  process_ansi_sequence-Keeps s n =
      if_cases (Keeps v) (ltb n 3 || not (s 0 == 27) || not (s 1 == 91)) (λ e. kept v)
        (λ e. if_cases (Keeps v) (s (n - 1) == 109) (λ f. kept v) (λ f. kept v))

  update_cursor-Keeps : Keeps v (update_cursor v)
  unfolding update_cursor
  update_cursor-Keeps =
      if_cases (Keeps v) (leb 25 v.terminal_row || leb 80 v.terminal_column) (λ e. kept v)
        (λ e. kept v)

  scroll-Keeps : Keeps v (scroll v)
  unfolding scroll
  scroll-Keeps = if_cases (Keeps v) (ltb v.terminal_row 25) (λ e. kept v) (λ e. kept v)

  print_char-Keeps : (c : ℕ) → Keeps v (print_char v c)
  unfolding print_char
  print_char-Keeps c =
      let put = put_entry_at-Keeps c v.terminal_color v.terminal_column v.terminal_row in
      if_cases (Keeps v) (leb 80 (v.terminal_column + 1)) (λ e. put) (λ e. put)

  new_line-Keeps : Keeps v (new_line v)
  unfolding new_line add_line_to_buffer
  new_line-Keeps = if_cases (Keeps v) v.scroll_mode (λ e. kept v) (λ e. kept v)

  put_visible-Keeps : (c : ℕ) → Keeps v (put_visible v c)
  unfolding put_visible
  put_visible-Keeps c =
      if_cases (Keeps v) (c == 10) (λ e. new_line-Keeps)
        (λ e.
          if_cases (Keeps v) (c == 8)
            (λ f. if_cases (Keeps v) (ltb 0 v.terminal_column) (λ g. kept v) (λ g. kept v))
            (λ f. if_cases (Keeps v) (leb 32 c) (λ g. print_char-Keeps c) (λ g. kept v)))

collect_escape-Keeps : (v : Vga) (c : ℕ) → Keeps v (collect_escape v c)
unfolding collect_escape
collect_escape-Keeps v c =
    let q = update v.escape_buffer v.escape_index c in
    let longer : Vga = record v { escape_buffer = q; escape_index = v.escape_index + 1 } in
    if_cases (Keeps v) (leb 15 (v.escape_index + 1)) (λ e. kept v)
      (λ e.
        if_cases (Keeps v) (ends_sequence c)
          (λ f. process_ansi_sequence-Keeps longer q (v.escape_index + 1)) (λ f. kept v))

put_char-Keeps : (v : Vga) (c : ℕ) → Keeps v (put_char v c)
unfolding put_char add_line_to_buffer start_escape
put_char-Keeps v c =
    let next = put_visible v c in
    if_cases (Keeps v) v.scroll_mode (λ e. if_cases (Keeps v) (c == 10) (λ f. kept v) (λ f. kept v))
      (λ e.
        if_cases (Keeps v) (c == 27) (λ f. kept v)
          (λ f.
            if_cases (Keeps v) v.in_escape (λ g. collect_escape-Keeps v c)
              (λ g.
                then_ v (scroll next) (update_cursor (scroll next))
                  (then_ v next (scroll next) (put_visible-Keeps v c) (scroll-Keeps next))
                  (update_cursor-Keeps (scroll next)))))

write_string-Keeps : (s : List ℕ) (v : Vga) → Keeps v (write_string v s)
unfolding write_string
write_string-Keeps [] v = kept v
write_string-Keeps (c ∷ s) v =
    then_ v (put_char v c) (write_string (put_char v c) s) (put_char-Keeps v c)
      (write_string-Keeps s (put_char v c))

scroll_up-Keeps : (v : Vga) → Keeps v (scroll_up v)
unfolding scroll_up
scroll_up-Keeps v =
    if_cases (Keeps v) (leb (200 - 25 - 1) v.scroll_view_offset) (λ e. kept v)
      (λ e.
        render_view-Keeps
          (record v { scroll_view_offset = v.scroll_view_offset + 1; scroll_mode = true }))

scroll_down-Keeps : (v : Vga) → Keeps v (scroll_down v)
unfolding scroll_down
scroll_down-Keeps v =
    if_cases (Keeps v) (v.scroll_view_offset == 0) (λ e. kept v)
      (λ e.
        if_cases (Keeps v) (v.scroll_view_offset - 1 == 0) (λ f. kept v)
          (λ f. render_view-Keeps (record v { scroll_view_offset = v.scroll_view_offset - 1 })))

-- Everything but a switch to another terminal.
abbrev pub is_local : Op → Bool
is_local (Op.switch t) = false
is_local _ = true

abbrev pub all_local : List Op → Bool
all_local [] = true
all_local (o ∷ os) = is_local o && all_local os

step-Keeps : (o : Op) (v : Vga) → is_local o ≡ true → Keeps v (step v o)
unfolding step set_color
step-Keeps (Op.put c) v e = put_char-Keeps v c
step-Keeps (Op.print s) v e = write_string-Keeps s v
step-Keeps (Op.switch t) v e = cc
step-Keeps (Op.paint color) v e = kept v
step-Keeps Op.up v e = scroll_up-Keeps v
step-Keeps Op.down v e = scroll_down-Keeps v

run-Keeps : (os : List Op) (v : Vga) → all_local os ≡ true → Keeps v (run v os)
unfolding run
run-Keeps [] v e = kept v
run-Keeps (o ∷ os) v e =
    let here : is_local o ≡ true = ground (arith, e) in
    let rest : all_local os ≡ true = ground (arith, e) in
    then_ v (step v o) (run (step v o) os) (step-Keeps o v here) (run-Keeps os (step v o) rest)

-- A switch to another terminal.
switched : (v : Vga) (t : ℕ) → t < 4 → t ≢ v.current_tty → switch_tty v t ≡ load_tty (save_tty v) t
unfolding switch_tty
switched v t h n =
    let e : (leb 4 t || t == v.current_tty) ≡ false = ground (arith, h, n) in rw e refl

here : (b : ℕ → ℕ) (t x : ℕ) → update b t x t ≡ x
here b t x = ground arith

here_buffer : (b : ℕ → ℕ → ℕ) (t i : ℕ) (s : ℕ → ℕ) → update b t s t i ≡ s i
here_buffer b t i s = let e : (t == t) ≡ true = ground arith in rw e refl

copy_below : (dst src : ℕ → ℕ) (i : ℕ) → i < 2000 → copy_screen dst src i ≡ src i
copy_below dst src i h = ground (arith, h)

-- What was saved is still there after a save from another terminal.
saved :
    (f g : ℕ → ℕ) (t t' cur x y : ℕ) → t' ≡ t → t ≢ cur → f ≡ update g cur x → update f t' y cur ≡ x
saved f g t t' cur x y e n k = ground (arith, n, e, ap (λ (h : ℕ → ℕ). h cur) k)

-- From a terminal with its cursor on the screen: after a switch to another terminal, any output,
-- colours and scrolling there, and the switch back, the cursor, the colour and all 2000 entries of
-- the screen are as they were.
pub switch_tty-run :
    (v : Vga) (t : ℕ) (os : List Op)
    → IsOnScreen 24 v
    → t < 4
    → t ≢ v.current_tty
    → all_local os ≡ true
    → ((switch_tty (run (switch_tty v t) os) v.current_tty).terminal_row ≡ v.terminal_row)
      × ((switch_tty (run (switch_tty v t) os) v.current_tty).terminal_column ≡ v.terminal_column)
      × ((switch_tty (run (switch_tty v t) os) v.current_tty).terminal_color ≡ v.terminal_color)
      × ((i : ℕ)
          → i < 2000
          → (switch_tty (run (switch_tty v t) os) v.current_tty).terminal_buffer i
            ≡ v.terminal_buffer i)
unfolding load_tty save_tty
switch_tty-run v t os s h n all =
    let w = run (load_tty (save_tty v) t) os in
    let k : Keeps (load_tty (save_tty v) t) w = run-Keeps os (load_tty (save_tty v) t) all in
    let away : v.current_tty ≢ w.current_tty = λ e. n (sym (e ∙ k.tty)) in
    let back : switch_tty w v.current_tty ≡ load_tty (save_tty w) v.current_tty =
      switched w v.current_tty s.tty away in
    let saved_buffer : (i : ℕ) → i < 2000 → w.tty_buffers v.current_tty i ≡ v.terminal_buffer i =
      λ i below.
        k.others v.current_tty i (λ e. n (sym e))
        ∙ here_buffer v.tty_buffers v.current_tty i
            (copy_screen (v.tty_buffers v.current_tty) v.terminal_buffer)
        ∙ copy_below (v.tty_buffers v.current_tty) v.terminal_buffer i below in
    rw (switched v t h n, back)
      (
        saved w.tty_rows v.tty_rows t w.current_tty v.current_tty v.terminal_row w.terminal_row
            k.tty n k.rows,
        saved w.tty_columns v.tty_columns t w.current_tty v.current_tty v.terminal_column
            w.terminal_column k.tty n k.columns,
        saved w.tty_colors v.tty_colors t w.current_tty v.current_tty v.terminal_color
            w.terminal_color k.tty n k.colors,
        λ i below.
            copy_below w.terminal_buffer
              (update w.tty_buffers w.current_tty
                (copy_screen (w.tty_buffers w.current_tty) w.terminal_buffer) v.current_tty)
              i below
            ∙ other w.tty_buffers w.current_tty v.current_tty i
                (copy_screen (w.tty_buffers w.current_tty) w.terminal_buffer) away
            ∙ saved_buffer i below,
      )
