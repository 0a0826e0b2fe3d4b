-- ===== src/Drivers/Vga/Tests.antt =====
-- A terminal of kernel/drivers/vga.cpp, and the theorems at it.
use mesa_os.Prelude.{ℕ, ◌<◌, ◌≡◌, refl, false, [], ◌∷◌, arith}
use mesa_os.Drivers.Vga.{
  Vga, start_escape, collect_escape, process_ansi_sequence, parse_codes, put_char, write_string,
  switch_tty,
}
use mesa_os.Drivers.Vga.Color.{vga_entry_color, number, case_of, set_color_from_ansi}
use mesa_os.Drivers.Vga.Cursor.{Op, run, IsOnScreen, run-IsOnScreen}
use mesa_os.Drivers.Vga.Ttys.{switch_tty-run}
use mesa_os.Drivers.Vga.Text.{IsLive}

-- All stars, with the cursor in the last row.
abbrev screen : Vga
screen = record {
  terminal_row = 24;
  terminal_column = 70;
  terminal_color = 7;
  terminal_buffer = λ i. 0x72a;
  current_tty = 0;
  tty_buffers = λ t i. 0x720;
  tty_rows = λ t. 0;
  tty_columns = λ t. 0;
  tty_colors = λ t. 7;
  scroll_buffer = λ l i. 32;
  scroll_write_line = 199;
  scroll_view_offset = 0;
  scroll_mode = false;
  in_escape = false;
  escape_buffer = λ i. 0;
  escape_index = 0;
  cursor = 1990;
}

screen-IsOnScreen : IsOnScreen 24 screen
screen-IsOnScreen = record {
  row = omega arith;
  column = omega arith;
  tty = omega arith;
  rows = λ t h. omega arith;
  columns = λ t h. omega arith;
  history = omega arith;
  view = omega arith;
  sequence = λ e. cc;
  at = omega arith;
}

screen-IsLive : IsLive screen
screen-IsLive = record { live = refl; plain = refl; row = omega arith; tty = omega arith }

-- `ESC [ 3 1 m` is red.
escape_red : (write_string screen (27 ∷ 91 ∷ 51 ∷ 49 ∷ 109 ∷ [])).terminal_color ≡ 4
unfolding write_string put_char start_escape collect_escape process_ansi_sequence parse_codes
    set_color_from_ansi vga_entry_color number case_of
escape_red = refl

run-IsOnScreen_example :
    IsOnScreen 24
      (run screen (Op.put 10 ∷ Op.switch 2 ∷ Op.print (65 ∷ 66 ∷ []) ∷ Op.up ∷ Op.down ∷ []))
run-IsOnScreen_example =
    run-IsOnScreen screen (Op.put 10 ∷ Op.switch 2 ∷ Op.print (65 ∷ 66 ∷ []) ∷ Op.up ∷ Op.down ∷ [])
      screen-IsOnScreen

switch_tty-run_example :
    ((switch_tty (run (switch_tty screen 2) (Op.put 65 ∷ Op.put 10 ∷ [])) 0).terminal_row ≡ 24)
    × ((switch_tty (run (switch_tty screen 2) (Op.put 65 ∷ Op.put 10 ∷ [])) 0).terminal_column ≡ 70)
    × ((switch_tty (run (switch_tty screen 2) (Op.put 65 ∷ Op.put 10 ∷ [])) 0).terminal_color ≡ 7)
    × ((i : ℕ)
        → i < 2000
        → (switch_tty (run (switch_tty screen 2) (Op.put 65 ∷ Op.put 10 ∷ [])) 0).terminal_buffer i
          ≡ 0x72a)
switch_tty-run_example =
    switch_tty-run screen 2 (Op.put 65 ∷ Op.put 10 ∷ []) screen-IsOnScreen (omega arith)
      (λ e. omega (arith, e)) refl
