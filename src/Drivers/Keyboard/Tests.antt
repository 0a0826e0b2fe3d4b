-- ===== src/Drivers/Keyboard/Tests.antt =====
-- Keys typed on the keyboard of kernel/drivers/keyboard.cpp.
use mesa_os.Prelude.{◌≡◌, refl, true, false, none, some}
use mesa_os.Drivers.Keyboard.{Keyboard, Action, callback, handle_scancode, plain_key}

abbrev ctrl_held : Keyboard
ctrl_held = record {
  shift_pressed = false;
  ctrl_pressed = true;
  alt_pressed = false;
  e0_escape = false;
  current_input_handler = none;
}

-- Ctrl and C, also while the editor runs.
ctrl_c : (callback true ctrl_held 0x2e).1 ≡ some (Action.shell_signal 2)
unfolding callback handle_scancode plain_key
ctrl_c = refl
