-- ===== src/Drivers/Keyboard.antt =====
-- kernel/drivers/keyboard.cpp: the state of the modifier keys, and what a scan code makes the kernel do.
-- The calls of other parts are values of `Action`; an input handler is known by its address.
pub mod Typing
mod Tests
use mesa_os.Prelude.{
  ℕ, Bool, true, false, not, ◌&&◌, ◌||◌, Option, none, some, List, [], ◌∷◌, get_elem?, length,
  bit_and, ltb, leb, ◌==◌, ◌-◌, if◌then◌else◌,
}

pub data InputHandler : Type 0 where
  dummy_input_handler : InputHandler
  handler : ℕ → InputHandler

pub record Keyboard : Type 0 where
  pub shift_pressed : Bool
  pub ctrl_pressed : Bool
  pub alt_pressed : Bool
  pub e0_escape : Bool
  pub current_input_handler : Option InputHandler

-- What is called: the terminal, the shell, or the input handler.
pub data Action : Type 0 where
  scroll_up scroll_down : Action
  switch_tty : ℕ → Action
  shell_input : ℕ → Action
  shell_signal : ℕ → Action
  input : InputHandler → ℕ → Action

abbrev pub kbd_us : List ℕ
kbd_us =
    0 ∷ 27 ∷ 49 ∷ 50 ∷ 51 ∷ 52 ∷ 53 ∷ 54 ∷ 55 ∷ 56 ∷ 57 ∷ 48 ∷ 45 ∷ 61 ∷ 8 ∷ 9 ∷ 113 ∷ 119 ∷ 101
    ∷ 114 ∷ 116 ∷ 121 ∷ 117 ∷ 105 ∷ 111 ∷ 112 ∷ 91 ∷ 93 ∷ 10 ∷ 0 ∷ 97 ∷ 115 ∷ 100 ∷ 102 ∷ 103 ∷ 104
    ∷ 106 ∷ 107 ∷ 108 ∷ 59 ∷ 39 ∷ 96 ∷ 0 ∷ 92 ∷ 122 ∷ 120 ∷ 99 ∷ 118 ∷ 98 ∷ 110 ∷ 109 ∷ 44 ∷ 46 ∷ 47
    ∷ 0 ∷ 42 ∷ 0 ∷ 32 ∷ 0 ∷ []

abbrev pub kbd_us_shift : List ℕ
kbd_us_shift =
    0 ∷ 27 ∷ 33 ∷ 64 ∷ 35 ∷ 36 ∷ 37 ∷ 94 ∷ 38 ∷ 42 ∷ 40 ∷ 41 ∷ 95 ∷ 43 ∷ 8 ∷ 9 ∷ 81 ∷ 87 ∷ 69 ∷ 82
    ∷ 84 ∷ 89 ∷ 85 ∷ 73 ∷ 79 ∷ 80 ∷ 123 ∷ 125 ∷ 10 ∷ 0 ∷ 65 ∷ 83 ∷ 68 ∷ 70 ∷ 71 ∷ 72 ∷ 74 ∷ 75 ∷ 76
    ∷ 58 ∷ 34 ∷ 126 ∷ 0 ∷ 124 ∷ 90 ∷ 88 ∷ 67 ∷ 86 ∷ 66 ∷ 78 ∷ 77 ∷ 60 ∷ 62 ∷ 63 ∷ 0 ∷ 42 ∷ 0 ∷ 32
    ∷ 0 ∷ []

abbrev pub or_zero : Option ℕ → ℕ
or_zero none = 0
or_zero (some c) = c

-- The character of a scan code; 0 past the end of the tables.
unfoldable pub character : Bool → ℕ → ℕ
character shift scancode = or_zero (get_elem? (if shift then kbd_us_shift else kbd_us) scancode)

pub set_input_handler : Keyboard → Option InputHandler → Keyboard
set_input_handler k h = record k { current_input_handler = h }

pub set_dummy_handler : Keyboard → Keyboard
set_dummy_handler k = record k { current_input_handler = some dummy_input_handler }

-- An extended key; `nano` is `Nano::is_running()`.
pub extended_key : Bool → Bool → ℕ → Option Action
extended_key nano ctrl scancode =
    if scancode == 0x48
    then if ctrl then if nano then none else some scroll_up else some (shell_input 0x11)
    else if scancode == 0x50
    then if ctrl then if nano then none else some scroll_down else some (shell_input 0x12)
    else none

pub send : Option InputHandler → ℕ → Action
send none c = shell_input c
send (some h) c = input h c

-- A key that is no modifier and not extended.
pub plain_key : Keyboard → ℕ → Option Action
plain_key k scancode =
    let c = character k.shift_pressed scancode in
    if k.ctrl_pressed && scancode == 0x2e
    then some (shell_signal 2)
    else if not (bit_and scancode 0x80 == 0)
    then none
    else if ltb scancode (length kbd_us) && not (c == 0)
    then some (send k.current_input_handler c)
    else none

pub handle_scancode : Bool → Keyboard → ℕ → Keyboard × Option Action
handle_scancode nano k scancode =
    if scancode == 0x2a || scancode == 0x36
    then (record k { shift_pressed = true }, none)
    else if scancode == 0xaa || scancode == 0xb6
    then (record k { shift_pressed = false }, none)
    else if scancode == 0xe0
    then (record k { e0_escape = true }, none)
    else if scancode == 0x1d
    then (record k { ctrl_pressed = true; e0_escape = false }, none)
    else if scancode == 0x9d
    then (record k { ctrl_pressed = false; e0_escape = false }, none)
    else if k.e0_escape
    then (record k { e0_escape = false }, extended_key nano k.ctrl_pressed scancode)
    else if scancode == 0x38
    then (record k { alt_pressed = true }, none)
    else if scancode == 0xb8
    then (record k { alt_pressed = false }, none)
    else if k.alt_pressed && leb 0x3b scancode && leb scancode 0x3e
    then (k, some (switch_tty (scancode - 0x3b)))
    else (record k { e0_escape = false }, plain_key k scancode)

-- The interrupt; `scancode` is what the port holds.
pub callback : Bool → Keyboard → ℕ → Keyboard × Option Action
callback nano k scancode =
    if not (scancode == 0x00) && not (scancode == 0xff)
    then handle_scancode nano k scancode
    else (k, none)
