-- ===== src/Drivers/Vga/Color.antt =====
-- The colours of kernel/drivers/vga.hpp and the codes of kernel/drivers/vga.cpp for them.
use mesa_os.Prelude.{ℕ, ◌*◌, ◌%◌, ◌^◌, List, [], ◌∷◌, bit_or, ◌==◌, if◌then◌else◌}

pub data VgaColor : Type 0 where
  black blue green cyan red magenta brown light_grey : VgaColor
  dark_grey light_blue light_green light_cyan light_red light_magenta light_brown white : VgaColor

unfoldable pub number : VgaColor → ℕ
number black = 0
number blue = 1
number green = 2
number cyan = 3
number red = 4
number magenta = 5
number brown = 6
number light_grey = 7
number dark_grey = 8
number light_blue = 9
number light_green = 10
number light_cyan = 11
number light_red = 12
number light_magenta = 13
number light_brown = 14
number white = 15

unfoldable pub vga_entry_color : VgaColor → VgaColor → ℕ
vga_entry_color fg bg = bit_or (number fg) (number bg * 2 ^ 4) % 2 ^ 8

unfoldable pub vga_entry : ℕ → ℕ → ℕ
vga_entry uc color = bit_or uc (color * 2 ^ 8) % 2 ^ 16

-- The cases for the foreground and for the background.
abbrev pub foregrounds : List (ℕ × VgaColor)
foregrounds =
    (30, black)
    ∷ (31, red)
    ∷ (32, green)
    ∷ (33, brown)
    ∷ (34, blue)
    ∷ (35, magenta)
    ∷ (36, cyan)
    ∷ (37, light_grey)
    ∷ (90, dark_grey)
    ∷ (91, light_red)
    ∷ (92, light_green)
    ∷ (93, light_brown)
    ∷ (94, light_blue)
    ∷ (95, light_magenta)
    ∷ (96, light_cyan)
    ∷ (97, white)
    ∷ []

abbrev pub backgrounds : List (ℕ × VgaColor)
backgrounds =
    (40, black)
    ∷ (41, red)
    ∷ (42, green)
    ∷ (43, brown)
    ∷ (44, blue)
    ∷ (45, magenta)
    ∷ (46, cyan)
    ∷ (47, light_grey)
    ∷ (100, dark_grey)
    ∷ (101, light_red)
    ∷ (102, light_green)
    ∷ (103, light_brown)
    ∷ (104, light_blue)
    ∷ (105, light_magenta)
    ∷ (106, light_cyan)
    ∷ (107, white)
    ∷ []

unfoldable pub case_of : List (ℕ × VgaColor) → ℕ → VgaColor → VgaColor
case_of [] code other = other
case_of ((n, color) ∷ cases) code other = if code == n then color else case_of cases code other

-- A colour that the code does not name is the default one.
unfoldable pub set_color_from_ansi : ℕ → ℕ
set_color_from_ansi code =
    vga_entry_color (case_of foregrounds code light_grey) (case_of backgrounds code black)
