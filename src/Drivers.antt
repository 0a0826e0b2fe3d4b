-- ===== src/Drivers.antt =====
-- The devices for text: the screen and the keyboard.
pub mod Vga
pub mod Keyboard
