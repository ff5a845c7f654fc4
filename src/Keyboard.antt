-- ===== src/Keyboard.antt =====
-- kern/console.c: the keyboard's input code, kbd_proc_data and kbd_intr.
pub mod Keys
pub mod Keymap
pub mod Decode
pub mod Modifiers
pub mod Range
mod Tests
