-- ===== src/Console.antt =====
-- kern/console.c: the console devices and the input buffer.
pub mod Io
pub mod Output
pub mod Input
pub mod Ring
pub mod Screen
pub mod Trace
mod Tests
