-- ===== src/Printfmt.antt =====
-- lib/printfmt.c: formatted output. `putch` appends to a list of `int`s, each its 32-bit pattern.
pub mod Number
pub mod Digits
pub mod Format
pub mod Runs
pub mod Print
pub mod Fuel
pub mod Text
pub mod Strings
pub mod Varargs
pub mod Caller
pub mod Buffer
pub mod Total
mod Tests
