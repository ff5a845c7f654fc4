-- ===== src/Terminal.antt =====
-- kern/console.c: the input and output that it offers to the rest of the kernel.
pub mod Devices
pub mod Getc
pub mod Getchar
pub mod Displayed
pub mod Start
pub mod Machine
mod Tests
