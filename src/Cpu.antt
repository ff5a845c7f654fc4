-- ===== src/Cpu.antt =====
-- inc/x86.h: the functions of one instruction each, and what they do to processor and devices.
pub mod Strings
pub mod Transfer
pub mod Registers
pub mod Tlb
mod Tests
