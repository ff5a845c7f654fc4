-- ===== src/Memory.antt =====
-- lib/string.c: the routines that write memory, over a flat 32-bit address space.
pub mod Defs
pub mod Set
pub mod Portable
pub mod Move
pub mod Copy
mod Tests
