-- ===== src/Mmu.antt =====
-- inc/mmu.h and the rounding macros of inc/types.h.
pub mod Flags
pub mod Paging
pub mod Layout
pub mod SelfMap
pub mod Segments
pub mod Gates
pub mod Rounding
mod Tests
