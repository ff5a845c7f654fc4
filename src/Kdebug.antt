-- ===== src/Kdebug.antt =====
-- kern/kdebug.c: the search of the debugging table for an instruction address.
pub mod Search
pub mod Invariant
pub mod Bracket
pub mod Ends
pub mod Found
pub mod Eip
pub mod Totality
pub mod Function
mod Tests
