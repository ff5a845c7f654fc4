-- ===== src/Boot.antt =====
-- boot/main.c: the boot loader.
pub mod Disk
pub mod Sector
pub mod Insl
pub mod Load
pub mod Segment
pub mod Kernel
mod Tests
