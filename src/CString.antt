-- ===== src/CString.antt =====
-- lib/string.c: the routines that only read a string or a block. The argument of type
-- `const char *` or `const void *` is the list of the bytes from the pointer to the end of the
-- object that it points into; `none` is a read past that end. A returned pointer is its distance
-- from the argument.
pub mod Defs
pub mod Scan
pub mod Find
pub mod Compare
pub mod Strtol
mod Tests
