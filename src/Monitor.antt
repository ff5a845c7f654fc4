-- ===== src/Monitor.antt =====
-- kern/monitor.c: the command interpreter.
pub mod Parse
pub mod Words
pub mod Arguments
pub mod Command
pub mod Dispatch
pub mod Backtrace
pub mod Answers
pub mod Display
mod Tests
