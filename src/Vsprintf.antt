-- ===== src/Vsprintf.antt =====
-- Formatted output: kernel/vsprintf.c, over memory in bytes.
pub mod Number
pub mod Format
pub mod Print
pub mod Layout
pub mod Field
pub mod Inside
pub mod Bounds
pub mod Ends
pub mod Rest
pub mod Rounds
mod Tests
