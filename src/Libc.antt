-- ===== src/Libc.antt =====
-- The C library of libc/: memory and strings.
pub mod Memory
pub mod Strings
pub mod Caseless
mod Tests
