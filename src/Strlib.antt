-- ===== src/Strlib.antt =====
-- lstrlib.cpp: strings as lists of bytes, each followed in memory by the byte 0.
pub mod Pattern
pub mod Find
pub mod Replace
pub mod Slice
pub mod Format
