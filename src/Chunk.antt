-- ===== src/Chunk.antt =====
-- ldump.cpp and lundump.cpp: precompiled chunks. The machine is little-endian, with an int and an
-- Instruction of 4 bytes, and a size_t and a lua_Number of 8. Memory is taken to suffice.
pub mod Bytes
pub mod Dump
pub mod Undump
pub mod Encoding
pub mod Stream
pub mod Reload
pub mod RoundTrip
pub mod Empty
