-- ===== src/Tests.antt =====
-- Tests, and concrete inputs for the theorems.
mod Formats
mod Code
mod Chunks
mod Tables
mod Generator
mod Patterns
mod Upvalue
mod Interning
mod Scopes
mod Tokens
