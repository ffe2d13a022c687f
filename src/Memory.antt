-- ===== src/Memory.antt =====
-- src/context/memory.rs: the user address space of a context.
pub mod Region
pub mod Holes
pub mod Grants
pub mod Space
mod Tests
