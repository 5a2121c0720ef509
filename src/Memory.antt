-- ===== src/Memory.antt =====
-- src/memory.rs: the EFI page allocator.
pub mod Types
pub mod Arith
pub mod Monad
pub mod Buffer
pub mod Find
pub mod Alloc
pub mod Packed
pub mod Coalesce
pub mod Map
pub mod Split
pub mod Carve
pub mod Regions
pub mod Exact
pub mod Services
pub mod Build
pub mod Insert
pub mod Tests
