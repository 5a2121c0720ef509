-- ===== src/Dtb.antt =====
-- src/dtb_read.rs and src/dtb_memory.rs: flattened device trees and the memory regions in them.
pub mod Bytes
pub mod Header
pub mod Blob
pub mod Structure
pub mod Query
pub mod Reserve
pub mod Regions
pub mod Tree
pub mod Follows
pub mod Total
pub mod Cells
pub mod Allocator
pub mod Tests
