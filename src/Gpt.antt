-- ===== src/Gpt.antt =====
-- src/gpt.rs and src/partition.rs: the GUID partition table on a block device.
pub mod Bytes
pub mod Crc
pub mod Device
pub mod Header
pub mod Entry
pub mod Text
pub mod Tests
