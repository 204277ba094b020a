-- ===== src/Partition/Gpt.antt =====
-- crates/partition/src/gpt.rs: the two copies of a GUID partition table. The checksum of the crate
-- crc32fast is the parameter `hash`.
pub mod Guid
pub mod Header
pub mod Entries
pub mod Copies
pub mod Bounds
