-- ===== src/Partition.antt =====
-- crates/partition: the partition tables of a source.
pub mod Table
pub mod Mbr
pub mod Gpt
pub mod Discover
mod Tests
