-- ===== src/Ntfs.antt =====
-- crates/fs-ntfs: the boot sector, the file records and their run lists.
pub mod Boot
pub mod Runs
pub mod Record
mod Tests
