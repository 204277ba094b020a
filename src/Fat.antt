-- ===== src/Fat.antt =====
-- crates/fs-fat: the FAT12/16/32 scanner. `Boot` is src/boot.rs, `Table` is src/fat.rs.
pub mod Boot
pub mod Table
mod Tests
