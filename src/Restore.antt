-- ===== src/Restore.antt =====
-- crates/restore: what is written of a candidate, and where.
pub mod Errors
pub mod Plan
pub mod Texts
pub mod Lines
pub mod Files
pub mod Hashes
pub mod Path
pub mod Journal
pub mod Output
pub mod Preflight
pub mod Stream
