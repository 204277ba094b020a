-- ===== src/FsCommon.antt =====
-- crates/fs-common/src/lib.rs: the bounded little-endian reads and the scan errors. The texts that
-- the errors carry for the user are left out.
pub mod Allocation
pub mod Times
mod Tests
use undelete_master.Base.{
  ℕ, ◌+◌, Option, none, some, List, length, take, drop, get_elem?, leb, if◌then◌else◌,
}
use undelete_master.Base.Words.{from_le_bytes}
use mathlib.Core.Option

pub data ScanError : Type 0 where
  read corrupt not_recognized : ScanError

-- `slice.get(off..off + n)`
abbrev pub get_range : List ℕ → ℕ → ℕ → Option (List ℕ)
get_range buf off n = if leb (off + n) (length buf) then some (take n (drop off buf)) else none

unfoldable pub u8_at : List ℕ → ℕ → Option ℕ
u8_at buf off = get_elem? buf off

unfoldable pub u16_at : List ℕ → ℕ → Option ℕ
u16_at buf off = Option.map from_le_bytes (get_range buf off 2)

unfoldable pub u32_at : List ℕ → ℕ → Option ℕ
u32_at buf off = Option.map from_le_bytes (get_range buf off 4)

unfoldable pub u64_at : List ℕ → ℕ → Option ℕ
u64_at buf off = Option.map from_le_bytes (get_range buf off 8)

-- `unwrap_or(0)`
abbrev pub or_zero : Option ℕ → ℕ
or_zero none = 0
or_zero (some v) = v
