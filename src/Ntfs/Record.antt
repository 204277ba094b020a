-- ===== src/Ntfs/Record.antt =====
-- crates/fs-ntfs/src/record.rs: the fixups of the update sequence array and the header of a file
-- record. Where Rust panics the model has an error of its own, `panicked`.
pub mod Fixups
use undelete_master.Base.{
  ℕ, zero, suc, ◌+◌, ◌-◌, ◌*◌, ◌/◌, ◌%◌, ◌^◌, Bool, true, false, not, ◌&&◌, ◌||◌, Option, none,
  some, List, [], ◌∷◌, ◌++◌, length, take, drop, ltb, leb, ◌==◌, if◌then◌else◌, Result, ok, err,
  guard, ok_or, ◌>>=◌, ◌>>◌, bytes_eq, checked_sub,
}
use undelete_master.FsCommon.{get_range, u16_at, u32_at, u64_at, or_zero}

pub record FileRecord : Type 0 where
  pub record_data : List ℕ
  pub sequence : ℕ
  pub hard_link_count : ℕ
  pub attrs_offset : ℕ
  pub in_use : Bool
  pub is_directory : Bool
  pub bytes_used : ℕ
  pub base_record : ℕ

-- `panicked` stands for a slice out of range, a subtraction below 0 and a division by 0.
pub data RecordParseError : Type 0 where
  not_a_file_record corrupt fixup_mismatch panicked : RecordParseError

-- `data[at..at + bytes.len()].copy_from_slice(bytes)`, of a range that is inside.
abbrev pub copy_at : List ℕ → ℕ → List ℕ → List ℕ
copy_at buf at bytes = take at buf ++ bytes ++ drop (at + length bytes) buf

-- One round of the loop over the sectors.
unfoldable pub fix_sector : List ℕ → ℕ → ℕ → List ℕ → ℕ → List ℕ → Result RecordParseError (List ℕ)
fix_sector raw usa_offset sector usn i buf = do
  let sector_end = i * sector
  guard (not (ltb (length buf) sector_end)) RecordParseError.corrupt
  at ← ok_or (checked_sub sector_end 2) RecordParseError.panicked
  check ← ok_or (get_range buf at 2) RecordParseError.panicked
  guard (bytes_eq check usn) RecordParseError.fixup_mismatch
  orig ← ok_or (get_range raw (usa_offset + i * 2) 2) RecordParseError.panicked
  ok (copy_at buf at orig)

-- The rounds `i`, `i + 1`, and so on, `count` of them.
unfoldable pub fix_sectors :
    ℕ → List ℕ → ℕ → ℕ → List ℕ → ℕ → List ℕ → Result RecordParseError (List ℕ)
unfolding fix_sector
fix_sectors zero raw usa_offset sector usn i buf = ok buf
fix_sectors (suc count) raw usa_offset sector usn i buf =
    elim (fix_sector raw usa_offset sector usn i buf) [
      | err e ↦ err e
      | ok buf' ↦ fix_sectors count raw usa_offset sector usn (i + 1) buf'
    ]

abbrev pub file_magic : List ℕ
file_magic = b'F' ∷ b'I' ∷ b'L' ∷ b'E' ∷ []

-- The checks of the array, and the fixups.
unfoldable pub apply_fixups : List ℕ → ℕ → Result RecordParseError (List ℕ)
unfolding fix_sectors
apply_fixups raw sector = do
  guard (not (ltb (length raw) 42) && bytes_eq (take 4 raw) file_magic)
      RecordParseError.not_a_file_record
  let usa_offset = or_zero (u16_at raw 4)
  let usa_count = or_zero (u16_at raw 6)
  guard (not (sector == 0)) RecordParseError.panicked
  let expected_count = length raw / sector + 1
  guard (not (usa_count == 0 || ltb expected_count usa_count)) RecordParseError.corrupt
  guard (not (ltb (length raw) (usa_offset + usa_count * 2))) RecordParseError.corrupt
  usn ← ok_or (get_range raw usa_offset 2) RecordParseError.panicked
  fix_sectors (usa_count - 1) raw usa_offset sector usn 1 raw

-- The header fields of the fixed record.
unfoldable pub read_header : List ℕ → Result RecordParseError FileRecord
read_header buf = do
  let flags = or_zero (u16_at buf 22)
  let attrs_offset = or_zero (u16_at buf 20)
  let bytes_used = or_zero (u32_at buf 24)
  guard (not (leb (length buf) attrs_offset || ltb (length buf) bytes_used))
      RecordParseError.corrupt
  ok (record {
    record_data = buf;
    sequence = or_zero (u16_at buf 16);
    hard_link_count = or_zero (u16_at buf 18);
    attrs_offset = attrs_offset;
    in_use = flags % 2 == 1;
    is_directory = flags / 2 % 2 == 1;
    bytes_used = bytes_used;
    base_record = or_zero (u64_at buf 32) % 2 ^ 48;
  })

unfoldable pub parse_file_record : List ℕ → ℕ → Result RecordParseError FileRecord
unfolding apply_fixups read_header
parse_file_record raw bytes_per_sector = do buf ← apply_fixups raw bytes_per_sector; read_header buf
