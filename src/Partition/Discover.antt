-- ===== src/Partition/Discover.antt =====
-- crates/partition/src/lib.rs: `discover`.
pub mod Tables
use undelete_master.Base.{
  ℕ, ◌*◌, Option, none, some, List, ltb, if◌then◌else◌, Result, ok, err, ok_or, guard, ◌>>=◌, ◌>>◌,
  not, checked_mul,
}
use undelete_master.FsCommon.{ScanError}
use undelete_master.Source.{SourceReader, new_layout}
use undelete_master.Partition.Table.{PartitionTable}
use undelete_master.Partition.Mbr.{parse_mbr}
use undelete_master.Partition.Gpt.Copies.{parse_gpt}

-- A source without a GPT is read for a master boot record; any other failure is passed on.
unfoldable pub or_mbr :
    Result ScanError PartitionTable → SourceReader → Result ScanError PartitionTable
or_mbr (ok table) reader = ok table
or_mbr (err ScanError.not_recognized) reader = parse_mbr reader
or_mbr (err ScanError.read) reader = err ScanError.read
or_mbr (err ScanError.corrupt) reader = err ScanError.corrupt

module _ (hash : List ℕ → ℕ) where
  unfoldable pub discover : SourceReader → Result ScanError PartitionTable
  discover reader = do
    let supplied_layout = reader.sector_layout
    layout ← ok_or (new_layout supplied_layout.logical supplied_layout.physical) ScanError.corrupt
    minimum_len ← ok_or (checked_mul layout.logical 2) ScanError.corrupt
    guard (not (ltb reader.len minimum_len)) ScanError.not_recognized
    or_mbr (parse_gpt hash reader) reader
