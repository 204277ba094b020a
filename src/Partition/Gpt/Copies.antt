-- ===== src/Partition/Gpt/Copies.antt =====
-- crates/partition/src/gpt.rs: `parse_gpt`, which reads both copies.
use undelete_master.Base.{
  ℕ, ◌-◌, ◌/◌, Bool, true, false, not, ◌&&◌, Option, none, some, List, ◌∷◌, leb, ◌==◌, Result, ok,
  err, guard, ok_or, ◌>>=◌, ◌>>◌, checked_add, checked_mul,
}
use undelete_master.FsCommon.{ScanError}
use undelete_master.Source.{SourceReader}
use undelete_master.Partition.Table.{PartitionTable, Warning}
use undelete_master.Partition.Gpt.Header.{
  GptHeader, read_validated_header, headers_are_reciprocal, prefer_copy_failure,
}
use undelete_master.Partition.Gpt.Entries.{parse_gpt_copy}

unfoldable pub warn_first : Warning → PartitionTable → PartitionTable
warn_first w table = record table { warnings = w ∷ table.warnings }

-- Two headers that contradict each other are refused.
unfoldable pub contradictory : Option GptHeader → Option GptHeader → Bool
contradictory (some primary) (some backup) = not (headers_are_reciprocal primary backup)
contradictory _ _ = false

-- The table of one copy, with the failure of its header or of its entries.
unfoldable pub copy_table :
    (GptHeader → Result ScanError PartitionTable)
    → Option GptHeader × Option ScanError
    → Option PartitionTable × Option ScanError
copy_table parse (none, failure) = (none, failure)
copy_table parse (some header, failure) = elim (parse header) [
  | ok table ↦ (some table, failure)
  | err error ↦ (none, some error)
]

unfoldable pub choose :
    Option PartitionTable × Option ScanError
    → Option PartitionTable × Option ScanError
    → Result ScanError PartitionTable
choose (some table, _) (some _, _) = ok table
choose (some table, _) (none, _) = ok (warn_first Warning.backup_unusable table)
choose (none, _) (some table, _) = ok (warn_first Warning.primary_unusable table)
choose (none, primary_failure) (none, backup_failure) =
    err (prefer_copy_failure primary_failure backup_failure)

module _ (hash : List ℕ → ℕ) where
  unfoldable pub parse_gpt : SourceReader → Result ScanError PartitionTable
  parse_gpt reader = do
    let sector = reader.sector_layout.logical
    let source_len = reader.len
    guard (not (sector == 0) && leb 2 (source_len / sector)) ScanError.corrupt
    let last_lba = source_len / sector - 1
    backup_off ← ok_or (checked_mul last_lba sector) ScanError.corrupt
    stop ← ok_or (checked_add backup_off sector) ScanError.corrupt
    guard (leb stop source_len) ScanError.corrupt
    let primary = read_validated_header hash reader sector sector 1 last_lba true
    let backup = read_validated_header hash reader backup_off sector last_lba last_lba false
    guard (not (contradictory primary.0 backup.0)) ScanError.corrupt
    let parse = λ (header : GptHeader). parse_gpt_copy hash reader header sector source_len
    choose (copy_table parse primary) (copy_table parse backup)
