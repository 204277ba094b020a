-- ===== src/Partition/Gpt/Entries.antt =====
-- crates/partition/src/gpt.rs: the entry table of one copy.
use undelete_master.Base.{
  ℕ, zero, suc, ◌+◌, ◌-◌, ◌*◌, ◌/◌, Bool, not, ◌&&◌, ◌||◌, Option, none, some, List, [], ◌∷◌, ◌++◌,
  all, ltb, leb, ◌==◌, if◌then◌else◌, Result, ok, err, guard, ok_or, ◌>>=◌, ◌>>◌, checked_add,
  checked_mul, checked_sub,
}
use undelete_master.Region.{Region, end}
use undelete_master.Region
use undelete_master.FsCommon.{ScanError, get_range, u64_at}
use undelete_master.Source.{SourceReader, ReadError, read_vec_at}
use undelete_master.Partition.Table.{
  PartitionTableKind, PartitionEntry, Warning, PartitionTable, check_overlaps,
}
use undelete_master.Partition.Gpt.Guid.{format_guid, guid_description, name_units, from_utf16_lossy}
use undelete_master.Partition.Gpt.Header.{GptHeader}

-- What the loop over the entries has found so far.
pub record Found : Type 0 where
  pub partitions : List PartitionEntry
  pub warnings : List Warning
  pub index : ℕ

unfoldable pub warn : Warning → Found → Found
warn w found = record found { warnings = found.warnings ++ (w ∷ []) }

unfoldable pub table_is_reserved : GptHeader → ℕ → Bool
table_is_reserved header table_end_lba =
    if header.current_lba == 1
    then ltb header.current_lba header.entry_lba && leb table_end_lba header.first_usable
    else ltb header.last_usable header.entry_lba && leb table_end_lba header.current_lba

-- Where the table lies and how long it is.
unfoldable pub locate_table : GptHeader → ℕ → ℕ → Result ScanError (ℕ × ℕ)
locate_table header sector source_len = do
  guard (not (header.num_entries == 0 || ltb 1024 header.num_entries)) ScanError.corrupt
  guard (not (ltb header.entry_size 128 || ltb 4096 header.entry_size)) ScanError.corrupt
  table_len ← ok_or (checked_mul header.num_entries header.entry_size) ScanError.corrupt
  rounded ← ok_or (checked_add table_len (sector - 1)) ScanError.corrupt
  table_sectors ← if sector == 0 then err ScanError.corrupt else ok (rounded / sector)
  table_end_lba ← ok_or (checked_add header.entry_lba table_sectors) ScanError.corrupt
  guard (table_is_reserved header table_end_lba) ScanError.corrupt
  table_off ← ok_or (checked_mul header.entry_lba sector) ScanError.corrupt
  stop ← ok_or (checked_add table_off table_len) ScanError.corrupt
  guard (leb stop source_len) ScanError.corrupt
  ok (table_off, table_len)

unfoldable pub as_scan_error : Result ReadError (List ℕ) → Result ScanError (List ℕ)
as_scan_error (ok bytes) = ok bytes
as_scan_error (err _) = err ScanError.read

-- `Some(name)` unless it is empty.
unfoldable pub name_of : List ℕ → Option (List ℕ)
name_of [] = none
name_of (c ∷ name) = some (c ∷ name)

unfoldable pub describe : Option (List ℕ) → List ℕ
unfolding guid_description
describe none = guid_description []
describe (some guid) = guid_description guid

module _ (header : GptHeader) (sector source_len : ℕ) where
  -- A partition, unless it ends behind the source.
  unfoldable pub push_region : ℕ → List ℕ → Region → Found → Result ScanError Found
  push_region i entry region found =
      let pushed : Result ScanError Found = do
        name_bytes ← ok_or (get_range entry 56 72) ScanError.corrupt
        type_guid_raw ← ok_or (get_range entry 0 16) ScanError.corrupt
        let type_guid = format_guid type_guid_raw
        ok (record {
          partitions =
              found.partitions
              ++ (record {
                index = found.index;
                region = region;
                mbr_type = none;
                type_guid = type_guid;
                name = name_of (from_utf16_lossy (name_units name_bytes));
                type_description = describe type_guid;
              }
                  ∷ []);
          warnings = found.warnings;
          index = found.index + 1;
        })
      in if leb (end region) source_len
        then pushed
        else ok (warn (Warning.entry_exceeds_bounds i) found)

  -- The bytes of the sectors from `first_lba` to `last`.
  unfoldable pub entry_region : ℕ → ℕ → Result ScanError (Option Region)
  entry_region first_lba last = do
    offset ← ok_or (checked_mul first_lba sector) ScanError.corrupt
    span ← ok_or (checked_sub last first_lba) ScanError.corrupt
    sectors ← ok_or (checked_add span 1) ScanError.corrupt
    len ← ok_or (checked_mul sectors sector) ScanError.corrupt
    ok (Region.new offset len)

  unfoldable pub place_entry : ℕ → List ℕ → ℕ → ℕ → Found → Result ScanError Found
  place_entry i entry first_lba last found = do
    placed ← entry_region first_lba last
    elim placed [
      | none ↦ ok (warn (Warning.entry_exceeds_bounds i) found)
      | some region ↦ push_region i entry region found
    ]

  -- An entry in use: its sectors must be in order and inside the usable range.
  unfoldable pub check_entry : ℕ → List ℕ → ℕ → ℕ → Found → Result ScanError Found
  check_entry i entry first_lba last found =
      if ltb last first_lba
      then ok (warn (Warning.entry_backwards i) found)
      else if ltb first_lba header.first_usable || ltb header.last_usable last
      then ok (warn (Warning.entry_outside_usable i) found)
      else place_entry i entry first_lba last found

  -- The rest of the loop's body for an entry whose type is not zero.
  unfoldable pub read_used_entry : ℕ → List ℕ → Found → Result ScanError Found
  read_used_entry i entry found = do
    first_lba ← ok_or (u64_at entry 32) ScanError.corrupt
    last ← ok_or (u64_at entry 40) ScanError.corrupt
    check_entry i entry first_lba last found

  -- The body of the loop. The offsets in the table do not overflow: the table fits 4 MiB.
  unfoldable pub read_entry : List ℕ → ℕ → Found → Result ScanError Found
  read_entry table i found = do
    entry ← ok_or (get_range table (i * header.entry_size) header.entry_size) ScanError.corrupt
    type_guid_raw ← ok_or (get_range entry 0 16) ScanError.corrupt
    if all (λ b. b == 0) type_guid_raw then ok found else read_used_entry i entry found

  -- The entries from `i` on.
  unfoldable pub read_entries : List ℕ → ℕ → ℕ → Found → Result ScanError Found
  read_entries table zero i found = ok found
  read_entries table (suc n) i found = do
    found' ← read_entry table i found
    read_entries table n (i + 1) found'

unfoldable pub finish : Found → Result ScanError PartitionTable
finish found = elim (found.partitions) [
  | [] ↦ err ScanError.not_recognized
  | _ ∷ _ ↦ ok (record {
    kind = PartitionTableKind.gpt;
    partitions = found.partitions;
    warnings = check_overlaps found.partitions found.warnings;
  })
]

unfoldable pub parse_gpt_copy :
    (List ℕ → ℕ) → SourceReader → GptHeader → ℕ → ℕ → Result ScanError PartitionTable
parse_gpt_copy hash reader header sector source_len = do
  (table_off, table_len) ← locate_table header sector source_len
  table ← as_scan_error (read_vec_at reader table_off table_len)
  guard (hash table == header.entries_crc) ScanError.corrupt
  found ←
      read_entries header sector source_len table header.num_entries 0
        (record { partitions = []; warnings = []; index = 0 })
  finish found
