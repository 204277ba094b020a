-- ===== src/Partition/Tests.antt =====
-- Runs of the partition parsers on small disks, and the theorems at such a disk.
use undelete_master.Base.{
  ℕ, ◌≡◌, refl, ◌==◌, if◌then◌else◌, none, some, List, [], ◌∷◌, ◌++◌, replicate, ok, err, arith,
}
use undelete_master.Region.{Region, end, is_empty}
use undelete_master.Region
use undelete_master.FsCommon.{ScanError, u8_at, u16_at, u32_at}
use undelete_master.Source.{SourceReader, SourceKind, new_layout}
use undelete_master.Partition.Table.{PartitionTable, PartitionTableKind, check_overlaps}
use undelete_master.Partition.Table.Overlaps.{IsSoundTable}
use undelete_master.Partition.Mbr
use undelete_master.Partition.Mbr.{
  RawEntry, mbr_type_description, bounded_sector_offset, parse_mbr, parse_entries, is_protective,
  parse_sector, push_primaries, push_primary, push_partition, is_extended, follow_chains,
}
use undelete_master.Partition.Gpt.Guid.{from_utf16_lossy}
use undelete_master.Partition.Gpt.Header.{read_validated_header, parse_header, prefer_copy_failure}
use undelete_master.Partition.Gpt.Copies.{parse_gpt, contradictory, choose, copy_table}
use undelete_master.Partition.Discover.{discover, or_mbr}
use undelete_master.Partition.Discover.Tables.{discover-IsSoundTable, discover_protective}

-- A boot sector whose first entry is the given one.
abbrev boot_sector : ℕ → ℕ → ℕ → List ℕ
boot_sector part_type lba sectors =
    replicate 446 0
    ++ (0 ∷ 0 ∷ 0 ∷ 0 ∷ part_type ∷ 0 ∷ 0 ∷ 0 ∷ lba ∷ 0 ∷ 0 ∷ 0 ∷ sectors ∷ 0 ∷ 0 ∷ 0 ∷ [])
    ++ (replicate 48 0 ++ (0x55 ∷ 0xaa ∷ []))

-- A disk of eight sectors, of which only the first is not blank.
abbrev disk : List ℕ → SourceReader
disk first = record {
  identity = record { id = []; kind = SourceKind.image_file; label = []; size = 4096 };
  len = 4096;
  sector_layout = record { logical = 512; physical = 512 };
  read_exact_at = λ offset len. ok (if offset == 0 then first else replicate len 0);
  read_best_effort_at =
      λ offset len. (record { bytes_valid = len; bad_ranges = [] }, replicate len 0);
}

abbrev sum_bytes : List ℕ → ℕ
sum_bytes bytes = 0

abbrev one_fat : PartitionTable
one_fat = record {
  kind = PartitionTableKind.mbr;
  partitions =
      record {
        index = 0;
        region = record { offset = 1024; len = 2048 };
        mbr_type = some 6;
        type_guid = none;
        name = none;
        type_description = mbr_type_description 6;
      }
      ∷ [];
  warnings = [];
}

discovers_fat : discover sum_bytes (disk (boot_sector 6 2 4)) ≡ ok one_fat
unfolding discover new_layout or_mbr parse_gpt contradictory read_validated_header parse_header
    choose copy_table prefer_copy_failure parse_mbr parse_entries u16_at u8_at u32_at Mbr.read_entry
    is_protective parse_sector push_primaries push_primary push_partition Mbr.push_region
    is_extended Region.new end is_empty follow_chains Mbr.finish mbr_type_description check_overlaps
discovers_fat = refl

offset_wraps : bounded_sector_offset 0x1_0000_0001 0xffff_ffff 512 0xffff_ffff_ffff_ffff ≡ none
unfolding bounded_sector_offset
offset_wraps = refl

surrogates : from_utf16_lossy (0x41 ∷ 0xd83d ∷ 0xde00 ∷ 0xd800 ∷ []) ≡ 0x41 ∷ 0x1f600 ∷ 0xfffd ∷ []
unfolding from_utf16_lossy
surrogates = refl

discover-IsSoundTable_example : IsSoundTable 4096 one_fat
discover-IsSoundTable_example =
    discover-IsSoundTable sum_bytes (disk (boot_sector 6 2 4)) one_fat discovers_fat

abbrev blank : RawEntry
blank = record { part_type = 0; lba_start = 0; sectors = 0 }

no_gpt : parse_gpt sum_bytes (disk (boot_sector 0xee 1 7)) ≡ err ScanError.not_recognized
unfolding parse_gpt contradictory read_validated_header parse_header choose copy_table
    prefer_copy_failure
no_gpt = refl

abbrev protective : RawEntry
protective = record { part_type = 0xee; lba_start = 1; sectors = 7 }

protective_entries : parse_entries (boot_sector 0xee 1 7) ≡ some (protective, blank, blank, blank)
unfolding parse_entries Mbr.read_entry u16_at u8_at u32_at
protective_entries = refl

discover_protective_run : discover sum_bytes (disk (boot_sector 0xee 1 7)) ≡ err ScanError.corrupt
unfolding is_protective new_layout
discover_protective_run =
    discover_protective sum_bytes (disk (boot_sector 0xee 1 7))
      (record { logical = 512; physical = 512 }) (boot_sector 0xee 1 7) protective blank blank blank
      refl refl (omega arith) no_gpt refl protective_entries refl
