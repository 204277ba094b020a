-- ===== src/Partition/Mbr.antt =====
-- crates/partition/src/mbr.rs: the master boot record and the chains of extended boot records.
pub mod Bounds
use undelete_master.Base.{
  ℕ, zero, suc, ◌+◌, ◌*◌, max, Bool, true, false, not, ◌&&◌, ◌||◌, Option, none, some, List, [],
  ◌∷◌, ◌++◌, any, ltb, leb, ◌==◌, if◌then◌else◌, Result, ok, err, checked_add, checked_mul,
}
use undelete_master.Base.Options.{◌>>=◌}
use undelete_master.Base.Texts.{codes}
use undelete_master.Region.{Region, end, is_empty}
use undelete_master.Region
use undelete_master.FsCommon.{ScanError, u8_at, u16_at, u32_at}
use undelete_master.Source.{SourceReader, read_vec_at}
use undelete_master.Partition.Table.{
  PartitionTableKind, PartitionEntry, Warning, PartitionTable, check_overlaps,
}

unfoldable pub mbr_type_description : ℕ → List ℕ
mbr_type_description t =
    if t == 0x01
    then codes "FAT12"
    else if t == 0x04 || t == 0x06 || t == 0x0e
    then codes "FAT16"
    else if t == 0x05 || t == 0x0f
    then codes "Extended"
    else if t == 0x07
    then codes "NTFS/exFAT (IFS)"
    else if t == 0x0b || t == 0x0c
    then codes "FAT32"
    else if t == 0x82
    then codes "Linux swap"
    else if t == 0x83
    then codes "Linux"
    else if t == 0xee
    then codes "GPT protective"
    else if t == 0xef
    then codes "EFI system"
    else codes "Unknown"

pub record RawEntry : Type 0 where
  pub part_type : ℕ
  pub lba_start : ℕ
  pub sectors : ℕ

-- The entry at `base`.
unfoldable pub read_entry : List ℕ → ℕ → Option RawEntry
read_entry sector_buf base = do
  part_type ← u8_at sector_buf (base + 4)
  lba_start ← u32_at sector_buf (base + 8)
  sectors ← u32_at sector_buf (base + 12)
  some (record { part_type = part_type; lba_start = lba_start; sectors = sectors })

-- The four entries, behind the signature.
unfoldable pub parse_entries : List ℕ → Option (RawEntry × RawEntry × RawEntry × RawEntry)
parse_entries sector_buf = do
  signature ← u16_at sector_buf 510
  if not (signature == 0xaa55) then none else (do
    e0 ← read_entry sector_buf 446
    e1 ← read_entry sector_buf 462
    e2 ← read_entry sector_buf 478
    e3 ← read_entry sector_buf 494
    some (e0, e1, e2, e3))

unfoldable pub bounded_sector_offset : ℕ → ℕ → ℕ → ℕ → Option ℕ
bounded_sector_offset lba sector read_len source_len = do
  offset ← checked_mul lba sector
  stop ← checked_add offset read_len
  if leb stop source_len then some offset else none

-- What the parser has found so far.
pub record Found : Type 0 where
  pub partitions : List PartitionEntry
  pub warnings : List Warning
  pub index : ℕ

unfoldable pub warn : Warning → Found → Found
warn w found = record found { warnings = found.warnings ++ (w ∷ []) }

unfoldable pub is_extended : ℕ → Bool
is_extended part_type = part_type == 0x05 || part_type == 0x0f

-- `MAX_EBR_CHAIN`
abbrev pub max_ebr_chain : ℕ
max_ebr_chain = 128

module _ (sector source_len : ℕ) where
  unfoldable pub push_region : ℕ → ℕ → ℕ → Region → Found → Found
  push_region lba sectors part_type r found =
      if leb (end r) source_len && not (is_empty r)
      then record {
        partitions =
            found.partitions
            ++ (record {
              index = found.index;
              region = r;
              mbr_type = some part_type;
              type_guid = none;
              name = none;
              type_description = mbr_type_description part_type;
            }
                ∷ []);
        warnings = found.warnings;
        index = found.index + 1;
      }
      else warn (Warning.exceeds_bounds lba sectors) found

  unfoldable pub push_partition : ℕ → ℕ → ℕ → Found → Found
  push_partition lba sectors part_type found = elim (checked_mul lba sector) [
    | none ↦ warn (Warning.lba_overflows lba) found
    | some offset ↦ elim (checked_mul sectors sector) [
      | none ↦ warn (Warning.size_overflows lba) found
      | some len ↦ elim (Region.new offset len) [
        | some r ↦ push_region lba sectors part_type r found
        | none ↦ warn (Warning.exceeds_bounds lba sectors) found
      ]
    ]
  ]

  -- A primary entry: an extended one is left for later, under its first sector.
  unfoldable pub push_primary : RawEntry → List ℕ × Found → List ℕ × Found
  push_primary e (chains, found) =
      if e.part_type == 0 || e.sectors == 0
      then (chains, found)
      else if is_extended e.part_type
      then (chains ++ (e.lba_start ∷ []), found)
      else (chains, push_partition e.lba_start e.sectors e.part_type found)

  -- The logical partition of an extended boot record, relative to that record.
  unfoldable pub push_logical : ℕ → RawEntry → Found → Found
  push_logical current e0 found =
      if not (e0.part_type == 0) && not (e0.sectors == 0)
      then elim (checked_add current e0.lba_start) [
        | some lba ↦ push_partition lba e0.sectors e0.part_type found
        | none ↦ found
      ]
      else found

  -- The next record of the chain, relative to the extended partition.
  unfoldable pub next_ebr : ℕ → RawEntry → Option ℕ
  next_ebr ext_base e1 =
      if is_extended e1.part_type && not (e1.sectors == 0)
      then checked_add ext_base e1.lba_start
      else none

  module _ (reader : SourceReader) where
    -- The entries of the record at `current`, or the warning with which the chain is cut off.
    unfoldable pub read_ebr : ℕ → Result Warning (RawEntry × RawEntry × RawEntry × RawEntry)
    read_ebr current = elim (bounded_sector_offset current sector 512 source_len) [
      | none ↦ err Warning.ebr_out_of_bounds
      | some ebr_off ↦ elim (read_vec_at reader ebr_off 512) [
        | err _ ↦ err Warning.ebr_unreadable
        | ok ebr ↦ elim (parse_entries ebr) [
          | none ↦ err Warning.ebr_no_signature
          | some entries ↦ ok entries
        ]
      ]
    ]

    unfoldable pub follow_chain : ℕ → ℕ → List ℕ → ℕ → Found → Found
    follow_chain zero ext_base visited current found = found
    follow_chain (suc rounds) ext_base visited current found =
        elim (any (λ v. v == current) visited) [
          | true ↦ warn Warning.ebr_loop found
          | false ↦ elim (read_ebr current) [
            | err w ↦ warn w found
            | ok (e0, e1, _, _) ↦
                let found' = push_logical current e0 found in
                elim (next_ebr ext_base e1) [
                  | none ↦ found'
                  | some next ↦ follow_chain rounds ext_base (current ∷ visited) next found'
                ]
          ]
        ]

    unfoldable pub follow_chains : List ℕ → Found → Found
    follow_chains [] found = found
    follow_chains (ext_base ∷ chains) found =
        follow_chains chains (follow_chain max_ebr_chain ext_base [] ext_base found)

unfoldable pub finish : Found → Result ScanError PartitionTable
finish found = elim (found.partitions) [
  | [] ↦ err ScanError.not_recognized
  | _ ∷ _ ↦ ok (record {
    kind = PartitionTableKind.mbr;
    partitions = found.partitions;
    warnings = check_overlaps found.partitions found.warnings;
  })
]

-- The four primary entries, in order.
unfoldable pub push_primaries : ℕ → ℕ → RawEntry × RawEntry × RawEntry × RawEntry → List ℕ × Found
push_primaries sector source_len (e0, e1, e2, e3) =
    let push = push_primary sector source_len in
    let start : Found = record { partitions = []; warnings = []; index = 0 } in
    push e3 (push e2 (push e1 (push e0 ([], start))))

unfoldable pub parse_sector :
    SourceReader → ℕ → RawEntry × RawEntry × RawEntry × RawEntry → Result ScanError PartitionTable
parse_sector reader sector entries =
    let (chains, primary) = push_primaries sector reader.len entries in
    finish (follow_chains sector reader.len reader chains primary)

unfoldable pub is_protective : RawEntry → Bool
is_protective e = e.part_type == 0xee

unfoldable pub parse_mbr : SourceReader → Result ScanError PartitionTable
parse_mbr reader =
    let sector = reader.sector_layout.logical in
    elim (read_vec_at reader 0 (max sector 512)) [
      | err _ ↦ err ScanError.read
      | ok buf ↦ elim (parse_entries buf) [
        | none ↦ err ScanError.not_recognized
        | some (e0, e1, e2, e3) ↦
            if is_protective e0 || is_protective e1 || is_protective e2 || is_protective e3
            then err ScanError.corrupt
            else parse_sector reader sector (e0, e1, e2, e3)
      ]
    ]
