-- ===== src/Partition/Table.antt =====
-- crates/partition/src/lib.rs: the types of a partition table, and the check for overlaps. The
-- warnings are named by the values of a data type; texts are lists of bytes, the name of a
-- partition is the list of its characters.
pub mod Overlaps
use undelete_master.Base.{ℕ, Option, none, some, List, [], ◌∷◌, ◌++◌}
use undelete_master.Region.{Region, intersect}

pub data PartitionTableKind : Type 0 where
  mbr gpt : PartitionTableKind

pub record PartitionEntry : Type 0 where
  pub index : ℕ  -- u32
  pub region : Region
  pub mbr_type : Option ℕ
  pub type_guid : Option (List ℕ)
  pub name : Option (List ℕ)
  pub type_description : List ℕ

pub data Warning : Type 0 where
  lba_overflows size_overflows : (lba : ℕ) → Warning
  exceeds_bounds : (lba sectors : ℕ) → Warning
  ebr_loop ebr_out_of_bounds ebr_unreadable ebr_no_signature : Warning
  entry_backwards entry_outside_usable entry_exceeds_bounds : (entry : ℕ) → Warning
  backup_unusable primary_unusable : Warning
  overlap : (first second : ℕ) → Warning

pub record PartitionTable : Type 0 where
  pub kind : PartitionTableKind
  pub partitions : List PartitionEntry
  pub warnings : List Warning

-- The inner loop: one partition against those behind it.
unfoldable pub overlaps_with : PartitionEntry → List PartitionEntry → List Warning
overlaps_with part [] = []
overlaps_with part (other ∷ parts) =
    let rest = overlaps_with part parts in
    elim (intersect part.region other.region) [
      | some common ↦ Warning.overlap part.index other.index ∷ rest
      | none ↦ rest
    ]

unfoldable pub overlaps : List PartitionEntry → List Warning
overlaps [] = []
overlaps (part ∷ parts) = overlaps_with part parts ++ overlaps parts

unfoldable pub check_overlaps : List PartitionEntry → List Warning → List Warning
unfolding overlaps overlaps_with
check_overlaps parts warnings = warnings ++ overlaps parts
