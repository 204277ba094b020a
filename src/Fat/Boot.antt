-- ===== src/Fat/Boot.antt =====
-- crates/fs-fat/src/boot.rs: the boot sector's parameters and the layout derived from them. The
-- unchecked products and sums of the source are plain ones here; `Boot.Layout` shows that they
-- stay below 2 ^ 64.
pub mod Layout
pub mod Clusters
use undelete_master.Base.{
  ℕ, ◌+◌, ◌-◌, ◌*◌, ◌/◌, Bool, true, false, not, ◌&&◌, ◌||◌, Option, none, some, List, length, ltb,
  leb, ◌==◌, if◌then◌else◌, Result, ok, err, ok_or, guard, ◌>>=◌, ◌>>◌, checked_mul,
}
use undelete_master.Base.Powers.{is_power_of_two}
use undelete_master.FsCommon.{ScanError, u8_at, u16_at, u32_at, or_zero}

pub data FatVariant : Type 0 where
  fat12 fat16 fat32 : FatVariant

pub record FatBoot : Type 0 where
  pub variant : FatVariant
  pub bytes_per_sector : ℕ
  pub sectors_per_cluster : ℕ
  pub cluster_size : ℕ
  pub reserved_sectors : ℕ
  pub num_fats : ℕ
  pub fat_size_sectors : ℕ
  pub total_sectors : ℕ
  pub root_entries : ℕ
  pub root_cluster : ℕ
  pub fat_offset : ℕ
  pub root_dir_offset : ℕ
  pub root_dir_bytes : ℕ
  pub data_offset : ℕ
  pub cluster_count : ℕ

-- `a.div_ceil(b)`
abbrev pub div_ceil : ℕ → ℕ → ℕ
div_ceil a b = (a + b - 1) / b

-- The fields of the sector that `parse` reads.
pub record Bpb : Type 0 where
  pub signature : Bool
  pub bytes_per_sector : ℕ
  pub sectors_per_cluster : ℕ
  pub reserved_sectors : ℕ
  pub num_fats : ℕ
  pub root_entries : ℕ
  pub total16 : ℕ
  pub fat_size16 : ℕ
  pub total32 : ℕ
  pub fat_size32 : ℕ
  pub root_cluster : ℕ

unfoldable pub read_bpb : List ℕ → Bpb
read_bpb sector0 = record {
  signature = elim (u16_at sector0 510) [ none ↦ false | some v ↦ v == 0xAA55 ];
  bytes_per_sector = or_zero (u16_at sector0 11);
  sectors_per_cluster = or_zero (u8_at sector0 13);
  reserved_sectors = or_zero (u16_at sector0 14);
  num_fats = or_zero (u8_at sector0 16);
  root_entries = or_zero (u16_at sector0 17);
  total16 = or_zero (u16_at sector0 19);
  fat_size16 = or_zero (u16_at sector0 22);
  total32 = or_zero (u32_at sector0 32);
  fat_size32 = or_zero (u32_at sector0 36);
  root_cluster = or_zero (u32_at sector0 44);
}

-- The checks of `parse` up to the layout; the result is the total of sectors and the sectors of
-- one FAT.
unfoldable pub check_geometry : Bpb → ℕ → Result ScanError (ℕ × ℕ)
check_geometry p volume_len = do
  guard p.signature ScanError.not_recognized
  guard
      (is_power_of_two p.bytes_per_sector
        && leb 512 p.bytes_per_sector
        && leb p.bytes_per_sector 4096)
      ScanError.not_recognized
  guard (is_power_of_two p.sectors_per_cluster && leb p.sectors_per_cluster 128)
      ScanError.not_recognized
  guard (not (p.reserved_sectors == 0 || p.num_fats == 0 || ltb 4 p.num_fats))
      ScanError.not_recognized
  let total_sectors = if p.total16 == 0 then p.total32 else p.total16
  guard (not (total_sectors == 0)) ScanError.not_recognized
  fs_bytes ← ok_or (checked_mul total_sectors p.bytes_per_sector) ScanError.corrupt
  guard (leb fs_bytes volume_len) ScanError.corrupt
  let fat_size_sectors = if p.fat_size16 == 0 then p.fat_size32 else p.fat_size16
  guard (not (fat_size_sectors == 0)) ScanError.not_recognized
  ok (total_sectors, fat_size_sectors)

abbrev pub variant_of : ℕ → FatVariant
variant_of cluster_count =
    if ltb cluster_count 4085
    then FatVariant.fat12
    else if ltb cluster_count 65525
    then FatVariant.fat16
    else FatVariant.fat32

-- The derived layout.
unfoldable pub layout : Bpb → ℕ → ℕ → FatBoot
layout p total_sectors fat_size_sectors =
    let fs_bytes = total_sectors * p.bytes_per_sector in
    let fat_offset = p.reserved_sectors * p.bytes_per_sector in
    let fats_bytes = p.num_fats * fat_size_sectors * p.bytes_per_sector in
    let root_dir_offset = fat_offset + fats_bytes in
    let root_dir_bytes = div_ceil (p.root_entries * 32) p.bytes_per_sector * p.bytes_per_sector in
    let data_offset = root_dir_offset + root_dir_bytes in
    let cluster_size = p.bytes_per_sector * p.sectors_per_cluster in
    let cluster_count = (fs_bytes - data_offset) / cluster_size in
    record {
      variant = variant_of cluster_count;
      bytes_per_sector = p.bytes_per_sector;
      sectors_per_cluster = p.sectors_per_cluster;
      cluster_size = cluster_size;
      reserved_sectors = p.reserved_sectors;
      num_fats = p.num_fats;
      fat_size_sectors = fat_size_sectors;
      total_sectors = total_sectors;
      root_entries = p.root_entries;
      root_cluster = p.root_cluster;
      fat_offset = fat_offset;
      root_dir_offset = root_dir_offset;
      root_dir_bytes = root_dir_bytes;
      data_offset = data_offset;
      cluster_count = cluster_count;
    }

-- FAT32 has no fixed root directory and uses the wide FAT size.
unfoldable pub check_variant : Bpb → FatVariant → ℕ → Result ScanError (Unit {0})
check_variant p FatVariant.fat32 cluster_count = do
  guard (p.root_entries == 0 && p.fat_size16 == 0) ScanError.corrupt
  guard (not (ltb p.root_cluster 2 || leb (cluster_count + 2) p.root_cluster)) ScanError.corrupt
check_variant p FatVariant.fat12 cluster_count = guard (not (p.root_entries == 0)) ScanError.corrupt
check_variant p FatVariant.fat16 cluster_count = guard (not (p.root_entries == 0)) ScanError.corrupt

-- The checks of `parse` on the layout.
unfoldable pub parse_bpb : Bpb → ℕ → Result ScanError FatBoot
parse_bpb p volume_len = do
  (total_sectors, fat_size_sectors) ← check_geometry p volume_len
  let boot = layout p total_sectors fat_size_sectors
  guard (ltb boot.data_offset (total_sectors * p.bytes_per_sector)) ScanError.corrupt
  guard (not (boot.cluster_count == 0)) ScanError.corrupt
  check_variant p boot.variant boot.cluster_count
  ok boot

unfoldable pub parse : List ℕ → ℕ → Result ScanError FatBoot
parse sector0 volume_len = do
  guard (leb 512 (length sector0)) ScanError.not_recognized
  parse_bpb (read_bpb sector0) volume_len

-- The byte offset of a data cluster.
unfoldable pub cluster_offset : FatBoot → ℕ → Option ℕ
cluster_offset boot cluster =
    if ltb cluster 2 || leb (boot.cluster_count + 2) cluster
    then none
    else some (boot.data_offset + (cluster - 2) * boot.cluster_size)
