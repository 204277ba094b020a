-- ===== src/Ntfs/Boot.antt =====
-- crates/fs-ntfs/src/boot.rs: the parameters of an NTFS boot sector.
pub mod Layout
use undelete_master.Base.{
  ℕ, zero, suc, ◌+◌, ◌-◌, ◌*◌, ◌/◌, ◌^◌, Bool, true, false, not, ◌&&◌, ◌||◌, Option, none, some,
  List, [], ◌∷◌, length, take, drop, ltb, leb, ◌==◌, if◌then◌else◌, Result, ok, err, ok_or, guard,
  ◌>>=◌, ◌>>◌, checked_mul, bytes_eq,
}
use undelete_master.Base.Powers.{is_power_of_two}
use undelete_master.FsCommon.{ScanError, u8_at, u16_at, u64_at, or_zero}

pub record NtfsBoot : Type 0 where
  pub bytes_per_sector : ℕ
  pub sectors_per_cluster : ℕ
  pub cluster_size : ℕ
  pub total_sectors : ℕ
  pub total_clusters : ℕ
  pub mft_lcn : ℕ
  pub mftmirr_lcn : ℕ
  pub file_record_size : ℕ
  pub index_record_size : ℕ
  pub volume_serial : ℕ

-- The field is an `i8`, here its byte: 1 to 127 is a count of clusters, and 255 down to 128 is
-- -1 to -128, of which `checked_neg` refuses the last.
unfoldable pub size_from_clusters_field : ℕ → ℕ → Option ℕ
size_from_clusters_field raw cluster_size =
    if raw == 0
    then none
    else if ltb raw 128
    then checked_mul raw cluster_size
    else if raw == 128
    then none
    else if ltb 31 (256 - raw)
    then none
    else some (2 ^ (256 - raw))

-- `.filter(|&s| (256..=65536).contains(&s) && s.is_power_of_two())`
abbrev pub plausible_record : Option ℕ → Option ℕ
plausible_record none = none
plausible_record (some s) = if leb 256 s && leb s 65536 && is_power_of_two s then some s else none

-- Values above 0x80 are exponents.
unfoldable pub cluster_sectors : ℕ → Result ScanError ℕ
cluster_sectors spc_raw =
    if spc_raw == 0
    then err ScanError.corrupt
    else if leb spc_raw 0x80
    then ok spc_raw
    else if ltb 16 (256 - spc_raw)
    then err ScanError.corrupt
    else ok (2 ^ (256 - spc_raw))

abbrev pub oem_id : List ℕ
oem_id = b'N' ∷ b'T' ∷ b'F' ∷ b'S' ∷ 32 ∷ 32 ∷ 32 ∷ 32 ∷ []

unfoldable pub is_signature : Option ℕ → Bool
is_signature none = false
is_signature (some v) = v == 0xAA55

abbrev pub or_default : ℕ → Option ℕ → ℕ
or_default d none = d
or_default d (some v) = v

unfoldable pub parse : List ℕ → ℕ → Result ScanError NtfsBoot
unfolding size_from_clusters_field cluster_sectors is_signature
parse sector0 volume_len = do
  guard (leb 512 (length sector0)) ScanError.not_recognized
  guard (bytes_eq (take 8 (drop 3 sector0)) oem_id) ScanError.not_recognized
  guard (is_signature (u16_at sector0 510)) ScanError.not_recognized
  let bytes_per_sector = or_zero (u16_at sector0 11)
  guard (is_power_of_two bytes_per_sector && leb 256 bytes_per_sector && leb bytes_per_sector 4096)
      ScanError.corrupt
  sectors_per_cluster ← cluster_sectors (or_zero (u8_at sector0 13))
  guard (is_power_of_two sectors_per_cluster) ScanError.corrupt
  let cluster_size = bytes_per_sector * sectors_per_cluster
  let total_sectors = or_zero (u64_at sector0 40)
  guard (not (total_sectors == 0)) ScanError.corrupt
  fs_bytes ← ok_or (checked_mul total_sectors bytes_per_sector) ScanError.corrupt
  guard (leb fs_bytes volume_len) ScanError.corrupt
  let total_clusters = total_sectors / sectors_per_cluster
  let mft_lcn = or_zero (u64_at sector0 48)
  let mftmirr_lcn = or_zero (u64_at sector0 56)
  guard (not (mft_lcn == 0 || leb total_clusters mft_lcn)) ScanError.corrupt
  file_record_size ←
      ok_or (plausible_record (size_from_clusters_field (or_zero (u8_at sector0 64)) cluster_size))
        ScanError.corrupt
  let index_record_size =
      or_default 4096
        (plausible_record (size_from_clusters_field (or_zero (u8_at sector0 68)) cluster_size))
  ok (record {
    bytes_per_sector = bytes_per_sector;
    sectors_per_cluster = sectors_per_cluster;
    cluster_size = cluster_size;
    total_sectors = total_sectors;
    total_clusters = total_clusters;
    mft_lcn = mft_lcn;
    mftmirr_lcn = mftmirr_lcn;
    file_record_size = file_record_size;
    index_record_size = index_record_size;
    volume_serial = or_zero (u64_at sector0 72);
  })
