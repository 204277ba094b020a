-- ===== src/Ntfs/Boot/Layout.antt =====
-- What an accepted NTFS boot sector says about the volume.
use undelete_master.Base.{
  ℕ, ◌+◌, ◌*◌, ◌/◌, ◌≤◌, ◌<◌, ◌≡◌, refl, true, not, ◌&&◌, ◌||◌, Option, none, some, List, length,
  leb, ◌==◌, ok, arith, ok-injective, >>=-eq-ok, guard, ok_or, take, drop, checked_mul, bytes_eq,
  Bool-cases, inl, inr,
}
use undelete_master.Base.Powers.{is_power_of_two, is_power_of_two_pos, is_power_of_two_pow}
use native.Mathlib.Nat.{mul-le-mul_right}
use undelete_master.FsCommon.{ScanError, u8_at, u16_at, u64_at, or_zero}
use undelete_master.Ntfs.Boot.{
  NtfsBoot, parse, plausible_record, or_default, size_from_clusters_field, cluster_sectors, oem_id,
  is_signature,
}

abbrev pub IsRecordSize : ℕ → Type 0
IsRecordSize s = (256 ≤ s) × (s ≤ 65536) × (is_power_of_two s ≡ true)

-- The geometry of a volume of `volume_len` bytes.
pub record IsGeometry (b : NtfsBoot) (volume_len : ℕ) : Type 0 where
  pub sector : (256 ≤ b.bytes_per_sector) × (b.bytes_per_sector ≤ 4096)
  pub cluster : b.cluster_size ≡ b.bytes_per_sector * b.sectors_per_cluster
  pub cluster_pos : 0 < b.cluster_size
  pub clusters_fit : b.total_clusters * b.cluster_size ≤ b.total_sectors * b.bytes_per_sector
  pub inside : b.total_sectors * b.bytes_per_sector ≤ volume_len
  pub mft : (0 < b.mft_lcn) × (b.mft_lcn < b.total_clusters)
  pub mft_inside : b.mft_lcn * b.cluster_size + b.cluster_size ≤ volume_len
  pub file_record : IsRecordSize b.file_record_size
  pub index_record : IsRecordSize b.index_record_size

plausible_record_ok : (o : Option ℕ) (s : ℕ) → plausible_record o ≡ some s → IsRecordSize s
plausible_record_ok none s e = absurd (ground arith)
plausible_record_ok (some v) s e = (ground arith, ground arith, ground arith)

or_default_ok : (o : Option ℕ) → IsRecordSize (or_default 4096 (plausible_record o))
or_default_ok none = (omega arith, omega arith, is_power_of_two_pow 12 (omega arith))
or_default_ok (some v) = elim (Bool-cases (leb 256 v && leb v 65536 && is_power_of_two v)) [
  | inl h ↦ rw h (ground arith, ground arith, ground arith)
  | inr h ↦ rw h (omega arith, omega arith, is_power_of_two_pow 12 (omega arith))
]

clusters_room : (ts spc bps : ℕ) → 0 < spc → ts / spc * (bps * spc) ≤ ts * bps
clusters_room ts spc bps h =
    let whole : ts / spc * spc ≤ ts = grind arith in
    let b = mul-le-mul_right bps whole in grind (arith, b)

block_room : (c total size : ℕ) → c < total → c * size + size ≤ total * size
block_room c total size h = grind arith

fits_ok :
    (a b v x : ℕ) (u : Unit {0})
    → ok_or (checked_mul a b) ScanError.corrupt ≡ ok x
    → guard (leb x v) ScanError.corrupt ≡ ok u
    → a * b ≤ v
fits_ok a b v x u e h = ground arith

lcn_ok :
    (c total : ℕ) (u : Unit {0})
    → guard (not (c == 0 || leb total c)) ScanError.corrupt ≡ ok u
    → (0 < c) × (c < total)
lcn_ok c total u e = (ground arith, ground arith)

-- An accepted NTFS boot sector describes whole clusters inside the volume, a file table that starts
-- in one of them, and record sizes that are powers of two from 256 to 65536.
pub parse-IsGeometry :
    (sector0 : List ℕ) (volume_len : ℕ) (b : NtfsBoot)
    → parse sector0 volume_len ≡ ok b
    → IsGeometry b volume_len
unfolding parse
parse-IsGeometry sector0 volume_len b e =
    let bps = or_zero (u16_at sector0 11) in
    let ts = or_zero (u64_at sector0 40) in
    let mft = or_zero (u64_at sector0 48) in
    let (u1, e1, r1) = >>=-eq-ok (guard (leb 512 (length sector0)) ScanError.not_recognized) _ e in
    let (u2, e2, r2) =
      >>=-eq-ok (guard (bytes_eq (take 8 (drop 3 sector0)) oem_id) ScanError.not_recognized) _ r1 in
    let (u3, e3, r3) =
      >>=-eq-ok (guard (is_signature (u16_at sector0 510)) ScanError.not_recognized) _ r2 in
    let (u4, e4, r4) =
      >>=-eq-ok (guard (is_power_of_two bps && leb 256 bps && leb bps 4096) ScanError.corrupt) _
        r3 in
    let (spc, e5, r5) = >>=-eq-ok (cluster_sectors (or_zero (u8_at sector0 13))) _ r4 in
    let (u6, e6, r6) = >>=-eq-ok (guard (is_power_of_two spc) ScanError.corrupt) _ r5 in
    let (u7, e7, r7) = >>=-eq-ok (guard (not (ts == 0)) ScanError.corrupt) _ r6 in
    let (fs_bytes, e8, r8) = >>=-eq-ok (ok_or (checked_mul ts bps) ScanError.corrupt) _ r7 in
    let (u9, e9, r9) = >>=-eq-ok (guard (leb fs_bytes volume_len) ScanError.corrupt) _ r8 in
    let (u10, e10, r10) =
      >>=-eq-ok (guard (not (mft == 0 || leb (ts / spc) mft)) ScanError.corrupt) _ r9 in
    let file = size_from_clusters_field (or_zero (u8_at sector0 64)) (bps * spc) in
    let index = size_from_clusters_field (or_zero (u8_at sector0 68)) (bps * spc) in
    let (size, e11, r11) = >>=-eq-ok (ok_or (plausible_record file) ScanError.corrupt) _ r10 in
    let sector : (256 ≤ bps) × (bps ≤ 4096) = (ground (arith, e4), ground (arith, e4)) in
    let spc_pos : 0 < spc = is_power_of_two_pos spc (ground (arith, e6)) in
    let inside : ts * bps ≤ volume_len = fits_ok ts bps volume_len fs_bytes u9 e8 e9 in
    let mft_in = lcn_ok mft (ts / spc) u10 e10 in
    let fit = clusters_room ts spc bps spc_pos in
    rw (← ok-injective r11) record {
      sector = sector;
      cluster = refl;
      cluster_pos = grind (arith, sector, spc_pos);
      clusters_fit = fit;
      inside = inside;
      mft = mft_in;
      mft_inside = omega (arith, block_room mft (ts / spc) (bps * spc) mft_in.1, fit, inside);
      file_record = plausible_record_ok file size (ground (arith, e11));
      index_record = or_default_ok index;
    }
