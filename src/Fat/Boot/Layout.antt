-- ===== src/Fat/Boot/Layout.antt =====
-- The layout of a boot sector that `FatBoot::parse` of crates/fs-fat/src/boot.rs accepts.
use undelete_master.Base.{
  ◌⊎◌, not, sym, ok-injective, ℕ, ◌+◌, ◌-◌, ◌*◌, ◌/◌, ◌≤◌, ◌<◌, ◌≡◌, ◌≢◌, refl, List, ok, arith,
  leb, ltb, ◌==◌, >>=-eq-ok, guard, length,
}
use undelete_master.Base.Powers.{is_power_of_two_pos}
use undelete_master.Fat.Boot.{
  FatBoot, Bpb, read_bpb, check_geometry, layout, check_variant, parse_bpb, parse, div_ceil,
  variant_of,
}

-- The areas of a volume of `volume_len` bytes.
pub record IsLaidOut (b : FatBoot) (volume_len : ℕ) : Type 0 where
  pub reserved : 0 < b.fat_offset
  pub root_behind_fats :
      b.fat_offset + b.num_fats * b.fat_size_sectors * b.bytes_per_sector ≡ b.root_dir_offset
  pub root_fits : b.root_entries * 32 ≤ b.root_dir_bytes
  pub data_behind_root : b.root_dir_offset + b.root_dir_bytes ≡ b.data_offset
  pub cluster_pos : 0 < b.cluster_size
  pub count_pos : 0 < b.cluster_count
  pub clusters_fit :
      b.data_offset + b.cluster_count * b.cluster_size ≤ b.total_sectors * b.bytes_per_sector
  pub no_more_fit :
      b.total_sectors * b.bytes_per_sector < b.data_offset + (b.cluster_count + 1) * b.cluster_size
  pub inside : b.total_sectors * b.bytes_per_sector ≤ volume_len
  pub kind : b.variant ≡ variant_of b.cluster_count

-- What the geometry checks establish.
record IsPlausible (p : Bpb) (total fat_size volume_len : ℕ) : Type 0 where
  sector : (512 ≤ p.bytes_per_sector) × (p.bytes_per_sector ≤ 4096)
  cluster : (0 < p.sectors_per_cluster) × (p.sectors_per_cluster ≤ 128)
  reserved : 0 < p.reserved_sectors
  fats : (0 < p.num_fats) × (p.num_fats ≤ 4)
  fits : total * p.bytes_per_sector ≤ volume_len
  fat_choice : (fat_size ≡ p.fat_size16) ⊎ (fat_size ≡ p.fat_size32)

check_geometry_ok :
    (p : Bpb) (volume_len total fat_size : ℕ)
    → check_geometry p volume_len ≡ ok (total, fat_size)
    → IsPlausible p total fat_size volume_len
unfolding check_geometry
check_geometry_ok p volume_len total fat_size e =
    ground
      (arith, is_power_of_two_pos p.bytes_per_sector, is_power_of_two_pos p.sectors_per_cluster)

le-div_ceil : (a b : ℕ) → 0 < b → a ≤ div_ceil a b * b
le-div_ceil a b h = grind arith

div_room : (a b : ℕ) → 0 < b → (a / b * b ≤ a) × (a < (a / b + 1) * b)
div_room a b h = grind arith

parse_bpb_parts :
    (p : Bpb) (volume_len : ℕ) (b : FatBoot)
    → parse_bpb p volume_len ≡ ok b
    → (total fat_size : ℕ) × (check_geometry p volume_len ≡ ok (total, fat_size))
      × (b ≡ layout p total fat_size)
      × ((layout p total fat_size).data_offset < total * p.bytes_per_sector)
      × ((layout p total fat_size).cluster_count ≢ 0)
unfolding parse_bpb
parse_bpb_parts p volume_len b e =
    let ((total, fat_size), e1, e2) = >>=-eq-ok (check_geometry p volume_len) _ e in
    let boot = layout p total fat_size in
    let (u, e3, e4) =
      >>=-eq-ok (guard (ltb boot.data_offset (total * p.bytes_per_sector)) _) _ e2 in
    let (u', e5, e6) = >>=-eq-ok (guard (not (boot.cluster_count == 0)) _) _ e4 in
    let (u'', e7, e8) = >>=-eq-ok (check_variant p boot.variant boot.cluster_count) _ e6 in
    (total, fat_size, e1, ok-injective (sym e8), ground arith, ground arith)

layout-IsLaidOut :
    (p : Bpb) (total fat_size volume_len : ℕ)
    → IsPlausible p total fat_size volume_len
    → (layout p total fat_size).data_offset < total * p.bytes_per_sector
    → (layout p total fat_size).cluster_count ≢ 0
    → IsLaidOut (layout p total fat_size) volume_len
unfolding layout
layout-IsLaidOut p total fat_size volume_len h d c =
    let size_pos : 0 < p.bytes_per_sector * p.sectors_per_cluster = grind arith in
    let fs = total * p.bytes_per_sector in
    let start =
      p.reserved_sectors * p.bytes_per_sector
      + p.num_fats * fat_size * p.bytes_per_sector
      + div_ceil (p.root_entries * 32) p.bytes_per_sector * p.bytes_per_sector in
    let room = div_room (fs - start) (p.bytes_per_sector * p.sectors_per_cluster) size_pos in
    record {
      reserved = grind arith;
      root_behind_fats = refl;
      root_fits = le-div_ceil (p.root_entries * 32) p.bytes_per_sector (omega arith);
      data_behind_root = refl;
      cluster_pos = size_pos;
      count_pos = omega (arith, c);
      clusters_fit = omega (arith, room, d);
      no_more_fit = omega (arith, room, d);
      inside = h.fits;
      kind = refl;
    }

-- An accepted boot sector describes a volume whose reserved area, FATs, root directory and data
-- clusters follow one another inside the region, with as many whole clusters as fit and at least
-- one; the variant is that of the number of clusters.
pub parse-IsLaidOut :
    (sector0 : List ℕ) (volume_len : ℕ) (b : FatBoot)
    → parse sector0 volume_len ≡ ok b
    → IsLaidOut b volume_len
unfolding parse
parse-IsLaidOut sector0 volume_len b e =
    let (u, e1, e2) = >>=-eq-ok (guard (leb 512 (length sector0)) _) _ e in
    let p = read_bpb sector0 in
    let (total, fat_size, e3, same, d, c) = parse_bpb_parts p volume_len b e2 in
    rw same (
      layout-IsLaidOut p total fat_size volume_len
        (check_geometry_ok p volume_len total fat_size e3) d c)
