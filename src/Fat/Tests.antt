-- ===== src/Fat/Tests.antt =====
-- Runs of the FAT code on a small volume, and the theorems at concrete inputs.
use undelete_master.Base.{
  ℕ, ◌+◌, ◌≤◌, ◌<◌, ◌≡◌, ◌⊎◌, ◌↔◌, refl, min, true, false, none, some, List, [], ◌∷◌, ◌++◌, length,
  replicate, ok, arith,
}
use undelete_master.Fat.Boot.{
  FatVariant, FatBoot, read_bpb, check_geometry, parse, parse_bpb, check_variant, layout,
  cluster_offset,
}
use undelete_master.Fat.Boot.Layout.{IsLaidOut, parse-IsLaidOut}
use undelete_master.Fat.Boot.Clusters.{cluster_offset_inside, cluster_offset_disjoint}
use undelete_master.Fat.Table.{FatTable, raw_value, entry, classify, follow, chain}
use undelete_master.Fat.Table.Chain.{IsLinked, IsEnded, NoRepeat, chain_complete_iff, chain_is_path}
use undelete_master.Base.Powers.{is_power_of_two}
use undelete_master.FsCommon.{u8_at, u16_at, u32_at}

-- A floppy image: 512-byte sectors, one to a cluster, two FATs of nine sectors, 224 root entries.
abbrev floppy_sector : List ℕ
floppy_sector =
    replicate 11 0
    ++ (0 ∷ 2 ∷ 1 ∷ 1 ∷ 0 ∷ 2 ∷ 224 ∷ 0 ∷ 64 ∷ 11 ∷ 240 ∷ 9 ∷ 0 ∷ [])
    ++ replicate 486 0
    ++ (0x55 ∷ 0xAA ∷ [])

abbrev floppy_boot : FatBoot
floppy_boot = record {
  variant = FatVariant.fat12;
  bytes_per_sector = 512;
  sectors_per_cluster = 1;
  cluster_size = 512;
  reserved_sectors = 1;
  num_fats = 2;
  fat_size_sectors = 9;
  total_sectors = 2880;
  root_entries = 224;
  root_cluster = 0;
  fat_offset = 512;
  root_dir_offset = 9728;
  root_dir_bytes = 7168;
  data_offset = 16896;
  cluster_count = 2847;
}

floppy_parses : parse floppy_sector 1474560 ≡ ok floppy_boot
unfolding parse parse_bpb check_geometry read_bpb layout check_variant is_power_of_two u8_at u16_at
    u32_at
floppy_parses = refl

parse-IsLaidOut_example : IsLaidOut floppy_boot 1474560
parse-IsLaidOut_example = parse-IsLaidOut floppy_sector 1474560 floppy_boot floppy_parses

cluster_offset_inside_example :
    ((cluster_offset floppy_boot 2 ≡ none) ↔ ((2 < 2) ⊎ (2849 ≤ 2)))
    × ((off : ℕ) → cluster_offset floppy_boot 2 ≡ some off → (16896 ≤ off) × (off + 512 ≤ 1474560))
cluster_offset_inside_example =
    cluster_offset_inside floppy_sector 1474560 floppy_boot 2 floppy_parses

cluster_offset_disjoint_run : (16896 + 512 ≤ 17408) ⊎ (17408 + 512 ≤ 16896)
unfolding cluster_offset
cluster_offset_disjoint_run =
    cluster_offset_disjoint floppy_boot 2 3 16896 17408 (omega arith) refl refl

-- Clusters 2, 3 and 5 make a chain, and cluster 4 links to itself.
abbrev small_table : FatTable
small_table = record {
  variant = FatVariant.fat12;
  raw = 0xF0 ∷ 0xFF ∷ 0xFF ∷ 0x03 ∷ 0x50 ∷ 0x00 ∷ 0x04 ∷ 0xF0 ∷ 0xFF ∷ [];
  cluster_count = 4;
}

chain_runs : chain small_table 2 10 ≡ (2 ∷ 3 ∷ 5 ∷ [], true)
unfolding chain follow entry classify raw_value
chain_runs = refl

chain_meets_loop : chain small_table 4 10 ≡ (4 ∷ [], false)
unfolding chain follow entry classify raw_value
chain_meets_loop = refl

chain_complete_iff_example :
    IsLinked small_table 2 (2 ∷ 3 ∷ 5 ∷ [])
    × IsEnded small_table (2 ∷ 3 ∷ 5 ∷ [])
    × NoRepeat (2 ∷ 3 ∷ 5 ∷ [])
    × (3 ≤ min 10 4)
chain_complete_iff_example = (chain_complete_iff small_table 2 10 (2 ∷ 3 ∷ 5 ∷ [])).0 chain_runs

chain_is_path_run :
    let (cs, complete) = chain small_table 4 10 in
    IsLinked small_table 4 cs × NoRepeat cs × (length cs ≤ min 10 4)
chain_is_path_run = chain_is_path small_table 4 10
