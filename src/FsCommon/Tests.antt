-- ===== src/FsCommon/Tests.antt =====
-- Runs of the allocation bitmap, and the theorems at concrete maps.
use undelete_master.Base.{◌≤◌, ◌≡◌, refl, true, none, some, [], ◌∷◌, any, arith}
use undelete_master.Base.Words.{all_IsByte}
use undelete_master.FsCommon.Times.{
  dos_datetime_to_unix_ms, is_encoding, civil_days, filetime_to_unix_ms, signed_ms, plausible,
  max_unix_ms,
}
use undelete_master.FsCommon.Times.Calendar.{
  IsShown, shown_ms, dos_datetime_to_unix_ms_iff, filetime_to_unix_ms_iff,
}
use undelete_master.FsCommon.Allocation.{
  AllocationMap, from_raw, new, known_cluster_count, is_allocated, set_allocated, skip_used,
  skip_free, next_run, collect_runs, free_cluster_runs,
}
use undelete_master.FsCommon.Allocation.Bits.{set_allocated-is_allocated}
use undelete_master.FsCommon.Allocation.FreeRuns.{covers, free_cluster_runs_iff}

-- Clusters 0, 1 and 4 are allocated, 2, 3 and 5 to 9 are free, and 16 to 19 have no byte.
abbrev short_map : AllocationMap
short_map = from_raw (0x13 ∷ 0xFC ∷ []) 20

abbrev empty_map : AllocationMap
empty_map = from_raw (0 ∷ 0 ∷ 0 ∷ []) 20

new_is_empty : new (λ bytes. true) 20 ≡ some empty_map
new_is_empty = refl

free_runs :
    free_cluster_runs short_map
    ≡ record { start_cluster = 2; run_clusters = 2 }
      ∷ record { start_cluster = 5; run_clusters = 5 }
      ∷ []
unfolding free_cluster_runs known_cluster_count collect_runs next_run skip_used skip_free
    is_allocated
free_runs = refl

missing_byte_panics : set_allocated short_map 17 ≡ none
unfolding set_allocated
missing_byte_panics = refl

free_cluster_runs_iff_example : any (covers 3) (free_cluster_runs short_map) ≡ true
free_cluster_runs_iff_example =
    (free_cluster_runs_iff short_map 3 (omega arith)).1 (unfold is_allocated in refl)

set_allocated-is_allocated_example :
    (is_allocated (from_raw (0x17 ∷ 0xFC ∷ []) 20) 3 ≡ is_allocated short_map 3)
    × (20 ≡ short_map.cluster_count)
set_allocated-is_allocated_example =
    set_allocated-is_allocated short_map (from_raw (0x17 ∷ 0xFC ∷ []) 20) 2 3
      (all_IsByte short_map.bits refl) (omega arith) (unfold set_allocated in refl)

-- Two seconds past noon on the first of January 2020.
noon : dos_datetime_to_unix_ms 20513 24577 ≡ some 1_577_880_002_000
unfolding dos_datetime_to_unix_ms is_encoding civil_days
noon = refl

-- The 31st of February 2024 is taken for the second of March.
late_february : dos_datetime_to_unix_ms 22623 0 ≡ some 1_709_337_600_000
unfolding dos_datetime_to_unix_ms is_encoding civil_days
late_february = refl

before_1970 : filetime_to_unix_ms 116_444_735_999_990_001 ≡ some 0
unfolding filetime_to_unix_ms signed_ms plausible
before_1970 = refl

dos_datetime_to_unix_ms_iff_example :
    IsShown 20513 24577 × (1_577_880_002_000 ≡ shown_ms 20513 24577)
dos_datetime_to_unix_ms_iff_example =
    (dos_datetime_to_unix_ms_iff 20513 24577 1_577_880_002_000).0 noon

filetime_run : 0 ≤ max_unix_ms
filetime_run = ((filetime_to_unix_ms_iff 116_444_735_999_990_001 0).0 before_1970).2
