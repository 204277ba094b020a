-- ===== src/Ntfs/Tests.antt =====
-- Runs of the NTFS code, and the theorems at concrete inputs.
use undelete_master.Base.{
  ◌<◌, ◌≢◌, true, false, ℕ, ◌≤◌, ◌≡◌, refl, none, some, List, [], ◌∷◌, ◌++◌, length, All, replicate,
  Result, ok, err, arith,
}
use undelete_master.Base.Powers.{is_power_of_two}
use undelete_master.FsCommon.{u8_at, u16_at, u32_at, u64_at}
use undelete_master.Ntfs.Boot.{NtfsBoot, parse}
use undelete_master.Ntfs.Boot.Layout.{IsGeometry, parse-IsGeometry}
use undelete_master.Ntfs.Record.{FileRecord, RecordParseError, parse_file_record}
use undelete_master.Ntfs.Record.Fixups.{parse_file_record_bounds}
use undelete_master.Ntfs.Runs.{RunElement, RunError, max_runs, decode_runlist}
use undelete_master.Ntfs.Runs.Bounds.{IsInside, total_count, decode_runlist_sound}
use undelete_master.Ntfs.Runs.Total.{decode_runlist_total}

-- Four clusters at 16, a hole of two, and three at 12.
abbrev run_bytes : List ℕ
run_bytes = 0x11 ∷ 0x04 ∷ 0x10 ∷ 0x01 ∷ 0x02 ∷ 0x11 ∷ 0x03 ∷ 0xFC ∷ 0x00 ∷ []

abbrev run_list : List RunElement
run_list =
    record { cluster_count = 4; lcn = some 16 }
    ∷ record { cluster_count = 2; lcn = none }
    ∷ record { cluster_count = 3; lcn = some 12 }
    ∷ []

decodes : decode_runlist run_bytes 1000 ≡ some (ok run_list)
unfolding decode_runlist
decodes = refl

negative_lcn :
    decode_runlist (0x11 ∷ 0x04 ∷ 0xF0 ∷ 0x00 ∷ []) 1000 ≡ some (err RunError.lcn_outside)
unfolding decode_runlist
negative_lcn = refl

decode_runlist_sound_example :
    All (IsInside 1000) run_list × (total_count run_list ≤ 1000) × (length run_list ≤ max_runs)
decode_runlist_sound_example = decode_runlist_sound run_bytes 1000 run_list decodes

decode_runlist_total_example :
    (r : Result RunError (List RunElement)) × (decode_runlist run_bytes 1000 ≡ some r)
decode_runlist_total_example = decode_runlist_total run_bytes 1000

-- 512-byte sectors, eight to a cluster, 20480 sectors, the file table at cluster 4.
abbrev ntfs_sector : List ℕ
ntfs_sector =
    (0 ∷ 0 ∷ 0 ∷ b'N' ∷ b'T' ∷ b'F' ∷ b'S' ∷ 32 ∷ 32 ∷ 32 ∷ 32 ∷ 0 ∷ 2 ∷ 8 ∷ [])
    ++ replicate 26 0
    ++ (0 ∷ 80 ∷ 0 ∷ 0 ∷ 0 ∷ 0 ∷ 0 ∷ 0 ∷ 4 ∷ 0 ∷ 0 ∷ 0 ∷ 0 ∷ 0 ∷ 0 ∷ 0 ∷ 2 ∷ [])
    ++ replicate 7 0
    ++ (0xF6 ∷ 0 ∷ 0 ∷ 0 ∷ 0xF4 ∷ [])
    ++ replicate 441 0
    ++ (0x55 ∷ 0xAA ∷ [])

abbrev ntfs_boot : NtfsBoot
ntfs_boot = record {
  bytes_per_sector = 512;
  sectors_per_cluster = 8;
  cluster_size = 4096;
  total_sectors = 20480;
  total_clusters = 2560;
  mft_lcn = 4;
  mftmirr_lcn = 2;
  file_record_size = 1024;
  index_record_size = 4096;
  volume_serial = 0;
}

ntfs_parses : parse ntfs_sector 10486272 ≡ ok ntfs_boot
unfolding parse is_power_of_two u8_at u16_at u64_at
ntfs_parses = refl

parse-IsGeometry_run : IsGeometry ntfs_boot 10486272
parse-IsGeometry_run = parse-IsGeometry ntfs_sector 10486272 ntfs_boot ntfs_parses

-- Two sectors of 32 bytes, the update sequence array at 48.
abbrev raw_record : List ℕ
raw_record =
    (b'F' ∷ b'I' ∷ b'L' ∷ b'E' ∷ 48 ∷ 0 ∷ 3 ∷ 0 ∷ [])
    ++ replicate 8 0
    ++ (7 ∷ 0 ∷ 1 ∷ 0 ∷ 56 ∷ 0 ∷ 1 ∷ 0 ∷ 64 ∷ 0 ∷ 0 ∷ 0 ∷ 0 ∷ 0 ∷ 1 ∷ 0 ∷ [])
    ++ replicate 16 0
    ++ (1 ∷ 0 ∷ 0xAA ∷ 0xBB ∷ 0xCC ∷ 0xDD ∷ [])
    ++ replicate 8 0
    ++ (1 ∷ 0 ∷ [])

abbrev fixed_record : FileRecord
fixed_record = record {
  record_data =
      (b'F' ∷ b'I' ∷ b'L' ∷ b'E' ∷ 48 ∷ 0 ∷ 3 ∷ 0 ∷ [])
      ++ replicate 8 0
      ++ (7 ∷ 0 ∷ 1 ∷ 0 ∷ 56 ∷ 0 ∷ 1 ∷ 0 ∷ 64 ∷ 0 ∷ 0 ∷ 0 ∷ 0 ∷ 0 ∷ 0xAA ∷ 0xBB ∷ [])
      ++ replicate 16 0
      ++ (1 ∷ 0 ∷ 0xAA ∷ 0xBB ∷ 0xCC ∷ 0xDD ∷ [])
      ++ replicate 8 0
      ++ (0xCC ∷ 0xDD ∷ []);
  sequence = 7;
  hard_link_count = 1;
  attrs_offset = 56;
  in_use = true;
  is_directory = false;
  bytes_used = 64;
  base_record = 0;
}

record_parses : parse_file_record raw_record 32 ≡ ok fixed_record
unfolding parse_file_record u16_at u32_at u64_at
record_parses = refl

parse_file_record_bounds_example :
    (parse_file_record raw_record 32 ≢ err RecordParseError.panicked)
    × ((r : FileRecord)
        → parse_file_record raw_record 32 ≡ ok r
        → (length r.record_data ≡ 64) × (r.attrs_offset < 64) × (r.bytes_used ≤ 64))
parse_file_record_bounds_example = parse_file_record_bounds raw_record 32 (omega arith)
