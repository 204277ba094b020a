-- ===== src/Partition/Gpt/Header.antt =====
-- crates/partition/src/gpt.rs: the header of a copy, its place on the disk, and what the two headers
-- say of one another.
use undelete_master.Base.{
  ℕ, Bool, true, false, not, ◌&&◌, ◌||◌, Option, none, some, List, ◌++◌, ltb, leb, ◌==◌,
  if◌then◌else◌, length, take, drop, replicate, bytes_eq, Result, ok, err,
}
use undelete_master.Base.Options.{◌>>=◌}
use undelete_master.Base.Texts.{codes}
use undelete_master.FsCommon.{ScanError, get_range, u32_at, u64_at}
use undelete_master.Source.{SourceReader, read_vec_at}

pub record GptHeader : Type 0 where
  pub current_lba : ℕ
  pub backup_lba : ℕ
  pub first_usable : ℕ
  pub last_usable : ℕ
  pub disk_guid : List ℕ
  pub entry_lba : ℕ
  pub num_entries : ℕ
  pub entry_size : ℕ
  pub entries_crc : ℕ

-- The header with its own checksum set to 0.
unfoldable pub without_crc : ℕ → List ℕ → List ℕ
without_crc header_size buf = take 16 buf ++ (replicate 4 0 ++ drop 20 (take header_size buf))

module _ (hash : List ℕ → ℕ) where
  unfoldable pub parse_header : List ℕ → ℕ → Option GptHeader
  parse_header buf expected_lba = do
    signature ← get_range buf 0 8
    header_size ← if bytes_eq signature (codes "EFI PART") then u32_at buf 12 else none
    stored_crc ←
        if leb 92 header_size && leb header_size 512 && leb header_size (length buf)
        then u32_at buf 16
        else none
    current_lba ← if hash (without_crc header_size buf) == stored_crc then u64_at buf 24 else none
    backup_lba ← if current_lba == expected_lba then u64_at buf 32 else none
    first_usable ← u64_at buf 40
    last_usable ← u64_at buf 48
    disk_guid ← get_range buf 56 16
    entry_lba ← u64_at buf 72
    num_entries ← u32_at buf 80
    entry_size ← u32_at buf 84
    entries_crc ← u32_at buf 88
    some (record {
      current_lba = current_lba;
      backup_lba = backup_lba;
      first_usable = first_usable;
      last_usable = last_usable;
      disk_guid = disk_guid;
      entry_lba = entry_lba;
      num_entries = num_entries;
      entry_size = entry_size;
      entries_crc = entries_crc;
    })

  unfoldable pub validate_header_topology : GptHeader → ℕ → Bool → Result ScanError (Unit {0})
  validate_header_topology header last_lba primary =
      let expected_current = if primary then 1 else last_lba in
      let expected_backup = if primary then last_lba else 1 in
      if not (header.current_lba == expected_current && header.backup_lba == expected_backup)
      then err ScanError.corrupt
      else if ltb header.last_usable header.first_usable
          || leb header.first_usable 1
          || leb last_lba header.last_usable
      then err ScanError.corrupt
      else ok tt

  unfoldable pub read_validated_header :
      SourceReader → ℕ → ℕ → ℕ → ℕ → Bool → Option GptHeader × Option ScanError
  read_validated_header reader offset sector expected_lba last_lba primary =
      elim (read_vec_at reader offset sector) [
        | err _ ↦ (none, some ScanError.read)
        | ok buffer ↦ elim (parse_header buffer expected_lba) [
          | none ↦ (none, some ScanError.not_recognized)
          | some header ↦ elim (validate_header_topology header last_lba primary) [
            | ok _ ↦ (some header, none)
            | err error ↦ (none, some error)
          ]
        ]
      ]

unfoldable pub headers_are_reciprocal : GptHeader → GptHeader → Bool
headers_are_reciprocal primary backup =
    primary.current_lba == backup.backup_lba
    && primary.backup_lba == backup.current_lba
    && primary.first_usable == backup.first_usable
    && primary.last_usable == backup.last_usable
    && bytes_eq primary.disk_guid backup.disk_guid
    && primary.num_entries == backup.num_entries
    && primary.entry_size == backup.entry_size
    && primary.entries_crc == backup.entries_crc

unfoldable pub is_grave : ScanError → Bool
is_grave ScanError.read = true
is_grave ScanError.corrupt = true
is_grave ScanError.not_recognized = false

unfoldable pub prefer_copy_failure : Option ScanError → Option ScanError → ScanError
unfolding is_grave
prefer_copy_failure (some p) (some b) = if is_grave p then p else if is_grave b then b else p
prefer_copy_failure (some p) none = p
prefer_copy_failure none (some b) = b
prefer_copy_failure none none = ScanError.not_recognized
