-- ===== src/Source.antt =====
-- crates/core/src/source.rs and read.rs: read-only access to a source. A reader is a record of the
-- methods of the trait `SourceReader`: `read_exact_at` and `read_best_effort_at` give what stands in
-- the buffer of the given size afterwards. A source does not change while it is read.
use undelete_master.Base.{
  ℕ, ◌≡◌, Bool, ◌||◌, Option, none, some, List, [], ltb, ◌==◌, if◌then◌else◌, Result, ok, length,
}

pub data SourceKind : Type 0 where
  image_file physical_disk volume : SourceKind

pub record SourceIdentity : Type 0 where
  pub id : List ℕ
  pub kind : SourceKind
  pub label : List ℕ
  pub size : ℕ

pub record SectorLayout : Type 0 where
  pub logical : ℕ  -- u32
  pub physical : ℕ  -- u32

unfoldable pub new_layout : ℕ → ℕ → Option SectorLayout
new_layout logical physical =
    if logical == 0 || physical == 0 || ltb physical logical
    then none
    else some (record { logical = logical; physical = physical })

-- The message of `io` is left out.
pub data ReadError : Type 0 where
  out_of_bounds : (offset len source_len : ℕ) → ReadError
  io : (offset : ℕ) → ReadError
  source_gone : ReadError

pub record ReadOutcome : Type 0 where
  pub bytes_valid : ℕ
  pub bad_ranges : List (ℕ × ℕ)

unfoldable pub complete : ℕ → ReadOutcome
complete len = record { bytes_valid = len; bad_ranges = [] }

unfoldable pub is_complete : ReadOutcome → Bool
is_complete outcome = length outcome.bad_ranges == 0

pub record SourceReader : Type 0 where
  pub identity : SourceIdentity
  pub len : ℕ  -- u64
  pub sector_layout : SectorLayout
  pub read_exact_at : ℕ → ℕ → Result ReadError (List ℕ)
  pub read_best_effort_at : ℕ → ℕ → ReadOutcome × List ℕ

-- The default method: a buffer of `len` bytes, filled.
abbrev pub read_vec_at : SourceReader → ℕ → ℕ → Result ReadError (List ℕ)
read_vec_at reader offset len = reader.read_exact_at offset len

-- Every read fills its buffer, of which it keeps the size.
pub record KeepsSizes (reader : SourceReader) : Type 0 where
  pub exact :
      (offset len : ℕ) (bytes : List ℕ)
      → reader.read_exact_at offset len ≡ ok bytes
      → length bytes ≡ len
  pub best_effort : (offset len : ℕ) → length (reader.read_best_effort_at offset len).1 ≡ len
