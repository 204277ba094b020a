-- ===== src/Candidate.antt =====
-- crates/core/src/candidate.rs: a recoverable item, its extents, and the intervals of the file that
-- they cover. A `String` is the list of its bytes.
pub mod Intervals
pub mod Coverage
pub mod Samples
mod Tests
use undelete_master.Base.{
  ℕ, ◌+◌, ◌-◌, min, max, Bool, ◌&&◌, ◌||◌, Option, none, some, List, [], ◌∷◌, ◌++◌, ltb, leb, ◌==◌,
  if◌then◌else◌, saturating_add,
}

pub data DiscoveryMethod : Type 0 where
  ntfs_metadata fat_metadata exfat_metadata carving recycle_bin : DiscoveryMethod

pub data CandidateKind : Type 0 where
  file directory : CandidateKind

pub data CandidateState : Type 0 where
  exact_evidence likely_complete complete_unvalidated structurally_valid partial conflicted
        read_error_state zeroed_or_trimmed overwritten metadata_only unknown :
      CandidateState

pub data ExtentAvailability : Type 0 where
  free_in_snapshot currently_allocated out_of_volume read_failed zeroed resident sparse unknown :
      ExtentAvailability

pub data MetadataConfidence : Type 0 where
  high medium low : MetadataConfidence

pub record ExtentRun : Type 0 where
  pub logical_offset : ℕ  -- u64
  pub physical_offset : Option ℕ
  pub len : ℕ  -- u64
  pub availability : ExtentAvailability

-- Milliseconds since the epoch, from 1970 on.
pub record Timestamps : Type 0 where
  pub created_ms : Option ℕ
  pub modified_ms : Option ℕ
  pub accessed_ms : Option ℕ
  pub deleted_ms : Option ℕ

pub record Candidate : Type 0 where
  pub id : ℕ
  pub kind : CandidateKind
  pub method : DiscoveryMethod
  pub state : CandidateState
  pub name : List ℕ
  pub name_certain : Bool
  pub parent_path : List (List ℕ)
  pub metadata_confidence : MetadataConfidence
  pub size : ℕ  -- u64
  pub timestamps : Timestamps
  pub extents : List ExtentRun
  pub record_ref : ℕ
  pub sequence : Option ℕ
  pub warnings : List (List ℕ)

-- The part of an extent that lies inside the file.
unfoldable pub clipped_start : ExtentRun → ℕ → ℕ
clipped_start extent logical_size = min extent.logical_offset logical_size

unfoldable pub clipped_end : ExtentRun → ℕ → ℕ
clipped_end extent logical_size = min (saturating_add extent.logical_offset extent.len) logical_size

unfoldable pub clip : List ExtentRun → ℕ → List (ℕ × ℕ)
clip [] logical_size = []
clip (extent ∷ extents) logical_size =
    let start = clipped_start extent logical_size in
    let stop = clipped_end extent logical_size in
    let rest = clip extents logical_size in if ltb start stop then (start, stop) ∷ rest else rest

-- `sort_unstable` on pairs of numbers: equal pairs cannot be told apart, so there is one result.
abbrev pub pair_le : ℕ × ℕ → ℕ × ℕ → Bool
pair_le (a, b) (c, d) = ltb a c || (a == c && leb b d)

unfoldable pub insert_sorted : ℕ × ℕ → List (ℕ × ℕ) → List (ℕ × ℕ)
insert_sorted x [] = x ∷ []
insert_sorted x (y ∷ ys) = if pair_le x y then x ∷ y ∷ ys else y ∷ insert_sorted x ys

unfoldable pub sort_unstable : List (ℕ × ℕ) → List (ℕ × ℕ)
sort_unstable [] = []
sort_unstable (x ∷ xs) = insert_sorted x (sort_unstable xs)

-- The loop that joins what touches; `last` is the interval that `normalized` ends with.
unfoldable pub merge_into : ℕ × ℕ → List (ℕ × ℕ) → List (ℕ × ℕ)
merge_into last [] = last ∷ []
merge_into (first, last) ((start, stop) ∷ rest) =
    let joined = merge_into (first, max last stop) rest in
    let apart = (first, last) ∷ merge_into (start, stop) rest in
    if leb start last then joined else apart

unfoldable pub merge_intervals : List (ℕ × ℕ) → List (ℕ × ℕ)
merge_intervals [] = []
merge_intervals (first ∷ rest) = merge_into first rest

unfoldable pub normalized_logical_intervals : List ExtentRun → ℕ → List (ℕ × ℕ)
normalized_logical_intervals extents logical_size =
    merge_intervals (sort_unstable (clip extents logical_size))

-- `fold(0, |covered, (start, end)| covered.saturating_add(end - start))`
unfoldable pub sum_lengths : ℕ → List (ℕ × ℕ) → ℕ
sum_lengths covered [] = covered
sum_lengths covered ((start, stop) ∷ rest) =
    sum_lengths (saturating_add covered (stop - start)) rest

unfoldable pub covered_len : Candidate → ℕ
covered_len self = sum_lengths 0 (normalized_logical_intervals self.extents self.size)

unfoldable pub has_missing_ranges : Candidate → Bool
has_missing_ranges self = ltb (covered_len self) self.size

-- `parts.join("/")`
unfoldable pub join : List (List ℕ) → List ℕ
join [] = []
join (part ∷ []) = part
join (part ∷ next ∷ parts) = part ++ (b'/' ∷ join (next ∷ parts))

unfoldable pub display_path : Candidate → List ℕ
display_path self = join (self.parent_path ++ (self.name ∷ []))
