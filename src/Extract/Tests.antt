-- ===== src/Extract/Tests.antt =====
-- Runs of the extraction over a small disk, and its theorems there.
use undelete_master.Base.{
  ℕ, ◌≡◌, refl, ◌==◌, if◌then◌else◌, not, true, false, none, List, [], ◌∷◌, any, replicate, ok,
  arith, length-replicate, length, Bool-cases, inl, inr, ok-injective,
}
use undelete_master.Candidate.{Candidate, clipped_end, clipped_start}
use undelete_master.Candidate.Samples.{sample}
use undelete_master.Source.{SourceReader, SourceKind, KeepsSizes, is_complete}
use undelete_master.Extract.{
  Extraction, extract_candidate, uncovered_ranges, cover_good, cover_outcome, is_sparse, mark,
  mark_bad, read_extent, splice, walk_extent, walk_extents,
}
use undelete_master.Extract.Ranges.{in_missing}
use undelete_master.Extract.Delivery.{delivers, extract_candidate_missing}
use undelete_master.Extract.Overwrites.{
  whole_at, extract_candidate_size, extract_candidate_overwrites,
}

-- A disk of sevens that cannot be read from position 512 on.
abbrev half_bad : SourceReader
half_bad = record {
  identity = record { id = []; kind = SourceKind.image_file; label = []; size = 1024 };
  len = 1024;
  sector_layout = record { logical = 512; physical = 512 };
  read_exact_at = λ offset len. ok (replicate len 7);
  read_best_effort_at = λ offset len.
      if offset == 0
      then (record { bytes_valid = len; bad_ranges = [] }, replicate len 7)
      else (record { bytes_valid = 0; bad_ranges = (0, len) ∷ [] }, replicate len 0);
}

half_bad-KeepsSizes : KeepsSizes half_bad
half_bad-KeepsSizes = record {
  exact = λ offset len bytes e. rw (← ok-injective e) (length-replicate len 7);
  best_effort = λ offset len. elim (Bool-cases (offset == 0)) [
    | inl t ↦ rw t (length-replicate len 7)
    | inr t ↦ rw t (length-replicate len 0)
  ];
}

-- Four bytes that were found twice, first where the disk can be read and then where it cannot.
abbrev found_twice : Candidate
found_twice = record sample { size = 4; extents = whole_at 4 0 ∷ whole_at 4 512 ∷ [] }

abbrev blank_bytes : Extraction
blank_bytes = record { bytes = 0 ∷ 0 ∷ 0 ∷ 0 ∷ []; missing_ranges = [] }

extracted : extract_candidate half_bad found_twice ≡ ok blank_bytes
unfolding extract_candidate walk_extents uncovered_ranges walk_extent clipped_end clipped_start
    is_sparse read_extent splice cover_outcome is_complete cover_good mark_bad mark
extracted = refl

two_gaps : uncovered_ranges none 0 (false ∷ true ∷ false ∷ false ∷ []) ≡ (0, 1) ∷ (2, 2) ∷ []
unfolding uncovered_ranges
two_gaps = refl

extract_candidate_missing_example :
    any (in_missing 2) (let none_left : List (ℕ × ℕ) = [] in none_left)
    ≡ not (any (delivers half_bad 4 2) (whole_at 4 0 ∷ whole_at 4 512 ∷ []))
extract_candidate_missing_example =
    extract_candidate_missing half_bad found_twice blank_bytes 2 extracted (omega arith)

extract_candidate_size_run : length blank_bytes.bytes ≡ 4
extract_candidate_size_run =
    extract_candidate_size half_bad half_bad-KeepsSizes found_twice blank_bytes extracted

extract_candidate_overwrites_example :
    (blank_bytes.bytes ≡ (half_bad.read_best_effort_at 512 4).1)
    × (any (in_missing 2) blank_bytes.missing_ranges ≡ false)
extract_candidate_overwrites_example =
    extract_candidate_overwrites half_bad found_twice 0 512 2 blank_bytes half_bad-KeepsSizes
      (omega arith) (omega arith) refl refl (omega arith) extracted
