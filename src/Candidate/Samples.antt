-- ===== src/Candidate/Samples.antt =====
-- A candidate for the tests, with extents that overlap.
use undelete_master.Base.{ℕ, true, none, List, [], ◌∷◌}
use undelete_master.Candidate.{
  ExtentRun, ExtentAvailability, Candidate, CandidateKind, CandidateState, DiscoveryMethod,
  MetadataConfidence,
}

abbrev extent : ℕ → ℕ → ExtentAvailability → ExtentRun
extent offset len availability = record {
  logical_offset = offset;
  physical_offset = none;
  len = len;
  availability = availability;
}

-- Two extents that overlap, out of order, and one beyond the end of the file.
abbrev pub overlapping : List ExtentRun
overlapping =
    extent 40 30 ExtentAvailability.free_in_snapshot
    ∷ extent 0 50 ExtentAvailability.currently_allocated
    ∷ extent 90 100 ExtentAvailability.read_failed
    ∷ []

abbrev pub sample : Candidate
sample = record {
  id = 1;
  kind = CandidateKind.file;
  method = DiscoveryMethod.ntfs_metadata;
  state = CandidateState.conflicted;
  name = b'a' ∷ [];
  name_certain = true;
  parent_path = (b'd' ∷ []) ∷ [];
  metadata_confidence = MetadataConfidence.high;
  size = 100;
  timestamps = record {
    created_ms = none;
    modified_ms = none;
    accessed_ms = none;
    deleted_ms = none;
  };
  extents = overlapping;
  record_ref = 1;
  sequence = none;
  warnings = [];
}
