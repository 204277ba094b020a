-- ===== src/Restore/Stream.antt =====
-- crates/restore/src/stream.rs: the content that a plan describes, read in chunks and written out.
pub mod Meaning
pub mod Writing
pub mod Ranges
pub mod Chunks
pub mod Reading
pub mod Zeros
pub mod Planned
pub mod Outcome
pub mod Delivery
pub mod Accepted
pub mod Alive
pub mod Completes
pub mod Segments
pub mod Recovery
mod Tests
use undelete_master.Base.{
  ℕ, zero, suc, ◌+◌, ◌-◌, min, Bool, true, false, not, ◌&&◌, Option, none, some, List, [], ◌∷◌,
  ◌++◌, map, all, length, take, drop, replicate, leb, ◌==◌, if◌then◌else◌, bytes_eq, Result, ok,
  err, guard, ok_or, ◌>>=◌, ◌>>◌, checked_add,
}
use undelete_master.Candidate.{sort_unstable, merge_intervals}
use undelete_master.Source.{SourceReader, ReadOutcome}
use undelete_master.Restore.Errors.{ZeroFillReason, RestoreError}
use undelete_master.Restore.Plan.{PartialPolicy, ContentSegment, ContentPlan, logical_offset, len}
use undelete_master.Restore.Output.{
  ZeroFilledRange, WriteCall, StreamFailure, Stream, Step, fail_with, expect_add, check_cancel,
  write_committed, append_zero_range,
}
use undelete_master.Restore.Preflight.{preflight}

pub record StreamOutcome : Type 0 where
  pub bytes_written : ℕ
  pub sha256 : List ℕ
  pub zero_filled_ranges : List ZeroFilledRange
  pub requires_best_effort : Bool

-- `normalize_bad_ranges`: every range lies within the read; as intervals they are in order and apart,
-- and what they leave is what the read says to be valid.
unfoldable pub is_inside : ℕ → ℕ × ℕ → Bool
is_inside requested (offset, n) = elim (checked_add offset n) [
  | none ↦ false
  | some stop ↦ not (n == 0) && leb stop requested
]

unfoldable pub ends : ℕ × ℕ → ℕ × ℕ
ends (offset, n) = (offset, offset + n)

unfoldable pub sum_checked : ℕ → List (ℕ × ℕ) → Option ℕ
sum_checked total [] = some total
sum_checked total ((start, stop) ∷ ranges) = elim (checked_add total (stop - start)) [
  | none ↦ none
  | some next ↦ sum_checked next ranges
]

unfoldable pub normalize_bad_ranges : ℕ → ReadOutcome → Result RestoreError (List (ℕ × ℕ))
normalize_bad_ranges requested_len outcome = do
  guard (leb (length outcome.bad_ranges) requested_len)
      (RestoreError.invalid_read_outcome requested_len)
  guard (all (is_inside requested_len) outcome.bad_ranges)
      (RestoreError.invalid_read_outcome requested_len)
  let ranges = merge_intervals (map ends (sort_unstable outcome.bad_ranges))
  bad_bytes ← ok_or (sum_checked 0 ranges) (RestoreError.invalid_read_outcome requested_len)
  guard (outcome.bytes_valid == requested_len - bad_bytes)
      (RestoreError.invalid_read_outcome requested_len)
  ok ranges

-- The bad ranges of a chunk, as evidence.
unfoldable pub append_bad : ℕ → List (ℕ × ℕ) → Stream → Step
append_bad chunk_logical [] s = ok s
append_bad chunk_logical ((bad_start, bad_end) ∷ ranges) s = do
  offset ← expect_add chunk_logical bad_start s
  s1 ←
      append_zero_range
        (record {
          logical_offset = offset;
          len = bad_end - bad_start;
          reason = ZeroFillReason.previously_read_failed;
        })
        s
  append_bad chunk_logical ranges s1

-- `scratch[start..end].fill(0)` for every range.
unfoldable pub fill_zeros : List (ℕ × ℕ) → List ℕ → List ℕ
fill_zeros [] bytes = bytes
fill_zeros ((start, stop) ∷ ranges) bytes =
    fill_zeros ranges (take start bytes ++ (replicate (stop - start) 0 ++ drop stop bytes))

unfoldable pub is_complete_only : PartialPolicy → Bool
is_complete_only PartialPolicy.complete_only = true
is_complete_only PartialPolicy.zero_fill_and_map = false

-- What is done about the bad ranges of a chunk.
unfoldable pub settle_bad : PartialPolicy → ℕ → List (ℕ × ℕ) → Stream → Step
settle_bad policy chunk_logical [] s = ok s
settle_bad policy chunk_logical ((bad_start, bad_end) ∷ ranges) s = do
  bad_offset ← expect_add chunk_logical bad_start s
  guard (not (is_complete_only policy))
      (StreamFailure.refused (RestoreError.read_failure bad_offset (bad_end - bad_start)), s)
  s1 ← append_bad chunk_logical ((bad_start, bad_end) ∷ ranges) s
  ok (record s1 { requires_best_effort = true })

-- `?` on an error with no state.
unfoldable pub lift {ℓ} :
    {A : Type ℓ} → Stream → Result RestoreError A → Result (StreamFailure × Stream) A
lift s (ok a) = ok a
lift s (err e) = fail_with e s

module _ (plan : ContentPlan) (scratch_len : ℕ) where
  unfoldable pub zero_chunks : ℕ → ℕ → ℕ → Stream → Step
  zero_chunks zero n segment_position s = ok s
  zero_chunks (suc rounds) n segment_position s = if leb n segment_position then ok s else (do
    s1 ← check_cancel s
    let chunk_len = min (n - segment_position) scratch_len
    s2 ← write_committed plan.logical_size (replicate chunk_len 0) s1
    next ← expect_add segment_position chunk_len s2
    zero_chunks rounds n next s2)

module _ (source : SourceReader) (plan : ContentPlan) where
  -- One chunk of a segment that is read.
  unfoldable pub read_chunk : ℕ → ℕ → ℕ → Stream → Step
  read_chunk chunk_logical chunk_physical chunk_len s =
      let (outcome, scratch) = source.read_best_effort_at chunk_physical chunk_len in
      do
        bad_ranges ← lift s (normalize_bad_ranges chunk_len outcome)
        s1 ← settle_bad plan.policy chunk_logical bad_ranges s
        write_committed plan.logical_size (fill_zeros bad_ranges scratch) s1

module _ (source : SourceReader) (plan : ContentPlan) (scratch_len : ℕ) where
  -- The loop over the chunks of a segment; a round takes a byte at least, so that as many rounds as
  -- the segment has bytes are enough.
  unfoldable pub read_chunks : ℕ → ℕ → ℕ → ℕ → ℕ → Stream → Step
  read_chunks zero logical physical n segment_position s = ok s
  read_chunks (suc rounds) logical physical n segment_position s =
      if leb n segment_position then ok s else (do
        s1 ← check_cancel s
        let chunk_len = min (n - segment_position) scratch_len
        chunk_logical ← expect_add logical segment_position s1
        chunk_physical ← expect_add physical segment_position s1
        s2 ← read_chunk source plan chunk_logical chunk_physical chunk_len s1
        next ← expect_add segment_position chunk_len s2
        read_chunks rounds logical physical n next s2)

  unfoldable pub stream_segment : ContentSegment → Stream → Step
  stream_segment (ContentSegment.read logical physical n) s = read_chunks n logical physical n 0 s
  stream_segment (ContentSegment.zeros logical n reason) s = do
    s1 ← append_zero_range (record { logical_offset = logical; len = n; reason = reason }) s
    zero_chunks plan scratch_len n n 0 s1

  unfoldable pub stream_segments : List ContentSegment → Stream → Step
  stream_segments [] s = ok s
  stream_segments (segment ∷ segments) s = do
    s1 ← stream_segment segment s
    stream_segments segments s1

-- `planned_zero_ranges`, on a state of its own that is then dropped.
unfoldable pub planned_zero_ranges : List ContentSegment → Stream → Step
planned_zero_ranges [] s = ok s
planned_zero_ranges (ContentSegment.read _ _ _ ∷ segments) s = planned_zero_ranges segments s
planned_zero_ranges (ContentSegment.zeros logical n reason ∷ segments) s = do
  s1 ← append_zero_range (record { logical_offset = logical; len = n; reason = reason }) s
  planned_zero_ranges segments s1

-- `validate_planned_zero_ranges`: of its error only the error itself is kept.
unfoldable pub validated_ranges : Stream → Step → Step
validated_ranges s (ok _) = ok s
validated_ranges s (err (failure, _)) = err (failure, s)

unfoldable pub same_digest : Option (List ℕ) → List ℕ → Bool
same_digest none actual = true
same_digest (some expected) actual = bytes_eq expected actual

unfoldable pub stream_start : List WriteCall → List Bool → Bool → Stream
stream_start calls answers requires_best_effort = record {
  written = [];
  bytes_written = 0;
  progress = [];
  ranges = [];
  requires_best_effort = requires_best_effort;
  calls = calls;
  answers = answers;
}

unfoldable pub reversed : List ZeroFilledRange → List ZeroFilledRange → List ZeroFilledRange
reversed [] rest = rest
reversed (x ∷ xs) rest = reversed xs (x ∷ rest)

unfoldable pub digest_error : Option (List ℕ) → List ℕ → RestoreError
digest_error none actual = RestoreError.hash_mismatch [] actual
digest_error (some expected) actual = RestoreError.hash_mismatch expected actual

module _ (sha256 : List ℕ → List ℕ) where
  -- The end of `stream_candidate`. The digest is of the bytes that were written.
  unfoldable pub finish_stream :
      ContentPlan → Stream → Result (StreamFailure × Stream) StreamOutcome
  finish_stream plan s = do
    guard (s.bytes_written == plan.logical_size) (
      StreamFailure.refused (RestoreError.output_length_mismatch s.bytes_written plan.logical_size),
      s,
    )
    guard (same_digest plan.expected_sha256 (sha256 s.written))
        (StreamFailure.refused (digest_error plan.expected_sha256 (sha256 s.written)), s)
    ok (record {
      bytes_written = s.bytes_written;
      sha256 = sha256 s.written;
      zero_filled_ranges = reversed s.ranges [];
      requires_best_effort = s.requires_best_effort;
    })

  -- `stream_candidate`: the outcome, with the state that holds the output.
  unfoldable pub stream_candidate :
      SourceReader
      → ContentPlan
      → ℕ
      → List WriteCall
      → List Bool
      → Result (StreamFailure × Stream) (StreamOutcome × Stream)
  stream_candidate source plan scratch_len calls answers =
      let s = stream_start calls answers plan.requires_best_effort in
      do
        lift s (preflight source.len plan scratch_len)
        s1 ← validated_ranges s (planned_zero_ranges plan.segments s)
        s2 ← stream_segments source plan scratch_len plan.segments s1
        outcome ← finish_stream plan s2
        ok (outcome, s2)
