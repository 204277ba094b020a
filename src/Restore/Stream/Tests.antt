-- ===== src/Restore/Stream/Tests.antt =====
-- Runs of the stream, and its theorem at a plan of a read with a bad position and of zeros.
use undelete_master.Base.{
  ℕ, zero, suc, ◌+◌, ◌-◌, ◌<◌, ◌≡◌, refl, true, false, ◌&&◌, none, some, List, [], ◌∷◌, any, take,
  length, get_elem?, leb, ltb, ◌==◌, if◌then◌else◌, ok, err, inl, inr, Bool-cases, arith,
}
use undelete_master.Candidate.{sort_unstable, insert_sorted, merge_intervals, merge_into}
use undelete_master.Candidate.{Candidate, ExtentRun, ExtentAvailability}
use undelete_master.Candidate.Samples.{sample}
use undelete_master.Source.{complete, SourceReader, SourceKind, ReadOutcome}
use undelete_master.Restore.Errors.{ZeroFillReason, RestoreError, reason_index, same_reason}
use undelete_master.Restore.Plan.{
  ContentPlan, ContentSegment, PartialPolicy, len, logical_offset, refuses, plan_candidate, by_kind,
  some_plan, plan_file, check_extents, place_extents, sort_extents, insert_extent, key_le, push_gap,
  readable_mapping, mapping_for, map_readable, push_mapping, push_read, extend_read, push,
  extend_segment_read, extend_segment_zero, extend_zero, finish, push_zero, same_availability,
}
use undelete_master.Restore.Output.{
  StreamFailure, WriteCall, expect_add, cancelled_by, check_cancel, committed, commit, write_calls,
  write_committed, push_range, join_range, append_to, append_zero_range,
}
use undelete_master.Restore.Preflight.{check_kind, check_segments, same_flag, preflight}
use undelete_master.Restore.Stream.{
  stream_candidate, is_inside, ends, sum_checked, normalize_bad_ranges, append_bad, fill_zeros,
  is_complete_only, settle_bad, lift, zero_chunks, read_chunk, read_chunks, stream_segment,
  stream_segments, planned_zero_ranges, validated_ranges, same_digest, stream_start, reversed,
  digest_error, finish_stream,
}
use undelete_master.Restore.Stream.Meaning.{Gives}
use undelete_master.Restore.Stream.Chunks.{is_bad}
use undelete_master.Restore.Stream.Reading.{IsFaithful}
use undelete_master.Restore.Stream.Alive.{Succeeds}
use undelete_master.Restore.Stream.Completes.{IsReadable}
use undelete_master.Restore.Stream.Recovery.{
  IsRecovered, plan_candidate-stream_candidate, stream_candidate-Succeeds,
}
use undelete_master.Restore.Stream.Outcome.{IsDelivered}
use undelete_master.Restore.Stream.Delivery.{stream_candidate-Gives}

-- The disk, and what its buffer holds where position 505 cannot be read.
abbrev bytes_of : ℕ → ℕ
bytes_of place = place - 490

abbrev raw : ℕ → ℕ
raw place = if place == 505 then 255 else bytes_of place

abbrev window : ℕ → ℕ → List ℕ
window offset zero = []
window offset (suc n) = raw offset ∷ window (suc offset) n

abbrev outcome_at : ℕ → ℕ → ReadOutcome
outcome_at offset n =
    if leb offset 505 && ltb 505 (offset + n)
    then record { bytes_valid = n - 1; bad_ranges = (505 - offset, 1) ∷ [] }
    else record { bytes_valid = n; bad_ranges = [] }

abbrev scratched : SourceReader
scratched = record {
  identity = record { id = []; kind = SourceKind.image_file; label = []; size = 1000 };
  len = 1000;
  sector_layout = record { logical = 512; physical = 512 };
  read_exact_at = λ offset n. ok (window offset n);
  read_best_effort_at = λ offset n. (outcome_at offset n, window offset n);
}

length-window : (offset n : ℕ) → length (window offset n) ≡ n
length-window offset zero = refl
length-window offset (suc n) = omega (arith, length-window (suc offset) n)

get_elem?-window :
    (offset n i b : ℕ) → get_elem? (window offset n) i ≡ some b → (i < n) × (b ≡ raw (offset + i))
get_elem?-window offset zero i b h = absurd (cc)
get_elem?-window offset (suc n) zero b h =
    let e : offset + 0 ≡ offset = omega arith in (omega arith, rw e (cc))
get_elem?-window offset (suc n) (suc i) b h =
    let (below, same) = get_elem?-window (suc offset) n i b h in
    let e : offset + suc i ≡ suc offset + i = omega arith in (omega arith, rw e same)

scratched-delivers :
    (offset n i b : ℕ)
    → get_elem? (window offset n) i ≡ some b
    → any (is_bad i) (outcome_at offset n).bad_ranges ≡ false
    → b ≡ bytes_of (offset + i)
scratched-delivers offset n i b e good =
    let (below, same) = get_elem?-window offset n i b e in
    elim (Bool-cases (leb offset 505 && ltb 505 (offset + n))) [
      | inl over ↦ let good' = rw over at good in ground arith
      | inr apart ↦ ground arith
    ]

scratched-IsFaithful : IsFaithful scratched bytes_of
scratched-IsFaithful = record {
  sizes = length-window;
  delivers = λ offset n i b inside e good. scratched-delivers offset n i b e good;
}

abbrev partial_plan : ContentPlan
partial_plan = record {
  candidate_id = 1;
  logical_size = 12;
  segments =
      ContentSegment.read 0 500 8 ∷ ContentSegment.zeros 8 4 ZeroFillReason.missing_extent ∷ [];
  expected_sha256 = none;
  requires_best_effort = true;
  policy = PartialPolicy.zero_fill_and_map;
}

-- Not a digest, but enough to see what is digested.
abbrev first_two : List ℕ → List ℕ
first_two bytes = take 2 bytes

abbrev all_written : List ℕ
all_written = 10 ∷ 11 ∷ 12 ∷ 13 ∷ 14 ∷ 0 ∷ 16 ∷ 17 ∷ 0 ∷ 0 ∷ 0 ∷ 0 ∷ []

streamed :
    stream_candidate first_two scratched partial_plan 5 (WriteCall.takes 2 ∷ []) (false ∷ [])
    ≡ ok (
      record {
        bytes_written = 12;
        sha256 = 10 ∷ 11 ∷ [];
        zero_filled_ranges =
            record { logical_offset = 5; len = 1; reason = ZeroFillReason.previously_read_failed }
            ∷ record { logical_offset = 8; len = 4; reason = ZeroFillReason.missing_extent }
            ∷ [];
        requires_best_effort = true;
      },
      record {
        written = all_written;
        bytes_written = 12;
        progress = 12 ∷ 8 ∷ 5 ∷ 2 ∷ [];
        ranges =
            record { logical_offset = 8; len = 4; reason = ZeroFillReason.missing_extent }
            ∷ record { logical_offset = 5; len = 1; reason = ZeroFillReason.previously_read_failed }
            ∷ [];
        requires_best_effort = true;
        calls = [];
        answers = [];
      },
    )
unfolding stream_candidate expect_add cancelled_by check_cancel committed commit write_calls
    write_committed push_range join_range append_to append_zero_range is_inside ends sum_checked
    normalize_bad_ranges append_bad fill_zeros is_complete_only settle_bad lift zero_chunks
    read_chunk read_chunks stream_segment stream_segments check_kind check_segments same_flag
    preflight planned_zero_ranges validated_ranges same_digest stream_start reversed digest_error
    finish_stream sort_unstable insert_sorted merge_intervals merge_into reason_index same_reason
    len logical_offset refuses
streamed = refl

-- A probe that says yes after the first chunk.
cancelled :
    stream_candidate first_two scratched partial_plan 5 [] (false ∷ false ∷ true ∷ [])
    ≡ err (
      StreamFailure.refused (RestoreError.cancelled 5),
      record {
        written = 10 ∷ 11 ∷ 12 ∷ 13 ∷ 14 ∷ [];
        bytes_written = 5;
        progress = 5 ∷ [];
        ranges = [];
        requires_best_effort = true;
        calls = [];
        answers = [];
      },
    )
unfolding stream_candidate expect_add cancelled_by check_cancel committed commit write_calls
    write_committed push_range join_range append_to append_zero_range is_inside ends sum_checked
    normalize_bad_ranges append_bad fill_zeros is_complete_only settle_bad lift zero_chunks
    read_chunk read_chunks stream_segment stream_segments check_kind check_segments same_flag
    preflight planned_zero_ranges validated_ranges same_digest stream_start reversed digest_error
    finish_stream sort_unstable insert_sorted merge_intervals merge_into reason_index same_reason
    len logical_offset refuses
cancelled = refl

stream_candidate-Gives_example :
    Gives partial_plan bytes_of
      (λ (outcome, s). IsDelivered partial_plan bytes_of first_two s.written outcome)
      (stream_candidate first_two scratched partial_plan 5 (WriteCall.takes 2 ∷ []) (false ∷ []))
stream_candidate-Gives_example =
    stream_candidate-Gives scratched partial_plan bytes_of first_two 5 (WriteCall.takes 2 ∷ [])
      (false ∷ []) (omega arith) (omega arith) scratched-IsFaithful

-- The candidate that the plan is made for.
abbrev short_extent : ExtentRun
short_extent = record {
  logical_offset = 0;
  physical_offset = some 500;
  len = 8;
  availability = ExtentAvailability.free_in_snapshot;
}

abbrev short_file : Candidate
short_file = record sample { size = 12; extents = short_extent ∷ [] }

planned :
    plan_candidate short_file 1000 none PartialPolicy.zero_fill_and_map 8 ≡ ok (some partial_plan)
unfolding plan_candidate by_kind some_plan plan_file check_extents place_extents sort_extents
    insert_extent key_le push_gap readable_mapping mapping_for map_readable push_mapping push_read
    extend_read push extend_segment_read same_reason extend_segment_zero extend_zero finish
    push_zero refuses same_availability
planned = refl

plan_candidate-stream_candidate_example :
    Gives partial_plan bytes_of
      (λ (outcome, s). IsRecovered short_file bytes_of s.written outcome)
      (stream_candidate first_two scratched partial_plan 5 (WriteCall.takes 2 ∷ []) (false ∷ []))
plan_candidate-stream_candidate_example =
    plan_candidate-stream_candidate short_file none PartialPolicy.zero_fill_and_map 8 partial_plan
      scratched bytes_of first_two 5 (WriteCall.takes 2 ∷ []) (false ∷ []) (omega arith)
      (omega arith) scratched-IsFaithful planned

-- The same disk without the bad position.
abbrev clean_window : ℕ → ℕ → List ℕ
clean_window offset zero = []
clean_window offset (suc n) = bytes_of offset ∷ clean_window (suc offset) n

abbrev clean : SourceReader
clean = record scratched {
  read_exact_at = λ offset n. ok (clean_window offset n);
  read_best_effort_at = λ offset n. (complete n, clean_window offset n);
}

length-clean_window : (offset n : ℕ) → length (clean_window offset n) ≡ n
length-clean_window offset zero = refl
length-clean_window offset (suc n) = omega (arith, length-clean_window (suc offset) n)

get_elem?-clean_window :
    (offset n i b : ℕ) → get_elem? (clean_window offset n) i ≡ some b → b ≡ bytes_of (offset + i)
get_elem?-clean_window offset zero i b h = absurd (cc)
get_elem?-clean_window offset (suc n) zero b h = ground arith
get_elem?-clean_window offset (suc n) (suc i) b h =
    let e : offset + suc i ≡ suc offset + i = omega arith in
    rw e (get_elem?-clean_window (suc offset) n i b h)

clean-IsFaithful : IsFaithful clean bytes_of
clean-IsFaithful = record {
  sizes = length-clean_window;
  delivers = λ offset n i b inside e good. get_elem?-clean_window offset n i b e;
}

clean-IsReadable : IsReadable clean
clean-IsReadable = record { whole = λ offset n inside. refl }

stream_candidate-Succeeds_example :
    Succeeds
      (λ (outcome, s). IsRecovered short_file bytes_of s.written outcome)
      (stream_candidate first_two clean partial_plan 5 [] (false ∷ false ∷ []))
stream_candidate-Succeeds_example =
    stream_candidate-Succeeds short_file PartialPolicy.zero_fill_and_map 8 partial_plan clean
      bytes_of first_two 5 (false ∷ false ∷ []) (omega arith) (omega arith) clean-IsFaithful
      clean-IsReadable (omega arith) (omega arith) (omega arith) (refl, (refl, tt)) planned
