-- ===== src/Restore/Plan/Tests.antt =====
-- Runs of the planner, and its theorem at a candidate with two extents and a gap.
use undelete_master.Base.{ℕ, ◌≡◌, refl, none, some, [], ◌∷◌, ok, err, true}
use undelete_master.Candidate.{ExtentRun, ExtentAvailability, Candidate}
use undelete_master.Candidate.Samples.{sample}
use undelete_master.Restore.Errors.{RestoreError, ZeroFillReason, same_reason}
use undelete_master.Restore.Plan.{
  ContentPlan, ContentSegment, PartialPolicy, plan_candidate, by_kind, some_plan, plan_file,
  check_extents, place_extents, sort_extents, insert_extent, key_le, push_gap, readable_mapping,
  mapping_for, map_readable, push_mapping, push_read, extend_read, push, extend_segment_read,
  extend_segment_zero, extend_zero, finish, push_zero, refuses, same_availability,
}
use undelete_master.Restore.Plan.Tiling.{IsPlan, plan_candidate-IsPlan}

abbrev free_at : ℕ → ℕ → ℕ → ExtentRun
free_at offset physical len = record {
  logical_offset = offset;
  physical_offset = some physical;
  len = len;
  availability = ExtentAvailability.free_in_snapshot;
}

-- Two extents that meet on the disk, out of order, and nothing for the last ten positions.
abbrev gapped : Candidate
gapped = record sample { size = 60; extents = free_at 20 520 30 ∷ free_at 0 500 20 ∷ [] }

abbrev gapped_plan : ContentPlan
gapped_plan = record {
  candidate_id = 1;
  logical_size = 60;
  segments =
      ContentSegment.read 0 500 50 ∷ ContentSegment.zeros 50 10 ZeroFillReason.missing_extent ∷ [];
  expected_sha256 = none;
  requires_best_effort = true;
  policy = PartialPolicy.zero_fill_and_map;
}

plans : plan_candidate gapped 1000 none PartialPolicy.zero_fill_and_map 8 ≡ ok (some gapped_plan)
unfolding plan_candidate by_kind some_plan plan_file check_extents place_extents sort_extents
    insert_extent key_le push_gap readable_mapping mapping_for map_readable push_mapping push_read
    extend_read push extend_segment_read same_reason extend_segment_zero extend_zero finish
    push_zero refuses same_availability
plans = refl

refused :
    plan_candidate gapped 1000 none PartialPolicy.complete_only 8
    ≡ err (RestoreError.unavailable_content 50 10 ZeroFillReason.missing_extent)
unfolding plan_candidate by_kind some_plan plan_file check_extents place_extents sort_extents
    insert_extent key_le push_gap readable_mapping mapping_for map_readable push_mapping push_read
    extend_read push extend_segment_read same_reason extend_segment_zero extend_zero finish
    push_zero refuses same_availability
refused = refl

plan_candidate-IsPlan_example : IsPlan gapped 1000 PartialPolicy.zero_fill_and_map gapped_plan
plan_candidate-IsPlan_example =
    plan_candidate-IsPlan gapped 1000 none PartialPolicy.zero_fill_and_map 8 gapped_plan plans
