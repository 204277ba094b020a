-- ===== src/Restore/Plan.antt =====
-- crates/restore/src/plan.rs: the plan of a candidate's content. The builder keeps its segments with
-- the last one first, so that `segments.last_mut()` is the head; `finish` puts them in order. The
-- sums that the code takes with `expect` are plain ones: they are ends of ranges that `check_extents`
-- and `map_readable` have held to 64 bits before, so that no panic is an outcome.
pub mod Meaning
pub mod Reasons
pub mod Merging
pub mod Pushing
pub mod Walk
pub mod Tiling
pub mod Flags
mod Tests
use undelete_master.Base.{
  ℕ, suc, ◌+◌, ◌-◌, Bool, false, not, ◌&&◌, ◌||◌, Option, none, some, List, [], ◌∷◌, length, ltb,
  leb, ◌==◌, if◌then◌else◌, Result, ok, err, guard, ok_or, ◌>>=◌, ◌>>◌, checked_add,
}
use undelete_master.Candidate.{Candidate, CandidateKind, ExtentRun, ExtentAvailability, pair_le}
use undelete_master.Score.{availability_index}
use undelete_master.Restore.Errors.{ZeroFillReason, same_reason, RestoreError}

pub data PartialPolicy : Type 0 where
  complete_only zero_fill_and_map : PartialPolicy

pub data ContentSegment : Type 0 where
  read : (logical_offset physical_offset len : ℕ) → ContentSegment
  zeros : (logical_offset len : ℕ) (reason : ZeroFillReason) → ContentSegment

unfoldable pub logical_offset : ContentSegment → ℕ
logical_offset (ContentSegment.read offset _ _) = offset
logical_offset (ContentSegment.zeros offset _ _) = offset

unfoldable pub len : ContentSegment → ℕ
len (ContentSegment.read _ _ n) = n
len (ContentSegment.zeros _ n _) = n

pub record ContentPlan : Type 0 where
  pub candidate_id : ℕ
  pub logical_size : ℕ
  pub segments : List ContentSegment
  pub expected_sha256 : Option (List ℕ)
  pub requires_best_effort : Bool
  pub policy : PartialPolicy

-- `MAX_CONTENT_PLAN_SEGMENTS`
abbrev pub max_content_plan_segments : ℕ
max_content_plan_segments = 1_000_000

pub record BuiltSegment : Type 0 where
  pub segment : ContentSegment
  pub read_availability : Option ExtentAvailability

pub record PlanBuilder : Type 0 where
  pub segments : List BuiltSegment
  pub policy : PartialPolicy
  pub max_segments : ℕ
  pub requires_best_effort : Bool

unfoldable pub same_availability : ExtentAvailability → ExtentAvailability → Bool
unfolding availability_index
same_availability a b = availability_index a == availability_index b

unfoldable pub push : BuiltSegment → PlanBuilder → Result RestoreError PlanBuilder
push s b =
    if leb b.max_segments (length b.segments)
    then err (RestoreError.segment_limit_exceeded b.max_segments)
    else ok (record b { segments = s ∷ b.segments })

-- The last segment, with a read that goes on where a read of the same availability ends.
unfoldable pub extend_segment_read :
    ℕ
    → ℕ
    → ℕ
    → ExtentAvailability
    → Option ExtentAvailability
    → ContentSegment
    → Option ContentSegment
extend_segment_read offset physical n availability (some a) (ContentSegment.read l p m) =
    if same_availability a availability && l + m == offset && p + m == physical
    then some (ContentSegment.read l p (m + n))
    else none
extend_segment_read offset physical n availability (some a) (ContentSegment.zeros _ _ _) = none
extend_segment_read offset physical n availability none _ = none

unfoldable pub extend_read :
    ℕ → ℕ → ℕ → ExtentAvailability → List BuiltSegment → Option (List BuiltSegment)
extend_read offset physical n availability [] = none
extend_read offset physical n availability (last ∷ rest) =
    elim (extend_segment_read offset physical n availability last.read_availability last.segment) [
      | none ↦ none
      | some segment ↦ some (record last { segment = segment } ∷ rest)
    ]

unfoldable pub push_read :
    ℕ → ℕ → ℕ → ExtentAvailability → PlanBuilder → Result RestoreError PlanBuilder
push_read offset physical n availability b =
    elim (extend_read offset physical n availability b.segments) [
      | some segments ↦ ok (record b { segments = segments })
      | none ↦
          push
            (record {
              segment = ContentSegment.read offset physical n;
              read_availability = some availability;
            })
            b
    ]

-- The last segment, with zeros that go on where zeros of the same reason end.
unfoldable pub extend_segment_zero : ℕ → ℕ → ZeroFillReason → ContentSegment → Option ContentSegment
extend_segment_zero offset n reason (ContentSegment.read _ _ _) = none
extend_segment_zero offset n reason (ContentSegment.zeros l m r) =
    if l + m == offset && same_reason r reason
    then some (ContentSegment.zeros l (m + n) r)
    else none

unfoldable pub extend_zero : ℕ → ℕ → ZeroFillReason → List BuiltSegment → Option (List BuiltSegment)
extend_zero offset n reason [] = none
extend_zero offset n reason (last ∷ rest) =
    elim (extend_segment_zero offset n reason last.segment) [
      | none ↦ none
      | some segment ↦ some (record last { segment = segment } ∷ rest)
    ]

unfoldable pub refuses : PartialPolicy → ZeroFillReason → Bool
refuses PartialPolicy.complete_only reason = not (same_reason reason ZeroFillReason.sparse)
refuses PartialPolicy.zero_fill_and_map reason = false

unfoldable pub push_zero : ℕ → ℕ → ZeroFillReason → PlanBuilder → Result RestoreError PlanBuilder
push_zero offset n reason b =
    let b' = record b {
      requires_best_effort =
          b.requires_best_effort || not (same_reason reason ZeroFillReason.sparse);
    } in
    if refuses b.policy reason
    then err (RestoreError.unavailable_content offset n reason)
    else elim (extend_zero offset n reason b.segments) [
      | some segments ↦ ok (record b' { segments = segments })
      | none ↦
          push (record { segment = ContentSegment.zeros offset n reason; read_availability = none })
            b'
    ]

unfoldable pub finish : List BuiltSegment → List ContentSegment → List ContentSegment
finish [] segments = segments
finish (last ∷ rest) segments = finish rest (last.segment ∷ segments)

pub data ExtentMapping : Type 0 where
  read : (physical_offset : ℕ) → ExtentMapping
  zeros : (reason : ZeroFillReason) → ExtentMapping

unfoldable pub map_readable : ExtentRun → ℕ → Option ℕ → Result RestoreError ExtentMapping
map_readable extent source_len none = ok (ExtentMapping.zeros ZeroFillReason.unknown_availability)
map_readable extent source_len (some physical) = elim (checked_add physical extent.len) [
  | none ↦ err (RestoreError.physical_range_overflow physical extent.len)
  | some stop ↦
      if ltb source_len stop
      then err (RestoreError.physical_range_out_of_bounds physical extent.len source_len)
      else ok (ExtentMapping.read physical)
]

-- The `match` on the availability of the extent.
unfoldable pub mapping_for : ExtentRun → ℕ → ExtentAvailability → Result RestoreError ExtentMapping
mapping_for e source_len ExtentAvailability.free_in_snapshot =
    map_readable e source_len e.physical_offset
mapping_for e source_len ExtentAvailability.resident = map_readable e source_len e.physical_offset
mapping_for e source_len ExtentAvailability.sparse = ok (ExtentMapping.zeros ZeroFillReason.sparse)
mapping_for e source_len ExtentAvailability.currently_allocated =
    ok (ExtentMapping.zeros ZeroFillReason.currently_allocated)
mapping_for e source_len ExtentAvailability.out_of_volume =
    ok (ExtentMapping.zeros ZeroFillReason.out_of_volume)
mapping_for e source_len ExtentAvailability.read_failed =
    ok (ExtentMapping.zeros ZeroFillReason.previously_read_failed)
mapping_for e source_len ExtentAvailability.zeroed = ok (ExtentMapping.zeros ZeroFillReason.zeroed)
mapping_for e source_len ExtentAvailability.unknown =
    ok (ExtentMapping.zeros ZeroFillReason.unknown_availability)

unfoldable pub readable_mapping : ExtentRun → ℕ → Result RestoreError ExtentMapping
readable_mapping extent source_len = mapping_for extent source_len extent.availability

-- The first loop: every extent lies within the file. `index` is the place of the head.
unfoldable pub check_extents : ℕ → ℕ → List ExtentRun → Result RestoreError (List (ℕ × ExtentRun))
check_extents index size [] = ok []
check_extents index size (extent ∷ extents) = do
  guard (not (extent.len == 0)) (RestoreError.zero_length_extent index)
  logical_end ←
      ok_or (checked_add extent.logical_offset extent.len)
        (RestoreError.logical_range_overflow extent.logical_offset extent.len)
  guard (not (ltb size logical_end))
      (RestoreError.logical_range_out_of_bounds extent.logical_offset extent.len size)
  ordered ← check_extents (suc index) size extents
  ok ((index, extent) ∷ ordered)

-- `sort_unstable_by_key` by the offset and the index, which no two extents share.
unfoldable pub key_le : ℕ × ExtentRun → ℕ × ExtentRun → Bool
key_le (i, x) (j, y) = pair_le (x.logical_offset, i) (y.logical_offset, j)

unfoldable pub insert_extent : ℕ × ExtentRun → List (ℕ × ExtentRun) → List (ℕ × ExtentRun)
insert_extent x [] = x ∷ []
insert_extent x (y ∷ ys) = if key_le x y then x ∷ y ∷ ys else y ∷ insert_extent x ys

unfoldable pub sort_extents : List (ℕ × ExtentRun) → List (ℕ × ExtentRun)
sort_extents [] = []
sort_extents (x ∷ xs) = insert_extent x (sort_extents xs)

unfoldable pub push_gap : ℕ → ℕ → PlanBuilder → Result RestoreError PlanBuilder
push_gap logical_cursor stop b =
    if ltb logical_cursor stop
    then push_zero logical_cursor (stop - logical_cursor) ZeroFillReason.missing_extent b
    else ok b

unfoldable pub push_mapping :
    ExtentRun → ExtentMapping → PlanBuilder → Result RestoreError PlanBuilder
push_mapping extent (ExtentMapping.read physical) b =
    push_read extent.logical_offset physical extent.len extent.availability b
push_mapping extent (ExtentMapping.zeros reason) b =
    push_zero extent.logical_offset extent.len reason b

-- The second loop, with the cursor that it leaves.
unfoldable pub place_extents :
    ℕ → List (ℕ × ExtentRun) → ℕ → PlanBuilder → Result RestoreError (ℕ × PlanBuilder)
place_extents source_len [] logical_cursor b = ok (logical_cursor, b)
place_extents source_len ((_, extent) ∷ ordered) logical_cursor b = do
  guard (not (ltb extent.logical_offset logical_cursor))
      (RestoreError.overlapping_extents logical_cursor extent.logical_offset)
  b1 ← push_gap logical_cursor extent.logical_offset b
  mapping ← readable_mapping extent source_len
  b2 ← push_mapping extent mapping b1
  place_extents source_len ordered (extent.logical_offset + extent.len) b2

unfoldable pub plan_file :
    Candidate → ℕ → Option (List ℕ) → PartialPolicy → ℕ → Result RestoreError ContentPlan
plan_file candidate source_len expected_sha256 policy max_segments = do
  guard (not (max_segments == 0 || ltb max_content_plan_segments max_segments))
      (RestoreError.invalid_plan_limits max_segments max_content_plan_segments)
  guard (not (ltb max_content_plan_segments (length candidate.extents)))
      (RestoreError.segment_limit_exceeded max_segments)
  ordered ← check_extents 0 candidate.size candidate.extents
  (logical_cursor, b) ← place_extents source_len (sort_extents ordered) 0 (record {
    segments = [];
    policy = policy;
    max_segments = max_segments;
    requires_best_effort = false;
  })
  b' ← push_gap logical_cursor candidate.size b
  ok (record {
    candidate_id = candidate.id;
    logical_size = candidate.size;
    segments = finish b'.segments [];
    expected_sha256 = expected_sha256;
    requires_best_effort = b'.requires_best_effort;
    policy = policy;
  })

unfoldable pub some_plan :
    Result RestoreError ContentPlan → Result RestoreError (Option ContentPlan)
some_plan (ok plan) = ok (some plan)
some_plan (err e) = err e

-- A directory has no content to plan.
unfoldable pub by_kind :
    CandidateKind
    → Result RestoreError (Option ContentPlan)
    → Result RestoreError (Option ContentPlan)
by_kind CandidateKind.directory plan = ok none
by_kind CandidateKind.file plan = plan

unfoldable pub plan_candidate :
    Candidate → ℕ → Option (List ℕ) → PartialPolicy → ℕ → Result RestoreError (Option ContentPlan)
plan_candidate candidate source_len expected_sha256 policy max_segments =
    by_kind candidate.kind
      (some_plan (plan_file candidate source_len expected_sha256 policy max_segments))
