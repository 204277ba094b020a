-- ===== src/Restore/Preflight.antt =====
-- crates/restore/src/stream.rs: what is asked of a plan before the first byte is written.
use undelete_master.Base.{
  ℕ, suc, ◌*◌, Bool, true, false, not, ◌||◌, List, [], ◌∷◌, length, ltb, leb, ◌==◌, Result, ok,
  guard, ok_or, ◌>>=◌, ◌>>◌, checked_add,
}
use undelete_master.Restore.Errors.{ZeroFillReason, same_reason, RestoreError}
use undelete_master.Restore.Plan.{
  PartialPolicy, ContentSegment, ContentPlan, logical_offset, len, refuses,
  max_content_plan_segments,
}

abbrev pub max_stream_buffer_bytes : ℕ
max_stream_buffer_bytes = 1_024 * 1_024

-- What `preflight` keeps from one segment to the next.
pub record Preflight : Type 0 where
  pub expected_offset : ℕ
  pub expected_best_effort : Bool

unfoldable pub check_kind :
    ℕ → PartialPolicy → ℕ → Bool → ContentSegment → Result RestoreError Preflight
check_kind source_len policy logical_end effort (ContentSegment.read logical physical n) = do
  physical_end ← ok_or (checked_add physical n) (RestoreError.physical_range_overflow physical n)
  guard (leb physical_end source_len)
      (RestoreError.physical_range_out_of_bounds physical n source_len)
  ok (record { expected_offset = logical_end; expected_best_effort = effort })
check_kind source_len policy logical_end effort (ContentSegment.zeros logical n reason) = do
  guard (not (refuses policy reason)) (RestoreError.unavailable_content logical n reason)
  ok (record {
    expected_offset = logical_end;
    expected_best_effort = effort || not (same_reason reason ZeroFillReason.sparse);
  })

-- The loop of `preflight`; the first number is the index of the head.
unfoldable pub check_segments :
    ℕ → ContentPlan → ℕ → List ContentSegment → Preflight → Result RestoreError Preflight
check_segments source_len plan index [] p = ok p
check_segments source_len plan index (segment ∷ segments) p = do
  guard (not (len segment == 0)) (RestoreError.invalid_plan_segment index)
  guard (logical_offset segment == p.expected_offset)
      (RestoreError.invalid_plan_coverage index p.expected_offset (logical_offset segment))
  logical_end ←
      ok_or (checked_add (logical_offset segment) (len segment))
        (RestoreError.logical_range_overflow (logical_offset segment) (len segment))
  guard (leb logical_end plan.logical_size) (
      RestoreError.logical_range_out_of_bounds (logical_offset segment) (len segment)
        plan.logical_size)
  p' ← check_kind source_len plan.policy logical_end p.expected_best_effort segment
  check_segments source_len plan (suc index) segments p'

-- `==` on flags.
unfoldable pub same_flag : Bool → Bool → Bool
same_flag true b = b
same_flag false b = not b

unfoldable pub preflight : ℕ → ContentPlan → ℕ → Result RestoreError (Unit {0})
preflight source_len plan scratch_len = do
  guard (not (scratch_len == 0 || ltb max_stream_buffer_bytes scratch_len))
      (RestoreError.invalid_scratch_length scratch_len max_stream_buffer_bytes)
  guard (leb (length plan.segments) max_content_plan_segments)
      (RestoreError.segment_limit_exceeded max_content_plan_segments)
  p ←
      check_segments source_len plan 0 plan.segments
        (record { expected_offset = 0; expected_best_effort = false })
  guard (p.expected_offset == plan.logical_size) (
      RestoreError.invalid_plan_coverage (length plan.segments) p.expected_offset plan.logical_size)
  guard (same_flag p.expected_best_effort plan.requires_best_effort)
      (RestoreError.invalid_plan_best_effort_flag p.expected_best_effort plan.requires_best_effort)
