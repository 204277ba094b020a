-- ===== src/Restore/Errors.antt =====
-- crates/restore/src/plan.rs and error.rs: the reasons for a range of zeros, and the errors of the
-- planner and of the journal.
use undelete_master.Base.{List, ℕ, Bool, ◌==◌}

pub data ZeroFillReason : Type 0 where
  sparse missing_extent currently_allocated out_of_volume previously_read_failed zeroed
        unknown_availability :
      ZeroFillReason

-- `==` on the reasons, by their place in the declaration.
unfoldable pub reason_index : ZeroFillReason → ℕ
reason_index ZeroFillReason.sparse = 0
reason_index ZeroFillReason.missing_extent = 1
reason_index ZeroFillReason.currently_allocated = 2
reason_index ZeroFillReason.out_of_volume = 3
reason_index ZeroFillReason.previously_read_failed = 4
reason_index ZeroFillReason.zeroed = 5
reason_index ZeroFillReason.unknown_availability = 6

unfoldable pub same_reason : ZeroFillReason → ZeroFillReason → Bool
unfolding reason_index
same_reason a b = reason_index a == reason_index b

-- The step of the journal's file that failed.
pub data JournalOperation : Type 0 where
  write flush sync : JournalOperation

-- The kinds of error of an output; `other` has the kinds that a writer reports.
pub data ErrorKind : Type 0 where
  write_zero invalid_data : ErrorKind
  other : (kind : ℕ) → ErrorKind

pub data RestoreError : Type 0 where
  unavailable_content : (logical_offset len : ℕ) (reason : ZeroFillReason) → RestoreError
  segment_limit_exceeded : (limit : ℕ) → RestoreError
  invalid_plan_limits : (requested maximum : ℕ) → RestoreError
  zero_length_extent : (index : ℕ) → RestoreError
  logical_range_overflow : (logical_offset len : ℕ) → RestoreError
  logical_range_out_of_bounds : (logical_offset len logical_size : ℕ) → RestoreError
  overlapping_extents : (previous_end next_start : ℕ) → RestoreError
  physical_range_overflow : (physical_offset len : ℕ) → RestoreError
  physical_range_out_of_bounds : (physical_offset len source_len : ℕ) → RestoreError
  journal_io : (operation : JournalOperation) (kind : ℕ) → RestoreError
  journal_serialization : RestoreError
  journal_payload_too_large : (actual maximum : ℕ) → RestoreError
  journal_record_too_large : (actual maximum : ℕ) → RestoreError
  journal_record_limit : (maximum : ℕ) → RestoreError
  journal_sequence_overflow : (sequence : ℕ) → RestoreError
  journal_poisoned : RestoreError
  journal_audit : RestoreError
  invalid_scratch_length : (len maximum : ℕ) → RestoreError
  invalid_plan_segment : (index : ℕ) → RestoreError
  invalid_plan_coverage : (index expected_offset actual_offset : ℕ) → RestoreError
  invalid_plan_best_effort_flag : (expected actual : Bool) → RestoreError
  read_failure : (logical_offset len : ℕ) → RestoreError
  invalid_read_outcome : (requested_len : ℕ) → RestoreError
  zero_fill_range_limit_exceeded : (limit : ℕ) → RestoreError
  cancelled : (bytes_written : ℕ) → RestoreError
  output_write : (kind : ErrorKind) (bytes_written : ℕ) → RestoreError
  output_length_mismatch : (bytes_written logical_size : ℕ) → RestoreError
  hash_mismatch : (expected actual : List ℕ) → RestoreError
