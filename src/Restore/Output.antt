-- ===== src/Restore/Output.antt =====
-- crates/restore/src/stream.rs: the state of a stream, what its writer and its probe do, and the
-- ranges of zeros that it reports.
use undelete_master.Base.{
  ℕ, Bool, not, ◌&&◌, none, some, List, [], ◌∷◌, ◌++◌, length, take, drop, leb, ◌==◌, if◌then◌else◌,
  Result, ok, err, guard, ok_or, ◌>>=◌, ◌>>◌, checked_add,
}
use undelete_master.Restore.Errors.{ZeroFillReason, same_reason, ErrorKind, RestoreError}

abbrev pub max_zero_filled_ranges : ℕ
max_zero_filled_ranges = 65_536

pub record ZeroFilledRange : Type 0 where
  pub logical_offset : ℕ
  pub len : ℕ
  pub reason : ZeroFillReason

-- What one call of the writer does: it takes some bytes, or fails with a kind of error.
pub data WriteCall : Type 0 where
  takes : (written : ℕ) → WriteCall
  fails : (kind : ℕ) → WriteCall

-- The errors, and the panic of an `expect`.
pub data StreamFailure : Type 0 where
  refused : (error : RestoreError) → StreamFailure
  panicked : StreamFailure

-- The mutable variables of the stream with its output. The hasher has taken the bytes that were
-- written. `ranges` has the last zero-filled range first. The calls of the writer and the answers of
-- the probe are those to come; a writer with no more to say takes all, and a probe says no.
pub record Stream : Type 0 where
  pub written : List ℕ
  pub bytes_written : ℕ
  pub progress : List ℕ
  pub ranges : List ZeroFilledRange
  pub requires_best_effort : Bool
  pub calls : List WriteCall
  pub answers : List Bool

-- A step of the stream; a failure comes with what had been written.
abbrev pub Step : Type 0
Step = Result (StreamFailure × Stream) Stream

abbrev pub fail_with {ℓ} : {A : Type ℓ} → RestoreError → Stream → Result (StreamFailure × Stream) A
fail_with e s = err (StreamFailure.refused e, s)

-- `checked_add(..).expect(..)`
unfoldable pub expect_add : ℕ → ℕ → Stream → Result (StreamFailure × Stream) ℕ
expect_add a b s = ok_or (checked_add a b) (StreamFailure.panicked, s)

unfoldable pub cancelled_by : List Bool → Stream → Step
cancelled_by [] s = ok s
cancelled_by (answer ∷ answers) s =
    let s' = record s { answers = answers } in
    if answer then fail_with (RestoreError.cancelled s.bytes_written) s' else ok s'

unfoldable pub check_cancel : Stream → Step
check_cancel s = cancelled_by s.answers s

-- The state behind a call that took the first bytes of a buffer.
unfoldable pub committed : List ℕ → Stream → ℕ → Stream
committed bytes s bytes_written = record s {
  written = s.written ++ bytes;
  bytes_written = bytes_written;
  progress = bytes_written ∷ s.progress;
}

unfoldable pub commit : ℕ → List ℕ → Stream → Step
commit logical_size bytes s = elim (checked_add s.bytes_written (length bytes)) [
  | none ↦
      fail_with (RestoreError.output_length_mismatch s.bytes_written logical_size)
        (record s { written = s.written ++ bytes })
  | some total ↦ ok (committed bytes s total)
]

-- The loop over the calls of the writer, for the bytes that are left.
unfoldable pub write_calls : ℕ → List WriteCall → List ℕ → Stream → Step
write_calls logical_size calls [] s = ok (record s { calls = calls })
write_calls logical_size [] (b ∷ bytes) s = do
  s1 ← check_cancel (record s { calls = [] })
  commit logical_size (b ∷ bytes) s1
write_calls logical_size (WriteCall.fails kind ∷ calls) (b ∷ bytes) s = do
  s1 ← check_cancel (record s { calls = calls })
  fail_with (RestoreError.output_write (ErrorKind.other kind) s1.bytes_written) s1
write_calls logical_size (WriteCall.takes n ∷ calls) (b ∷ bytes) s = do
  s1 ← check_cancel (record s { calls = calls })
  guard (not (n == 0))
      (StreamFailure.refused (RestoreError.output_write ErrorKind.write_zero s1.bytes_written), s1)
  guard (leb n (length (b ∷ bytes))) (
    StreamFailure.refused (RestoreError.output_write ErrorKind.invalid_data s1.bytes_written),
    s1,
  )
  s2 ← commit logical_size (take n (b ∷ bytes)) s1
  write_calls logical_size calls (drop n (b ∷ bytes)) s2

unfoldable pub write_committed : ℕ → List ℕ → Stream → Step
write_committed logical_size bytes s = write_calls logical_size s.calls bytes s

-- `ranges.push(next)` within the limit.
unfoldable pub push_range : ZeroFilledRange → Stream → Step
push_range next s =
    if leb max_zero_filled_ranges (length s.ranges)
    then fail_with (RestoreError.zero_fill_range_limit_exceeded max_zero_filled_ranges) s
    else ok (record s { ranges = next ∷ s.ranges })

-- `last.len` grows by the length of the next range.
unfoldable pub join_range : ZeroFilledRange → List ZeroFilledRange → ZeroFilledRange → Stream → Step
join_range last rest next s = do
  joined ← expect_add last.len next.len s
  ok (record s { ranges = record last { len = joined } ∷ rest })

unfoldable pub append_to : List ZeroFilledRange → ZeroFilledRange → Stream → Step
append_to [] next s = push_range next s
append_to (last ∷ rest) next s = do
  last_end ← expect_add last.logical_offset last.len s
  (if last_end == next.logical_offset && same_reason last.reason next.reason
      then join_range last rest next s
      else push_range next s)

unfoldable pub append_zero_range : ZeroFilledRange → Stream → Step
append_zero_range next s = append_to s.ranges next s
