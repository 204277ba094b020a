-- ===== src/Restore/Stream/Segments.antt =====
-- The segments of crates/restore/src/stream.rs are streamed to their end when nothing is in the way.
use undelete_master.Base.{
  ℕ, suc, ◌+◌, ◌≤◌, ◌<◌, ◌≡◌, inr, ap, ◌∙◌, true, false, ◌||◌, List, [], ◌∷◌, length, u64_max,
  arith,
}
use undelete_master.Source.{SourceReader}
use undelete_master.Restore.Errors.{ZeroFillReason, same_reason}
use undelete_master.Restore.Plan.{ContentPlan, ContentSegment, refuses}
use undelete_master.Restore.Output.{
  ZeroFilledRange, Stream, max_zero_filled_ranges, append_zero_range,
}
use undelete_master.Restore.Stream.{stream_segment, stream_segments, planned_zero_ranges}
use undelete_master.Restore.Stream.Meaning.{ReadFrom, Right, At}
use undelete_master.Restore.Stream.Ranges.{Appended, append_zero_range-Gives}
use undelete_master.Restore.Stream.Reading.{IsFaithful}
use undelete_master.Restore.Stream.Planned.{Planned}
use undelete_master.Restore.Stream.Delivery.{zeros-Gives, reads-Gives, head_from}
use undelete_master.Restore.Stream.Alive.{
  Succeeds, Succeeds-bind, Succeeds-Gives, Alive, append_zero_range_goes,
}
use undelete_master.Restore.Stream.Completes.{IsReadable, read_chunks_goes, zero_chunks_goes}

module _ (source : SourceReader) (plan : ContentPlan) (disk : ℕ → ℕ)
    (sized : plan.logical_size ≤ u64_max) (wide : source.len ≤ u64_max)
    (faithful : IsFaithful source disk) (readable : IsReadable source) (scratch_len : ℕ)
    (pos : 0 < scratch_len) where
  zeros_both :
      (m a n : ℕ) (reason : ZeroFillReason) (s : Stream)
      → Alive m s
      → suc m ≤ max_zero_filled_ranges
      → At plan disk a s
      → a + n ≤ plan.logical_size
      → refuses plan.policy reason ≡ false
      → (same_reason reason ZeroFillReason.sparse || plan.requires_best_effort) ≡ true
      → Succeeds
          (λ s1. Alive (suc m) s1 × At plan disk (a + n) s1)
          (stream_segment source plan scratch_len (ContentSegment.zeros a n reason) s)
  unfolding stream_segment
  zeros_both m a n reason s live few (r, long, flag) room allowed effort =
      let next : ZeroFilledRange = record { logical_offset = a; len = n; reason = reason } in
      let start : a + 0 ≡ a = omega arith in
      Succeeds-Gives plan disk (Alive (suc m)) (At plan disk (a + n))
        (stream_segment source plan scratch_len (ContentSegment.zeros a n reason) s)
        (Succeeds-bind (λ s1. Alive (suc m) s1 × Appended plan disk sized next s s1) (Alive (suc m))
          (append_zero_range next s) _
          (Succeeds-Gives plan disk (Alive (suc m)) (Appended plan disk sized next s)
            (append_zero_range next s)
            (append_zero_range_goes plan disk sized m next s r room few live)
            (append_zero_range-Gives plan disk sized next s r room allowed))
          (λ s1 (live1, (r1, reports, same, flags)).
            let length_same = ap length same ∙ long in
            let sparse = reports.sparse in
            zero_chunks_goes source plan disk sized wide faithful readable scratch_len pos (suc m) n
              a n 0 s1 (omega arith) (omega arith) live1 (rw start (r1, length_same, ground arith))
              room (λ i l. let first = reports.zeroed (a + i) in ground arith)))
        (zeros-Gives source plan disk sized wide faithful scratch_len pos a n reason s
          (r, long, flag) room allowed effort)

  reads_both :
      (m a p n : ℕ) (s : Stream)
      → Alive m s
      → At plan disk a s
      → a + n ≤ plan.logical_size
      → p + n ≤ source.len
      → ((i : ℕ) → i < n → ReadFrom plan.segments (a + i) (p + i))
      → Succeeds
          (λ s1. Alive m s1 × At plan disk (a + n) s1)
          (stream_segment source plan scratch_len (ContentSegment.read a p n) s)
  unfolding stream_segment
  reads_both m a p n s live h room inside from =
      let start : a + 0 ≡ a = omega arith in
      Succeeds-Gives plan disk (Alive m) (At plan disk (a + n))
        (stream_segment source plan scratch_len (ContentSegment.read a p n) s)
        (read_chunks_goes source plan disk sized wide faithful readable scratch_len pos m n a p n 0
          s (omega arith) (omega arith) live (rw start h) room inside from)
        (reads-Gives source plan disk sized wide faithful scratch_len pos a p n s h room inside
          from)

  pub stream_segments_goes :
      (m a : ℕ) (segments : List ContentSegment) (s : Stream)
      → Planned source.len plan plan.requires_best_effort a segments
      → ((x place : ℕ) → ReadFrom segments x place → ReadFrom plan.segments x place)
      → m + length segments ≤ max_zero_filled_ranges
      → Alive m s
      → At plan disk a s
      → Succeeds
          (At plan disk plan.logical_size)
          (stream_segments source plan scratch_len segments s)
  unfolding stream_segments
  stream_segments_goes m a [] s done among few live h = rw done at h
  stream_segments_goes m a (ContentSegment.read l p n ∷ segments) s (same, room, inside, rest) among
        few live h =
      rw same (
        Succeeds-bind (λ s1. Alive m s1 × At plan disk (a + n) s1) (At plan disk plan.logical_size)
          (stream_segment source plan scratch_len (ContentSegment.read a p n) s) _
          (reads_both m a p n s live h room inside (
            head_from source plan disk sized wide faithful scratch_len pos a p n segments
              (rw same at among)))
          (λ s1 (live1, h1).
            stream_segments_goes m (a + n) segments s1 rest (λ x q f. among x q (inr f))
              (omega arith) live1 h1))
  stream_segments_goes m a (ContentSegment.zeros l n reason ∷ segments) s
        (same, room, allowed, effort, rest) among few live h =
      rw same (
        Succeeds-bind (λ s1. Alive (suc m) s1 × At plan disk (a + n) s1)
          (At plan disk plan.logical_size)
          (stream_segment source plan scratch_len (ContentSegment.zeros a n reason) s) _
          (zeros_both m a n reason s live (omega arith) h room allowed effort)
          (λ s1 (live1, h1).
            stream_segments_goes (suc m) (a + n) segments s1 rest among (omega arith) live1 h1))

  pub planned_zero_ranges_goes :
      (m a : ℕ) (segments : List ContentSegment) (s : Stream)
      → Planned source.len plan plan.requires_best_effort a segments
      → m + length segments ≤ max_zero_filled_ranges
      → Alive m s
      → Right plan disk s
      → Succeeds (Right plan disk) (planned_zero_ranges segments s)
  unfolding planned_zero_ranges
  planned_zero_ranges_goes m a [] s done few live r = r
  planned_zero_ranges_goes m a (ContentSegment.read l p n ∷ segments) s (_, _, _, rest) few live r =
      planned_zero_ranges_goes m (a + n) segments s rest (omega arith) live r
  planned_zero_ranges_goes m a (ContentSegment.zeros l n reason ∷ segments) s
        (same, room, allowed, _, rest) few live r =
      let next : ZeroFilledRange = record { logical_offset = l; len = n; reason = reason } in
      Succeeds-bind (λ s1. Alive (suc m) s1 × Appended plan disk sized next s s1) (Right plan disk)
        (append_zero_range next s) _
        (Succeeds-Gives plan disk (Alive (suc m)) (Appended plan disk sized next s)
          (append_zero_range next s)
          (append_zero_range_goes plan disk sized m next s r (omega arith) (omega arith) live)
          (append_zero_range-Gives plan disk sized next s r (omega arith) allowed))
        (λ s1 (live1, (r1, _, _, _)).
          planned_zero_ranges_goes (suc m) (a + n) segments s1 rest (omega arith) live1 r1)
