-- ===== src/Restore/Stream/Delivery.antt =====
-- `stream_candidate` of crates/restore/src/stream.rs: what it delivers, and what a refusal leaves.
use undelete_master.Base.{
  ℕ, ◌+◌, ◌≤◌, ◌<◌, ◌≡◌, ◌∙◌, inl, inr, ap, Bool, true, false, ◌||◌, List, [], ◌∷◌, length,
  Result-cases, u64_max, arith,
}
use undelete_master.Source.{SourceReader}
use undelete_master.Restore.Errors.{ZeroFillReason, same_reason}
use undelete_master.Restore.Plan.{ContentSegment, ContentPlan, refuses}
use undelete_master.Restore.Output.{ZeroFilledRange, Stream, WriteCall, append_zero_range}
use undelete_master.Restore.Preflight.{preflight}
use undelete_master.Restore.Stream.{
  lift, stream_segment, stream_segments, planned_zero_ranges, validated_ranges, stream_start,
  finish_stream, stream_candidate,
}
use undelete_master.Restore.Stream.Meaning.{ReadFrom, Right, Gives, Gives-bind, At}
use undelete_master.Restore.Stream.Ranges.{Appended, append_zero_range-Gives}
use undelete_master.Restore.Stream.Zeros.{zero_chunks-Gives}
use undelete_master.Restore.Stream.Reading.{IsFaithful, read_chunks-Gives}
use undelete_master.Restore.Stream.Planned.{Planned, preflight-Planned}
use undelete_master.Restore.Stream.Outcome.{
  IsDelivered, finish_stream-Gives, stream_start-At, validated_ranges-Gives,
}

module _ (source : SourceReader) (plan : ContentPlan) (disk : ℕ → ℕ)
    (sized : plan.logical_size ≤ u64_max) (wide : source.len ≤ u64_max)
    (faithful : IsFaithful source disk) (scratch_len : ℕ) (pos : 0 < scratch_len) where
  pub zeros-Gives :
      (a n : ℕ) (reason : ZeroFillReason) (s : Stream)
      → At plan disk a s
      → a + n ≤ plan.logical_size
      → refuses plan.policy reason ≡ false
      → (same_reason reason ZeroFillReason.sparse || plan.requires_best_effort) ≡ true
      → Gives plan disk
          (At plan disk (a + n))
          (stream_segment source plan scratch_len (ContentSegment.zeros a n reason) s)
  unfolding stream_segment
  zeros-Gives a n reason s (r, long, flag) room allowed effort =
      let next : ZeroFilledRange = record { logical_offset = a; len = n; reason = reason } in
      let start : a + 0 ≡ a = omega arith in
      Gives-bind plan disk (Appended plan disk sized next s) (At plan disk (a + n))
        (append_zero_range next s) _ (append_zero_range-Gives plan disk sized next s r room allowed)
        (λ s1 (r1, reports, same, flags).
          let length_same = ap length same ∙ long in
          let sparse = reports.sparse in
          zero_chunks-Gives plan disk sized scratch_len n a n 0 s1 pos (omega arith) (omega arith)
            (rw start (r1, length_same, ground arith)) room
            (λ i l. let first = reports.zeroed (a + i) in ground arith))

  pub reads-Gives :
      (a p n : ℕ) (s : Stream)
      → At plan disk a s
      → a + n ≤ plan.logical_size
      → p + n ≤ source.len
      → ((i : ℕ) → i < n → ReadFrom plan.segments (a + i) (p + i))
      → Gives plan disk
          (At plan disk (a + n))
          (stream_segment source plan scratch_len (ContentSegment.read a p n) s)
  unfolding stream_segment
  reads-Gives a p n s h room inside from =
      let start : a + 0 ≡ a = omega arith in
      read_chunks-Gives plan disk sized source faithful scratch_len n a p n 0 s pos (omega arith)
        (omega arith) (rw start h) room inside wide from

  -- The first segment has its positions from the disk.
  pub head_from :
      (a p n : ℕ) (segments : List ContentSegment)
      → ((x place : ℕ)
          → ReadFrom (ContentSegment.read a p n ∷ segments) x place
          → ReadFrom plan.segments x place)
      → (i : ℕ) → i < n
      → ReadFrom plan.segments (a + i) (p + i)
  head_from a p n segments among i l =
      among (a + i) (p + i) (inl (omega arith, omega arith, omega arith))

  pub stream_segments-Gives :
      (a : ℕ) (segments : List ContentSegment) (s : Stream)
      → Planned source.len plan plan.requires_best_effort a segments
      → ((x place : ℕ) → ReadFrom segments x place → ReadFrom plan.segments x place)
      → At plan disk a s
      → Gives plan disk
          (At plan disk plan.logical_size)
          (stream_segments source plan scratch_len segments s)
  unfolding stream_segments
  stream_segments-Gives a [] s done among h = rw done at h
  stream_segments-Gives a (ContentSegment.read l p n ∷ segments) s (same, room, inside, rest) among
        h =
      rw same (
        Gives-bind plan disk (At plan disk (a + n)) (At plan disk plan.logical_size)
          (stream_segment source plan scratch_len (ContentSegment.read a p n) s) _
          (reads-Gives a p n s h room inside (head_from a p n segments (rw same at among)))
          (λ s1 h1. stream_segments-Gives (a + n) segments s1 rest (λ x q f. among x q (inr f)) h1))
  stream_segments-Gives a (ContentSegment.zeros l n reason ∷ segments) s
        (same, room, allowed, effort, rest) among h =
      rw same (
        Gives-bind plan disk (At plan disk (a + n)) (At plan disk plan.logical_size)
          (stream_segment source plan scratch_len (ContentSegment.zeros a n reason) s) _
          (zeros-Gives a n reason s h room allowed effort)
          (λ s1 h1. stream_segments-Gives (a + n) segments s1 rest among h1))

  planned_zero_ranges-Gives :
      (a : ℕ) (segments : List ContentSegment) (s : Stream)
      → Planned source.len plan plan.requires_best_effort a segments
      → Right plan disk s
      → Gives plan disk (Right plan disk) (planned_zero_ranges segments s)
  unfolding planned_zero_ranges
  planned_zero_ranges-Gives a [] s done r = r
  planned_zero_ranges-Gives a (ContentSegment.read l p n ∷ segments) s (_, _, _, rest) r =
      planned_zero_ranges-Gives (a + n) segments s rest r
  planned_zero_ranges-Gives a (ContentSegment.zeros l n reason ∷ segments) s
        (same, room, allowed, _, rest) r =
      let next : ZeroFilledRange = record { logical_offset = l; len = n; reason = reason } in
      Gives-bind plan disk (Appended plan disk sized next s) (Right plan disk)
        (append_zero_range next s) _
        (append_zero_range-Gives plan disk sized next s r (omega arith) allowed)
        (λ s1 (r1, _, _, _). planned_zero_ranges-Gives (a + n) segments s1 rest r1)

-- Streaming a plan never panics. It gives an outcome with the whole file behind it: as many bytes
-- as the plan says, each the byte of the disk that a segment of the plan names or a zero that the
-- outcome reports, with the digest of just these bytes, which is the one that was expected where
-- there is one, with no zeros that the policy refuses, and flagged as best effort where zeros are
-- not sparse. Or it is refused, and then every byte that was written is right and counted. This
-- holds for a plan and a source of at most 2 ^ 64 - 1 bytes, and a source that fills its buffer
-- and delivers the bytes of the disk wherever it does not report a bad range.
pub stream_candidate-Gives :
    (source : SourceReader) (plan : ContentPlan) (disk : ℕ → ℕ) (sha256 : List ℕ → List ℕ)
    (scratch_len : ℕ) (calls : List WriteCall) (answers : List Bool)
    → plan.logical_size ≤ u64_max
    → source.len ≤ u64_max
    → IsFaithful source disk
    → Gives plan disk
        (λ (outcome, s). IsDelivered plan disk sha256 s.written outcome)
        (stream_candidate sha256 source plan scratch_len calls answers)
unfolding stream_candidate lift
stream_candidate-Gives source plan disk sha256 k calls answers sized wide faithful =
    let s = stream_start calls answers plan.requires_best_effort in
    let start = stream_start-At plan disk sha256 calls answers in
    elim (Result-cases (preflight source.len plan k)) [
      | inr (e, f) ↦ rw (f, lift) (tt, start.0)
      | inl (u, f) ↦
          let (pos, planned) = preflight-Planned source.len plan k f in
          rw (f, lift)
            (Gives-bind plan disk (λ s'. s' ≡ s) _
              (validated_ranges s (planned_zero_ranges plan.segments s)) _
              (validated_ranges-Gives plan disk sha256 s (planned_zero_ranges plan.segments s)
                start.0
                (planned_zero_ranges-Gives source plan disk sized wide faithful k pos 0
                  plan.segments s planned start.0))
              (λ s1 same. rw same (
                Gives-bind plan disk (At plan disk plan.logical_size) _
                  (stream_segments source plan k plan.segments s) _
                  (stream_segments-Gives source plan disk sized wide faithful k pos 0 plan.segments
                    s planned (λ x place from. from) start)
                  (λ s2 h2.
                    Gives-bind plan disk
                      (λ outcome. IsDelivered plan disk sha256 s2.written outcome) _
                      (finish_stream sha256 plan s2) _ (finish_stream-Gives plan disk sha256 s2 h2)
                      (λ outcome delivered. delivered)))))
    ]
