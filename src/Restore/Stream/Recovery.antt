-- ===== src/Restore/Stream/Recovery.antt =====
-- From a candidate to its file: `plan_candidate` of crates/restore/src/plan.rs, then
-- `stream_candidate` of stream.rs.
use undelete_master.Base.{
  ℕ, ◌≤◌, ◌<◌, ◌≡◌, ◌⊎◌, inl, inr, refl, ◌∙◌, Bool, true, false, Option, none, some, List, [], ◌∷◌,
  any, length, get_elem?, All, ◌==◌, Result, ok, err, u64_max, arith,
}
use undelete_master.Candidate.{Candidate, ExtentRun}
use undelete_master.Source.{SourceReader}
use undelete_master.Restore.Plan.{
  PartialPolicy, ContentSegment, ContentPlan, plan_candidate, plan_file,
}
use undelete_master.Restore.Plan.Meaning.{Given, Place, IsRight}
use undelete_master.Restore.Plan.Tiling.{IsPlan, plan_candidate-IsPlan, plan_of_kind}
use undelete_master.Restore.Plan.Flags.{plan_file-gap}
use undelete_master.Restore.Output.{StreamFailure, Stream, WriteCall, max_zero_filled_ranges}
use undelete_master.Restore.Preflight.{max_stream_buffer_bytes, preflight}
use undelete_master.Restore.Stream.{
  StreamOutcome, lift, planned_zero_ranges, validated_ranges, stream_segments, same_digest,
  stream_start, finish_stream, stream_candidate,
}
use undelete_master.Restore.Stream.Meaning.{ReadFrom, is_zeroed, Right, Gives, Gives-map, At}
use undelete_master.Restore.Stream.Reading.{IsFaithful}
use undelete_master.Restore.Stream.Planned.{preflight-Planned}
use undelete_master.Restore.Stream.Accepted.{plan_candidate-preflight}
use undelete_master.Restore.Stream.Outcome.{IsDelivered, stream_start-At}
use undelete_master.Restore.Stream.Delivery.{stream_candidate-Gives}
use undelete_master.Restore.Stream.Alive.{
  Succeeds, Succeeds-bind, Succeeds-map, Succeeds-Gives, Alive,
}
use undelete_master.Restore.Stream.Segments.{planned_zero_ranges_goes, stream_segments_goes}
use undelete_master.Restore.Stream.Completes.{IsReadable}

-- The file of a candidate: as many bytes as it has, each the byte of the disk at a place where an
-- extent says that it is, or a zero that is reported.
pub record IsRecovered (candidate : Candidate) (disk : ℕ → ℕ) (written : List ℕ)
    (outcome : StreamOutcome) : Type 0 where
  pub sized : length written ≡ candidate.size
  pub right :
      (x b : ℕ)
      → get_elem? written x ≡ some b
      → ((place : ℕ) × Given candidate.extents x (Place.disk place) × (b ≡ disk place))
        ⊎ ((b ≡ 0) × (any (is_zeroed x) outcome.zero_filled_ranges ≡ true))

ReadFrom-Given :
    (extents : List ExtentRun) (source_len : ℕ) (policy : PartialPolicy)
    (segments : List ContentSegment) (x place : ℕ)
    → All (IsRight extents source_len policy) segments
    → ReadFrom segments x place
    → Given extents x (Place.disk place)
ReadFrom-Given extents source_len policy [] x place rights later = elim later [ ]
ReadFrom-Given extents source_len policy (ContentSegment.read l p n ∷ segments) x place
      (right, rights) (inl (low, high, same)) =
    rw same (right.0.1 x low high)
ReadFrom-Given extents source_len policy (ContentSegment.read l p n ∷ segments) x place
      (right, rights) (inr later) =
    ReadFrom-Given extents source_len policy segments x place rights later
ReadFrom-Given extents source_len policy (ContentSegment.zeros l n reason ∷ segments) x place
      (right, rights) later =
    ReadFrom-Given extents source_len policy segments x place rights later

IsDelivered-IsRecovered :
    (candidate : Candidate) (source_len : ℕ) (policy : PartialPolicy) (plan : ContentPlan)
    (disk : ℕ → ℕ) (sha256 : List ℕ → List ℕ) (written : List ℕ) (outcome : StreamOutcome)
    → IsPlan candidate source_len policy plan
    → IsDelivered plan disk sha256 written outcome
    → IsRecovered candidate disk written outcome
IsDelivered-IsRecovered candidate source_len policy plan disk sha256 written outcome promised
      delivered =
    record {
      sized = delivered.sized ∙ promised.size;
      right = λ x b e. elim (delivered.right x b e) [
        | inr zero_byte ↦ inr zero_byte
        | inl (place, from, same) ↦ inl (
          place,
          ReadFrom-Given candidate.extents source_len policy plan.segments x place promised.right
              from,
          same,
        )
      ];
    }

-- The plan of a candidate, streamed from the source that it was made for, never panics. Where it
-- gives an outcome, the output is the file of the candidate: as many bytes as its size, each the
-- byte of the disk at a place that one of its extents gives for this position, or a zero that the
-- outcome reports. This holds for a candidate and a source of at most 2 ^ 64 - 1 bytes, and a source
-- that delivers the bytes of the disk wherever it does not report a bad range.
pub plan_candidate-stream_candidate :
    (candidate : Candidate) (expected : Option (List ℕ)) (policy : PartialPolicy) (max_segments : ℕ)
    (plan : ContentPlan) (source : SourceReader) (disk : ℕ → ℕ) (sha256 : List ℕ → List ℕ)
    (scratch_len : ℕ) (calls : List WriteCall) (answers : List Bool)
    → candidate.size ≤ u64_max
    → source.len ≤ u64_max
    → IsFaithful source disk
    → plan_candidate candidate source.len expected policy max_segments ≡ ok (some plan)
    → Gives plan disk
        (λ (outcome, s). IsRecovered candidate disk s.written outcome)
        (stream_candidate sha256 source plan scratch_len calls answers)
plan_candidate-stream_candidate candidate expected policy max_segments plan source disk sha256 k
      calls answers sized wide faithful e =
    let promised = plan_candidate-IsPlan candidate source.len expected policy max_segments plan e in
    let size = promised.size in
    Gives-map plan disk (λ (outcome, s). IsDelivered plan disk sha256 s.written outcome)
      (λ (outcome, s). IsRecovered candidate disk s.written outcome)
      (stream_candidate sha256 source plan k calls answers)
      (stream_candidate-Gives source plan disk sha256 k calls answers (omega arith) wide faithful)
      (λ (outcome, s) delivered.
        IsDelivered-IsRecovered candidate source.len policy plan disk sha256 s.written outcome
          promised delivered)

finish_stream_goes :
    (plan : ContentPlan) (disk : ℕ → ℕ) (sha256 : List ℕ → List ℕ) (s : Stream)
    → plan.expected_sha256 ≡ none
    → At plan disk plan.logical_size s
    → Succeeds (λ outcome. Unit {0}) (finish_stream sha256 plan s)
unfolding finish_stream same_digest
finish_stream_goes plan disk sha256 s unknown (r, long, _) =
    let counted = r.counted in
    let full : (s.bytes_written == plan.logical_size) ≡ true = ground arith in rw (full, unknown) tt

stream_start-Alive :
    (answers : List Bool) (effort : Bool)
    → All (λ answer. answer ≡ false) answers
    → Alive 0 (stream_start [] answers effort)
unfolding stream_start
stream_start-Alive answers effort quiet = (refl, quiet, omega arith)

validated_ranges_goes :
    (s : Stream) (step : Result (StreamFailure × Stream) Stream) (P : Stream → Type 0)
    → Succeeds P step
    → Succeeds (λ s1. s1 ≡ s) (validated_ranges s step)
unfolding validated_ranges
validated_ranges_goes s (ok _) P h = refl
validated_ranges_goes s (err _) P h = absurd h

stream_candidate_goes :
    (source : SourceReader) (plan : ContentPlan) (disk : ℕ → ℕ) (sha256 : List ℕ → List ℕ)
    (scratch_len : ℕ) (answers : List Bool)
    → plan.logical_size ≤ u64_max
    → source.len ≤ u64_max
    → IsFaithful source disk
    → IsReadable source
    → preflight source.len plan scratch_len ≡ ok tt
    → length plan.segments ≤ max_zero_filled_ranges
    → plan.expected_sha256 ≡ none
    → All (λ answer. answer ≡ false) answers
    → Succeeds (λ r. Unit {0}) (stream_candidate sha256 source plan scratch_len [] answers)
unfolding stream_candidate lift validated_ranges
stream_candidate_goes source plan disk sha256 k answers sized wide faithful readable passed few
      unknown quiet =
    let s = stream_start [] answers plan.requires_best_effort in
    let start = stream_start-At plan disk sha256 [] answers in
    let (pos, planned) = preflight-Planned source.len plan k passed in
    let live = stream_start-Alive answers plan.requires_best_effort quiet in
    let zero_ranges =
      planned_zero_ranges_goes source plan disk sized wide faithful readable k pos 0 0 plan.segments
        s planned (omega arith) live start.0 in
    rw passed (
      Succeeds-bind (λ s1. s1 ≡ s) _ (validated_ranges s (planned_zero_ranges plan.segments s)) _
        (validated_ranges_goes s (planned_zero_ranges plan.segments s) (Right plan disk)
          zero_ranges)
        (λ s1 same. rw same (
          Succeeds-bind (At plan disk plan.logical_size) _
            (stream_segments source plan k plan.segments s) _
            (stream_segments_goes source plan disk sized wide faithful readable k pos 0 0
              plan.segments s planned (λ x place from. from) (omega arith) live start)
            (λ s2 h2.
              Succeeds-bind (λ outcome. Unit {0}) _ (finish_stream sha256 plan s2) _
                (finish_stream_goes plan disk sha256 s2 unknown h2) (λ outcome done. tt)))))

-- A plan that was made for a candidate with no digest to expect is streamed to its end, with the
-- whole file of the candidate behind it, where nothing is in the way: a source without a bad sector,
-- a writer that takes all, a probe that says no, a buffer of at least one byte and at most a
-- mebibyte, and a limit of at most 65,536 segments. The candidate and the source have at most
-- 2 ^ 64 - 1 bytes, and the source delivers the bytes of the disk.
pub stream_candidate-Succeeds :
    (candidate : Candidate) (policy : PartialPolicy) (max_segments : ℕ) (plan : ContentPlan)
    (source : SourceReader) (disk : ℕ → ℕ) (sha256 : List ℕ → List ℕ) (scratch_len : ℕ)
    (answers : List Bool)
    → candidate.size ≤ u64_max
    → source.len ≤ u64_max
    → IsFaithful source disk
    → IsReadable source
    → 0 < scratch_len
    → scratch_len ≤ max_stream_buffer_bytes
    → max_segments ≤ max_zero_filled_ranges
    → All (λ answer. answer ≡ false) answers
    → plan_candidate candidate source.len none policy max_segments ≡ ok (some plan)
    → Succeeds
        (λ (outcome, s). IsRecovered candidate disk s.written outcome)
        (stream_candidate sha256 source plan scratch_len [] answers)
unfolding plan_candidate
stream_candidate-Succeeds candidate policy max_segments plan source disk sha256 k answers sized wide
      faithful readable pos small most quiet e =
    let promised = plan_candidate-IsPlan candidate source.len none policy max_segments plan e in
    let size = promised.size in
    let (few, _, _, _, unknown) = plan_file-gap candidate source.len none policy max_segments plan (
      plan_of_kind candidate.kind (plan_file candidate source.len none policy max_segments) plan
        e) in
    let passed =
      plan_candidate-preflight candidate source.len none policy max_segments k plan sized wide pos
        small e in
    let stream = stream_candidate sha256 source plan k [] answers in
    Succeeds-map (λ r. Unit {0} × IsRecovered candidate disk r.1.written r.0)
      (λ (outcome, s). IsRecovered candidate disk s.written outcome) stream
      (Succeeds-Gives plan disk (λ r. Unit {0})
        (λ (outcome, s). IsRecovered candidate disk s.written outcome) stream
        (stream_candidate_goes source plan disk sha256 k answers (omega arith) wide faithful
          readable passed (omega arith) unknown quiet)
        (plan_candidate-stream_candidate candidate none policy max_segments plan source disk sha256
          k [] answers sized wide faithful e))
      (λ r (_, recovered). recovered)
