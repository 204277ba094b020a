-- ===== src/Restore/Stream/Accepted.antt =====
-- `preflight` of crates/restore/src/stream.rs takes what `plan_candidate` of plan.rs has made.
use undelete_master.Base.{
  ℕ, suc, ◌+◌, ◌≤◌, ◌<◌, ◌≡◌, refl, Bool, true, false, ◌||◌, Option, some, List, [], ◌∷◌, any, All,
  length, leb, ltb, ◌==◌, ok, u64_max, arith,
}
use undelete_master.Candidate.{Candidate, ExtentRun}
use undelete_master.Restore.Errors.{ZeroFillReason}
use undelete_master.Restore.Plan.{
  PartialPolicy, ContentSegment, ContentPlan, len, refuses, max_content_plan_segments,
  plan_candidate, plan_file,
}
use undelete_master.Restore.Plan.Meaning.{IsRight, Tiles, Allowed}
use undelete_master.Restore.Plan.Tiling.{plan_candidate-IsPlan, plan_of_kind}
use undelete_master.Restore.Plan.Flags.{is_gap, plan_file-gap}
use undelete_master.Restore.Preflight.{
  check_kind, check_segments, same_flag, preflight, max_stream_buffer_bytes,
}

Tiles-le : (a b : ℕ) (ss : List ContentSegment) → Tiles a b ss → a ≤ b
Tiles-le a b [] h = omega arith
Tiles-le a b (s ∷ ss) (_, _, rest) = omega (arith, Tiles-le (a + len s) b ss rest)

Allowed-refuses :
    (policy : PartialPolicy) (l n : ℕ) (reason : ZeroFillReason)
    → Allowed policy (ContentSegment.zeros l n reason)
    → refuses policy reason ≡ false
unfolding refuses
Allowed-refuses PartialPolicy.complete_only l n reason h = ground arith
Allowed-refuses PartialPolicy.zero_fill_and_map l n reason h = refl

check_kind_ok :
    (extents : List ExtentRun) (source_len stop : ℕ) (policy : PartialPolicy) (effort : Bool)
    (s : ContentSegment)
    → source_len ≤ u64_max
    → IsRight extents source_len policy s
    → check_kind source_len policy stop effort s
      ≡ ok (record { expected_offset = stop; expected_best_effort = effort || is_gap s })
unfolding check_kind
check_kind_ok extents source_len stop policy effort (ContentSegment.read l p n) wide right =
    let inside = right.0.0 in
    let fits : leb (p + n) u64_max ≡ true = ground arith in
    let below : leb (p + n) source_len ≡ true = ground arith in
    let same : (effort || false) ≡ effort = ground arith in rw (fits, below, same) refl
check_kind_ok extents source_len stop policy effort (ContentSegment.zeros l n reason) wide right =
    rw (Allowed-refuses policy l n reason right.1) refl

module _ (extents : List ExtentRun) (source_len : ℕ) (plan : ContentPlan)
    (sized : plan.logical_size ≤ u64_max) (wide : source_len ≤ u64_max) where
  check_segments_ok :
      (index a : ℕ) (effort : Bool) (ss : List ContentSegment)
      → Tiles a plan.logical_size ss
      → All (IsRight extents source_len plan.policy) ss
      → check_segments source_len plan index ss
          (record { expected_offset = a; expected_best_effort = effort })
        ≡ ok (record {
          expected_offset = plan.logical_size;
          expected_best_effort = effort || any is_gap ss;
        })
  unfolding check_segments
  check_segments_ok index a effort [] tiles right =
      let same : (effort || false) ≡ effort = ground arith in rw (tiles, same) refl
  check_segments_ok index a effort (s ∷ ss) (start, pos, rest) (right, rights) =
      let room = Tiles-le (a + len s) plan.logical_size ss rest in
      let filled : (len s == 0) ≡ false = ground arith in
      let meets : (a == a) ≡ true = ground arith in
      let fits : leb (a + len s) u64_max ≡ true = ground arith in
      let inside : leb (a + len s) plan.logical_size ≡ true = ground arith in
      let kind = check_kind_ok extents source_len (a + len s) plan.policy effort s wide right in
      let later = check_segments_ok (suc index) (a + len s) (effort || is_gap s) ss rest rights in
      let flags : (effort || (is_gap s || any is_gap ss))
          ≡ ((effort || is_gap s) || any is_gap ss) =
        ground arith in
      rw (filled, start, meets, fits, inside, kind, flags) later

  same_flag_refl : (b : Bool) → same_flag b b ≡ true
  unfolding same_flag
  same_flag_refl true = refl
  same_flag_refl false = refl

  preflight_ok :
      (scratch_len : ℕ)
      → 0 < scratch_len
      → scratch_len ≤ max_stream_buffer_bytes
      → Tiles 0 plan.logical_size plan.segments
      → All (IsRight extents source_len plan.policy) plan.segments
      → length plan.segments ≤ max_content_plan_segments
      → plan.requires_best_effort ≡ any is_gap plan.segments
      → preflight source_len plan scratch_len ≡ ok tt
  unfolding preflight
  preflight_ok k pos small tiles right long flag =
      let some_scratch : (k == 0) ≡ false = ground arith in
      let most_scratch : ltb max_stream_buffer_bytes k ≡ false = ground arith in
      let few : leb (length plan.segments) max_content_plan_segments ≡ true = ground arith in
      let walked = check_segments_ok 0 0 false plan.segments tiles right in
      let done : (plan.logical_size == plan.logical_size) ≡ true = ground arith in
      rw
        (
          some_scratch,
          most_scratch,
          few,
          walked,
          done,
          flag,
          same_flag_refl (any is_gap plan.segments),
        )
        refl

-- A plan that `plan_candidate` makes for a candidate and a source passes `preflight` at that source,
-- with any buffer of at least one byte and at most a mebibyte.
pub plan_candidate-preflight :
    (candidate : Candidate) (source_len : ℕ) (expected : Option (List ℕ)) (policy : PartialPolicy)
    (max_segments scratch_len : ℕ) (plan : ContentPlan)
    → candidate.size ≤ u64_max
    → source_len ≤ u64_max
    → 0 < scratch_len
    → scratch_len ≤ max_stream_buffer_bytes
    → plan_candidate candidate source_len expected policy max_segments ≡ ok (some plan)
    → preflight source_len plan scratch_len ≡ ok tt
unfolding plan_candidate
plan_candidate-preflight candidate source_len expected policy max_segments k plan sized wide pos
      small e =
    let promised = plan_candidate-IsPlan candidate source_len expected policy max_segments plan e in
    let (long, most, flag, same, _) =
      plan_file-gap candidate source_len expected policy max_segments plan (
        plan_of_kind candidate.kind (plan_file candidate source_len expected policy max_segments)
          plan e) in
    let size = promised.size in
    preflight_ok candidate.extents source_len plan (omega arith) wide k pos small
      (rw size promised.tiles) (rw same promised.right) (omega arith) flag
