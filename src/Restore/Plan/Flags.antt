-- ===== src/Restore/Plan/Flags.antt =====
-- The builder of crates/restore/src/plan.rs: how many segments it keeps, and when its flag is set.
use undelete_master.Base.{
  ℕ, ◌+◌, ◌-◌, ◌≤◌, ◌≡◌, refl, inl, inr, Bool, false, not, ◌&&◌, ◌||◌, Option, none, some, List, [],
  ◌∷◌, ◌==◌, leb, ltb, arith, ok, Bool-cases, Option-cases, guard-ok, ok-injective, >>=-eq-ok,
  length, any,
}
use undelete_master.Candidate.{Candidate, ExtentRun, ExtentAvailability}
use undelete_master.Restore.Errors.{ZeroFillReason, same_reason}
use undelete_master.Restore.Plan.{
  ContentSegment, ContentPlan, PartialPolicy, BuiltSegment, PlanBuilder, ExtentMapping, push,
  extend_segment_read, extend_read, push_read, extend_segment_zero, extend_zero, refuses, push_zero,
  same_availability, push_gap, push_mapping, place_extents, readable_mapping, check_extents,
  sort_extents, plan_file, finish, max_content_plan_segments,
}
use undelete_master.Restore.Plan.Reasons.{same_reason_sound}

-- Zeros that are not of a sparse extent.
abbrev pub is_gap : ContentSegment → Bool
is_gap (ContentSegment.read _ _ _) = false
is_gap (ContentSegment.zeros _ _ reason) = not (same_reason reason ZeroFillReason.sparse)

abbrev any_gap : List BuiltSegment → Bool
any_gap ss = any (λ s. is_gap s.segment) ss

record IsFlagged (most : ℕ) (b : PlanBuilder) : Type 0 where
  limit : b.max_segments ≡ most
  long : length b.segments ≤ most
  flag : b.requires_best_effort ≡ any_gap b.segments

push-IsFlagged :
    (most : ℕ) (s : BuiltSegment) (b b' : PlanBuilder)
    → b.max_segments ≡ most
    → b.requires_best_effort ≡ (is_gap s.segment || any_gap b.segments)
    → push s b ≡ ok b'
    → IsFlagged most b'
unfolding push
push-IsFlagged most s b b' limit flag e =
    elim (Bool-cases (leb b.max_segments (length b.segments))) [
      | inl t ↦ absurd (ground arith)
      | inr t ↦
          let same : b' ≡ record b { segments = s ∷ b.segments } = ground arith in
          rw same (record { limit = limit; long = ground arith; flag = flag })
    ]

extend_segment_read-gap :
    (offset physical n : ℕ) (a : ExtentAvailability) (o : Option ExtentAvailability)
    (s s' : ContentSegment)
    → extend_segment_read offset physical n a o s ≡ some s'
    → is_gap s' ≡ is_gap s
unfolding extend_segment_read
extend_segment_read-gap offset physical n a none s s' e = absurd (cc)
extend_segment_read-gap offset physical n a (some b) (ContentSegment.zeros _ _ _) s' e = absurd (cc)
extend_segment_read-gap offset physical n a (some b) (ContentSegment.read l p m) s' e =
    elim (Bool-cases (same_availability b a && l + m == offset && p + m == physical)) [
      | inr t ↦ absurd (ground arith)
      | inl t ↦ let new : s' ≡ ContentSegment.read l p (m + n) = ground arith in rw new refl
    ]

extend_segment_zero-gap :
    (offset n : ℕ) (reason : ZeroFillReason) (s s' : ContentSegment)
    → extend_segment_zero offset n reason s ≡ some s'
    → (is_gap s' ≡ is_gap s) × (is_gap s ≡ not (same_reason reason ZeroFillReason.sparse))
unfolding extend_segment_zero
extend_segment_zero-gap offset n reason (ContentSegment.read _ _ _) s' e = absurd (cc)
extend_segment_zero-gap offset n reason (ContentSegment.zeros l m r) s' e =
    elim (Bool-cases (l + m == offset && same_reason r reason)) [
      | inr t ↦ absurd (ground arith)
      | inl t ↦
          let r' : r ≡ reason = same_reason_sound r reason (ground arith) in
          let new : s' ≡ ContentSegment.zeros l (m + n) r = ground arith in
          rw (new, r') (refl, refl)
    ]

extend_read-gap :
    (offset physical n : ℕ) (a : ExtentAvailability) (ss ss' : List BuiltSegment)
    → extend_read offset physical n a ss ≡ some ss'
    → (length ss' ≡ length ss) × (any_gap ss' ≡ any_gap ss)
unfolding extend_read
extend_read-gap offset physical n a [] ss' e = absurd (cc)
extend_read-gap offset physical n a (last ∷ rest) ss' e =
    elim (Option-cases
      (extend_segment_read offset physical n a last.read_availability last.segment)) [
        | inl t ↦ absurd (ground arith)
        | inr (s, t) ↦
            let same : ss' ≡ record last { segment = s } ∷ rest = ground arith in
            let gap =
              extend_segment_read-gap offset physical n a last.read_availability last.segment s t in
            rw (same, gap) (refl, refl)
      ]

extend_zero-gap :
    (offset n : ℕ) (reason : ZeroFillReason) (ss ss' : List BuiltSegment)
    → extend_zero offset n reason ss ≡ some ss'
    → (length ss' ≡ length ss)
      × (any_gap ss' ≡ (not (same_reason reason ZeroFillReason.sparse) || any_gap ss))
unfolding extend_zero
extend_zero-gap offset n reason [] ss' e = absurd (cc)
extend_zero-gap offset n reason (last ∷ rest) ss' e =
    elim (Option-cases (extend_segment_zero offset n reason last.segment)) [
      | inl t ↦ absurd (ground arith)
      | inr (s, t) ↦
          let same : ss' ≡ record last { segment = s } ∷ rest = ground arith in
          let (gap, old) = extend_segment_zero-gap offset n reason last.segment s t in
          rw (same, gap, old) (refl, ground arith)
    ]

push_read-IsFlagged :
    (most offset physical n : ℕ) (a : ExtentAvailability) (b b' : PlanBuilder)
    → IsFlagged most b
    → push_read offset physical n a b ≡ ok b'
    → IsFlagged most b'
unfolding push_read
push_read-IsFlagged most offset physical n a b b' h e =
    elim (Option-cases (extend_read offset physical n a b.segments)) [
      | inr (ss, t) ↦
          let same : b' ≡ record b { segments = ss } = ground arith in
          let (long, gap) = extend_read-gap offset physical n a b.segments ss t in
          let before = h.long in
          rw same (record { limit = h.limit; long = omega arith; flag = rw gap h.flag })
      | inl t ↦
          push-IsFlagged most
            (record { segment = ContentSegment.read offset physical n; read_availability = some a })
            b b' h.limit h.flag (ground arith)
    ]

push_zero-IsFlagged :
    (most offset n : ℕ) (reason : ZeroFillReason) (b b' : PlanBuilder)
    → IsFlagged most b
    → push_zero offset n reason b ≡ ok b'
    → IsFlagged most b'
unfolding push_zero
push_zero-IsFlagged most offset n reason b b' h e =
    let best = b.requires_best_effort || not (same_reason reason ZeroFillReason.sparse) in
    let flag = h.flag in
    let limit = h.limit in
    elim (Bool-cases (refuses b.policy reason)) [
      | inl t ↦ absurd (ground arith)
      | inr t ↦ elim (Option-cases (extend_zero offset n reason b.segments)) [
        | inr (ss, u) ↦
            let same : b' ≡ record b { requires_best_effort = best; segments = ss } =
              ground arith in
            let (long, gap) = extend_zero-gap offset n reason b.segments ss u in
            let before = h.long in
            rw same (record { limit = limit; long = omega arith; flag = ground arith })
        | inl u ↦
            push-IsFlagged most
              (record { segment = ContentSegment.zeros offset n reason; read_availability = none })
              (record b { requires_best_effort = best }) b' limit (ground arith) (ground arith)
      ]
    ]

push_gap-IsFlagged :
    (most cursor stop : ℕ) (b b' : PlanBuilder)
    → IsFlagged most b
    → push_gap cursor stop b ≡ ok b'
    → IsFlagged most b'
unfolding push_gap
push_gap-IsFlagged most cursor stop b b' h e = elim (Bool-cases (ltb cursor stop)) [
  | inl t ↦
      push_zero-IsFlagged most cursor (stop - cursor) ZeroFillReason.missing_extent b b' h
        (ground arith)
  | inr t ↦ let same : b' ≡ b = ground arith in rw same h
]

push_mapping-IsFlagged :
    (most : ℕ) (extent : ExtentRun) (mapping : ExtentMapping) (b b' : PlanBuilder)
    → IsFlagged most b
    → push_mapping extent mapping b ≡ ok b'
    → IsFlagged most b'
unfolding push_mapping
push_mapping-IsFlagged most extent (ExtentMapping.read physical) b b' h e =
    push_read-IsFlagged most extent.logical_offset physical extent.len extent.availability b b' h e
push_mapping-IsFlagged most extent (ExtentMapping.zeros reason) b b' h e =
    push_zero-IsFlagged most extent.logical_offset extent.len reason b b' h e

place_extents-IsFlagged :
    (most source_len : ℕ) (ordered : List (ℕ × ExtentRun)) (cursor : ℕ) (b : PlanBuilder)
    (r : ℕ × PlanBuilder)
    → IsFlagged most b
    → place_extents source_len ordered cursor b ≡ ok r
    → IsFlagged most r.1
unfolding place_extents
place_extents-IsFlagged most source_len [] cursor b r h e = rw (← ok-injective e) h
place_extents-IsFlagged most source_len ((i, extent) ∷ ordered) cursor b r h e =
    let (_, e1) = guard-ok (not (ltb extent.logical_offset cursor)) _ _ e in
    let (b1, gap, e2) = >>=-eq-ok (push_gap cursor extent.logical_offset b) _ e1 in
    let (mapping, _, e3) = >>=-eq-ok (readable_mapping extent source_len) _ e2 in
    let (b2, mapped, e4) = >>=-eq-ok (push_mapping extent mapping b1) _ e3 in
    place_extents-IsFlagged most source_len ordered (extent.logical_offset + extent.len) b2 r
      (push_mapping-IsFlagged most extent mapping b1 b2
        (push_gap-IsFlagged most cursor extent.logical_offset b b1 h gap) mapped)
      e4

length-finish :
    (ss : List BuiltSegment) (done : List ContentSegment)
    → length (finish ss done) ≡ length ss + length done
unfolding finish
length-finish [] done = omega arith
length-finish (s ∷ ss) done = omega (arith, length-finish ss (s.segment ∷ done))

any-finish :
    (ss : List BuiltSegment) (done : List ContentSegment)
    → any is_gap (finish ss done) ≡ (any_gap ss || any is_gap done)
unfolding finish
any-finish [] done = refl
any-finish (s ∷ ss) done = let later = any-finish ss (s.segment ∷ done) in ground arith

-- A plan has no more segments than it may, asks for best effort just when it has a gap, and keeps
-- what was asked for.
pub plan_file-gap :
    (candidate : Candidate) (source_len : ℕ) (expected : Option (List ℕ)) (policy : PartialPolicy)
    (max_segments : ℕ) (plan : ContentPlan)
    → plan_file candidate source_len expected policy max_segments ≡ ok plan
    → (length plan.segments ≤ max_segments)
      × (max_segments ≤ max_content_plan_segments)
      × (plan.requires_best_effort ≡ any is_gap plan.segments)
      × (plan.policy ≡ policy)
      × (plan.expected_sha256 ≡ expected)
unfolding plan_file
plan_file-gap candidate source_len expected policy max_segments plan e =
    let (limits, e1) =
      guard-ok (not (max_segments == 0 || ltb max_content_plan_segments max_segments)) _ _ e in
    let (_, e2) =
      guard-ok (not (ltb max_content_plan_segments (length candidate.extents))) _ _ e1 in
    let (ordered, _, e3) = >>=-eq-ok (check_extents 0 candidate.size candidate.extents) _ e2 in
    let start : PlanBuilder = record {
      segments = [];
      policy = policy;
      max_segments = max_segments;
      requires_best_effort = false;
    } in
    let (r, placed, e4) =
      >>=-eq-ok (place_extents source_len (sort_extents ordered) 0 start) _ e3 in
    let (b, gap, e5) = >>=-eq-ok (push_gap r.0 candidate.size r.1) _ e4 in
    let h =
      push_gap-IsFlagged max_segments r.0 candidate.size r.1 b
        (place_extents-IsFlagged max_segments source_len (sort_extents ordered) 0 start r
          (record { limit = refl; long = omega arith; flag = refl }) placed)
        gap in
    let long = length-finish b.segments [] in
    let gaps = any-finish b.segments [] in
    let before = h.long in
    let flag = h.flag in
    rw (← ok-injective e5) (ground arith, ground arith, ground arith, refl, refl)
