-- ===== src/Restore/Plan/Tiling.antt =====
-- What a plan of crates/restore/src/plan.rs promises.
use undelete_master.Base.{
  ℕ, ◌≡◌, refl, false, not, ◌||◌, Option, some, List, [], ltb, ◌==◌, All, Result, ok, err,
  ok-injective, guard, >>=-eq-ok, length,
}
use undelete_master.Candidate.{Candidate, CandidateKind}
use undelete_master.Restore.Errors.{RestoreError}
use undelete_master.Restore.Plan.{
  ContentPlan, PartialPolicy, PlanBuilder, max_content_plan_segments, check_extents, sort_extents,
  place_extents, push_gap, plan_file, some_plan, by_kind, plan_candidate,
}
use undelete_master.Restore.Plan.Meaning.{Tiles, IsRight}
use undelete_master.Restore.Plan.Pushing.{push_gap-Builds, finish-Builds}
use undelete_master.Restore.Plan.Walk.{sorted-Placed}

-- What is promised of a plan for a candidate.
pub record IsPlan (candidate : Candidate) (source_len : ℕ) (policy : PartialPolicy)
    (plan : ContentPlan) : Type 0 where
  pub size : plan.logical_size ≡ candidate.size
  pub tiles : Tiles 0 candidate.size plan.segments
  pub right : All (IsRight candidate.extents source_len policy) plan.segments

plan_file-IsPlan :
    (candidate : Candidate) (source_len : ℕ) (expected : Option (List ℕ)) (policy : PartialPolicy)
    (max_segments : ℕ) (plan : ContentPlan)
    → plan_file candidate source_len expected policy max_segments ≡ ok plan
    → IsPlan candidate source_len policy plan
unfolding plan_file
plan_file-IsPlan candidate source_len expected policy max_segments plan e =
    let (_, _, e1) =
      >>=-eq-ok
        (guard (not (max_segments == 0 || ltb max_content_plan_segments max_segments))
          (RestoreError.invalid_plan_limits max_segments max_content_plan_segments))
        _ e in
    let (_, _, e2) =
      >>=-eq-ok
        (guard (not (ltb max_content_plan_segments (length candidate.extents)))
          (RestoreError.segment_limit_exceeded max_segments))
        _ e1 in
    let (ordered, checked, e3) =
      >>=-eq-ok (check_extents 0 candidate.size candidate.extents) _ e2 in
    let start : PlanBuilder = record {
      segments = [];
      policy = policy;
      max_segments = max_segments;
      requires_best_effort = false;
    } in
    let (r, placed, e4) =
      >>=-eq-ok (place_extents source_len (sort_extents ordered) 0 start) _ e3 in
    let (b, gap, e5) = >>=-eq-ok (push_gap r.0 candidate.size r.1) _ e4 in
    let (built, inside, open_rest) =
      sorted-Placed candidate.extents source_len policy candidate.size ordered start r checked
        (record { tiles = refl; right = tt; kept = refl }) placed in
    let whole =
      push_gap-Builds candidate.extents source_len policy r.0 candidate.size r.1 b inside
        (λ p l k. open_rest p l) built gap in
    let (tiles, right) = finish-Builds candidate.extents source_len policy candidate.size b whole in
    rw (← ok-injective e5) (record { size = refl; tiles = tiles; right = right })

pub plan_of_kind :
    (kind : CandidateKind) (r : Result RestoreError ContentPlan) (plan : ContentPlan)
    → by_kind kind (some_plan r) ≡ ok (some plan)
    → r ≡ ok plan
unfolding by_kind some_plan
plan_of_kind CandidateKind.directory r plan e = absurd (cc)
plan_of_kind CandidateKind.file (ok p) plan e = cc
plan_of_kind CandidateKind.file (err x) plan e = absurd (cc)

-- A plan that is made for a candidate covers its file from the first position to the last, in order,
-- without a gap or an overlap and without an empty segment. Every read ends on the disk, and each of
-- its positions is one that an extent covers, in clusters that are free or resident, at just that
-- place of the disk. Every position of a range of zeros is covered by an extent with that reason, or
-- by none at all where the reason is a missing extent. Under the policy that wants the content
-- complete, the only zeros are those of sparse extents.
pub plan_candidate-IsPlan :
    (candidate : Candidate) (source_len : ℕ) (expected : Option (List ℕ)) (policy : PartialPolicy)
    (max_segments : ℕ) (plan : ContentPlan)
    → plan_candidate candidate source_len expected policy max_segments ≡ ok (some plan)
    → IsPlan candidate source_len policy plan
unfolding plan_candidate
plan_candidate-IsPlan candidate source_len expected policy max_segments plan e =
    plan_file-IsPlan candidate source_len expected policy max_segments plan (
      plan_of_kind candidate.kind (plan_file candidate source_len expected policy max_segments) plan
        e)
