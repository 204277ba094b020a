-- ===== src/Restore/Stream/Planned.antt =====
-- What `preflight` of crates/restore/src/stream.rs makes sure of.
use undelete_master.Base.{
  ℕ, suc, ◌+◌, ◌≤◌, ◌<◌, ◌≡◌, refl, sym, Bool, true, false, not, ◌||◌, List, [], ◌∷◌, length, leb,
  ltb, ◌==◌, ok, ok-injective, guard, guard-ok, ok_or, >>=-eq-ok, checked_add, arith,
}
use undelete_master.Restore.Errors.{ZeroFillReason, RestoreError, same_reason}
use undelete_master.Restore.Plan.{
  ContentSegment, ContentPlan, logical_offset, len, refuses, max_content_plan_segments,
}
use undelete_master.Restore.Preflight.{
  Preflight, check_kind, check_segments, same_flag, preflight, max_stream_buffer_bytes,
}

-- The segments from position `a` on: in order, none empty, up to the end of the file. Reads end on
-- the source, and zeros are allowed by the policy and, where they are not sparse, flagged.
abbrev pub Planned : ℕ → ContentPlan → Bool → ℕ → List ContentSegment → Type 0
Planned source_len plan effort a [] = a ≡ plan.logical_size
Planned source_len plan effort a (ContentSegment.read l p n ∷ segments) =
    (l ≡ a)
    × (a + n ≤ plan.logical_size)
    × (p + n ≤ source_len)
    × Planned source_len plan effort (a + n) segments
Planned source_len plan effort a (ContentSegment.zeros l n reason ∷ segments) =
    (l ≡ a)
    × (a + n ≤ plan.logical_size)
    × (refuses plan.policy reason ≡ false)
    × ((same_reason reason ZeroFillReason.sparse || effort) ≡ true)
    × Planned source_len plan effort (a + n) segments

sum_of : (a b c : ℕ) (e : RestoreError) → ok_or (checked_add a b) e ≡ ok c → c ≡ a + b
sum_of a b c e h = ground arith

flag_of : (test : Bool) (e : RestoreError) → guard test e ≡ ok tt → test ≡ true
flag_of true e h = refl
flag_of false e h = absurd (cc)

module _ (source_len : ℕ) (plan : ContentPlan) where
  -- The head of the list, before its kind is looked at.
  head_ok :
      (index : ℕ) (segment : ContentSegment) (segments : List ContentSegment) (p q : Preflight)
      → check_segments source_len plan index (segment ∷ segments) p ≡ ok q
      → (next : Preflight) × (logical_offset segment ≡ p.expected_offset)
        × (p.expected_offset + len segment ≤ plan.logical_size)
        × (check_kind source_len plan.policy
              (p.expected_offset + len segment)
              p.expected_best_effort
              segment
            ≡ ok next)
        × (check_segments source_len plan (suc index) segments next ≡ ok q)
  unfolding check_segments
  head_ok index segment segments p q e =
      let (_, e1) = guard-ok (not (len segment == 0)) _ _ e in
      let (offset, e2) = guard-ok (logical_offset segment == p.expected_offset) _ _ e1 in
      let (logical_end, sum, e3) =
        >>=-eq-ok
          (ok_or (checked_add (logical_offset segment) (len segment))
            (RestoreError.logical_range_overflow (logical_offset segment) (len segment)))
          _ e2 in
      let (inside, e4) = guard-ok (leb logical_end plan.logical_size) _ _ e3 in
      let (next, kind, e5) =
        >>=-eq-ok (check_kind source_len plan.policy logical_end p.expected_best_effort segment) _
          e4 in
      let same : logical_offset segment ≡ p.expected_offset = ground arith in
      let total : logical_end ≡ p.expected_offset + len segment =
        let t =
          sum_of (logical_offset segment) (len segment) logical_end
            (RestoreError.logical_range_overflow (logical_offset segment) (len segment)) sum in
        omega arith in
      (next, same, rw (← total) (ground arith), rw (← total) kind, e5)

  -- The flag only rises, and in the end stands for every segment of zeros that is not sparse.
  check_segments-Planned :
      (index : ℕ) (segments : List ContentSegment) (p q : Preflight)
      → check_segments source_len plan index segments p ≡ ok q
      → q.expected_offset ≡ plan.logical_size
      → Planned source_len plan q.expected_best_effort p.expected_offset segments
        × ((not p.expected_best_effort || q.expected_best_effort) ≡ true)
  unfolding check_segments check_kind logical_offset len
  check_segments-Planned index [] p q e done =
      let same = ok-injective e in rw same (done, ground arith)
  check_segments-Planned index (ContentSegment.read l x n ∷ segments) p q e done =
      let (next, same, room, kind, rest) =
        head_ok index (ContentSegment.read l x n) segments p q e in
      let (physical_end, sum, k1) =
        >>=-eq-ok (ok_or (checked_add x n) (RestoreError.physical_range_overflow x n)) _ kind in
      let (inside, k2) = guard-ok (leb physical_end source_len) _ _ k1 in
      let total = sum_of x n physical_end (RestoreError.physical_range_overflow x n) sum in
      let is_next = ok-injective k2 in
      let (planned, flag) = check_segments-Planned (suc index) segments next q rest done in
      ((same, room, ground arith, rw (← is_next) at planned), rw (← is_next) at flag)
  check_segments-Planned index (ContentSegment.zeros l n reason ∷ segments) p q e done =
      let (next, same, room, kind, rest) =
        head_ok index (ContentSegment.zeros l n reason) segments p q e in
      let (allowed, k1) = guard-ok (not (refuses plan.policy reason)) _ _ kind in
      let is_next = ok-injective k1 in
      let (planned, flag) = check_segments-Planned (suc index) segments next q rest done in
      let flag' = rw (← is_next) at flag in
      ((same, room, ground arith, ground arith, rw (← is_next) at planned), ground arith)

  same_flag-eq : (a b : Bool) → same_flag a b ≡ true → a ≡ b
  unfolding same_flag
  same_flag-eq true b h = sym h
  same_flag-eq false true h = absurd (cc)
  same_flag-eq false false h = refl

  pub preflight-Planned :
      (scratch_len : ℕ)
      → preflight source_len plan scratch_len ≡ ok tt
      → (0 < scratch_len) × Planned source_len plan plan.requires_best_effort 0 plan.segments
  unfolding preflight
  preflight-Planned scratch_len e =
      let (scratch, e1) =
        guard-ok (not (scratch_len == 0 || ltb max_stream_buffer_bytes scratch_len)) _ _ e in
      let (_, e2) = guard-ok (leb (length plan.segments) max_content_plan_segments) _ _ e1 in
      let start : Preflight = record { expected_offset = 0; expected_best_effort = false } in
      let (q, walked, e3) = >>=-eq-ok (check_segments source_len plan 0 plan.segments start) _ e2 in
      let (done, e4) = guard-ok (q.expected_offset == plan.logical_size) _ _ e3 in
      let flag = flag_of (same_flag q.expected_best_effort plan.requires_best_effort) _ e4 in
      let same = same_flag-eq q.expected_best_effort plan.requires_best_effort flag in
      let (planned, _) = check_segments-Planned 0 plan.segments start q walked (ground arith) in
      (ground arith, rw (← same) planned)
