-- ===== src/Restore/Plan/Pushing.antt =====
-- The pushes of the builder of crates/restore/src/plan.rs keep what it has built, and `finish` puts
-- the segments in order.
use undelete_master.Base.{
  ℕ, ◌+◌, ◌-◌, ◌≤◌, ◌<◌, ◌≡◌, refl, inl, inr, false, not, ◌||◌, none, some, List, [], ◌∷◌, ltb,
  arith, All, ok, Bool-cases, Option-cases, any,
}
use undelete_master.Candidate.{ExtentRun, ExtentAvailability}
use undelete_master.Restore.Errors.{ZeroFillReason, same_reason}
use undelete_master.Restore.Plan.{
  ContentSegment, PartialPolicy, BuiltSegment, PlanBuilder, logical_offset, len, extend_read,
  push_read, extend_zero, refuses, push_zero, push_gap, finish,
}
use undelete_master.Restore.Plan.Meaning.{covers, Sound, Allowed, IsRight, Tiles}
use undelete_master.Restore.Plan.Merging.{
  TilesTo, Builds, push-Builds, extend_read-Builds, extend_zero-Builds,
}

module _ (extents : List ExtentRun) (source_len : ℕ) (policy : PartialPolicy) where
  pub push_read-Builds :
      (offset physical n : ℕ) (a : ExtentAvailability) (b b' : PlanBuilder)
      → 0 < n
      → IsRight extents source_len policy (ContentSegment.read offset physical n)
      → Builds extents source_len policy offset b
      → push_read offset physical n a b ≡ ok b'
      → Builds extents source_len policy (offset + n) b'
  unfolding push_read logical_offset len
  push_read-Builds offset physical n a b b' pos right h e =
      elim (Option-cases (extend_read offset physical n a b.segments)) [
        | inr (ss, t) ↦
            let same : b' ≡ record b { segments = ss } = ground arith in
            rw same (
              extend_read-Builds extents source_len policy offset physical n a b.segments b ss refl
                right h t)
        | inl t ↦
            push-Builds extents source_len policy
              (record {
                segment = ContentSegment.read offset physical n;
                read_availability = some a;
              })
              b b' pos right h (ground arith)
      ]

  zero-Allowed :
      (l n : ℕ) (r : ZeroFillReason) (q : PartialPolicy)
      → refuses q r ≡ false
      → Allowed q (ContentSegment.zeros l n r)
  unfolding refuses
  zero-Allowed l n r PartialPolicy.complete_only h = ground arith
  zero-Allowed l n r PartialPolicy.zero_fill_and_map h = tt

  pub push_zero-Builds :
      (offset n : ℕ) (reason : ZeroFillReason) (b b' : PlanBuilder)
      → 0 < n
      → Sound extents source_len (ContentSegment.zeros offset n reason)
      → Builds extents source_len policy offset b
      → push_zero offset n reason b ≡ ok b'
      → Builds extents source_len policy (offset + n) b'
  unfolding push_zero logical_offset len
  push_zero-Builds offset n reason b b' pos sound h e =
      elim (Bool-cases (refuses b.policy reason)) [
        | inl t ↦ absurd (ground arith)
        | inr t ↦
            let best = b.requires_best_effort || not (same_reason reason ZeroFillReason.sparse) in
            let right : IsRight extents source_len policy (ContentSegment.zeros offset n reason) =
              (sound, zero-Allowed offset n reason policy (rw (← h.kept) t)) in
            elim (Option-cases (extend_zero offset n reason b.segments)) [
              | inr (ss, u) ↦
                  let same : b' ≡ record b { requires_best_effort = best; segments = ss } =
                    ground arith in
                  rw same (
                    extend_zero-Builds extents source_len policy offset n reason b.segments b best
                      ss refl right h u)
              | inl u ↦
                  push-Builds extents source_len policy
                    (record {
                      segment = ContentSegment.zeros offset n reason;
                      read_availability = none;
                    })
                    (record b { requires_best_effort = best }) b' pos right
                    (record { tiles = h.tiles; right = h.right; kept = h.kept }) (ground arith)
            ]
      ]

  -- A gap in front of `stop` is filled with zeros that no extent covers.
  pub push_gap-Builds :
      (cursor stop : ℕ) (b b' : PlanBuilder)
      → cursor ≤ stop
      → ((x : ℕ) → cursor ≤ x → x < stop → any (covers x) extents ≡ false)
      → Builds extents source_len policy cursor b
      → push_gap cursor stop b ≡ ok b'
      → Builds extents source_len policy stop b'
  unfolding push_gap
  push_gap-Builds cursor stop b b' le uncovered h e = elim (Bool-cases (ltb cursor stop)) [
    | inl t ↦
        let reach : cursor + (stop - cursor) ≡ stop = omega arith in
        let built =
          push_zero-Builds cursor (stop - cursor) ZeroFillReason.missing_extent b b' (ground arith)
            (λ x l k. inr (refl, uncovered x l (omega arith))) h (ground arith) in
        rw reach at built
    | inr t ↦
        let same : b' ≡ b = ground arith in
        let reach : cursor ≡ stop = ground arith in rw same (rw reach at h)
  ]

  -- The segments in order.
  finish-Tiles :
      (ss : List BuiltSegment) (a e : ℕ) (done : List ContentSegment)
      → TilesTo a ss
      → Tiles a e done
      → Tiles 0 e (finish ss done)
  unfolding finish
  finish-Tiles [] a e done t d = rw t at d
  finish-Tiles (s ∷ ss) a e done t d =
      finish-Tiles ss (logical_offset s.segment) e (s.segment ∷ done) t.2 (refl, t.1, rw (t.0) d)

  finish-IsRight :
      (ss : List BuiltSegment) (done : List ContentSegment)
      → All (λ s. IsRight extents source_len policy s.segment) ss
      → All (IsRight extents source_len policy) done
      → All (IsRight extents source_len policy) (finish ss done)
  unfolding finish
  finish-IsRight [] done h d = d
  finish-IsRight (s ∷ ss) done h d = finish-IsRight ss (s.segment ∷ done) h.1 (h.0, d)

  pub finish-Builds :
      (e : ℕ) (b : PlanBuilder)
      → Builds extents source_len policy e b
      → Tiles 0 e (finish b.segments [])
        × All (IsRight extents source_len policy) (finish b.segments [])
  finish-Builds e b h =
      (finish-Tiles b.segments e e [] h.tiles refl, finish-IsRight b.segments [] h.right tt)
