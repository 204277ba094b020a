-- ===== src/Restore/Plan/Merging.antt =====
-- The builder of crates/restore/src/plan.rs: what a push makes of segments that tile a part of the
-- file.
use undelete_master.Base.{
  ℕ, ◌+◌, ◌≤◌, ◌<◌, ◌≡◌, refl, inl, inr, Bool, ◌&&◌, Option, none, some, List, [], ◌∷◌, ◌==◌, leb,
  arith, All, ok, Bool-cases, Option-cases, length,
}
use undelete_master.Candidate.{ExtentRun, ExtentAvailability}
use undelete_master.Restore.Errors.{ZeroFillReason, same_reason}
use undelete_master.Restore.Plan.{
  ContentSegment, PartialPolicy, BuiltSegment, PlanBuilder, logical_offset, len, push,
  extend_segment_read, extend_read, extend_segment_zero, extend_zero, same_availability,
}
use undelete_master.Restore.Plan.Meaning.{Allowed, IsRight, Sound-read, Sound-zeros}
use undelete_master.Restore.Plan.Reasons.{same_reason_sound}

-- The segments, the last one first, tile the file up to `e`.
abbrev pub TilesTo : ℕ → List BuiltSegment → Type 0
TilesTo e [] = e ≡ 0
TilesTo e (s ∷ rest) =
    (logical_offset s.segment + len s.segment ≡ e)
    × (0 < len s.segment)
    × TilesTo (logical_offset s.segment) rest

pub Allowed-read : (policy : PartialPolicy) (l p n : ℕ) → Allowed policy (ContentSegment.read l p n)
Allowed-read PartialPolicy.complete_only l p n = tt
Allowed-read PartialPolicy.zero_fill_and_map l p n = tt

Allowed-zeros :
    (policy : PartialPolicy) (l n l' n' : ℕ) (r : ZeroFillReason)
    → Allowed policy (ContentSegment.zeros l n r)
    → Allowed policy (ContentSegment.zeros l' n' r)
Allowed-zeros PartialPolicy.complete_only l n l' n' r h = h
Allowed-zeros PartialPolicy.zero_fill_and_map l n l' n' r h = tt

module _ (extents : List ExtentRun) (source_len : ℕ) (policy : PartialPolicy) where
  pub record Builds (e : ℕ) (b : PlanBuilder) : Type 0 where
    pub tiles : TilesTo e b.segments
    pub right : All (λ s. IsRight extents source_len policy s.segment) b.segments
    pub kept : b.policy ≡ policy

  pub push-Builds :
      (s : BuiltSegment) (b b' : PlanBuilder)
      → 0 < len s.segment
      → IsRight extents source_len policy s.segment
      → Builds (logical_offset s.segment) b
      → push s b ≡ ok b'
      → Builds (logical_offset s.segment + len s.segment) b'
  unfolding push
  push-Builds s b b' pos right h e = elim (Bool-cases (leb b.max_segments (length b.segments))) [
    | inl t ↦ absurd (ground arith)
    | inr t ↦
        let same : b' ≡ record b { segments = s ∷ b.segments } = ground arith in
        rw same (record { tiles = (refl, pos, h.tiles); right = (right, h.right); kept = h.kept })
  ]

  -- The last segment, made longer, is right and ends `n` positions later.
  IsLonger : ℕ → ContentSegment → ContentSegment → Type 0
  IsLonger stop old new =
      IsRight extents source_len policy new
      × (logical_offset new ≡ logical_offset old)
      × (logical_offset new + len new ≡ stop)
      × (len old ≤ len new)

  extend_segment_read_lem :
      (offset physical n : ℕ) (a : ExtentAvailability) (o : Option ExtentAvailability)
      (s s' : ContentSegment)
      → IsRight extents source_len policy (ContentSegment.read offset physical n)
      → IsRight extents source_len policy s
      → extend_segment_read offset physical n a o s ≡ some s'
      → IsLonger (offset + n) s s'
  unfolding extend_segment_read IsLonger logical_offset len
  extend_segment_read_lem offset physical n a none s s' right old e = absurd (cc)
  extend_segment_read_lem offset physical n a (some b) (ContentSegment.zeros _ _ _) s' right old e =
      absurd (cc)
  extend_segment_read_lem offset physical n a (some b) (ContentSegment.read l p m) s' right old e =
      elim (Bool-cases (same_availability b a && l + m == offset && p + m == physical)) [
        | inr t ↦ absurd (ground arith)
        | inl t ↦
            let at : l + m ≡ offset = ground arith in
            let at' : p + m ≡ physical = ground arith in
            let new : s' ≡ ContentSegment.read l p (m + n) = ground arith in
            rw new (
              (
                Sound-read extents source_len l p m n old.0 (rw (at, at') right.0),
                Allowed-read policy l p (m + n),
              ),
              refl,
              omega arith,
              omega arith,
            )
      ]

  extend_segment_zero_lem :
      (offset n : ℕ) (reason : ZeroFillReason) (s s' : ContentSegment)
      → IsRight extents source_len policy (ContentSegment.zeros offset n reason)
      → IsRight extents source_len policy s
      → extend_segment_zero offset n reason s ≡ some s'
      → IsLonger (offset + n) s s'
  unfolding extend_segment_zero IsLonger logical_offset len
  extend_segment_zero_lem offset n reason (ContentSegment.read _ _ _) s' right old e = absurd (cc)
  extend_segment_zero_lem offset n reason (ContentSegment.zeros l m r) s' right old e =
      elim (Bool-cases (l + m == offset && same_reason r reason)) [
        | inr t ↦ absurd (ground arith)
        | inl t ↦
            let at : l + m ≡ offset = ground arith in
            let r' : r ≡ reason = same_reason_sound r reason (ground arith) in
            let new : s' ≡ ContentSegment.zeros l (m + n) r = ground arith in
            rw new (
              (
                Sound-zeros extents source_len l m n r old.0 (rw (at, r') right.0),
                Allowed-zeros policy l m l (m + n) r old.1,
              ),
              refl,
              omega arith,
              omega arith,
            )
      ]

  -- The segments with a longer last one.
  longer-Builds :
      (stop : ℕ) (last : BuiltSegment) (rest : List BuiltSegment) (s : ContentSegment) (e : ℕ)
      (b b' : PlanBuilder)
      → b.segments ≡ last ∷ rest
      → IsLonger stop last.segment s
      → Builds e b
      → b'.segments ≡ record last { segment = s } ∷ rest
      → b'.policy ≡ b.policy
      → Builds stop b'
  unfolding IsLonger
  longer-Builds stop last rest s e b b' p (right, start, ends, more) h q k =
      let tiles : TilesTo e (last ∷ rest) = rw p at (h.tiles) in
      let rights : All (λ t. IsRight extents source_len policy t.segment) (last ∷ rest) =
        rw p at (h.right) in
      record {
        tiles = rw q (ends, omega (arith, tiles.1), rw start tiles.2);
        right = rw q (right, rights.1);
        kept = rw k h.kept;
      }

  pub extend_read-Builds :
      (offset physical n : ℕ) (a : ExtentAvailability) (ss : List BuiltSegment) (b : PlanBuilder)
      (ss' : List BuiltSegment)
      → b.segments ≡ ss
      → IsRight extents source_len policy (ContentSegment.read offset physical n)
      → Builds offset b
      → extend_read offset physical n a ss ≡ some ss'
      → Builds (offset + n) (record b { segments = ss' })
  unfolding extend_read
  extend_read-Builds offset physical n a [] b ss' p right h e = absurd (cc)
  extend_read-Builds offset physical n a (last ∷ rest) b ss' p right h e =
      elim (Option-cases
        (extend_segment_read offset physical n a last.read_availability last.segment)) [
          | inl t ↦ absurd (ground arith)
          | inr (s, t) ↦
              let old : All (λ u. IsRight extents source_len policy u.segment) (last ∷ rest) =
                rw p at (h.right) in
              let longer =
                extend_segment_read_lem offset physical n a last.read_availability last.segment s
                  right old.0 t in
              longer-Builds (offset + n) last rest s offset b (record b { segments = ss' }) p longer
                h (ground arith) refl
        ]

  pub extend_zero-Builds :
      (offset n : ℕ) (reason : ZeroFillReason) (ss : List BuiltSegment) (b : PlanBuilder)
      (best : Bool) (ss' : List BuiltSegment)
      → b.segments ≡ ss
      → IsRight extents source_len policy (ContentSegment.zeros offset n reason)
      → Builds offset b
      → extend_zero offset n reason ss ≡ some ss'
      → Builds (offset + n) (record b { requires_best_effort = best; segments = ss' })
  unfolding extend_zero
  extend_zero-Builds offset n reason [] b best ss' p right h e = absurd (cc)
  extend_zero-Builds offset n reason (last ∷ rest) b best ss' p right h e =
      elim (Option-cases (extend_segment_zero offset n reason last.segment)) [
        | inl t ↦ absurd (ground arith)
        | inr (s, t) ↦
            let old : All (λ u. IsRight extents source_len policy u.segment) (last ∷ rest) =
              rw p at (h.right) in
            let longer = extend_segment_zero_lem offset n reason last.segment s right old.0 t in
            longer-Builds (offset + n) last rest s offset b
              (record b { requires_best_effort = best; segments = ss' }) p longer h (ground arith)
              refl
      ]
