-- ===== src/Restore/Plan/Meaning.antt =====
-- What a plan of crates/restore/src/plan.rs means: where each byte of the file comes from.
use undelete_master.Base.{
  ℕ, ◌+◌, ◌-◌, ◌≤◌, ◌<◌, ◌≡◌, ◌⊎◌, inl, inr, Bool, true, false, ◌&&◌, Option, none, some, List, [],
  ◌∷◌, any, leb, ltb, arith, Bool-cases,
}
use undelete_master.Candidate.{ExtentRun, ExtentAvailability}
use undelete_master.Restore.Errors.{ZeroFillReason, same_reason}
use undelete_master.Restore.Plan.{ContentSegment, PartialPolicy, logical_offset, len}

-- A byte of the disk, or a zero with the reason for it.
pub data Place : Type 0 where
  disk : (position : ℕ) → Place
  blank : (reason : ZeroFillReason) → Place

abbrev pub readable_place : ExtentRun → ℕ → Option ℕ → Place
readable_place e x none = Place.blank ZeroFillReason.unknown_availability
readable_place e x (some physical) = Place.disk (physical + (x - e.logical_offset))

-- Where an extent has the byte at position `x` of the file, by what is known about its clusters.
abbrev pub place_by : ExtentRun → ℕ → ExtentAvailability → Place
place_by e x ExtentAvailability.free_in_snapshot = readable_place e x e.physical_offset
place_by e x ExtentAvailability.resident = readable_place e x e.physical_offset
place_by e x ExtentAvailability.sparse = Place.blank ZeroFillReason.sparse
place_by e x ExtentAvailability.currently_allocated = Place.blank ZeroFillReason.currently_allocated
place_by e x ExtentAvailability.out_of_volume = Place.blank ZeroFillReason.out_of_volume
place_by e x ExtentAvailability.read_failed = Place.blank ZeroFillReason.previously_read_failed
place_by e x ExtentAvailability.zeroed = Place.blank ZeroFillReason.zeroed
place_by e x ExtentAvailability.unknown = Place.blank ZeroFillReason.unknown_availability

abbrev pub place_of : ExtentRun → ℕ → Place
place_of e x = place_by e x e.availability

abbrev pub covers : ℕ → ExtentRun → Bool
covers x e = leb e.logical_offset x && ltb x (e.logical_offset + e.len)

-- Some extent covers the position and has its byte at the place.
abbrev pub Given : List ExtentRun → ℕ → Place → Type 0
Given [] x place = ⊥
Given (e ∷ es) x place = ((covers x e ≡ true) × (place_of e x ≡ place)) ⊎ Given es x place

-- The segment says of each of its positions what the extents say, and its reads end on the disk.
abbrev pub Sound : List ExtentRun → ℕ → ContentSegment → Type 0
Sound extents source_len (ContentSegment.read l p n) =
    (p + n ≤ source_len)
    × ((x : ℕ) → l ≤ x → x < l + n → Given extents x (Place.disk (p + (x - l))))
Sound extents source_len (ContentSegment.zeros l n reason) =
    (x : ℕ)
    → l ≤ x
    → x < l + n
    → Given extents x (Place.blank reason)
      ⊎ ((reason ≡ ZeroFillReason.missing_extent) × (any (covers x) extents ≡ false))

-- Under the policy that wants the content complete, zeros are those of sparse ranges.
abbrev pub Allowed : PartialPolicy → ContentSegment → Type 0
Allowed PartialPolicy.complete_only (ContentSegment.zeros _ _ reason) =
    same_reason reason ZeroFillReason.sparse ≡ true
Allowed PartialPolicy.complete_only (ContentSegment.read _ _ _) = Unit {0}
Allowed PartialPolicy.zero_fill_and_map _ = Unit {0}

abbrev pub IsRight : List ExtentRun → ℕ → PartialPolicy → ContentSegment → Type 0
IsRight extents source_len policy s = Sound extents source_len s × Allowed policy s

-- The segments follow one another from `a` to `b` without a gap, and none is empty.
abbrev pub Tiles : ℕ → ℕ → List ContentSegment → Type 0
Tiles a b [] = a ≡ b
Tiles a b (s ∷ ss) = (logical_offset s ≡ a) × (0 < len s) × Tiles (a + len s) b ss

second_part :
    (l m n x : ℕ) → l ≤ x → x < l + (m + n) → (x < l + m) ⊎ ((l + m ≤ x) × (x < l + m + n))
second_part l m n x h k = elim (Bool-cases (ltb x (l + m))) [
  | inl t ↦ inl (ground arith)
  | inr t ↦ inr (ground arith)
]

-- Two segments of one kind that meet are one.
pub Sound-read :
    (extents : List ExtentRun) (source_len l p m n : ℕ)
    → Sound extents source_len (ContentSegment.read l p m)
    → Sound extents source_len (ContentSegment.read (l + m) (p + m) n)
    → Sound extents source_len (ContentSegment.read l p (m + n))
Sound-read extents source_len l p m n (_, a) (inside, b) = (
  omega arith,
  λ x h k. elim (second_part l m n x h k) [
    | inl first ↦ a x h first
    | inr (low, high) ↦
        let same : p + m + (x - (l + m)) ≡ p + (x - l) = omega arith in rw (← same) (b x low high)
  ],
)

pub Sound-zeros :
    (extents : List ExtentRun) (source_len l m n : ℕ) (reason : ZeroFillReason)
    → Sound extents source_len (ContentSegment.zeros l m reason)
    → Sound extents source_len (ContentSegment.zeros (l + m) n reason)
    → Sound extents source_len (ContentSegment.zeros l (m + n) reason)
Sound-zeros extents source_len l m n reason a b x h k = elim (second_part l m n x h k) [
  | inl first ↦ a x h first
  | inr (low, high) ↦ b x low high
]
