-- ===== src/Score/Caps.antt =====
-- The caps of `RecoverabilityInputs::score`, crates/core/src/score.rs.
use undelete_master.Base.{
  ℕ, ◌≤◌, ◌<◌, ◌/◌, min, max, ◌≡◌, refl, true, false, not, ◌||◌, any, length, ◌==◌, arith,
  Bool-cases, inl, inr, u64_max,
}
use undelete_master.Base.Words.{IsU64}
use undelete_master.Base.Counts.{count_pos}
use undelete_master.Candidate.{Candidate}
use undelete_master.Candidate.ExtentAvailability.{out_of_volume, read_failed, currently_allocated}
use undelete_master.Candidate.Intervals.{in_extent}
use undelete_master.Score.{
  RecoverabilityInputs, no_evidence, classified_logical_segments, cap_of, readable_bytes,
  usable_bytes, validated_floor, score, from_candidate,
}
use undelete_master.Score.Accounting.{evidence, from_candidate_counts, account_all-total_len}

cap_of_bounds :
    (self : RecoverabilityInputs)
    → (self.validated ≡ false → cap_of self ≤ 84)
      × (self.chain_inferred ≡ true → cap_of self ≤ 74)
      × (0 < self.missing_bytes → cap_of self ≤ 69)
      × (0 < self.read_error_bytes → cap_of self ≤ 69)
      × (0 < self.allocated_conflict_bytes → cap_of self ≤ 49)
      × (self.total_len / 2 < max self.zeroed_risk_bytes self.zeroed_bytes → cap_of self ≤ 10)
unfolding cap_of
cap_of_bounds self = (
  λ h. ground arith,
  λ h. ground arith,
  λ h. ground arith,
  λ h. ground arith,
  λ h. ground arith,
  λ h. ground arith,
)

from_candidate-total_len : (c : Candidate) → (from_candidate c).total_len ≡ c.size
unfolding from_candidate
from_candidate-total_len c =
    account_all-total_len (no_evidence c.size) (classified_logical_segments c)

value-le-cap :
    (percent : ℕ → ℕ → ℕ) (self : RecoverabilityInputs)
    → 0 < self.total_len
    → (score percent self).value ≤ min (cap_of self) 99
unfolding score
value-le-cap percent self h =
    let full : (self.total_len == 0) ≡ false = ground arith in
    elim (Bool-cases (usable_bytes self == 0)) [
      | inl t ↦ rw (full, t) (omega arith)
      | inr t ↦ rw (full, t) (omega arith)
    ]

-- However the percentage is rounded, the score of a file that is not empty stays below 100 and
-- under every cap: 84 without validation, 74 for an inferred chain, 69 with missing or unreadable
-- bytes, 49 with bytes that conflict with allocated data, 10 when more than half was seen zeroed.
pub score_caps :
    (percent : ℕ → ℕ → ℕ) (self : RecoverabilityInputs)
    → 0 < self.total_len
    → let value = (score percent self).value in
      (value ≤ 99)
      × (self.validated ≡ false → value ≤ 84)
      × (self.chain_inferred ≡ true → value ≤ 74)
      × (0 < self.missing_bytes → value ≤ 69)
      × (0 < self.read_error_bytes → value ≤ 69)
      × (0 < self.allocated_conflict_bytes → value ≤ 49)
      × (self.total_len / 2 < max self.zeroed_risk_bytes self.zeroed_bytes → value ≤ 10)
score_caps percent self h =
    let bound = value-le-cap percent self h in
    let (a, b, c, d, e, f) = cap_of_bounds self in
    (
      omega arith,
      λ t. omega (arith, a t),
      λ t. omega (arith, b t),
      λ t. omega (arith, c t),
      λ t. omega (arith, d t),
      λ t. omega (arith, e t),
      λ t. omega (arith, f t),
    )

-- Overlapping extents cannot hide bad evidence: for a candidate with a size and a number of extents
-- that fit 64 bits, the score is at most 49 where one position of the file lies in an extent that is
-- allocated to something else, and at most 69 where one lies in an extent that could not be read,
-- that is outside the volume, or in no extent, whatever else covers it.
pub score_adverse :
    (percent : ℕ → ℕ → ℕ) (c : Candidate) (p : ℕ)
    → length c.extents ≤ u64_max
    → IsU64 c.size
    → p < c.size
    → let value = (score percent (from_candidate c)).value in
      (evidence c currently_allocated p ≡ true → value ≤ 49)
      × (evidence c read_failed p ≡ true → value ≤ 69)
      × (evidence c out_of_volume p ≡ true → value ≤ 69)
      × (any (in_extent c.size p) c.extents ≡ false → value ≤ 69)
score_adverse percent c p few typed inside =
    let inp = from_candidate c in
    let counts = from_candidate_counts c few typed in
    let whole : inp.total_len ≡ c.size = from_candidate-total_len c in
    let caps = score_caps percent inp (omega arith) in
    let missing =
      λ (k : ℕ). evidence c out_of_volume k || not (any (in_extent c.size k) c.extents) in
    (
      λ t. caps.5 (
          omega (
            arith,
            counts.2,
            count_pos 0 c.size (evidence c currently_allocated) p (omega arith) (omega arith) t,
          )),
      λ t. caps.4 (
          omega (
            arith,
            counts.1,
            count_pos 0 c.size (evidence c read_failed) p (omega arith) (omega arith) t,
          )),
      λ t. caps.3 (
          omega (
            arith,
            counts.0,
            count_pos 0 c.size missing p (omega arith) (omega arith) (rw t refl),
          )),
      λ t. caps.3 (
          omega (
            arith,
            counts.0,
            count_pos 0 c.size missing p (omega arith) (omega arith) (ground arith),
          )),
    )

-- A floor for what was not read: where a validator confirmed the content and nothing is missing or
-- in conflict, the score of a file with read errors, from a chain that was not inferred and without a
-- zeroed majority, is 69 as soon as one byte is readable, however few bytes are.
pub score_unread_floor :
    (percent : ℕ → ℕ → ℕ) (self : RecoverabilityInputs)
    → 0 < self.total_len
    → self.validated ≡ true
    → self.chain_inferred ≡ false
    → self.missing_bytes ≡ 0
    → self.allocated_conflict_bytes ≡ 0
    → 0 < self.read_error_bytes
    → 0 < readable_bytes self
    → max self.zeroed_risk_bytes self.zeroed_bytes ≤ self.total_len / 2
    → (score percent self).value ≡ 69
unfolding score
score_unread_floor percent self full valid proven present free unread some_free few =
    let capped : cap_of self ≡ 69 = unfold cap_of in ground arith in
    let floored : validated_floor self ≡ true = unfold validated_floor in ground arith in
    let some_read : (usable_bytes self == 0) ≡ false = unfold usable_bytes in ground arith in
    let some_content : (self.total_len == 0) ≡ false = ground arith in
    simp (some_content, some_read, floored, capped) (ground arith)
