-- ===== src/Score.antt =====
-- crates/core/src/score.rs: the sweep over the extents that sorts the bytes of a candidate by the
-- evidence about them, and the score with its caps. The texts of the explanations are named by the
-- values of a data type. An array of eight counters is the function from its index.
pub mod Levels
pub mod Sweep
pub mod Accounting
pub mod Caps
mod Tests
use undelete_master.Base.{
  ℕ, zero, suc, ◌+◌, ◌-◌, ◌*◌, ◌/◌, min, max, Bool, true, false, not, ◌&&◌, ◌||◌, List, [], ◌∷◌,
  any, length, ltb, leb, ◌==◌, if◌then◌else◌, saturating_add,
}
use undelete_master.Base.Texts.{codes}
use undelete_master.Candidate.{
  ExtentAvailability, ExtentRun, Candidate, clipped_start, clipped_end,
  normalized_logical_intervals, sum_lengths, covered_len,
}

pub record RecoverabilityInputs : Type 0 where
  pub total_len : ℕ
  pub free_bytes : ℕ
  pub allocated_conflict_bytes : ℕ
  pub missing_bytes : ℕ
  pub read_error_bytes : ℕ
  pub zeroed_bytes : ℕ
  pub zeroed_risk_bytes : ℕ
  pub resident_bytes : ℕ
  pub sparse_bytes : ℕ
  pub chain_inferred : Bool
  pub validated : Bool
  pub validator_available : Bool

pub data ScoreLabel : Type 0 where
  excellent good partial low unrecoverable : ScoreLabel

unfoldable pub score_label : ℕ → ScoreLabel
score_label value =
    if leb 85 value && leb value 100
    then ScoreLabel.excellent
    else if leb 70 value && leb value 84
    then ScoreLabel.good
    else if leb 40 value && leb value 69
    then ScoreLabel.partial
    else if leb 11 value && leb value 39
    then ScoreLabel.low
    else ScoreLabel.unrecoverable

unfoldable pub availability_index : ExtentAvailability → ℕ
availability_index ExtentAvailability.sparse = 0
availability_index ExtentAvailability.resident = 1
availability_index ExtentAvailability.free_in_snapshot = 2
availability_index ExtentAvailability.zeroed = 3
availability_index ExtentAvailability.unknown = 4
availability_index ExtentAvailability.currently_allocated = 5
availability_index ExtentAvailability.read_failed = 6
availability_index ExtentAvailability.out_of_volume = 7

-- `(u64, bool, usize)`: where, whether an extent starts there or ends, and its class.
pub record Event : Type 0 where
  pub position : ℕ
  pub starts : Bool
  pub class : ℕ

-- `(u64, u64, [bool; 8])`
pub record Segment : Type 0 where
  pub first : ℕ
  pub last : ℕ
  pub active : ℕ → Bool

unfoldable pub extent_events : List ExtentRun → ℕ → List Event
extent_events [] size = []
extent_events (extent ∷ extents) size =
    let start = clipped_start extent size in
    let stop = clipped_end extent size in
    let class = availability_index extent.availability in
    let rest = extent_events extents size in
    if ltb start stop
    then record { position = start; starts = true; class = class }
      ∷ record { position = stop; starts = false; class = class }
      ∷ rest
    else rest

-- `sort_unstable_by_key` by the position. The order of events at one position is left open by the
-- library; this is one order that it may give, and the sweep takes such events together.
unfoldable pub insert_event : Event → List Event → List Event
insert_event x [] = x ∷ []
insert_event x (y ∷ ys) = if leb x.position y.position then x ∷ y ∷ ys else y ∷ insert_event x ys

unfoldable pub sort_events : List Event → List Event
sort_events [] = []
sort_events (x ∷ xs) = insert_event x (sort_events xs)

-- `active[class]` counted up at a start, and down at an end, never below 0.
unfoldable pub apply_event : Event → (ℕ → ℕ) → ℕ → ℕ
apply_event event active class =
    if class == event.class
    then (if event.starts then saturating_add (active class) 1 else active class - 1)
    else active class

-- `active.iter().any(|count| *count > 0)`
unfoldable pub any_active : (ℕ → ℕ) → Bool
any_active active = any (λ class. ltb 0 (active class)) (0 ∷ 1 ∷ 2 ∷ 3 ∷ 4 ∷ 5 ∷ 6 ∷ 7 ∷ [])

-- The inner loop: the events at one position.
unfoldable pub take_position : ℕ → (ℕ → ℕ) → List Event → (ℕ → ℕ) × List Event
take_position position active [] = (active, [])
take_position position active (event ∷ events) =
    let rest = take_position position (apply_event event active) events in
    if event.position == position then rest else (active, event ∷ events)

-- The outer loop. A round takes one event at least, so as many rounds as there are events do.
unfoldable pub sweep : ℕ → ℕ → (ℕ → ℕ) → List Event → List Segment
sweep zero previous active events = []
sweep (suc rounds) previous active [] = []
sweep (suc rounds) previous active (event ∷ events) =
    let position = event.position in
    let (active', left) = take_position position active (event ∷ events) in
    let rest = sweep rounds position active' left in
    if ltb previous position && any_active active
    then record { first = previous; last = position; active = λ class. ltb 0 (active class) } ∷ rest
    else rest

unfoldable pub sweep_all : List Event → List Segment
sweep_all [] = []
sweep_all (first ∷ events) =
    sweep (length (first ∷ events)) first.position (λ class. 0) (first ∷ events)

unfoldable pub classified_logical_segments : Candidate → List Segment
classified_logical_segments candidate =
    sweep_all (sort_events (extent_events candidate.extents candidate.size))

-- `bytes.contains(needle)` on texts.
unfoldable pub is_prefix : List ℕ → List ℕ → Bool
is_prefix [] text = true
is_prefix (x ∷ needle) [] = false
is_prefix (x ∷ needle) (y ∷ text) = x == y && is_prefix needle text

unfoldable pub contains : List ℕ → List ℕ → Bool
contains [] needle = is_prefix needle []
contains (x ∷ text) needle = is_prefix needle (x ∷ text) || contains text needle

-- The body of the loop over the segments.
unfoldable pub account : RecoverabilityInputs → Segment → RecoverabilityInputs
unfolding availability_index
account inp s =
    let len = s.last - s.first in
    let has = λ (availability : ExtentAvailability). s.active (availability_index availability) in
    let out_of_volume = has ExtentAvailability.out_of_volume in
    let read_failed = has ExtentAvailability.read_failed in
    let allocated_conflict = has ExtentAvailability.currently_allocated in
    let unknown = has ExtentAvailability.unknown in
    let zeroed = has ExtentAvailability.zeroed in
    let add = λ (test : Bool) (bytes : ℕ). if test then saturating_add bytes len else bytes in
    let clean = not (out_of_volume || read_failed || allocated_conflict || unknown) in
    let free = has ExtentAvailability.free_in_snapshot in
    let resident = has ExtentAvailability.resident in
    let sparse = has ExtentAvailability.sparse in
    record inp {
      missing_bytes = add out_of_volume inp.missing_bytes;
      read_error_bytes = add read_failed inp.read_error_bytes;
      allocated_conflict_bytes = add allocated_conflict inp.allocated_conflict_bytes;
      zeroed_risk_bytes = add zeroed inp.zeroed_risk_bytes;
      zeroed_bytes = add (clean && zeroed) inp.zeroed_bytes;
      free_bytes = add (clean && not zeroed && free) inp.free_bytes;
      resident_bytes = add (clean && not zeroed && not free && resident) inp.resident_bytes;
      sparse_bytes =
          add (clean && not zeroed && not free && not resident && sparse) inp.sparse_bytes;
    }

unfoldable pub account_all : RecoverabilityInputs → List Segment → RecoverabilityInputs
account_all inp [] = inp
account_all inp (s ∷ segments) = account_all (account inp s) segments

-- `..Default::default()`
abbrev pub no_evidence : ℕ → RecoverabilityInputs
no_evidence size = record {
  total_len = size;
  free_bytes = 0;
  allocated_conflict_bytes = 0;
  missing_bytes = 0;
  read_error_bytes = 0;
  zeroed_bytes = 0;
  zeroed_risk_bytes = 0;
  resident_bytes = 0;
  sparse_bytes = 0;
  chain_inferred = false;
  validated = false;
  validator_available = false;
}

unfoldable pub from_candidate : Candidate → RecoverabilityInputs
unfolding covered_len
from_candidate c =
    let inp = account_all (no_evidence c.size) (classified_logical_segments c) in
    let covered = sum_lengths 0 (normalized_logical_intervals c.extents c.size) in
    record inp {
      missing_bytes =
          if ltb covered c.size
          then saturating_add inp.missing_bytes (c.size - covered)
          else inp.missing_bytes;
      chain_inferred =
          any (λ w. contains w (codes "inferred") || contains w (codes "assumed")) c.warnings;
    }

pub data Explanation : Type 0 where
  zero_length metadata_only not_confirmed no_validator inferred majority_zeroed
        readable_and_validated :
      Explanation
  available : ℕ → ℕ → Explanation
  unavailable : ℕ → Explanation
  conflict : ℕ → Explanation

pub record RecoverabilityScore : Type 0 where
  pub value : ℕ  -- u8
  pub explanations : List Explanation

abbrev pub note : Bool → Explanation → List Explanation → List Explanation
note test e rest = if test then e ∷ rest else rest

-- `min` of the caps that apply.
unfoldable pub cap_of : RecoverabilityInputs → ℕ
cap_of self =
    let cap1 : ℕ = if not self.validated then min 99 84 else 99 in
    let cap2 = if self.chain_inferred then min cap1 74 else cap1 in
    let cap3 =
      if ltb 0 self.missing_bytes || ltb 0 self.read_error_bytes then min cap2 69 else cap2 in
    let cap4 = if ltb 0 self.allocated_conflict_bytes then min cap3 49 else cap3 in
    let zeroed_risk = max self.zeroed_risk_bytes self.zeroed_bytes in
    if ltb (self.total_len / 2) zeroed_risk then min cap4 10 else cap4

unfoldable pub readable_bytes : RecoverabilityInputs → ℕ
readable_bytes self =
    min
      (saturating_add
        (saturating_add (saturating_add self.free_bytes self.resident_bytes) self.sparse_bytes)
        self.zeroed_bytes)
      self.total_len

unfoldable pub usable_bytes : RecoverabilityInputs → ℕ
usable_bytes self =
    min (saturating_add (readable_bytes self) self.allocated_conflict_bytes) self.total_len

-- The floor for content that a validator confirmed.
unfoldable pub validated_floor : RecoverabilityInputs → Bool
validated_floor self =
    self.validated && self.missing_bytes == 0 && self.allocated_conflict_bytes == 0

unfoldable pub explain : RecoverabilityInputs → List Explanation
explain self =
    Explanation.available (readable_bytes self) self.total_len
    ∷ note (not self.validated)
        (if self.validator_available then Explanation.not_confirmed else Explanation.no_validator)
        (note self.chain_inferred Explanation.inferred (
          note (ltb 0 self.missing_bytes || ltb 0 self.read_error_bytes)
            (Explanation.unavailable (saturating_add self.missing_bytes self.read_error_bytes))
            (note (ltb 0 self.allocated_conflict_bytes)
              (Explanation.conflict self.allocated_conflict_bytes)
              (note (ltb (self.total_len / 2) (max self.zeroed_risk_bytes self.zeroed_bytes))
                Explanation.majority_zeroed
                (note (validated_floor self) Explanation.readable_and_validated [])))))

-- `percent readable total` is `(readable as f64 / total as f64 * 99.0).floor() as i32`, the rounding
-- of the floating-point unit included.
module _ (percent : ℕ → ℕ → ℕ) where
  unfoldable pub score : RecoverabilityInputs → RecoverabilityScore
  score self =
      let base = percent (readable_bytes self) self.total_len in
      let floored = if validated_floor self then max base 85 else base in
      if self.total_len == 0
      then record { value = 99; explanations = Explanation.zero_length ∷ [] }
      else if usable_bytes self == 0
      then record { value = 0; explanations = Explanation.metadata_only ∷ [] }
      else record { value = min floored (min (cap_of self) 99); explanations = explain self }
