-- ===== src/Score/Tests.antt =====
-- Runs of the score, and its theorems at concrete candidates.
use undelete_master.Base.{
  ℕ, ◌≤◌, ◌<◌, ◌*◌, ◌/◌, max, ◌≡◌, refl, true, false, not, ◌||◌, ◌&&◌, [], ◌∷◌, any, arith,
}
use undelete_master.Base.Counts.{count}
use undelete_master.Candidate.{ExtentAvailability, clipped_end, clipped_start}
use undelete_master.Candidate.Intervals.{in_extent}
use undelete_master.Candidate.Samples.{sample, overlapping}
use undelete_master.Score.{
  readable_bytes, RecoverabilityInputs, no_evidence, from_candidate, score, contains, is_prefix,
  account, account_all, any_active, apply_event, availability_index, classified_logical_segments,
  extent_events, insert_event, sort_events, sweep, sweep_all, take_position,
}
use undelete_master.Score.Accounting.{evidence, clean_at, from_candidate_counts}
use undelete_master.Score.Caps.{score_caps, score_adverse, score_unread_floor}

abbrev percent : ℕ → ℕ → ℕ
percent readable total = readable * 99 / total

sample_conflict : (from_candidate sample).allocated_conflict_bytes ≡ 50
unfolding from_candidate account_all classified_logical_segments sweep_all sort_events extent_events
    clipped_start clipped_end insert_event sweep take_position any_active apply_event
    availability_index account
sample_conflict = refl

contains_middle : contains (1 ∷ 2 ∷ 3 ∷ []) (2 ∷ 3 ∷ []) ≡ true
unfolding contains is_prefix
contains_middle = refl

from_candidate_counts_example :
    let inp = from_candidate sample in
    let at = evidence sample in
    let counts = count 0 100 in
    (inp.missing_bytes
      ≡ counts
          (λ p. at ExtentAvailability.out_of_volume p || not (any (in_extent 100 p) overlapping)))
    × (inp.read_error_bytes ≡ counts (at ExtentAvailability.read_failed))
    × (inp.allocated_conflict_bytes ≡ counts (at ExtentAvailability.currently_allocated))
    × (inp.zeroed_risk_bytes ≡ counts (at ExtentAvailability.zeroed))
    × (inp.zeroed_bytes ≡ counts (λ p. clean_at sample p && at ExtentAvailability.zeroed p))
    × (inp.free_bytes
        ≡ counts (λ p.
          clean_at sample p
          && not (at ExtentAvailability.zeroed p)
          && at ExtentAvailability.free_in_snapshot p))
    × (inp.resident_bytes
        ≡ counts (λ p.
          clean_at sample p
          && not (at ExtentAvailability.zeroed p)
          && not (at ExtentAvailability.free_in_snapshot p)
          && at ExtentAvailability.resident p))
    × (inp.sparse_bytes
        ≡ counts (λ p.
          clean_at sample p
          && not (at ExtentAvailability.zeroed p)
          && not (at ExtentAvailability.free_in_snapshot p)
          && not (at ExtentAvailability.resident p)
          && at ExtentAvailability.sparse p))
from_candidate_counts_example = from_candidate_counts sample (omega arith) (omega arith)

-- A validated file of which one byte was read and the other 999 were not.
abbrev unread : RecoverabilityInputs
unread = record (no_evidence 1000) { free_bytes = 1; read_error_bytes = 999; validated = true }

score_caps_run :
    let value = (score percent unread).value in
    (value ≤ 99)
    × (true ≡ false → value ≤ 84)
    × (false ≡ true → value ≤ 74)
    × (0 < 0 → value ≤ 69)
    × (0 < 999 → value ≤ 69)
    × (0 < 0 → value ≤ 49)
    × (1000 / 2 < max 0 0 → value ≤ 10)
score_caps_run = score_caps percent unread (omega arith)

score_adverse_example :
    let value = (score percent (from_candidate sample)).value in
    (evidence sample ExtentAvailability.currently_allocated 45 ≡ true → value ≤ 49)
    × (evidence sample ExtentAvailability.read_failed 45 ≡ true → value ≤ 69)
    × (evidence sample ExtentAvailability.out_of_volume 45 ≡ true → value ≤ 69)
    × (any (in_extent 100 45) overlapping ≡ false → value ≤ 69)
score_adverse_example = score_adverse percent sample 45 (omega arith) (omega arith) (omega arith)

score_unread_floor_example : (score percent unread).value ≡ 69
score_unread_floor_example =
    score_unread_floor percent unread (omega arith) refl refl refl refl (omega arith)
      (unfold readable_bytes in omega arith) (omega arith)
