-- ===== src/Candidate/Tests.antt =====
-- Runs of the interval operations, and the theorems at a concrete candidate.
use undelete_master.Base.{ℕ, ◌<◌, ◌≡◌, refl, true, false, [], ◌∷◌, any, arith}
use undelete_master.Candidate.{
  clip, sort_unstable, merge_intervals, normalized_logical_intervals, covered_len,
  has_missing_ranges, join, clipped_end, clipped_start, insert_sorted, merge_into, sum_lengths,
}
use undelete_master.Candidate.Intervals.{
  holds, in_extent, IsSeparated, normalized_logical_intervals_lem,
}
use undelete_master.Candidate.Samples.{sample, overlapping}
use undelete_master.Candidate.Coverage.{has_missing_ranges_iff}

intervals_of_overlapping : normalized_logical_intervals overlapping 100 ≡ (0, 70) ∷ (90, 100) ∷ []
unfolding normalized_logical_intervals merge_intervals sort_unstable clip clipped_start clipped_end
    insert_sorted merge_into
intervals_of_overlapping = refl

covered_len_of_sample : covered_len sample ≡ 80
unfolding covered_len sum_lengths normalized_logical_intervals merge_intervals sort_unstable clip
    clipped_start clipped_end insert_sorted merge_into
covered_len_of_sample = refl

joined : join ((b'd' ∷ []) ∷ (b'a' ∷ []) ∷ []) ≡ b'd' ∷ b'/' ∷ b'a' ∷ []
unfolding join
joined = refl

normalized_logical_intervals_lem_run :
    ((p : ℕ)
      → any (holds p) (normalized_logical_intervals overlapping 100)
        ≡ any (in_extent 100 p) overlapping)
    × IsSeparated 100 0 (normalized_logical_intervals overlapping 100)
normalized_logical_intervals_lem_run = normalized_logical_intervals_lem overlapping 100

has_missing_ranges_iff_example :
    (has_missing_ranges sample ≡ true
      → (p : ℕ) × (p < 100) × (any (in_extent 100 p) overlapping ≡ false))
    × (has_missing_ranges sample ≡ false
        → (p : ℕ) → p < 100
        → any (in_extent 100 p) overlapping ≡ true)
has_missing_ranges_iff_example = has_missing_ranges_iff sample (omega arith)
