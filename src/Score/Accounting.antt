-- ===== src/Score/Accounting.antt =====
-- `RecoverabilityInputs::from_candidate` of crates/core/src/score.rs: what its numbers measure.
use undelete_master.Base.{
  ℕ, zero, suc, get_elem?, some, ◌+◌, ◌-◌, ◌≤◌, min, ◌≡◌, refl, Bool, true, false, not, ◌&&◌, ◌||◌,
  List, [], ◌∷◌, any, length, ltb, ◌==◌, if◌then◌else◌, arith, Bool-cases, inl, inr, ◌∙◌, ap,
  saturating_add, u64_max,
}
use mathlib.Core.Path.{fun_ext}
use undelete_master.Base.Words.{IsU64}
use undelete_master.Base.Counts.{count, count_eq, count_le, count_sum, count-not, bit}
use undelete_master.Candidate.ExtentAvailability.{
  out_of_volume, read_failed, currently_allocated, unknown, zeroed, free_in_snapshot, resident,
  sparse,
}
use undelete_master.Candidate.{ExtentAvailability, ExtentRun, Candidate, covered_len}
use undelete_master.Candidate.Intervals.{in_extent}
use undelete_master.Candidate.Coverage.{covered_len-eq-count}
use undelete_master.Score.{
  RecoverabilityInputs, Segment, availability_index, any_active, classified_logical_segments,
  account, account_all, no_evidence, from_candidate, sort_events, extent_events,
}
use undelete_master.Score.Levels.{
  opens, opens-any, sort_events-SortedFrom, sorted-Inside, sorted-NoEarlyEnd, sorted-Closes,
  level_sorted,
}
use undelete_master.Score.Sweep.{weigh, passes, weigh-sweep_all}

-- A number that the loop adds to adds up the weight of its test.
account_all_field :
    (get : RecoverabilityInputs → ℕ) (test : (ℕ → Bool) → Bool)
    → ((inp : RecoverabilityInputs) (s : Segment)
        → get (account inp s)
          ≡ (if test s.active then saturating_add (get inp) (s.last - s.first) else get inp))
    → (segments : List Segment) (inp : RecoverabilityInputs) → get inp ≤ u64_max
    → get (account_all inp segments) ≡ min (get inp + weigh test segments) u64_max
unfolding account_all weigh
account_all_field get test step [] inp h = omega arith
account_all_field get test step (s ∷ segments) inp h =
    ground (arith, step inp s, account_all_field get test step segments (account inp s))

pub account_all-total_len :
    (inp : RecoverabilityInputs) (segments : List Segment)
    → (account_all inp segments).total_len ≡ inp.total_len
unfolding account_all account
account_all-total_len inp [] = refl
account_all-total_len inp (s ∷ segments) = account_all-total_len (account inp s) segments

-- The evidence of a class about a position of the file.
pub evidence : Candidate → ExtentAvailability → ℕ → Bool
evidence c availability p =
    any
      (λ x.
        in_extent c.size p x
        && availability_index availability == availability_index x.availability)
      c.extents

-- The classes that are open at a position.
abbrev flags : Candidate → ℕ → ℕ → Bool
flags c p class =
    any (λ x. in_extent c.size p x && class == availability_index x.availability) c.extents

module _ (c : Candidate) (few : length c.extents ≤ u64_max) where
  weigh_segments :
      (test : (ℕ → Bool) → Bool)
      → ((active : ℕ → ℕ) → passes test active ≡ test (λ class. ltb 0 (active class)))
      → weigh test (classified_logical_segments c) ≡ count 0 c.size (λ p. test (flags c p))
  unfolding classified_logical_segments
  weigh_segments test some_class =
      let events = sort_events (extent_events c.extents c.size) in
      weigh-sweep_all test c.size events (sort_events-SortedFrom (extent_events c.extents c.size))
        (sorted-Inside c.size c.extents few) (sorted-NoEarlyEnd c.size c.extents few)
        (sorted-Closes c.size c.extents few)
      ∙ count_eq 0 c.size _ _ (λ p l k.
        ap (passes test) (fun_ext (λ class. level_sorted c.size c.extents few class p))
        ∙ some_class (λ class. opens c.size class p c.extents)
        ∙ ap test (fun_ext (λ class. opens-any c.size p class c.extents)))

-- Tests of the classes, as the loop makes them.
abbrev clean : (ℕ → Bool) → Bool
clean f = not (f 7 || f 6 || f 5 || f 4)

any_at {ℓ} :
    {A : Type ℓ} (f : A → Bool) (xs : List A) (i : ℕ) (v : A)
    → get_elem? xs i ≡ some v
    → f v ≡ true
    → any f xs ≡ true
any_at f [] i v e h = cc
any_at f (x ∷ xs) zero v e h = ground arith
any_at f (x ∷ xs) (suc i) v e h = ground (arith, any_at f xs i v e h)

abbrev classes : List ℕ
classes = 0 ∷ 1 ∷ 2 ∷ 3 ∷ 4 ∷ 5 ∷ 6 ∷ 7 ∷ []

-- A test that wants a class to be open holds only where something is open.
passes_class :
    (test : (ℕ → Bool) → Bool) (class : ℕ)
    → get_elem? classes class ≡ some class
    → ((f : ℕ → Bool) → f class ≡ false → test f ≡ false)
    → (active : ℕ → ℕ) → passes test active ≡ test (λ k. ltb 0 (active k))
unfolding any_active
passes_class test class h needs active = elim (Bool-cases (ltb 0 (active class))) [
  | inl t ↦ rw (any_at (λ k. ltb 0 (active k)) classes class class h t) refl
  | inr t ↦ rw (needs (λ k. ltb 0 (active k)) t) (ground arith)
]

module _ (c : Candidate) (few : length c.extents ≤ u64_max) where
  -- A number of the loop counts the positions that its test picks.
  field_count :
      (get : RecoverabilityInputs → ℕ) (test : (ℕ → Bool) → Bool) (class : ℕ)
      → get_elem? classes class ≡ some class
      → ((f : ℕ → Bool) → f class ≡ false → test f ≡ false)
      → ((inp : RecoverabilityInputs) (s : Segment)
          → get (account inp s)
            ≡ (if test s.active then saturating_add (get inp) (s.last - s.first) else get inp))
      → get (no_evidence c.size) ≡ 0
      → IsU64 c.size
      → get (account_all (no_evidence c.size) (classified_logical_segments c))
        ≡ count 0 c.size (λ p. test (flags c p))
  field_count get test class h needs step start typed = omega (
    arith,
    account_all_field get test step (classified_logical_segments c) (no_evidence c.size)
        (omega arith),
    weigh_segments c few test (passes_class test class h needs),
    count_le 0 c.size (λ p. test (flags c p)),
  )

outside_covered :
    (size p : ℕ) (class : ℕ) (es : List ExtentRun)
    → any (λ x. in_extent size p x && class == availability_index x.availability) es ≡ true
    → any (in_extent size p) es ≡ true
outside_covered size p class [] h = cc
outside_covered size p class (e ∷ es) h = ground (arith, outside_covered size p class es)

outside_or_uncovered :
    (size p : ℕ) (class : ℕ) (es : List ExtentRun)
    → let outside =
        any (λ x. in_extent size p x && class == availability_index x.availability) es in
      let uncovered = not (any (in_extent size p) es) in
      bit (outside || uncovered) ≡ bit outside + bit uncovered
outside_or_uncovered size p class es =
    let outside = any (λ x. in_extent size p x && class == availability_index x.availability) es in
    elim (Bool-cases outside) [
      | inl t ↦ rw (t, outside_covered size p class es t) refl
      | inr t ↦ rw t (ground arith)
    ]

-- The evidence that leaves a position readable.
pub clean_at : Candidate → ℕ → Bool
clean_at c p = not (
    evidence c out_of_volume p
    || evidence c read_failed p
    || evidence c currently_allocated p
    || evidence c unknown p)

module _ (c : Candidate) (few : length c.extents ≤ u64_max) (typed : IsU64 c.size) where
  -- Adverse evidence, each class on its own account.
  adverse :
      let inp = from_candidate c in
      (inp.read_error_bytes ≡ count 0 c.size (evidence c read_failed))
      × (inp.allocated_conflict_bytes ≡ count 0 c.size (evidence c currently_allocated))
      × (inp.zeroed_risk_bytes ≡ count 0 c.size (evidence c zeroed))
  unfolding from_candidate account evidence availability_index
  adverse = (
    field_count c few (λ inp. inp.read_error_bytes) (λ f. f 6) 6 refl (λ f e. e) (λ inp s. refl)
        refl typed,
    field_count c few (λ inp. inp.allocated_conflict_bytes) (λ f. f 5) 5 refl (λ f e. e)
        (λ inp s. refl) refl typed,
    field_count c few (λ inp. inp.zeroed_risk_bytes) (λ f. f 3) 3 refl (λ f e. e) (λ inp s. refl)
        refl typed,
  )

  -- Readable bytes: each position counts once, by the first of its classes.
  readable :
      let inp = from_candidate c in
      (inp.zeroed_bytes ≡ count 0 c.size (λ p. clean_at c p && evidence c zeroed p))
      × (inp.free_bytes
          ≡ count 0 c.size
              (λ p. clean_at c p && not (evidence c zeroed p) && evidence c free_in_snapshot p))
      × (inp.resident_bytes
          ≡ count 0 c.size (λ p.
            clean_at c p
            && not (evidence c zeroed p)
            && not (evidence c free_in_snapshot p)
            && evidence c resident p))
      × (inp.sparse_bytes
          ≡ count 0 c.size (λ p.
            clean_at c p
            && not (evidence c zeroed p)
            && not (evidence c free_in_snapshot p)
            && not (evidence c resident p)
            && evidence c sparse p))
  unfolding from_candidate account evidence availability_index clean_at
  readable = (
    field_count c few (λ inp. inp.zeroed_bytes) (λ f. clean f && f 3) 3 refl (λ f e. ground arith)
        (λ inp s. refl) refl typed,
    field_count c few (λ inp. inp.free_bytes) (λ f. clean f && not (f 3) && f 2) 2 refl
        (λ f e. ground arith) (λ inp s. refl) refl typed,
    field_count c few (λ inp. inp.resident_bytes) (λ f. clean f && not (f 3) && not (f 2) && f 1) 1
        refl (λ f e. ground arith) (λ inp s. refl) refl typed,
    field_count c few (λ inp. inp.sparse_bytes)
        (λ f. clean f && not (f 3) && not (f 2) && not (f 1) && f 0) 0 refl (λ f e. ground arith)
        (λ inp s. refl) refl typed,
  )

  -- The numbers that the loop leaves for the bytes outside the volume, and what no extent covers.
  missing :
      (from_candidate c).missing_bytes
      ≡ count 0 c.size (λ p. evidence c out_of_volume p || not (any (in_extent c.size p) c.extents))
  unfolding from_candidate account evidence availability_index covered_len
  missing =
      let outside = λ (p : ℕ). evidence c out_of_volume p in
      let covered = λ (p : ℕ). any (in_extent c.size p) c.extents in
      let uncovered = λ (p : ℕ). not (any (in_extent c.size p) c.extents) in
      let apart =
        count_sum 0 c.size outside uncovered (λ p. outside p || uncovered p)
          (λ p. outside_or_uncovered c.size p 7 c.extents) in
      let counted =
        field_count c few (λ inp. inp.missing_bytes) (λ f. f 7) 7 refl (λ f e. e) (λ inp s. refl)
          refl typed in
      ground (
        arith,
        apart,
        counted,
        covered_len-eq-count c typed,
        count-not 0 c.size covered,
        count_le 0 c.size (λ p. outside p || uncovered p),
      )

-- For a candidate whose size and number of extents fit 64 bits, the numbers of `from_candidate`
-- count positions of the file, however its extents overlap. The adverse numbers count each position
-- that some extent of the class holds (for the missing bytes: of the class outside the volume, or
-- no extent at all). The readable numbers count the positions without conflicting, unreadable,
-- outside or unknown evidence, each under the first of zeroed, free, resident and sparse that it has.
pub from_candidate_counts :
    (c : Candidate)
    → length c.extents ≤ u64_max
    → IsU64 c.size
    → let inp = from_candidate c in
      let at = evidence c in
      let counts = count 0 c.size in
      (inp.missing_bytes
        ≡ counts (λ p. at out_of_volume p || not (any (in_extent c.size p) c.extents)))
      × (inp.read_error_bytes ≡ counts (at read_failed))
      × (inp.allocated_conflict_bytes ≡ counts (at currently_allocated))
      × (inp.zeroed_risk_bytes ≡ counts (at zeroed))
      × (inp.zeroed_bytes ≡ counts (λ p. clean_at c p && at zeroed p))
      × (inp.free_bytes ≡ counts (λ p. clean_at c p && not (at zeroed p) && at free_in_snapshot p))
      × (inp.resident_bytes
          ≡ counts (λ p.
            clean_at c p && not (at zeroed p) && not (at free_in_snapshot p) && at resident p))
      × (inp.sparse_bytes
          ≡ counts (λ p.
            clean_at c p
            && not (at zeroed p)
            && not (at free_in_snapshot p)
            && not (at resident p)
            && at sparse p))
from_candidate_counts c few typed =
    let (error, conflict, risk) = adverse c few typed in
    let (blank, free, held, hole) = readable c few typed in
    (missing c few typed, error, conflict, risk, blank, free, held, hole)
