-- ===== src/Extract/Delivery.antt =====
-- What `extract_candidate` of crates/core/src/extract.rs reports as missing.
use undelete_master.Base.{
  ℕ, ◌-◌, ◌<◌, ◌≡◌, refl, ◌∙◌, ap, Bool, false, not, ◌&&◌, ◌||◌, Option, none, some, List, [], ◌∷◌,
  any, ltb, leb, length, length-replicate, replicate, arith, Bool-cases, inl, inr, ok, ok-injective,
}
use undelete_master.Candidate.{ExtentRun, Candidate, clipped_start, clipped_end}
use undelete_master.Candidate.Intervals.{in_extent}
use undelete_master.Source.{SourceReader, ReadOutcome, is_complete}
use undelete_master.Extract.{
  Extraction, Buffers, mark_bad, cover_outcome, read_extent, is_sparse, walk_extent, walk_extents,
  extract_candidate,
}
use undelete_master.Extract.Ranges.{
  test_at, test_at-replicate, length-mark, test_at-mark, in_range, length-mark_bad,
  test_at-mark_bad, length-cover_good, test_at-cover_good, in_missing, in_missing-uncovered_ranges,
}

-- A best-effort read of the bytes from `lo` on delivers position `p` of the file.
abbrev pub read_delivers : ReadOutcome → ℕ → ℕ → Bool
read_delivers outcome lo p = not (any (in_range (p - lo)) outcome.bad_ranges)

abbrev pub physical_delivers : SourceReader → ℕ → ℕ → ℕ → Option ℕ → Bool
physical_delivers reader lo hi p none = false
physical_delivers reader lo hi p (some phys) =
    read_delivers (reader.read_best_effort_at phys (hi - lo)).0 lo p

-- The extent delivers a position of the file: it is sparse there, or its read did not fail there.
abbrev pub delivers : SourceReader → ℕ → ℕ → ExtentRun → Bool
delivers reader size p x =
    in_extent size p x
    && (is_sparse x.availability
        || physical_delivers reader (clipped_start x size) (clipped_end x size) p x.physical_offset)

no_ranges : (p : ℕ) (ranges : List (ℕ × ℕ)) → length ranges ≡ 0 → any (in_range p) ranges ≡ false
no_ranges p [] h = refl
no_ranges p (r ∷ ranges) h = absurd (omega arith)

cover_outcome_at :
    (lo hi : ℕ) (outcome : ReadOutcome) (covered : List Bool) (p : ℕ)
    → lo < hi
    → p < length covered
    → test_at (cover_outcome lo hi outcome covered) p
      ≡ (test_at covered p || leb lo p && ltb p hi && read_delivers outcome lo p)
unfolding cover_outcome is_complete
cover_outcome_at lo hi outcome covered p h k = elim (Bool-cases (is_complete outcome)) [
  | inl t ↦
      let none_bad : any (in_range (p - lo)) outcome.bad_ranges ≡ false =
        no_ranges (p - lo) outcome.bad_ranges (ground arith) in
      rw (t, none_bad, test_at-mark lo hi covered p k) (ground arith)
  | inr t ↦
      let blank = replicate (hi - lo) false in
      let bad = mark_bad (hi - lo) outcome.bad_ranges blank in
      let size : length bad ≡ hi - lo =
        length-mark_bad (hi - lo) outcome.bad_ranges blank ∙ length-replicate (hi - lo) false in
      rw (t, test_at-cover_good lo bad covered p k, size)
        (elim (Bool-cases (leb lo p && ltb p hi)) [
          | inl u ↦
              let there : test_at bad (p - lo) ≡ any (in_range (p - lo)) outcome.bad_ranges =
                test_at-mark_bad (hi - lo) outcome.bad_ranges blank (p - lo)
                  (rw length-replicate (ground arith)) (ground arith)
                ∙ rw test_at-replicate refl in
              rw there (ground arith)
          | inr u ↦ ground arith
        ])
]

length-cover_outcome :
    (lo hi : ℕ) (outcome : ReadOutcome) (covered : List Bool)
    → length (cover_outcome lo hi outcome covered) ≡ length covered
unfolding cover_outcome
length-cover_outcome lo hi outcome covered = elim (Bool-cases (is_complete outcome)) [
  | inl t ↦ rw t (length-mark 0 lo hi covered)
  | inr t ↦ rw t (length-cover_good lo _ covered)
]

clipped_in :
    (size p : ℕ) (x : ExtentRun)
    → p < size
    → in_extent size p x ≡ (leb (clipped_start x size) p && ltb p (clipped_end x size))
unfolding clipped_start clipped_end
clipped_in size p x h = ground arith

read_extent_covered :
    (reader : SourceReader) (lo hi p : ℕ) (phys : Option ℕ) (b : Buffers)
    → lo < hi
    → p < length b.covered
    → (test_at (read_extent reader lo hi phys b).covered p
        ≡ (test_at b.covered p || leb lo p && ltb p hi && physical_delivers reader lo hi p phys))
      × (length (read_extent reader lo hi phys b).covered ≡ length b.covered)
unfolding read_extent
read_extent_covered reader lo hi p none b h k = (ground arith, refl)
read_extent_covered reader lo hi p (some phys) b h k =
    let outcome = (reader.read_best_effort_at phys (hi - lo)).0 in
    (cover_outcome_at lo hi outcome b.covered p h k, length-cover_outcome lo hi outcome b.covered)

-- The effect of one extent on the vector of what is covered.
walk_extent_covered :
    (reader : SourceReader) (size p : ℕ) (x : ExtentRun) (b : Buffers)
    → p < length b.covered
    → p < size
    → (test_at (walk_extent reader size x b).covered p
        ≡ (test_at b.covered p || delivers reader size p x))
      × (length (walk_extent reader size x b).covered ≡ length b.covered)
unfolding walk_extent
walk_extent_covered reader size p x b h k =
    let lo = clipped_start x size in
    let hi = clipped_end x size in
    let inside = clipped_in size p x k in
    elim (Bool-cases (leb hi lo)) [
      | inl t ↦ rw (t, inside) (ground arith, refl)
      | inr t ↦ elim (Bool-cases (is_sparse x.availability)) [
        | inl u ↦
            rw (t, u, inside, test_at-mark lo hi b.covered p h)
              (ground arith, length-mark 0 lo hi b.covered)
        | inr u ↦
            let (here, same) =
              read_extent_covered reader lo hi p x.physical_offset b (ground arith) h in
            rw (t, u, inside, here) (ground arith, same)
      ]
    ]

walk_extents_covered :
    (reader : SourceReader) (size p : ℕ) (xs : List ExtentRun) (b : Buffers)
    → p < length b.covered
    → p < size
    → (test_at (walk_extents reader size xs b).covered p
        ≡ (test_at b.covered p || any (delivers reader size p) xs))
      × (length (walk_extents reader size xs b).covered ≡ length b.covered)
unfolding walk_extents
walk_extents_covered reader size p [] b h k = (ground arith, refl)
walk_extents_covered reader size p (x ∷ xs) b h k =
    let one = walk_extent_covered reader size p x b h k in
    let rest =
      walk_extents_covered reader size p xs (walk_extent reader size x b) (rw (one.1) h) k in
    (ground (arith, one.0, rest.0), rest.1 ∙ one.1)

-- A position of the file is in a range that is reported missing exactly when no extent delivers it:
-- neither a sparse extent holds it nor one whose read of the source did not fail there.
pub extract_candidate_missing :
    (reader : SourceReader) (candidate : Candidate) (x : Extraction) (p : ℕ)
    → extract_candidate reader candidate ≡ ok x
    → p < candidate.size
    → any (in_missing p) x.missing_ranges
      ≡ not (any (delivers reader candidate.size p) candidate.extents)
unfolding extract_candidate
extract_candidate_missing reader candidate x p e k =
    let size = candidate.size in
    let start : Buffers = record { bytes = replicate size 0; covered = replicate size false } in
    let b = walk_extents reader size candidate.extents start in
    let inside : p < length (replicate size false) = rw length-replicate k in
    let (covered, len) = walk_extents_covered reader size p candidate.extents start inside k in
    rw (← ok-injective e) (
      in_missing-uncovered_ranges b.covered p (rw len inside)
      ∙ ap not (covered ∙ rw test_at-replicate refl))
