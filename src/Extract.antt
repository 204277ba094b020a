-- ===== src/Extract.antt =====
-- crates/core/src/extract.rs: the bytes of a candidate, read extent by extent. A `vec![false; n]` is a
-- list of tests; the buffer of a best-effort read is what the reader leaves in it.
pub mod Ranges
pub mod Delivery
pub mod Overwrites
mod Tests
use undelete_master.Base.{
  ℕ, zero, suc, ◌+◌, ◌-◌, min, Bool, true, false, not, ◌&&◌, ◌||◌, Option, none, some, List, [],
  ◌∷◌, ◌++◌, ltb, leb, if◌then◌else◌, take, drop, length, replicate, Result, ok, saturating_add,
}
use undelete_master.Candidate.{ExtentAvailability, ExtentRun, Candidate, clipped_start, clipped_end}
use undelete_master.Source.{SourceReader, ReadError, ReadOutcome, is_complete}

pub record Extraction : Type 0 where
  pub bytes : List ℕ
  pub missing_ranges : List (ℕ × ℕ)

-- `v[i] = value`
unfoldable pub set {ℓ} : {A : Type ℓ} → List A → ℕ → A → List A
set [] i value = []
set (x ∷ xs) zero value = value ∷ xs
set (x ∷ xs) (suc i) value = x ∷ set xs i value

-- `v[lo..hi].iter_mut().for_each(|c| *c = true)`; the first argument is the index of the head.
unfoldable pub mark : ℕ → ℕ → ℕ → List Bool → List Bool
mark i lo hi [] = []
mark i lo hi (c ∷ cs) = (if leb lo i && ltb i hi then true else c) ∷ mark (suc i) lo hi cs

-- The ranges that a read could not deliver, within `read_len`.
unfoldable pub mark_bad : ℕ → List (ℕ × ℕ) → List Bool → List Bool
mark_bad read_len [] bad = bad
mark_bad read_len ((roff, rlen) ∷ ranges) bad =
    mark_bad read_len ranges
      (mark 0 (min roff read_len) (min (saturating_add roff rlen) read_len) bad)

-- The positions that it did deliver count as covered.
unfoldable pub cover_good : ℕ → List Bool → List Bool → List Bool
cover_good i [] covered = covered
cover_good i (is_bad ∷ bad) covered =
    cover_good (suc i) bad (if is_bad then covered else set covered i true)

-- `&mut bytes[lo..hi]` filled with a buffer of that size.
unfoldable pub splice : ℕ → List ℕ → List ℕ → List ℕ
splice lo buffer bytes = take lo bytes ++ (buffer ++ drop (lo + length buffer) bytes)

-- The buffers of the extraction.
pub record Buffers : Type 0 where
  pub bytes : List ℕ
  pub covered : List Bool

unfoldable pub cover_outcome : ℕ → ℕ → ReadOutcome → List Bool → List Bool
cover_outcome lo hi outcome covered =
    let read_len = hi - lo in
    if is_complete outcome
    then mark 0 lo hi covered
    else cover_good lo (mark_bad read_len outcome.bad_ranges (replicate read_len false)) covered

-- The branch of an extent that is not sparse.
unfoldable pub read_extent : SourceReader → ℕ → ℕ → Option ℕ → Buffers → Buffers
read_extent reader lo hi none b = b
read_extent reader lo hi (some phys) b =
    let (outcome, buffer) = reader.read_best_effort_at phys (hi - lo) in
    record { bytes = splice lo buffer b.bytes; covered = cover_outcome lo hi outcome b.covered }

unfoldable pub is_sparse : ExtentAvailability → Bool
is_sparse ExtentAvailability.sparse = true
is_sparse _ = false

unfoldable pub walk_extent : SourceReader → ℕ → ExtentRun → Buffers → Buffers
walk_extent reader size extent b =
    let lo = clipped_start extent size in
    let hi = clipped_end extent size in
    if leb hi lo
    then b
    else if is_sparse extent.availability
    then record b { covered = mark 0 lo hi b.covered }
    else read_extent reader lo hi extent.physical_offset b

unfoldable pub walk_extents : SourceReader → ℕ → List ExtentRun → Buffers → Buffers
walk_extents reader size [] b = b
walk_extents reader size (extent ∷ extents) b =
    walk_extents reader size extents (walk_extent reader size extent b)

-- The two loops that collect the uncovered ranges; the first argument is where the range that is
-- being followed began.
unfoldable pub uncovered_ranges : Option ℕ → ℕ → List Bool → List (ℕ × ℕ)
uncovered_ranges none i [] = []
uncovered_ranges none i (true ∷ covered) = uncovered_ranges none (suc i) covered
uncovered_ranges none i (false ∷ covered) = uncovered_ranges (some i) (suc i) covered
uncovered_ranges (some start) i [] = (start, i - start) ∷ []
uncovered_ranges (some start) i (true ∷ covered) =
    (start, i - start) ∷ uncovered_ranges none (suc i) covered
uncovered_ranges (some start) i (false ∷ covered) = uncovered_ranges (some start) (suc i) covered

-- The size of a candidate fits a `usize`.
unfoldable pub extract_candidate : SourceReader → Candidate → Result ReadError Extraction
extract_candidate reader candidate =
    let size = candidate.size in
    let start : Buffers = record { bytes = replicate size 0; covered = replicate size false } in
    let b = walk_extents reader size candidate.extents start in
    ok (record { bytes = b.bytes; missing_ranges = uncovered_ranges none 0 b.covered })
