-- ===== src/Extract/Overwrites.antt =====
-- The bytes that `extract_candidate` of crates/core/src/extract.rs leaves, and what a second read of
-- the same range does to them.
use undelete_master.Base.{
  ℕ, ◌+◌, ◌-◌, ◌≤◌, ◌<◌, ◌≡◌, refl, ◌∙◌, true, false, none, some, List, [], ◌∷◌, ◌++◌, append-nil,
  any, leb, take, drop, length, length-append, length-take, length-drop, length-replicate, drop_all,
  replicate, arith, u64_max, ok, ok-injective, Bool-cases, inl, inr, Option,
}
use undelete_master.Candidate.{ExtentRun, ExtentAvailability, Candidate, clipped_start, clipped_end}
use undelete_master.Source.{SourceReader, KeepsSizes}
use undelete_master.Extract.{
  Extraction, Buffers, splice, read_extent, is_sparse, walk_extent, walk_extents, extract_candidate,
}
use undelete_master.Extract.Ranges.{in_missing}
use undelete_master.Extract.Delivery.{delivers, extract_candidate_missing}

length-splice :
    (lo : ℕ) (buffer bytes : List ℕ)
    → lo + length buffer ≤ length bytes
    → length (splice lo buffer bytes) ≡ length bytes
unfolding splice
length-splice lo buffer bytes h = omega (
  arith,
  length-append (take lo bytes) (buffer ++ drop (lo + length buffer) bytes),
  length-append buffer (drop (lo + length buffer) bytes),
  length-take lo bytes,
  length-drop (lo + length buffer) bytes,
)

module _ (reader : SourceReader) (keeps : KeepsSizes reader) where
  length-read_extent :
      (lo hi : ℕ) (phys : Option ℕ) (b : Buffers)
      → lo ≤ hi
      → hi ≤ length b.bytes
      → length (read_extent reader lo hi phys b).bytes ≡ length b.bytes
  unfolding read_extent
  length-read_extent lo hi none b h k = refl
  length-read_extent lo hi (some phys) b h k =
      length-splice lo (reader.read_best_effort_at phys (hi - lo)).1 b.bytes
        (omega (arith, keeps.best_effort phys (hi - lo)))

  length-walk_extent :
      (size : ℕ) (x : ExtentRun) (b : Buffers)
      → length b.bytes ≡ size
      → length (walk_extent reader size x b).bytes ≡ size
  unfolding walk_extent clipped_end
  length-walk_extent size x b h =
      let lo = clipped_start x size in
      let hi = clipped_end x size in
      elim (Bool-cases (leb hi lo)) [
        | inl t ↦ rw t h
        | inr t ↦ elim (Bool-cases (is_sparse x.availability)) [
          | inl u ↦ rw (t, u) h
          | inr u ↦
              rw (t, u)
                (length-read_extent lo hi x.physical_offset b (ground arith) (omega (arith, h)) ∙ h)
        ]
      ]

  length-walk_extents :
      (size : ℕ) (xs : List ExtentRun) (b : Buffers)
      → length b.bytes ≡ size
      → length (walk_extents reader size xs b).bytes ≡ size
  unfolding walk_extents
  length-walk_extents size [] b h = h
  length-walk_extents size (x ∷ xs) b h =
      length-walk_extents size xs (walk_extent reader size x b) (length-walk_extent size x b h)

  -- Over a reader that fills its buffers, the extracted bytes are as many as the candidate's size.
  pub extract_candidate_size :
      (candidate : Candidate) (x : Extraction)
      → extract_candidate reader candidate ≡ ok x
      → length x.bytes ≡ candidate.size
  unfolding extract_candidate
  extract_candidate_size candidate x e = rw (← ok-injective e) (
      length-walk_extents candidate.size candidate.extents _
        (length-replicate candidate.size (let blank : ℕ = 0 in blank)))

-- An extent of the whole file at a place of the disk that was free.
abbrev pub whole_at : ℕ → ℕ → ExtentRun
whole_at size phys = record {
  logical_offset = 0;
  physical_offset = some phys;
  len = size;
  availability = ExtentAvailability.free_in_snapshot;
}

splice_whole :
    (buffer bytes : List ℕ) → length bytes ≤ length buffer → splice 0 buffer bytes ≡ buffer
unfolding splice
splice_whole buffer bytes h =
    rw (drop_all (0 + length buffer) bytes (omega arith)) (append-nil buffer)

whole_start : (size phys : ℕ) → clipped_start (whole_at size phys) size ≡ 0
unfolding clipped_start
whole_start size phys = omega arith

whole_end : (size phys : ℕ) → size ≤ u64_max → clipped_end (whole_at size phys) size ≡ size
unfolding clipped_end
whole_end size phys h = omega arith

walk_extent_whole :
    (reader : SourceReader) (size phys : ℕ) (b : Buffers)
    → 0 < size
    → size ≤ u64_max
    → length b.bytes ≤ length (reader.read_best_effort_at phys size).1
    → (walk_extent reader size (whole_at size phys) b).bytes
      ≡ (reader.read_best_effort_at phys size).1
unfolding walk_extent read_extent is_sparse
walk_extent_whole reader size phys b pos fits h =
    let some_bytes : leb size 0 ≡ false = ground arith in
    let all_bytes : size - 0 ≡ size = omega arith in
    rw (whole_start size phys, whole_end size phys fits, some_bytes, all_bytes)
      (splice_whole (reader.read_best_effort_at phys size).1 b.bytes h)

delivers_whole :
    (reader : SourceReader) (size phys p : ℕ)
    → size ≤ u64_max
    → p < size
    → (reader.read_best_effort_at phys size).0.bad_ranges ≡ []
    → delivers reader size p (whole_at size phys) ≡ true
unfolding is_sparse
delivers_whole reader size phys p fits inside clean =
    let all_bytes : size - 0 ≡ size = omega arith in
    rw (whole_start size phys, whole_end size phys fits, all_bytes, clean) (ground arith)

-- Two extents of the whole file at different places: where the read of the first is complete, the
-- bytes are what the read of the second left, and no position is reported missing, whatever that
-- second read failed to deliver. Reads fill their buffers, and the size of the file is not 0 and
-- fits 64 bits.
pub extract_candidate_overwrites :
    (reader : SourceReader) (candidate : Candidate) (good bad p : ℕ) (x : Extraction)
    → KeepsSizes reader
    → 0 < candidate.size
    → candidate.size ≤ u64_max
    → candidate.extents ≡ whole_at candidate.size good ∷ whole_at candidate.size bad ∷ []
    → (reader.read_best_effort_at good candidate.size).0.bad_ranges ≡ []
    → p < candidate.size
    → extract_candidate reader candidate ≡ ok x
    → (x.bytes ≡ (reader.read_best_effort_at bad candidate.size).1)
      × (any (in_missing p) x.missing_ranges ≡ false)
unfolding extract_candidate walk_extents
extract_candidate_overwrites reader candidate good bad p x keeps pos fits two clean inside e =
    let size = candidate.size in
    let start : Buffers = record { bytes = replicate size 0; covered = replicate size false } in
    let first = walk_extent reader size (whole_at size good) start in
    let filled = walk_extent_whole reader size good start pos fits (
      omega
        (arith, keeps.best_effort good size, length-replicate size (let blank : ℕ = 0 in blank))) in
    let again =
      walk_extent_whole reader size bad first pos fits
        (rw filled (omega (arith, keeps.best_effort good size, keeps.best_effort bad size))) in
    (
      rw (← ok-injective e) (rw (two, walk_extents) again),
      extract_candidate_missing reader candidate x p e inside
          ∙ rw (two, delivers_whole reader size good p fits inside clean) refl,
    )
