-- ===== src/Candidate/Intervals.antt =====
-- The intervals of crates/core/src/candidate.rs: which positions they hold, and their order.
use undelete_master.Base.{
  ℕ, suc, ◌≤◌, ◌<◌, max, ◌≡◌, refl, inl, inr, Bool, ◌&&◌, ◌||◌, List, [], ◌∷◌, any, ltb, leb, arith,
  Bool-cases, saturating_add, ◌∙◌,
}
use undelete_master.Candidate.{
  ExtentRun, clipped_start, clipped_end, clip, insert_sorted, sort_unstable, merge_into,
  merge_intervals, normalized_logical_intervals,
}

-- The position lies in one of the intervals.
abbrev pub holds : ℕ → ℕ × ℕ → Bool
holds p (a, b) = leb a p && ltb p b

-- The position lies in the part of the extent that is inside the file.
abbrev pub in_extent : ℕ → ℕ → ExtentRun → Bool
in_extent size p x =
    leb x.logical_offset p && ltb p (saturating_add x.logical_offset x.len) && ltb p size

any-clip :
    (p size : ℕ) (extents : List ExtentRun)
    → any (holds p) (clip extents size) ≡ any (in_extent size p) extents
unfolding clip clipped_start clipped_end
any-clip p size [] = refl
any-clip p size (x ∷ xs) = ground (arith, any-clip p size xs)

any-insert_sorted :
    (p : ℕ) (x : ℕ × ℕ) (xs : List (ℕ × ℕ))
    → any (holds p) (insert_sorted x xs) ≡ (holds p x || any (holds p) xs)
unfolding insert_sorted
any-insert_sorted p x [] = refl
any-insert_sorted p x (y ∷ ys) = ground (arith, any-insert_sorted p x ys)

any-sort_unstable :
    (p : ℕ) (xs : List (ℕ × ℕ)) → any (holds p) (sort_unstable xs) ≡ any (holds p) xs
unfolding sort_unstable
any-sort_unstable p [] = refl
any-sort_unstable p (x ∷ xs) =
    ground (arith, any-insert_sorted p x (sort_unstable xs), any-sort_unstable p xs)

-- Starts from `a` on, in order; no interval is empty or passes `size`.
abbrev IsOrdered : ℕ → ℕ → List (ℕ × ℕ) → Type 0
IsOrdered size a [] = Unit {0}
IsOrdered size a ((b, c) ∷ xs) = (a ≤ b) × (b < c) × (c ≤ size) × IsOrdered size b xs

-- Intervals from `a` on, none empty, each but the first behind a gap.
abbrev pub IsSeparated : ℕ → ℕ → List (ℕ × ℕ) → Type 0
IsSeparated size a [] = Unit {0}
IsSeparated size a ((b, c) ∷ xs) = (a ≤ b) × (b < c) × (c ≤ size) × IsSeparated size (suc c) xs

abbrev pub AllInside : ℕ → List (ℕ × ℕ) → Type 0
AllInside size [] = Unit {0}
AllInside size ((b, c) ∷ xs) = (b < c) × (c ≤ size) × AllInside size xs

clip-AllInside : (size : ℕ) (extents : List ExtentRun) → AllInside size (clip extents size)
unfolding clip clipped_start clipped_end
clip-AllInside size [] = tt
clip-AllInside size (x ∷ xs) = ground (arith, clip-AllInside size xs)

insert_sorted-IsOrdered :
    (size a b c : ℕ) (xs : List (ℕ × ℕ))
    → a ≤ b
    → b < c
    → c ≤ size
    → IsOrdered size a xs
    → IsOrdered size a (insert_sorted (b, c) xs)
unfolding insert_sorted
insert_sorted-IsOrdered size a b c [] h k l o = (h, k, l, tt)
insert_sorted-IsOrdered size a b c ((d, e) ∷ xs) h k l o =
    ground (arith, insert_sorted-IsOrdered size d b c xs)

sort_unstable-IsOrdered :
    (size : ℕ) (xs : List (ℕ × ℕ)) → AllInside size xs → IsOrdered size 0 (sort_unstable xs)
unfolding sort_unstable
sort_unstable-IsOrdered size [] h = tt
sort_unstable-IsOrdered size ((b, c) ∷ xs) h =
    insert_sorted-IsOrdered size 0 b c (sort_unstable xs) (omega arith) h.0 h.1
      (sort_unstable-IsOrdered size xs h.2)

IsOrdered-weaken :
    (size a b : ℕ) (xs : List (ℕ × ℕ)) → a ≤ b → IsOrdered size b xs → IsOrdered size a xs
IsOrdered-weaken size a b [] h o = tt
IsOrdered-weaken size a b ((d, e) ∷ xs) h o = (omega arith, o.1, o.2, o.3)

merge_into-IsSeparated :
    (size a b c : ℕ) (xs : List (ℕ × ℕ))
    → a ≤ b
    → b < c
    → c ≤ size
    → IsOrdered size b xs
    → IsSeparated size a (merge_into (b, c) xs)
unfolding merge_into
merge_into-IsSeparated size a b c [] h k l o = (h, k, l, tt)
merge_into-IsSeparated size a b c ((d, e) ∷ xs) h k l o = elim (Bool-cases (leb d c)) [
  | inl t ↦ rw t (
      merge_into-IsSeparated size a b (max c e) xs h (ground arith) (ground arith)
        (IsOrdered-weaken size b d xs o.0 o.3))
  | inr t ↦ rw t (h, k, l, merge_into-IsSeparated size (suc c) d e xs (ground arith) o.1 o.2 o.3)
]

any-merge_into :
    (size p b c : ℕ) (xs : List (ℕ × ℕ))
    → b < c
    → IsOrdered size b xs
    → any (holds p) (merge_into (b, c) xs) ≡ (holds p (b, c) || any (holds p) xs)
unfolding merge_into
any-merge_into size p b c [] k o = refl
any-merge_into size p b c ((d, e) ∷ xs) k o = elim (Bool-cases (leb d c)) [
  | inl t ↦ rw t (
      any-merge_into size p b (max c e) xs (ground arith) (IsOrdered-weaken size b d xs o.0 o.3)
      ∙ ground arith)
  | inr t ↦ rw (t, any-merge_into size p d e xs o.1 o.3) refl
]

merge_intervals-IsSeparated :
    (size : ℕ) (xs : List (ℕ × ℕ)) → IsOrdered size 0 xs → IsSeparated size 0 (merge_intervals xs)
unfolding merge_intervals
merge_intervals-IsSeparated size [] o = tt
merge_intervals-IsSeparated size ((b, c) ∷ xs) o =
    merge_into-IsSeparated size 0 b c xs o.0 o.1 o.2 o.3

any-merge_intervals :
    (size p : ℕ) (xs : List (ℕ × ℕ))
    → IsOrdered size 0 xs
    → any (holds p) (merge_intervals xs) ≡ any (holds p) xs
unfolding merge_intervals
any-merge_intervals size p [] o = refl
any-merge_intervals size p ((b, c) ∷ xs) o = any-merge_into size p b c xs o.1 o.3

-- Merging sorted intervals keeps the positions that they hold, and leaves gaps between them.
pub merge_intervals-sort_unstable :
    (size : ℕ) (xs : List (ℕ × ℕ))
    → AllInside size xs
    → ((p : ℕ) → any (holds p) (merge_intervals (sort_unstable xs)) ≡ any (holds p) xs)
      × IsSeparated size 0 (merge_intervals (sort_unstable xs))
merge_intervals-sort_unstable size xs h =
    let o = sort_unstable-IsOrdered size xs h in
    (
      λ p. any-merge_intervals size p (sort_unstable xs) o ∙ any-sort_unstable p xs,
      merge_intervals-IsSeparated size (sort_unstable xs) o,
    )

-- The intervals hold exactly the positions inside the file that some extent covers. None is empty,
-- all end within the file, and each begins behind a gap after the one before it.
pub normalized_logical_intervals_lem :
    (extents : List ExtentRun) (size : ℕ)
    → ((p : ℕ)
        → any (holds p) (normalized_logical_intervals extents size)
          ≡ any (in_extent size p) extents)
      × IsSeparated size 0 (normalized_logical_intervals extents size)
unfolding normalized_logical_intervals
normalized_logical_intervals_lem extents size =
    let (same, apart) =
      merge_intervals-sort_unstable size (clip extents size) (clip-AllInside size extents) in
    (λ p. same p ∙ any-clip p size extents, apart)
