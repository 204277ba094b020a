-- ===== src/Partition/Table/Overlaps.antt =====
-- What crates/partition/src/lib.rs promises of a table: where its partitions lie, how they are
-- numbered, and that an overlap is reported.
use undelete_master.Base.{
  ℕ, suc, ◌+◌, ◌≤◌, ◌<◌, ◌≡◌, ◌≢◌, refl, false, ◌&&◌, List, [], ◌∷◌, ◌++◌, arith, All, length,
  Option-cases, inl, inr,
}
use undelete_master.Region.{intersect, contains_offset}
use undelete_master.Region.Bounds.{intersect-none}
use undelete_master.Partition.Table.{
  PartitionEntry, PartitionTable, Warning, overlaps_with, overlaps, check_overlaps,
}

-- A partition that is not empty and ends within the source.
abbrev pub Fits : ℕ → PartitionEntry → Type 0
Fits source_len p = (0 < p.region.len) × (p.region.offset + p.region.len ≤ source_len)

-- Numbered in order, from `k` on.
abbrev pub Numbered : ℕ → List PartitionEntry → Type 0
Numbered k [] = Unit {0}
Numbered k (p ∷ ps) = (p.index ≡ k) × Numbered (suc k) ps

pub Numbered-append :
    (k : ℕ) (ps : List PartitionEntry) (p : PartitionEntry)
    → Numbered k ps
    → p.index ≡ k + length ps
    → Numbered k (ps ++ (p ∷ []))
Numbered-append k [] p h e = (omega arith, tt)
Numbered-append k (q ∷ ps) p h e = (h.0, Numbered-append (suc k) ps p h.1 (omega arith))

-- No position lies in both.
abbrev pub Apart : PartitionEntry → PartitionEntry → Type 0
Apart p q = (x : ℕ) → (contains_offset p.region x && contains_offset q.region x) ≡ false

abbrev pub ApartFrom : PartitionEntry → List PartitionEntry → Type 0
ApartFrom p [] = Unit {0}
ApartFrom p (q ∷ qs) = Apart p q × ApartFrom p qs

abbrev pub AllApart : List PartitionEntry → Type 0
AllApart [] = Unit {0}
AllApart (p ∷ ps) = ApartFrom p ps × AllApart ps

append_nil_left {ℓ} : {A : Type ℓ} (xs ys : List A) → xs ++ ys ≡ [] → xs ≡ []
append_nil_left [] ys h = refl
append_nil_left (x ∷ xs) ys h = absurd (cc)

append_nil_right {ℓ} : {A : Type ℓ} (xs ys : List A) → xs ++ ys ≡ [] → ys ≡ []
append_nil_right [] ys h = h
append_nil_right (x ∷ xs) ys h = absurd (cc)

overlaps_with-ApartFrom :
    (p : PartitionEntry) (qs : List PartitionEntry) → overlaps_with p qs ≡ [] → ApartFrom p qs
unfolding overlaps_with
overlaps_with-ApartFrom p [] h = tt
overlaps_with-ApartFrom p (q ∷ qs) h = elim (Option-cases (intersect p.region q.region)) [
  | inl t ↦ ((intersect-none p.region q.region).0 t, overlaps_with-ApartFrom p qs (ground arith))
  | inr (common, t) ↦ absurd (ground arith)
]

overlaps-AllApart : (ps : List PartitionEntry) → overlaps ps ≡ [] → AllApart ps
unfolding overlaps
overlaps-AllApart [] h = tt
overlaps-AllApart (p ∷ ps) h = (
  overlaps_with-ApartFrom p ps (append_nil_left (overlaps_with p ps) (overlaps ps) h),
  overlaps-AllApart ps (append_nil_right (overlaps_with p ps) (overlaps ps) h),
)

-- A table without a warning holds partitions no two of which share a position.
pub check_overlaps-AllApart :
    (ps : List PartitionEntry) (ws : List Warning) → check_overlaps ps ws ≡ [] → AllApart ps
unfolding check_overlaps
check_overlaps-AllApart ps ws h = overlaps-AllApart ps (append_nil_right ws (overlaps ps) h)

-- The promise of a table: every partition is not empty and ends within the source, they are numbered
-- in order, there is one, and without a warning no two share a position.
pub record IsSoundTable (source_len : ℕ) (t : PartitionTable) : Type 0 where
  pub fits : All (Fits source_len) t.partitions
  pub numbered : Numbered 0 t.partitions
  pub some_partition : t.partitions ≢ []
  pub apart : t.warnings ≡ [] → AllApart t.partitions
