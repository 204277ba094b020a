-- ===== src/Region/Bounds.antt =====
-- Regions never wrap, and the operations on them are set operations on byte positions.
use undelete_master.Base.{
  ℕ, ◌+◌, ◌-◌, ◌≤◌, ◌<◌, ◌≡◌, ◌↔◌, true, false, ◌&&◌, none, some, arith, u64_max,
}
use undelete_master.Region.{Region, IsValid, new, contains, contains_offset, intersect, sub}

-- A byte position lies in a region.
abbrev pub In : ℕ → Region → Type 0
In p r = (r.offset ≤ p) × (p < r.offset + r.len)

-- `new` succeeds exactly on the ranges whose end fits a `u64`, and keeps both numbers.
pub new_iff :
    (offset len : ℕ) (r : Region)
    → (new offset len ≡ some r) ↔ ((r.offset ≡ offset) × (r.len ≡ len) × (offset + len ≤ u64_max))
unfolding new
new_iff offset len r = ground arith

-- `contains_offset` decides membership of a byte position.
pub contains_offset_iff : (r : Region) (p : ℕ) → (contains_offset r p ≡ true) ↔ In p r
unfolding contains_offset
contains_offset_iff r p = ground arith

-- For a region that is not empty, `contains` is inclusion of the byte positions.
pub contains_iff : (r s : Region) → 0 < s.len → (contains r s ≡ true) ↔ ((p : ℕ) → In p s → In p r)
unfolding contains
contains_iff r s h =
    ((λ e p m. ground arith), λ all. ground (arith, all s.offset, all (s.offset + s.len - 1)))

-- Where `intersect` returns a region, for a first region that does not wrap, this holds the byte
-- positions that lie in both regions; it is not empty and does not wrap.
pub intersect-some :
    (r s t : Region)
    → IsValid r
    → intersect r s ≡ some t
    → ((p : ℕ) → In p t ↔ (In p r × In p s)) × (0 < t.len) × IsValid t
unfolding intersect
intersect-some r s t v e = ((λ p. ground arith), ground arith, ground arith)

-- `intersect` returns none exactly where no byte position is in both regions.
pub intersect-none :
    (r s : Region)
    → (intersect r s ≡ none) ↔ ((p : ℕ) → (contains_offset r p && contains_offset s p) ≡ false)
unfolding intersect contains_offset
intersect-none r s = ((λ e p. ground arith), λ all. ground (arith, all r.offset, all s.offset))

-- For a region that does not wrap, `sub` returns the asked range, at its absolute offset, exactly
-- when it lies inside the region.
pub sub_iff :
    (r t : Region) (rel len : ℕ)
    → IsValid r
    → (sub r rel len ≡ some t) ↔ ((t.offset ≡ r.offset + rel) × (t.len ≡ len) × (rel + len ≤ r.len))
unfolding sub
sub_iff r t rel len v = ground arith
