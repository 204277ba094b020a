-- ===== src/Region/Tests.antt =====
-- Runs of the region operations, and the theorems at concrete regions.
use undelete_master.Base.{◌<◌, ◌≡◌, refl, ◌↔◌, ℕ, some, none, true, false, ◌&&◌, arith}
use undelete_master.Region.{Region, IsValid, new, contains, contains_offset, intersect, sub}
use undelete_master.Region.Bounds.{
  In, contains_offset_iff, contains_iff, intersect-some, intersect-none, sub_iff,
}

abbrev low_region : Region
low_region = record { offset = 0; len = 100 }

abbrev middle : Region
middle = record { offset = 50; len = 100 }

abbrev overlap : Region
overlap = record { offset = 50; len = 50 }

abbrev far : Region
far = record { offset = 500; len = 1 }

new_rejects_overflow : new 0xffff_ffff_ffff_ffff 1 ≡ none
unfolding new
new_rejects_overflow = refl

intersect_basics : intersect low_region middle ≡ some overlap
unfolding intersect
intersect_basics = refl

contains_offset_at_start : contains_offset middle 50 ≡ true
contains_offset_at_start = (contains_offset_iff middle 50).1 (omega arith, omega arith)

contains_iff_run : (contains low_region overlap ≡ true) ↔ ((p : ℕ) → In p overlap → In p low_region)
contains_iff_run = contains_iff low_region overlap (omega arith)

intersect-some_run :
    ((p : ℕ) → In p overlap ↔ (In p low_region × In p middle)) × (0 < 50) × IsValid overlap
intersect-some_run =
    intersect-some low_region middle overlap (omega arith) (unfold intersect in refl)

intersect-none_run : (contains_offset low_region 500 && contains_offset far 500) ≡ false
intersect-none_run = (intersect-none low_region far).0 (unfold intersect in refl) 500

sub_iff_run : sub middle 10 20 ≡ some (record { offset = 60; len = 20 })
sub_iff_run =
    (sub_iff middle (record { offset = 60; len = 20 }) 10 20 (omega arith)).1
      (omega arith, refl, omega arith)
