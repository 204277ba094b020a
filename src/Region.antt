-- ===== src/Region.antt =====
-- crates/core/src/region.rs: byte ranges inside a source. The derived `Region { .. }` literals of
-- the other crates build the record itself; `new` is the checked constructor.
pub mod Bounds
mod Tests
use undelete_master.Base.{
  ℕ, ◌+◌, ◌-◌, ◌≤◌, ◌^◌, min, max, Bool, ◌&&◌, Option, none, some, ltb, leb, ◌==◌, if◌then◌else◌,
  checked_add, u64_max,
}
use undelete_master.Base.Options.{◌>>=◌}

pub record Region : Type 0 where
  pub offset : ℕ  -- u64
  pub len : ℕ  -- u64

unfoldable pub new : ℕ → ℕ → Option Region
new offset len = do _ ← checked_add offset len; some (record { offset = offset; len = len })

-- `self.offset + self.len`, on a `u64`: it overflows only on a record that `new` refuses.
unfoldable pub end : Region → ℕ
end r = r.offset + r.len

unfoldable pub is_empty : Region → Bool
is_empty r = r.len == 0

unfoldable pub contains : Region → Region → Bool
unfolding end
contains self other = leb self.offset other.offset && leb (end other) (end self)

unfoldable pub contains_offset : Region → ℕ → Bool
unfolding end
contains_offset self offset = leb self.offset offset && ltb offset (end self)

unfoldable pub intersect : Region → Region → Option Region
unfolding end
intersect self other =
    let start = max self.offset other.offset in
    let stop = min (end self) (end other) in
    if ltb start stop then some (record { offset = start; len = stop - start }) else none

unfoldable pub sub : Region → ℕ → ℕ → Option Region
unfolding new contains
sub self rel_offset len = do
  abs ← checked_add self.offset rel_offset
  candidate ← new abs len
  if contains self candidate then some candidate else none

-- What `new` establishes: both fields and the end fit a `u64`.
abbrev pub IsValid : Region → Type 0
IsValid r = r.offset + r.len ≤ u64_max
