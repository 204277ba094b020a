-- ===== src/FsCommon/Allocation.antt =====
-- crates/fs-common/src/lib.rs: the allocation bitmap of a volume. A bit of a byte is a quotient by
-- a power of two; an index out of range, which panics in Rust, is none.
pub mod Bits
pub mod FreeRuns
use undelete_master.Base.{
  ℕ, zero, suc, ◌+◌, ◌-◌, ◌*◌, ◌/◌, ◌%◌, ◌^◌, min, Bool, true, false, Option, none, some, List, [],
  ◌∷◌, length, get_elem?, replicate, ltb, leb, ◌==◌, if◌then◌else◌, u64_max,
}
use mathlib.Core.Option

pub record AllocationMap : Type 0 where
  pub bits : List ℕ  -- bytes
  pub cluster_count : ℕ

pub record FreeClusterRun : Type 0 where
  pub start_cluster : ℕ
  pub run_clusters : ℕ

-- `cluster_count.div_ceil(8)` bytes of zeros, where the allocator grants them.
abbrev pub new : (ℕ → Bool) → ℕ → Option AllocationMap
new reserve cluster_count =
    let bytes = (cluster_count + 7) / 8 in
    if reserve bytes
    then some (record { bits = replicate bytes 0; cluster_count = cluster_count })
    else none

abbrev pub from_raw : List ℕ → ℕ → AllocationMap
from_raw bits cluster_count = record { bits = bits; cluster_count = cluster_count }

abbrev pub saturating_mul : ℕ → ℕ → ℕ
saturating_mul a b = if leb (a * b) u64_max then a * b else u64_max

unfoldable pub known_cluster_count : AllocationMap → ℕ
known_cluster_count m = min m.cluster_count (saturating_mul (length m.bits) 8)

unfoldable pub is_complete : AllocationMap → Bool
unfolding known_cluster_count
is_complete m = leb m.cluster_count (known_cluster_count m)

-- `byte & (1 << k) != 0` and `byte | (1 << k)`.
abbrev pub test_bit : ℕ → ℕ → Bool
test_bit byte k = byte / 2 ^ k % 2 == 1

abbrev pub set_bit : ℕ → ℕ → ℕ
set_bit byte k = if test_bit byte k then byte else byte + 2 ^ k

-- `self.bits[i] |= 1 << k`
abbrev pub update : List ℕ → ℕ → ℕ → Option (List ℕ)
update [] i k = none
update (b ∷ bits) zero k = some (set_bit b k ∷ bits)
update (b ∷ bits) (suc i) k = Option.map (◌∷◌ b) (update bits i k)

unfoldable pub set_allocated : AllocationMap → ℕ → Option AllocationMap
set_allocated m cluster =
    if ltb cluster m.cluster_count
    then Option.map (λ bits. record m { bits = bits }) (update m.bits (cluster / 8) (cluster % 8))
    else some m

unfoldable pub is_allocated : AllocationMap → ℕ → Option Bool
is_allocated m cluster =
    if leb m.cluster_count cluster
    then none
    else Option.map (λ byte. test_bit byte (cluster % 8)) (get_elem? m.bits (cluster / 8))

-- `is_allocated(c) == Some(false)`
abbrev pub is_clear : Option Bool → Bool
is_clear (some false) = true
is_clear (some true) = false
is_clear none = false

-- The two loops of `next`: `room` clusters are left up to the known ones.
unfoldable pub skip_used : AllocationMap → ℕ → ℕ → ℕ
skip_used m zero cursor = cursor
skip_used m (suc room) cursor =
    let rest = skip_used m room (cursor + 1) in
    if is_clear (is_allocated m cursor) then cursor else rest

unfoldable pub skip_free : AllocationMap → ℕ → ℕ → ℕ
skip_free m zero cursor = cursor
skip_free m (suc room) cursor =
    let rest = skip_free m room (cursor + 1) in
    if is_clear (is_allocated m cursor) then rest else cursor

-- `next`: a run and the cursor behind it.
unfoldable pub next_run : AllocationMap → ℕ → ℕ → Option FreeClusterRun × ℕ
unfolding skip_used skip_free
next_run m known cursor =
    let start = skip_used m (known - cursor) cursor in
    let stop = skip_free m (known - start) start in
    if leb known start
    then (none, start)
    else (some (record { start_cluster = start; run_clusters = stop - start }), stop)

-- The runs that the iterator yields, up to the first none.
unfoldable pub collect_runs : ℕ → AllocationMap → ℕ → ℕ → List FreeClusterRun
collect_runs zero m known cursor = []
collect_runs (suc fuel) m known cursor = elim ((next_run m known cursor).0) [
  | none ↦ []
  | some run ↦ run ∷ collect_runs fuel m known (next_run m known cursor).1
]

unfoldable pub free_cluster_runs : AllocationMap → List FreeClusterRun
unfolding known_cluster_count
free_cluster_runs m = collect_runs (suc (known_cluster_count m)) m (known_cluster_count m) 0
