-- ===== src/Fat/Table.antt =====
-- crates/fs-fat/src/fat.rs: the entries of the file allocation table and the walk along a chain of
-- clusters. The masks and shifts of the source are remainders and quotients by powers of two.
pub mod Chain
use undelete_master.Base.{
  ℕ, zero, suc, ◌+◌, ◌*◌, ◌/◌, ◌%◌, min, Bool, true, false, ◌||◌, Option, none, some, List, [], ◌∷◌,
  get_elem?, any, ltb, leb, ◌==◌, if◌then◌else◌,
}
use undelete_master.Base.Options.{◌>>=◌}
use undelete_master.Base.Words.{from_le_bytes}
use undelete_master.FsCommon.{get_range}
use undelete_master.Fat.Boot.{FatVariant, FatBoot}
use mathlib.Core.Option

pub record FatTable : Type 0 where
  pub variant : FatVariant
  pub raw : List ℕ  -- bytes
  pub cluster_count : ℕ

pub data FatEntry : Type 0 where
  free : FatEntry
  next : ℕ → FatEntry
  end_of_chain : FatEntry
  bad : FatEntry
  reserved : FatEntry

abbrev pub new : FatVariant → List ℕ → ℕ → FatTable
new variant raw cluster_count = record {
  variant = variant;
  raw = raw;
  cluster_count = cluster_count;
}

abbrev pub from_boot : FatBoot → List ℕ → FatTable
from_boot boot raw = new boot.variant raw boot.cluster_count

-- The value of an entry of the table `raw`, none outside of it.
unfoldable pub raw_value : FatVariant → List ℕ → ℕ → Option ℕ
raw_value FatVariant.fat12 raw c = do
  lo ← get_elem? raw (c + c / 2)
  hi ← get_elem? raw (c + c / 2 + 1)
  let v = lo + 256 * hi
  some (if c % 2 == 0 then v % 4096 else v / 16)
raw_value FatVariant.fat16 raw c = do
  lo ← get_elem? raw (c * 2)
  hi ← get_elem? raw (c * 2 + 1)
  some (lo + 256 * hi)
raw_value FatVariant.fat32 raw c = do
  b ← get_range raw (c * 4) 4
  some (from_le_bytes b % 0x1000_0000)

abbrev pub raw_entry : FatTable → ℕ → Option ℕ
raw_entry t cluster = raw_value t.variant t.raw cluster

abbrev pub bad_mark : FatVariant → ℕ
bad_mark FatVariant.fat12 = 0x0FF7
bad_mark FatVariant.fat16 = 0xFFF7
bad_mark FatVariant.fat32 = 0x0FFF_FFF7

abbrev pub eoc_min : FatVariant → ℕ
eoc_min FatVariant.fat12 = 0x0FF8
eoc_min FatVariant.fat16 = 0xFFF8
eoc_min FatVariant.fat32 = 0x0FFF_FFF8

unfoldable pub classify : FatVariant → ℕ → FatEntry
classify variant v =
    if v == 0
    then FatEntry.free
    else if v == bad_mark variant
    then FatEntry.bad
    else if leb (eoc_min variant) v
    then FatEntry.end_of_chain
    else if v == 1
    then FatEntry.reserved
    else FatEntry.next v

unfoldable pub entry : FatTable → ℕ → Option FatEntry
entry t cluster =
    if leb (t.cluster_count + 2) cluster
    then none
    else Option.map (classify t.variant) (raw_entry t cluster)

abbrev is_free_entry : FatEntry → Bool
is_free_entry FatEntry.free = true
is_free_entry _ = false

unfoldable pub is_free : FatTable → ℕ → Option Bool
is_free t cluster = Option.map is_free_entry (entry t cluster)

-- The rounds of `chain`: `visited` is its set, and the clusters pushed from here on are returned.
-- `round` is what follows the push: the rest of the walk, or its end.
abbrev pub round : Option FatEntry → (ℕ → List ℕ × Bool) → List ℕ × Bool
round (some (FatEntry.next n)) rest = rest n
round (some FatEntry.end_of_chain) rest = ([], true)
round (some FatEntry.free) rest = ([], false)
round (some FatEntry.bad) rest = ([], false)
round (some FatEntry.reserved) rest = ([], false)
round none rest = ([], false)

abbrev pub push : ℕ → List ℕ × Bool → List ℕ × Bool
push current (out, complete) = (current ∷ out, complete)

unfoldable pub follow : FatTable → ℕ → List ℕ → ℕ → List ℕ × Bool
follow t zero visited current = ([], false)
follow t (suc rounds) visited current =
    if ltb current 2 || leb (t.cluster_count + 2) current
    then ([], false)
    else if any (λ c. c == current) visited
    then ([], false)
    else push current (round (entry t current) (λ n. follow t rounds (current ∷ visited) n))

unfoldable pub chain : FatTable → ℕ → ℕ → List ℕ × Bool
chain t start max_clusters = follow t (min max_clusters t.cluster_count) [] start
