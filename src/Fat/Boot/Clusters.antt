-- ===== src/Fat/Boot/Clusters.antt =====
-- The byte positions of the data clusters of an accepted volume.
use undelete_master.Base.{
  ◌⊎◌, inl, inr, ℕ, ◌+◌, ◌-◌, ◌*◌, ◌≤◌, ◌<◌, ◌≡◌, ◌≢◌, ◌↔◌, none, some, List, ok, arith, ltb,
  ltb→lt, Bool-cases,
}
use undelete_master.Fat.Boot.{FatBoot, parse, cluster_offset}
use undelete_master.Fat.Boot.Layout.{parse-IsLaidOut}

cluster_offset_inv :
    (b : FatBoot) (c off : ℕ)
    → cluster_offset b c ≡ some off
    → (2 ≤ c) × (c < b.cluster_count + 2) × (off ≡ b.data_offset + (c - 2) * b.cluster_size)
unfolding cluster_offset
cluster_offset_inv b c off e = ground arith

cluster_offset-none :
    (b : FatBoot) (c : ℕ) → (cluster_offset b c ≡ none) ↔ ((c < 2) ⊎ (b.cluster_count + 2 ≤ c))
unfolding cluster_offset
cluster_offset-none b c = ground arith

-- The room of the i-th of n blocks.
block_fits : (i n size : ℕ) → i < n → i * size + size ≤ n * size
block_fits i n size h = grind arith

-- Two data clusters with different numbers share no byte.
block_apart : (i j size : ℕ) → i ≢ j → (i * size + size ≤ j * size) ⊎ (j * size + size ≤ i * size)
block_apart i j size h = elim (Bool-cases (ltb i j)) [
  | inl lt ↦ inl (block_fits i j size (ltb→lt i j lt))
  | inr ge ↦ inr (block_fits j i size (ground arith))
]

-- On an accepted boot sector, exactly the cluster numbers from 2 up to the number of clusters plus
-- one have an offset; the whole cluster at that offset lies behind the metadata and inside the
-- volume.
pub cluster_offset_inside :
    (sector0 : List ℕ) (volume_len : ℕ) (b : FatBoot) (c : ℕ)
    → parse sector0 volume_len ≡ ok b
    → ((cluster_offset b c ≡ none) ↔ ((c < 2) ⊎ (b.cluster_count + 2 ≤ c)))
      × ((off : ℕ)
          → cluster_offset b c ≡ some off
          → (b.data_offset ≤ off) × (off + b.cluster_size ≤ volume_len))
cluster_offset_inside sector0 volume_len b c e =
    let laid = parse-IsLaidOut sector0 volume_len b e in
    (
      cluster_offset-none b c,
      λ off f.
          let (lo, hi, at) = cluster_offset_inv b c off f in
          let room = block_fits (c - 2) b.cluster_count b.cluster_size (omega arith) in
          (omega (arith, at), omega (arith, at, room, laid.clusters_fit, laid.inside)),
    )

-- Two different cluster numbers that have offsets name disjoint byte ranges of the volume.
pub cluster_offset_disjoint :
    (b : FatBoot) (c d off off' : ℕ)
    → c ≢ d
    → cluster_offset b c ≡ some off
    → cluster_offset b d ≡ some off'
    → (off + b.cluster_size ≤ off') ⊎ (off' + b.cluster_size ≤ off)
cluster_offset_disjoint b c d off off' ne e f =
    let (lo, hi, at) = cluster_offset_inv b c off e in
    let (lo', hi', at') = cluster_offset_inv b d off' f in
    elim (block_apart (c - 2) (d - 2) b.cluster_size (omega (arith, ne))) [
      | inl h ↦ inl (omega (arith, h, at, at'))
      | inr h ↦ inr (omega (arith, h, at, at'))
    ]
