-- ===== src/Partition/Mbr/Bounds.antt =====
-- Where the partitions lie that crates/partition/src/mbr.rs finds.
use undelete_master.Base.{
  ℕ, zero, suc, ◌≡◌, refl, true, not, ◌&&◌, ◌||◌, some, List, [], ◌∷◌, any, arith, All, All-append,
  length, length-append, Option-cases, Bool-cases, Result-cases, inl, inr, leb, ◌==◌, max, ok, err,
  checked_mul, checked_add, sym, ◌∙◌,
}
use undelete_master.Region.{Region, end, is_empty}
use undelete_master.Region
use undelete_master.FsCommon.{ScanError}
use undelete_master.Source.{SourceReader, read_vec_at}
use undelete_master.Partition.Table.{PartitionEntry, PartitionTable, check_overlaps}
use undelete_master.Partition.Table.Overlaps.{
  Fits, Numbered, Numbered-append, check_overlaps-AllApart, IsSoundTable,
}
use undelete_master.Partition.Mbr.{
  RawEntry, Found, warn, is_extended, max_ebr_chain, push_region, push_partition, push_primary,
  push_logical, next_ebr, read_ebr, follow_chain, follow_chains, finish, push_primaries,
  parse_sector, parse_mbr, parse_entries, is_protective,
}

record Holds (source_len : ℕ) (found : Found) : Type 0 where
  fits : All (Fits source_len) found.partitions
  numbered : Numbered 0 found.partitions
  counted : found.index ≡ length found.partitions

warn-Holds : {n : ℕ} {found : Found} (w : _) → Holds n found → Holds n (warn w found)
unfolding warn
warn-Holds w h = record { fits = h.fits; numbered = h.numbered; counted = h.counted }

module _ (sector n : ℕ) where
  push_region-Holds :
      (lba sectors part_type : ℕ) (r : Region) {found : Found}
      → Holds n found
      → Holds n (push_region sector n lba sectors part_type r found)
  unfolding push_region end is_empty
  push_region-Holds lba sectors part_type r {found} h =
      elim (Bool-cases (leb (end r) n && not (is_empty r))) [
        | inl t ↦ rw t (record {
          fits = All-append (Fits n) found.partitions _ h.fits (ground arith);
          numbered = Numbered-append 0 found.partitions _ h.numbered (omega (arith, h.counted));
          counted = rw length-append (omega (arith, h.counted));
        })
        | inr t ↦ rw t (warn-Holds _ h)
      ]

  push_partition-Holds :
      (lba sectors part_type : ℕ) {found : Found}
      → Holds n found
      → Holds n (push_partition sector n lba sectors part_type found)
  unfolding push_partition
  push_partition-Holds lba sectors part_type h = elim (Option-cases (checked_mul lba sector)) [
    | inl t ↦ rw (t, push_partition) (warn-Holds _ h)
    | inr (offset, t) ↦ elim (Option-cases (checked_mul sectors sector)) [
      | inl u ↦ rw (t, push_partition, u) (warn-Holds _ h)
      | inr (len, u) ↦ elim (Option-cases (Region.new offset len)) [
        | inl v ↦ rw (t, push_partition, u, v) (warn-Holds _ h)
        | inr (r, v) ↦ rw (t, push_partition, u, v) (push_region-Holds lba sectors part_type r h)
      ]
    ]
  ]

  push_primary-Holds :
      (e : RawEntry) (chains : List ℕ) {found : Found}
      → Holds n found
      → Holds n (push_primary sector n e (chains, found)).1
  unfolding push_primary
  push_primary-Holds e chains h = elim (Bool-cases (e.part_type == 0 || e.sectors == 0)) [
    | inl t ↦ rw t h
    | inr t ↦ elim (Bool-cases (is_extended e.part_type)) [
      | inl u ↦ rw (t, u) h
      | inr u ↦ rw (t, u) (push_partition-Holds e.lba_start e.sectors e.part_type h)
    ]
  ]

  push_logical-Holds :
      (current : ℕ) (e : RawEntry) {found : Found}
      → Holds n found
      → Holds n (push_logical sector n current e found)
  unfolding push_logical
  push_logical-Holds current e h =
      elim (Bool-cases (not (e.part_type == 0) && not (e.sectors == 0))) [
        | inl t ↦ elim (Option-cases (checked_add current e.lba_start)) [
          | inl u ↦ rw (t, u) h
          | inr (lba, u) ↦ rw (t, u) (push_partition-Holds lba e.sectors e.part_type h)
        ]
        | inr t ↦ rw t h
      ]

  module _ (reader : SourceReader) where
    follow_chain-Holds :
        (rounds ext_base : ℕ) (visited : List ℕ) (current : ℕ) {found : Found}
        → Holds n found
        → Holds n (follow_chain sector n reader rounds ext_base visited current found)
    unfolding follow_chain
    follow_chain-Holds zero ext_base visited current h = h
    follow_chain-Holds (suc rounds) ext_base visited current h =
        elim (Bool-cases (any (λ v. v == current) visited)) [
          | inl t ↦ rw (t, follow_chain) (warn-Holds _ h)
          | inr t ↦ elim (Result-cases (read_ebr sector n reader current)) [
            | inr (w, u) ↦ rw (t, follow_chain, u) (warn-Holds w h)
            | inl ((e0, e1, e2, e3), u) ↦ elim (Option-cases (next_ebr sector n ext_base e1)) [
              | inl v ↦ rw (t, follow_chain, u, v) (push_logical-Holds current e0 h)
              | inr (next, v) ↦
                  rw (t, follow_chain, u, v)
                    (follow_chain-Holds rounds ext_base (current ∷ visited) next
                      (push_logical-Holds current e0 h))
            ]
          ]
        ]

    follow_chains-Holds :
        (chains : List ℕ) {found : Found}
        → Holds n found
        → Holds n (follow_chains sector n reader chains found)
    unfolding follow_chains
    follow_chains-Holds [] h = h
    follow_chains-Holds (ext_base ∷ chains) h =
        follow_chains-Holds chains (follow_chain-Holds max_ebr_chain ext_base [] ext_base h)

  push_primaries-Holds :
      (e0 e1 e2 e3 : RawEntry) → Holds n (push_primaries sector n (e0, e1, e2, e3)).1
  unfolding push_primaries
  push_primaries-Holds e0 e1 e2 e3 =
      let push = push_primary sector n in
      let start : Found = record { partitions = []; warnings = []; index = 0 } in
      let s0 = push e0 ([], start) in
      let s1 = push e1 s0 in
      let s2 = push e2 s1 in
      push_primary-Holds e3 s2.0 (
        push_primary-Holds e2 s1.0 (
          push_primary-Holds e1 s0.0
            (push_primary-Holds e0 [] (record { fits = tt; numbered = tt; counted = refl }))))

finish-IsSoundTable :
    (n : ℕ) (ps : List PartitionEntry) (found : Found) {t : PartitionTable}
    → found.partitions ≡ ps
    → Holds n found
    → finish found ≡ ok t
    → IsSoundTable n t
unfolding finish
finish-IsSoundTable n [] found e h f = absurd (ground arith)
finish-IsSoundTable n (p ∷ ps) found {t} e h f =
    let parts : t.partitions ≡ found.partitions = ground arith in
    let warned : t.warnings ≡ check_overlaps found.partitions found.warnings = ground arith in
    record {
      fits = rw parts h.fits;
      numbered = rw parts h.numbered;
      some_partition = λ q. cc;
      apart =
          λ q. rw parts (check_overlaps-AllApart found.partitions found.warnings (sym warned ∙ q));
    }

parse_sector-IsSoundTable :
    (reader : SourceReader) (sector : ℕ) (e0 e1 e2 e3 : RawEntry) {t : PartitionTable}
    → parse_sector reader sector (e0, e1, e2, e3) ≡ ok t
    → IsSoundTable reader.len t
unfolding parse_sector
parse_sector-IsSoundTable reader sector e0 e1 e2 e3 h =
    let n = reader.len in
    let primary = push_primaries sector n (e0, e1, e2, e3) in
    let found = follow_chains sector n reader primary.0 primary.1 in
    finish-IsSoundTable n found.partitions found refl
      (follow_chains-Holds sector n reader primary.0 (push_primaries-Holds sector n e0 e1 e2 e3)) h

-- What the parser of the master boot record returns.
pub parse_mbr-IsSoundTable :
    (reader : SourceReader) {t : PartitionTable}
    → parse_mbr reader ≡ ok t
    → IsSoundTable reader.len t
unfolding parse_mbr
parse_mbr-IsSoundTable reader {t} h =
    let sector = reader.sector_layout.logical in
    elim (Result-cases (read_vec_at reader 0 (max sector 512))) [
      | inr (e, u) ↦ absurd (ground arith)
      | inl (buf, u) ↦ elim (Option-cases (parse_entries buf)) [
        | inl v ↦ absurd (ground arith)
        | inr ((e0, e1, e2, e3), v) ↦
            let f : parse_sector reader sector (e0, e1, e2, e3) ≡ ok t = ground arith in
            parse_sector-IsSoundTable reader sector e0 e1 e2 e3 f
      ]
    ]

-- A sector with a protective entry gives no table.
pub parse_mbr_protective :
    (reader : SourceReader) (buf : List ℕ) (e0 e1 e2 e3 : RawEntry)
    → read_vec_at reader 0 (max reader.sector_layout.logical 512) ≡ ok buf
    → parse_entries buf ≡ some (e0, e1, e2, e3)
    → (is_protective e0 || is_protective e1 || is_protective e2 || is_protective e3) ≡ true
    → parse_mbr reader ≡ err ScanError.corrupt
unfolding parse_mbr
parse_mbr_protective reader buf e0 e1 e2 e3 h k p = ground arith
