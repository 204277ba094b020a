-- ===== src/Partition/Gpt/Bounds.antt =====
-- Where the partitions lie that crates/partition/src/gpt.rs finds.
use undelete_master.Base.{
  ℕ, zero, suc, ◌+◌, ◌-◌, ◌*◌, ◌/◌, ◌≤◌, ◌<◌, ◌≡◌, refl, sym, Bool, true, false, not, ◌&&◌, ◌||◌,
  Option, none, some, List, [], ◌∷◌, ◌++◌, all, ltb, leb, leb→le, ◌==◌, length, length-append,
  Result, ok, ok-injective, guard, ok_or, >>=-eq-ok, checked_add, checked_mul, All, All-append,
  Option-cases, Bool-cases, Result-cases, inl, inr, arith, ◌∙◌,
}
use undelete_master.Region.{Region, end}
use undelete_master.Region
use undelete_master.FsCommon.{ScanError, get_range, u64_at}
use undelete_master.Source.{SourceReader, read_vec_at}
use undelete_master.Partition.Table.{PartitionEntry, PartitionTable, Warning, check_overlaps}
use undelete_master.Partition.Table.Overlaps.{
  Fits, Numbered, Numbered-append, check_overlaps-AllApart, IsSoundTable,
}
use undelete_master.Partition.Gpt.Header.{GptHeader, read_validated_header}
use undelete_master.Partition.Gpt.Copies.{parse_gpt, choose, copy_table, warn_first, contradictory}
use undelete_master.Partition.Gpt.Entries.{
  Found, warn, push_region, entry_region, place_entry, check_entry, read_used_entry, read_entry,
  read_entries, finish, locate_table, as_scan_error, parse_gpt_copy,
}

record Holds (source_len : ℕ) (found : Found) : Type 0 where
  fits : All (Fits source_len) found.partitions
  numbered : Numbered 0 found.partitions
  counted : found.index ≡ length found.partitions

warn-Holds : {n : ℕ} {found : Found} (w : _) → Holds n found → Holds n (warn w found)
unfolding warn
warn-Holds w h = record { fits = h.fits; numbered = h.numbered; counted = h.counted }

add-Holds :
    (n : ℕ) (found : Found) (p : PartitionEntry)
    → Holds n found
    → p.index ≡ found.index
    → Fits n p
    → Holds n (record {
      partitions = found.partitions ++ (p ∷ []);
      warnings = found.warnings;
      index = found.index + 1;
    })
add-Holds n found p h e fits = record {
  fits = All-append (Fits n) found.partitions (p ∷ []) h.fits (fits, tt);
  numbered = Numbered-append 0 found.partitions p h.numbered (omega (arith, h.counted, e));
  counted = rw length-append (omega (arith, h.counted));
}

module _ (header : GptHeader) (sector n : ℕ) where
  push_region-Holds :
      (i : ℕ) (entry : List ℕ) (region : Region) (found found' : Found)
      → 0 < region.len
      → Holds n found
      → push_region header sector n i entry region found ≡ ok found'
      → Holds n found'
  unfolding push_region end
  push_region-Holds i entry region found found' some_len h e =
      elim (Bool-cases (leb (end region) n)) [
        | inr t ↦
            let same : found' ≡ warn (Warning.entry_exceeds_bounds i) found = ground arith in
            rw same (warn-Holds _ h)
        | inl t ↦
            let inside : region.offset + region.len ≤ n = leb→le (end region) n t in
            let (name_bytes, _, e1) =
              >>=-eq-ok (ok_or (get_range entry 56 72) ScanError.corrupt) _
                (rw (t, push_region) at e) in
            let (type_guid_raw, _, e2) =
              >>=-eq-ok (ok_or (get_range entry 0 16) ScanError.corrupt) _ e1 in
            rw (← ok-injective e2) (add-Holds n found _ h refl (some_len, inside))
      ]

  entry_region_len :
      (first_lba last : ℕ) (region : Region)
      → 0 < sector
      → entry_region header sector n first_lba last ≡ ok (some region)
      → 0 < region.len
  unfolding entry_region Region.new
  entry_region_len first_lba last region whole e = grind arith

  module _ (whole : 0 < sector) where
    place_entry-Holds :
        (i : ℕ) (entry : List ℕ) (first_lba last : ℕ) (found found' : Found)
        → Holds n found
        → place_entry header sector n i entry first_lba last found ≡ ok found'
        → Holds n found'
    unfolding place_entry
    place_entry-Holds i entry first_lba last found found' h e =
        let (placed, e0, e1) = >>=-eq-ok (entry_region header sector n first_lba last) _ e in
        elim (Option-cases placed) [
          | inl t ↦
              let same : found' ≡ warn (Warning.entry_exceeds_bounds i) found = ground arith in
              rw same (warn-Holds _ h)
          | inr (region, t) ↦
              push_region-Holds i entry region found found'
                (entry_region_len first_lba last region whole (rw (← t) e0)) h (ground arith)
        ]

    check_entry-Holds :
        (i : ℕ) (entry : List ℕ) (first_lba last : ℕ) (found found' : Found)
        → Holds n found
        → check_entry header sector n i entry first_lba last found ≡ ok found'
        → Holds n found'
    unfolding check_entry
    check_entry-Holds i entry first_lba last found found' h e =
        elim (Bool-cases (ltb last first_lba)) [
          | inl t ↦
              let same : found' ≡ warn (Warning.entry_backwards i) found = ground arith in
              rw same (warn-Holds _ h)
          | inr t ↦
              elim (Bool-cases (ltb first_lba header.first_usable || ltb header.last_usable last)) [
                | inl u ↦
                    let same : found' ≡ warn (Warning.entry_outside_usable i) found =
                      ground arith in
                    rw same (warn-Holds _ h)
                | inr u ↦ place_entry-Holds i entry first_lba last found found' h (ground arith)
              ]
        ]

    read_entry-Holds :
        (table : List ℕ) (i : ℕ) (found found' : Found)
        → Holds n found
        → read_entry header sector n table i found ≡ ok found'
        → Holds n found'
    unfolding read_entry read_used_entry
    read_entry-Holds table i found found' h e =
        let (entry, _, e1) =
          >>=-eq-ok
            (ok_or (get_range table (i * header.entry_size) header.entry_size) ScanError.corrupt) _
            e in
        let (raw, _, e2) = >>=-eq-ok (ok_or (get_range entry 0 16) ScanError.corrupt) _ e1 in
        elim (Bool-cases (all (λ b. b == 0) raw)) [
          | inl t ↦ let same : found' ≡ found = ground arith in rw same h
          | inr t ↦
              let used : read_used_entry header sector n i entry found ≡ ok found' = ground arith in
              let (first_lba, _, e3) =
                >>=-eq-ok (ok_or (u64_at entry 32) ScanError.corrupt) _ used in
              let (last, _, e4) = >>=-eq-ok (ok_or (u64_at entry 40) ScanError.corrupt) _ e3 in
              check_entry-Holds i entry first_lba last found found' h e4
        ]

    read_entries-Holds :
        (table : List ℕ) (count i : ℕ) (found found' : Found)
        → Holds n found
        → read_entries header sector n table count i found ≡ ok found'
        → Holds n found'
    unfolding read_entries
    read_entries-Holds table zero i found found' h e = rw (← ok-injective e) h
    read_entries-Holds table (suc count) i found found' h e =
        let (next, e1, e2) = >>=-eq-ok (read_entry header sector n table i found) _ e in
        read_entries-Holds table count (i + 1) next found'
          (read_entry-Holds table i found next h e1) e2

finish-IsSoundTable :
    (n : ℕ) (ps : List PartitionEntry) (found : Found) {t : PartitionTable}
    → found.partitions ≡ ps
    → Holds n found
    → finish found ≡ ok t
    → IsSoundTable n t
unfolding finish
finish-IsSoundTable n [] found e h f = absurd (ground arith)
finish-IsSoundTable n (p ∷ ps) found {t} e h f =
    let parts : t.partitions ≡ found.partitions = ground arith in
    let warned : t.warnings ≡ check_overlaps found.partitions found.warnings = ground arith in
    record {
      fits = rw parts h.fits;
      numbered = rw parts h.numbered;
      some_partition = λ q. cc;
      apart =
          λ q. rw parts (check_overlaps-AllApart found.partitions found.warnings (sym warned ∙ q));
    }

pub parse_gpt_copy-IsSoundTable :
    (hash : List ℕ → ℕ) (reader : SourceReader) (header : GptHeader) (sector n : ℕ)
    {t : PartitionTable}
    → 0 < sector
    → parse_gpt_copy hash reader header sector n ≡ ok t
    → IsSoundTable n t
unfolding parse_gpt_copy
parse_gpt_copy-IsSoundTable hash reader header sector n whole e =
    let (place, _, e1) = >>=-eq-ok (locate_table header sector n) _ e in
    let (table, _, e2) = >>=-eq-ok (as_scan_error (read_vec_at reader place.0 place.1)) _ e1 in
    let (_, _, e3) = >>=-eq-ok (guard (hash table == header.entries_crc) ScanError.corrupt) _ e2 in
    let start : Found = record { partitions = []; warnings = []; index = 0 } in
    let (found, e4, e5) =
      >>=-eq-ok (read_entries header sector n table header.num_entries 0 start) _ e3 in
    finish-IsSoundTable n found.partitions found refl
      (read_entries-Holds header sector n whole table header.num_entries 0 start found
        (record { fits = tt; numbered = tt; counted = refl }) e4)
      e5

-- A table that is sound stays so under one more warning.
warn_first-IsSoundTable :
    {n : ℕ} {t : PartitionTable} (w : Warning) → IsSoundTable n t → IsSoundTable n (warn_first w t)
unfolding warn_first
warn_first-IsSoundTable w s = record {
  fits = s.fits;
  numbered = s.numbered;
  some_partition = s.some_partition;
  apart = λ q. absurd (cc);
}

copy_table-IsSoundTable :
    (n : ℕ) (parse : GptHeader → Result ScanError PartitionTable)
    (copy : Option GptHeader × Option ScanError) (t : PartitionTable)
    → ((header : GptHeader) (u : PartitionTable) → parse header ≡ ok u → IsSoundTable n u)
    → (copy_table parse copy).0 ≡ some t
    → IsSoundTable n t
unfolding copy_table
copy_table-IsSoundTable n parse (none, failure) t sound e = absurd (cc)
copy_table-IsSoundTable n parse (some header, failure) t sound e =
    elim (Result-cases (parse header)) [
      | inl (u, r) ↦ sound header t (ground arith)
      | inr (_, r) ↦ absurd (ground arith)
    ]

choose-IsSoundTable :
    (n : ℕ) (a b : Option PartitionTable × Option ScanError) (t : PartitionTable)
    → ((u : PartitionTable) → a.0 ≡ some u → IsSoundTable n u)
    → ((u : PartitionTable) → b.0 ≡ some u → IsSoundTable n u)
    → choose a b ≡ ok t
    → IsSoundTable n t
unfolding choose
choose-IsSoundTable n (some u, _) (some _, _) t sa sb e = rw (← ok-injective e) (sa u refl)
choose-IsSoundTable n (some u, _) (none, _) t sa sb e =
    rw (← ok-injective e) (warn_first-IsSoundTable _ (sa u refl))
choose-IsSoundTable n (none, _) (some u, _) t sa sb e =
    rw (← ok-injective e) (warn_first-IsSoundTable _ (sb u refl))
choose-IsSoundTable n (none, _) (none, _) t sa sb e = absurd (cc)

sector_pos :
    (sector : ℕ) (b : Bool) {u : Unit {0}}
    → guard (not (sector == 0) && b) ScanError.corrupt ≡ ok u
    → 0 < sector
sector_pos sector b e = ground arith

pub parse_gpt-IsSoundTable :
    (hash : List ℕ → ℕ) (reader : SourceReader) {t : PartitionTable}
    → parse_gpt hash reader ≡ ok t
    → IsSoundTable reader.len t
unfolding parse_gpt
parse_gpt-IsSoundTable hash reader {t} e =
    let sector = reader.sector_layout.logical in
    let n = reader.len in
    let last_lba = n / sector - 1 in
    let parse = λ (header : GptHeader). parse_gpt_copy hash reader header sector n in
    let (_, e0, e1) =
      >>=-eq-ok (guard (not (sector == 0) && leb 2 (n / sector)) ScanError.corrupt) _ e in
    let (off, _, e2) = >>=-eq-ok (ok_or (checked_mul last_lba sector) ScanError.corrupt) _ e1 in
    let (stop, _, e3) = >>=-eq-ok (ok_or (checked_add off sector) ScanError.corrupt) _ e2 in
    let (_, _, e4) = >>=-eq-ok (guard (leb stop n) ScanError.corrupt) _ e3 in
    let primary = read_validated_header hash reader sector sector 1 last_lba true in
    let backup = read_validated_header hash reader off sector last_lba last_lba false in
    let (_, _, e5) =
      >>=-eq-ok (guard (not (contradictory primary.0 backup.0)) ScanError.corrupt) _ e4 in
    let whole : 0 < sector = sector_pos sector (leb 2 (n / sector)) e0 in
    let sound = λ (header : GptHeader) (u : PartitionTable) (r : parse header ≡ ok u).
      parse_gpt_copy-IsSoundTable hash reader header sector n whole r in
    choose-IsSoundTable n (copy_table parse primary) (copy_table parse backup) t
      (λ u q. copy_table-IsSoundTable n parse primary u sound q)
      (λ u q. copy_table-IsSoundTable n parse backup u sound q) e5
