-- ===== src/Partition/Discover/Tables.antt =====
-- What `discover` of crates/partition/src/lib.rs returns.
use undelete_master.Base.{
  ℕ, ◌*◌, ◌≤◌, max, ◌≡◌, ◌||◌, true, not, some, List, Result, ok, err, ok_or, guard, >>=-eq-ok,
  checked_mul, ltb, arith,
}
use undelete_master.FsCommon.{ScanError}
use undelete_master.Source.{SourceReader, SectorLayout, new_layout, read_vec_at}
use undelete_master.Partition.Table.{PartitionTable}
use undelete_master.Partition.Table.Overlaps.{IsSoundTable}
use undelete_master.Partition.Mbr.{RawEntry, parse_entries, is_protective}
use undelete_master.Partition.Mbr.Bounds.{parse_mbr-IsSoundTable, parse_mbr_protective}
use undelete_master.Partition.Gpt.Copies.{parse_gpt}
use undelete_master.Partition.Gpt.Bounds.{parse_gpt-IsSoundTable}
use undelete_master.Partition.Discover.{or_mbr, discover}

or_mbr-IsSoundTable :
    (reader : SourceReader) (first : Result ScanError PartitionTable) (t : PartitionTable)
    → ((u : PartitionTable) → first ≡ ok u → IsSoundTable reader.len u)
    → or_mbr first reader ≡ ok t
    → IsSoundTable reader.len t
unfolding or_mbr
or_mbr-IsSoundTable reader (ok u) t sound e = sound t e
or_mbr-IsSoundTable reader (err ScanError.not_recognized) t sound e =
    parse_mbr-IsSoundTable reader e
or_mbr-IsSoundTable reader (err ScanError.read) t sound e = absurd (cc)
or_mbr-IsSoundTable reader (err ScanError.corrupt) t sound e = absurd (cc)

-- Whatever bytes a source holds and whatever the checksum is: a table that is discovered has a
-- partition; each of its partitions is not empty and ends within the source, they are numbered from
-- 0 on in order, and where the table carries no warning no two of them share a position.
pub discover-IsSoundTable :
    (hash : List ℕ → ℕ) (reader : SourceReader) (t : PartitionTable)
    → discover hash reader ≡ ok t
    → IsSoundTable reader.len t
unfolding discover
discover-IsSoundTable hash reader t e =
    let given = reader.sector_layout in
    let (layout, _, e1) =
      >>=-eq-ok (ok_or (new_layout given.logical given.physical) ScanError.corrupt) _ e in
    let (least, _, e2) = >>=-eq-ok (ok_or (checked_mul layout.logical 2) ScanError.corrupt) _ e1 in
    let (_, _, e3) = >>=-eq-ok (guard (not (ltb reader.len least)) ScanError.not_recognized) _ e2 in
    or_mbr-IsSoundTable reader (parse_gpt hash reader) t
      (λ u q. parse_gpt-IsSoundTable hash reader q) e3

-- Where the sector layout is in order, the source has two sectors and no copy of a GPT is
-- recognized, a boot sector with a protective entry makes the source corrupt: the protective
-- container is never taken for a partition.
pub discover_protective :
    (hash : List ℕ → ℕ) (reader : SourceReader) (layout : SectorLayout) (buf : List ℕ)
    (e0 e1 e2 e3 : RawEntry)
    → new_layout reader.sector_layout.logical reader.sector_layout.physical ≡ some layout
    → checked_mul layout.logical 2 ≡ some (layout.logical * 2)
    → layout.logical * 2 ≤ reader.len
    → parse_gpt hash reader ≡ err ScanError.not_recognized
    → read_vec_at reader 0 (max reader.sector_layout.logical 512) ≡ ok buf
    → parse_entries buf ≡ some (e0, e1, e2, e3)
    → (is_protective e0 || is_protective e1 || is_protective e2 || is_protective e3) ≡ true
    → discover hash reader ≡ err ScanError.corrupt
unfolding discover or_mbr
discover_protective hash reader layout buf e0 e1 e2 e3 a b c g h k p =
    ground (arith, parse_mbr_protective reader buf e0 e1 e2 e3 h k p)
