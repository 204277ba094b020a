-- ===== src/Ntfs/Record/Fixups.antt =====
-- `parse_file_record` of crates/fs-ntfs/src/record.rs and the bounds of its slices.
use undelete_master.Base.{
  ℕ, zero, suc, ◌+◌, ◌-◌, ◌*◌, ◌/◌, ◌≤◌, ◌<◌, ◌≡◌, ◌≢◌, refl, ap, ◌∙◌, inl, inr, false, not, ◌&&◌,
  ◌||◌, some, List, ◌++◌, length, take, drop, ltb, ◌==◌, Result, ok, err, bytes_eq, arith,
  length-append, length-take, length-drop, Result-cases, Bool-cases, checked_sub,
}
use undelete_master.FsCommon.{get_range, u16_at, or_zero}
use undelete_master.Ntfs.Record.{
  FileRecord, RecordParseError, copy_at, fix_sector, fix_sectors, file_magic, apply_fixups,
  read_header, parse_file_record,
}

length-copy_at :
    (buf : List ℕ) (at : ℕ) (bytes : List ℕ)
    → at + length bytes ≤ length buf
    → length (copy_at buf at bytes) ≡ length buf
length-copy_at buf at bytes h = omega (
  arith,
  length-append (take at buf ++ bytes) (drop (at + length bytes) buf),
  length-append (take at buf) (bytes ++ drop (at + length bytes) buf),
  length-append bytes (drop (at + length bytes) buf),
  length-append (take at buf) bytes,
  length-take at buf,
  length-drop (at + length bytes) buf,
)

get_range-some :
    (xs : List ℕ) (i n : ℕ) → i + n ≤ length xs → get_range xs i n ≡ some (take n (drop i xs))
get_range-some xs i n h = ground arith

-- A round stays inside the record and the raw bytes.
record IsRoom (raw : List ℕ) (usa_offset sector i : ℕ) (buf : List ℕ) : Type 0 where
  whole : length buf ≡ length raw
  sector_room : 2 ≤ sector
  started : 1 ≤ i
  array_room : usa_offset + i * 2 + 2 ≤ length raw

-- No panic, and the length kept.
abbrev IsClean : ℕ → Result RecordParseError (List ℕ) → Type 0
IsClean n (ok buf) = length buf ≡ n
IsClean n (err e) = e ≢ RecordParseError.panicked

corrupt≢panicked : RecordParseError.corrupt ≢ RecordParseError.panicked
corrupt≢panicked e = cc

mismatch≢panicked : RecordParseError.fixup_mismatch ≢ RecordParseError.panicked
mismatch≢panicked e = cc

fix_sector-IsClean :
    (raw : List ℕ) (usa_offset sector : ℕ) (usn : List ℕ) (i : ℕ) (buf : List ℕ)
    → IsRoom raw usa_offset sector i buf
    → IsClean (length raw) (fix_sector raw usa_offset sector usn i buf)
unfolding fix_sector
fix_sector-IsClean raw usa_offset sector usn i buf r =
    let room : 2 ≤ i * sector = grind (arith, r.sector_room, r.started) in
    let at : checked_sub (i * sector) 2 ≡ some (i * sector - 2) = ground (arith, room) in
    let orig = get_range-some raw (usa_offset + i * 2) 2 (omega (arith, r.array_room)) in
    elim (Bool-cases (ltb (length buf) (i * sector))) [
      | inl outside ↦ rw (fix_sector, outside) corrupt≢panicked
      | inr inside ↦
          let check = get_range-some buf (i * sector - 2) 2 (ground (arith, room)) in
          let kept =
            length-copy_at buf (i * sector - 2) (take 2 (drop (usa_offset + i * 2) raw))
              (ground (arith, room, length-take 2 (drop (usa_offset + i * 2) raw))) in
          elim (Bool-cases (bytes_eq (take 2 (drop (i * sector - 2) buf)) usn)) [
            | inl same ↦
                rw (fix_sector, inside, at, check, same, orig) (omega (arith, kept, r.whole))
            | inr torn ↦ rw (fix_sector, inside, at, check, torn) mismatch≢panicked
          ]
    ]

fix_sectors-IsClean :
    (count : ℕ) (raw : List ℕ) (usa_offset sector : ℕ) (usn : List ℕ) (i : ℕ) (buf : List ℕ)
    → length buf ≡ length raw
    → 2 ≤ sector
    → 1 ≤ i
    → usa_offset + (i + count) * 2 ≤ length raw
    → IsClean (length raw) (fix_sectors count raw usa_offset sector usn i buf)
unfolding fix_sectors
fix_sectors-IsClean zero raw usa_offset sector usn i buf w s st room = w
fix_sectors-IsClean (suc count) raw usa_offset sector usn i buf w s st room =
    let here =
      fix_sector-IsClean raw usa_offset sector usn i buf
        (record { whole = w; sector_room = s; started = st; array_room = omega (arith, room) }) in
    elim (Result-cases (fix_sector raw usa_offset sector usn i buf)) [
      | inl (buf', e) ↦
          rw (fix_sectors, e)
            (fix_sectors-IsClean count raw usa_offset sector usn (i + 1) buf' (rw e at here) s
              (omega arith) (omega (arith, room)))
      | inr (x, e) ↦ rw (fix_sectors, e) (rw e at here)
    ]

not_a_record≢panicked : RecordParseError.not_a_file_record ≢ RecordParseError.panicked
not_a_record≢panicked e = cc

apply_fixups-IsClean :
    (raw : List ℕ) (sector : ℕ) → 2 ≤ sector → IsClean (length raw) (apply_fixups raw sector)
unfolding apply_fixups
apply_fixups-IsClean raw sector h =
    let offset = or_zero (u16_at raw 4) in
    let count = or_zero (u16_at raw 6) in
    let nonzero : (sector == 0) ≡ false = ground arith in
    elim (Bool-cases (not (ltb (length raw) 42) && bytes_eq (take 4 raw) file_magic)) [
      | inr other ↦ rw (apply_fixups, other) not_a_record≢panicked
      | inl magic ↦ elim (Bool-cases (count == 0 || ltb (length raw / sector + 1) count)) [
        | inl implausible ↦ rw (apply_fixups, magic, nonzero, implausible) corrupt≢panicked
        | inr plausible ↦ elim (Bool-cases (ltb (length raw) (offset + count * 2))) [
          | inl outside ↦ rw (apply_fixups, magic, nonzero, plausible, outside) corrupt≢panicked
          | inr inside ↦
              let some_count : 0 < count = ground (arith, plausible) in
              let room : offset + count * 2 ≤ length raw = ground (arith, inside) in
              let usn = get_range-some raw offset 2 (omega (arith, some_count, room)) in
              rw (apply_fixups, magic, nonzero, plausible, inside, usn)
                (fix_sectors-IsClean (count - 1) raw offset sector (take 2 (drop offset raw)) 1 raw
                  refl h (omega arith) (omega (arith, some_count, room)))
        ]
      ]
    ]

read_header-panic : (buf : List ℕ) → read_header buf ≢ err RecordParseError.panicked
unfolding read_header
read_header-panic buf e = ground arith

read_header-ok :
    (buf : List ℕ) (r : FileRecord)
    → read_header buf ≡ ok r
    → (r.record_data ≡ buf) × (r.attrs_offset < length buf) × (r.bytes_used ≤ length buf)
unfolding read_header
read_header-ok buf r e = (ground arith, ground arith, ground arith)

-- On sectors of at least two bytes the parser slices inside its buffers only, whatever the raw bytes
-- are; a record that it accepts is as long as the raw one, its attributes start inside of it, and it
-- uses no more bytes than it has.
pub parse_file_record_bounds :
    (raw : List ℕ) (sector : ℕ)
    → 2 ≤ sector
    → (parse_file_record raw sector ≢ err RecordParseError.panicked)
      × ((r : FileRecord)
          → parse_file_record raw sector ≡ ok r
          → (length r.record_data ≡ length raw)
            × (r.attrs_offset < length raw)
            × (r.bytes_used ≤ length raw))
unfolding parse_file_record
parse_file_record_bounds raw sector h = elim (Result-cases (apply_fixups raw sector)) [
  | inl (buf, e) ↦
      let whole : length buf ≡ length raw = rw e at (apply_fixups-IsClean raw sector h) in
      (
        (λ p. read_header-panic buf (rw (e, parse_file_record) at p)),
        λ r p.
            let (same, attrs, used) = read_header-ok buf r (rw (e, parse_file_record) at p) in
            (ap length same ∙ whole, omega (arith, attrs, whole), omega (arith, used, whole)),
      )
  | inr (x, e) ↦
      let clean : x ≢ RecordParseError.panicked = rw e at (apply_fixups-IsClean raw sector h) in
      ((λ p. ground (arith, e, clean)), λ r p. absurd (ground (arith, e)))
]
