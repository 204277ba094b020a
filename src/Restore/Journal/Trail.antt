-- ===== src/Restore/Journal/Trail.antt =====
-- A journal that `append` of crates/restore/src/journal.rs has written is one that `audit_journal`
-- accepts, whatever the file did in between.
use undelete_master.Base.{
  ℕ, ◌+◌, ◌<◌, ◌≡◌, ◌∙◌, refl, sym, ap, true, false, Option, none, some, List, [], ◌∷◌, ◌++◌, map,
  length, All, ltb, leb, ◌==◌, bytes_eq_refl, ok, u64_max, append-nil, length-append, arith,
}
use undelete_master.Base.Words.{IsByte}
use undelete_master.Base.Utf8.{is_utf8}
use undelete_master.Restore.Lines.{split_inclusive, ends_complete}
use undelete_master.Restore.Files.{Call}
use undelete_master.Restore.Journal.{
  JobJournal, JournalRecord, Serde, Prepared, Expected, zero_hash, max_journal_records, with_sink,
  record_hash, job_changed, checked, append, audit_record, audit_lines, audit_journal,
  audit_journal_with_record_limit,
}
use undelete_master.Restore.Journal.Lines.{
  IsLine, split_inclusive-append, strip_newline-append, is_utf8_lines, behind_line, complete-append,
}
use undelete_master.Restore.Journal.Digests.{decode_hash-hex_lower}
use undelete_master.Restore.Journal.Appended.{record_for, IsPrepared, append-ok}

-- The JSON text of the record is one line of UTF-8 that is not empty, and reading it gives the record
-- back.
pub record IsJson {Value : Type 0} (serde : Serde Value) (r : JournalRecord Value) : Type 0 where
  pub reads_back :
      (line : List ℕ) → serde.record_to_vec r ≡ some line → serde.record_from_slice line ≡ some r
  pub one_line :
      (line : List ℕ)
      → serde.record_to_vec r ≡ some line
      → IsLine line × (0 < length line) × (is_utf8 line ≡ true)

module _ {Value : Type 0} (sha256 : List ℕ → List ℕ) (serde : Serde Value) where
  -- Appends that succeed one behind the other, with their kinds.
  pub data Written : JobJournal → List (List ℕ) → JobJournal → Type 0 where
    nothing : {j : JobJournal} → Written j [] j
    then_one :
        {j j1 j2 : JobJournal} {kinds : List (List ℕ)} (kind : List ℕ) (payload : Option Value)
        → append sha256 serde kind payload j ≡ (ok tt, j1)
        → Written j1 kinds j2
        → Written j (kind ∷ kinds) j2

  -- The record that an append makes is JSON in this way.
  abbrev pub WritesJson : JobJournal → List ℕ → Option Value → Type 0
  WritesJson j kind asked =
      (value : Value) (payload hash : List ℕ)
      → asked ≡ some value
      → serde.value_to_vec value ≡ some payload
      → record_hash sha256 j.job_id_sha256 j.next_sequence j.previous_hash kind payload ≡ ok hash
      → IsJson serde (record_for sha256 serde j kind value payload hash)

  -- Every record that the appends have made is.
  abbrev pub AllJson :
      {j : JobJournal} {kinds : List (List ℕ)} {j' : JobJournal} → Written j kinds j' → Type 0
  AllJson Written.nothing = Unit {0}
  AllJson (Written.then_one {j = j} kind payload e rest) = WritesJson j kind payload × AllJson rest

  audit_record-ok :
      (expected : Expected) (kind : List ℕ) (asked : Option Value) (j : JobJournal)
      (prepared : Prepared) (p : IsPrepared sha256 serde kind asked j prepared)
      → length j.job_id_sha256 ≡ 32
      → All IsByte j.job_id_sha256
      → expected.sequence ≡ j.next_sequence
      → expected.previous ≡ j.previous_hash
      → job_changed expected.job_id_sha256 j.job_id_sha256 ≡ false
      → audit_record sha256 serde expected p.line
          (record_for sha256 serde j kind p.value p.payload prepared.record_hash)
        ≡ ok (record {
          sequence = j.next_sequence + 1;
          previous = prepared.record_hash;
          job_id_sha256 = some j.job_id_sha256;
        })
  unfolding audit_record checked
  audit_record-ok expected kind asked j prepared p size bytes same previous job =
      let number : (j.next_sequence == j.next_sequence) ≡ true = ground arith in
      let long : (length p.payload == length p.payload) ≡ true = ground arith in
      let fits : leb (j.next_sequence + 1) u64_max ≡ true = let room = p.room in ground arith in
      rw
        (
          p.text,
          bytes_eq_refl p.line,
          same,
          previous,
          number,
          bytes_eq_refl j.previous_hash,
          p.payload_text,
          p.payload_short,
          long,
          decode_hash-hex_lower j.job_id_sha256 size bytes,
          job,
          p.digest,
          bytes_eq_refl prepared.record_hash,
          fits,
        )
        refl

  -- What stands behind the file after the appends, and how it is audited.
  record Trail (j : JobJournal) (kinds : List (List ℕ)) (j' : JobJournal) : Type 0 where
    bytes : List ℕ
    records : List (JournalRecord Value)
    written : j'.sink.written ≡ j.sink.written ++ bytes
    utf8 : is_utf8 bytes ≡ true
    complete : ends_complete bytes ≡ true
    kinds_kept : map (λ r. r.kind) records ≡ kinds
    count : j'.next_sequence ≡ j.next_sequence + length kinds
    audits :
        (expected : Expected)
        → expected.sequence ≡ j.next_sequence
        → expected.previous ≡ j.previous_hash
        → job_changed expected.job_id_sha256 j.job_id_sha256 ≡ false
        → audit_lines sha256 serde max_journal_records expected (split_inclusive bytes) ≡ ok records

  line_audits :
      (kind : List ℕ) (asked : Option Value) (j : JobJournal) (prepared : Prepared)
      (p : IsPrepared sha256 serde kind asked j prepared) (bytes : List ℕ)
      (records : List (JournalRecord Value))
      → WritesJson j kind asked
      → length j.job_id_sha256 ≡ 32
      → All IsByte j.job_id_sha256
      → audit_lines sha256 serde max_journal_records
          (record {
            sequence = j.next_sequence + 1;
            previous = prepared.record_hash;
            job_id_sha256 = some j.job_id_sha256;
          })
          (split_inclusive bytes)
        ≡ ok records
      → (expected : Expected) → expected.sequence ≡ j.next_sequence
      → expected.previous ≡ j.previous_hash
      → job_changed expected.job_id_sha256 j.job_id_sha256 ≡ false
      → audit_lines sha256 serde max_journal_records expected
          (split_inclusive (p.line ++ (10 ∷ bytes)))
        ≡ ok (record_for sha256 serde j kind p.value p.payload prepared.record_hash ∷ records)
  unfolding audit_lines checked
  line_audits kind asked j prepared p bytes records writes size job_bytes rest expected same
        previous job =
      let r = record_for sha256 serde j kind p.value p.payload prepared.record_hash in
      let json = writes p.value p.payload prepared.record_hash p.given p.payload_text p.digest in
      let (feedless, some_byte, _) = json.one_line p.line p.text in
      let room : leb max_journal_records expected.sequence ≡ false = rw same p.room in
      let long = length-append p.line (10 ∷ []) in
      let short : ltb 1_052_672 (length (p.line ++ (10 ∷ []))) ≡ false = rw long p.short in
      let filled : (length p.line == 0) ≡ false = ground arith in
      rw
        (
          split_inclusive-append p.line bytes feedless,
          room,
          short,
          strip_newline-append p.line,
          filled,
          json.reads_back p.line p.text,
          audit_record-ok expected kind asked j prepared p size job_bytes same previous job,
          rest,
        )
        refl

  extended :
      (j : JobJournal) (kind : List ℕ) (asked : Option Value) (kinds : List (List ℕ))
      (j1 j' : JobJournal) (prepared : Prepared) (p : IsPrepared sha256 serde kind asked j prepared)
      → WritesJson j kind asked
      → length j.job_id_sha256 ≡ 32
      → All IsByte j.job_id_sha256
      → j1.job_id_sha256 ≡ j.job_id_sha256
      → j1.next_sequence ≡ j.next_sequence + 1
      → j1.previous_hash ≡ prepared.record_hash
      → j1.sink.written ≡ j.sink.written ++ (p.line ++ (10 ∷ []))
      → Trail j1 kinds j'
      → Trail j (kind ∷ kinds) j'
  unfolding job_changed
  extended j kind asked kinds j1 j' prepared p writes size job_bytes same_job next previous written
        t =
      let r = record_for sha256 serde j kind p.value p.payload prepared.record_hash in
      let json = writes p.value p.payload prepared.record_hash p.given p.payload_text p.digest in
      let (_, _, text) = json.one_line p.line p.text in
      let job_kept : job_changed (some j.job_id_sha256) j1.job_id_sha256 ≡ false =
        rw (same_job, bytes_eq_refl j.job_id_sha256) refl in
      let count = t.count in
      record {
        bytes = p.line ++ (10 ∷ t.bytes);
        records = r ∷ t.records;
        written =
            t.written ∙ ap (λ w. w ++ t.bytes) written ∙ behind_line j.sink.written p.line t.bytes;
        utf8 = is_utf8_lines p.line t.bytes text t.utf8;
        complete = complete-append p.line t.bytes t.complete;
        kinds_kept = ap (◌∷◌ kind) t.kinds_kept;
        count = omega arith;
        audits = line_audits kind asked j prepared p t.bytes t.records writes size job_bytes (
            t.audits
              (record {
                sequence = j.next_sequence + 1;
                previous = prepared.record_hash;
                job_id_sha256 = some j.job_id_sha256;
              })
              (sym next) (sym previous) job_kept);
      }

  trail :
      {j : JobJournal} {kinds : List (List ℕ)} {j' : JobJournal}
      → length j.job_id_sha256 ≡ 32
      → All IsByte j.job_id_sha256
      → (w : Written j kinds j') → AllJson w
      → Trail j kinds j'
  unfolding audit_lines split_inclusive is_utf8 ends_complete
  trail {j = j} size job_bytes nothing json = record {
    bytes = [];
    records = [];
    written = sym (append-nil j.sink.written);
    utf8 = refl;
    complete = refl;
    kinds_kept = refl;
    count = omega arith;
    audits = λ expected p q r. refl;
  }
  trail {j = j} {j' = j'} size job_bytes (then_one {j1 = j1} {kinds = kinds} kind payload e rest)
        (writes, json) =
      let (prepared, sink, p, same, stored) = append-ok sha256 serde kind payload j j1 e in
      let same_job : j1.job_id_sha256 ≡ j.job_id_sha256 = rw (← same) refl in
      let next : j1.next_sequence ≡ j.next_sequence + 1 = rw (← same) refl in
      let previous : j1.previous_hash ≡ prepared.record_hash = rw (← same) refl in
      let sink_same : j1.sink.written ≡ sink.written = rw (← same) refl in
      let t = trail (rw same_job size) (rw same_job job_bytes) rest json in
      extended j kind payload kinds j1 j' prepared p writes size job_bytes same_job next previous
        (sink_same ∙ stored ∙ ap (◌++◌ j.sink.written) p.bytes) t

  -- A journal that starts with an empty file and the digest of a job, and has taken any number of
  -- records, is accepted by the audit as it stands in the file. The audit finds the kinds of the
  -- records in order, and as many as the next number says. This holds where the digest of the job is
  -- of 32 bytes and the JSON of each record that was written is a line of UTF-8 that reads back as
  -- this record.
  pub audit_journal-Written :
      (job_id_sha256 : List ℕ) (calls : List Call) (kinds : List (List ℕ)) (j : JobJournal)
      → length job_id_sha256 ≡ 32
      → All IsByte job_id_sha256
      → (w : Written (with_sink (record { written = []; calls = calls }) job_id_sha256) kinds j)
      → AllJson w
      → (records : List (JournalRecord Value)) × (audit_journal sha256 serde j.sink.written
          ≡ ok records)
        × (map (λ r. r.kind) records ≡ kinds)
        × (j.next_sequence ≡ length kinds)
  unfolding audit_journal audit_journal_with_record_limit with_sink job_changed
  audit_journal-Written job_id_sha256 calls kinds j size job_bytes w json =
      let t = trail size job_bytes w json in
      let accepted =
        t.audits (record { sequence = 0; previous = zero_hash; job_id_sha256 = none }) refl refl
          refl in
      let same : j.sink.written ≡ t.bytes = t.written in
      let count = t.count in
      (t.records, rw (same, t.utf8, t.complete) accepted, t.kinds_kept, omega arith)
