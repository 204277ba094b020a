-- ===== src/Restore/Journal.antt =====
-- crates/restore/src/journal.rs: the journal of a restore job, a file of lines that a chain of
-- digests links, and its audit.
pub mod Lines
pub mod Digests
pub mod Appended
pub mod Trail
pub mod Failure
mod Tests
use undelete_master.Base.{
  ℕ, ◌+◌, ◌*◌, ◌^◌, Bool, true, false, not, ◌&&◌, Option, none, some, List, [], ◌∷◌, ◌++◌, length,
  replicate, ltb, leb, ◌==◌, bytes_eq, Result, ok, err, guard, ok_or, ◌>>=◌, ◌>>◌, checked_add,
}
use undelete_master.Base.Texts.{codes}
use undelete_master.Base.Words.{to_le_bytes}
use undelete_master.Restore.Errors.{RestoreError, JournalOperation}
use undelete_master.Restore.Texts.{hex_lower}
use undelete_master.Base.Utf8.{is_utf8, is_utf8-append}
use undelete_master.Restore.Lines.{split_inclusive, strip_newline, ends_complete}
use undelete_master.Restore.Files.{Sink, write_all, settle}
use undelete_master.Restore.Hashes.{JournalFailure, decode_hash}

abbrev pub journal_version : ℕ
journal_version = 1

abbrev pub max_journal_payload_bytes : ℕ
max_journal_payload_bytes = 1_024 * 1_024

abbrev pub max_journal_record_bytes : ℕ
max_journal_record_bytes = max_journal_payload_bytes + 4_096

abbrev pub max_journal_records : ℕ
max_journal_records = 1_000_000

abbrev pub zero_hash : List ℕ
zero_hash = replicate 64 b'0'

abbrev pub hash_domain : List ℕ
hash_domain = codes "undelete-master-journal-record-v1" ++ (0 ∷ [])

pub record JobJournal : Type 0 where
  pub sink : Sink
  pub job_id_sha256 : List ℕ
  pub next_sequence : ℕ
  pub previous_hash : List ℕ
  pub poisoned : Bool

unfoldable pub with_sink : Sink → List ℕ → JobJournal
with_sink sink job_id_sha256 = record {
  sink = sink;
  job_id_sha256 = job_id_sha256;
  next_sequence = 0;
  previous_hash = zero_hash;
  poisoned = false;
}

-- `?` on an error of the journal.
unfoldable pub checked {ℓ} : {A : Type ℓ} → Option A → RestoreError → Result JournalFailure A
checked a e = ok_or a (JournalFailure.refused e)

pub record JournalRecord (Value : Type 0) : Type 0 where
  pub version : ℕ
  pub job_id_sha256 : List ℕ
  pub sequence : ℕ
  pub previous_hash : List ℕ
  pub kind : List ℕ
  pub payload_length : ℕ
  pub payload : Value
  pub record_hash : List ℕ

-- The library's JSON: the text of a value and of a record, and the record of a text.
pub record Serde (Value : Type 0) : Type 0 where
  pub value_to_vec : Value → Option (List ℕ)
  pub record_to_vec : JournalRecord Value → Option (List ℕ)
  pub record_from_slice : List ℕ → Option (JournalRecord Value)

-- What an append is about to write, and the digest that the next record will name.
pub record Prepared : Type 0 where
  pub bytes : List ℕ
  pub record_hash : List ℕ

-- Where a file stands after a record: an error with the place of it, or the new file.
unfoldable pub journal_step : JournalOperation → Option ℕ × Sink → Result (RestoreError × Sink) Sink
journal_step operation (none, sink) = ok sink
journal_step operation (some kind, sink) = err (RestoreError.journal_io operation kind, sink)

unfoldable pub store : List ℕ → Sink → Result (RestoreError × Sink) Sink
store bytes sink = do
  sink1 ← journal_step JournalOperation.write (write_all bytes sink)
  sink2 ← journal_step JournalOperation.flush (settle sink1)
  journal_step JournalOperation.sync (settle sink2)

-- The journal after a record, with its number and its digest; one that failed is poisoned.
unfoldable pub advance :
    Prepared
    → JobJournal
    → Result (RestoreError × Sink) Sink
    → Result JournalFailure (Unit {0}) × JobJournal
advance prepared j (err (e, sink)) =
    (err (JournalFailure.refused e), record j { sink = sink; poisoned = true })
advance prepared j (ok sink) = elim (checked_add j.next_sequence 1) [
  | none ↦ (
    err (JournalFailure.refused (RestoreError.journal_sequence_overflow j.next_sequence)),
    record j { sink = sink },
  )
  | some next ↦
      (ok tt, record j { sink = sink; next_sequence = next; previous_hash = prepared.record_hash })
]

unfoldable pub commit :
    JobJournal → Result JournalFailure Prepared → Result JournalFailure (Unit {0}) × JobJournal
commit j (err e) = (err e, j)
commit j (ok prepared) = advance prepared j (store prepared.bytes j.sink)

-- What an audit expects of the next record.
pub record Expected : Type 0 where
  pub sequence : ℕ
  pub previous : List ℕ
  pub job_id_sha256 : Option (List ℕ)

unfoldable pub job_changed : Option (List ℕ) → List ℕ → Bool
job_changed none job = false
job_changed (some expected) job = not (bytes_eq expected job)

module _ (sha256 : List ℕ → List ℕ) where
  unfoldable pub record_hash :
      List ℕ → ℕ → List ℕ → List ℕ → List ℕ → Result JournalFailure (List ℕ)
  record_hash job_id_sha256 sequence previous_hash kind payload = do
    previous ← decode_hash previous_hash
    guard (ltb (length kind) (2 ^ 32)) (JournalFailure.refused RestoreError.journal_serialization)
    guard (ltb (length payload) (2 ^ 64))
        (JournalFailure.refused RestoreError.journal_serialization)
    ok (
        hex_lower (
          sha256 (
            hash_domain
            ++ job_id_sha256
            ++ to_le_bytes 8 sequence
            ++ previous
            ++ to_le_bytes 4 (length kind)
            ++ kind
            ++ to_le_bytes 8 (length payload)
            ++ payload)))

  module _ {Value : Type 0} (serde : Serde Value) where
    -- `append`, before the file is touched. `payload` is what `serde_json::to_value` makes.
    unfoldable pub prepare : List ℕ → Option Value → JobJournal → Result JournalFailure Prepared
    prepare kind payload self = do
      guard (not self.poisoned) (JournalFailure.refused RestoreError.journal_poisoned)
      guard (not (leb max_journal_records self.next_sequence))
          (JournalFailure.refused (RestoreError.journal_record_limit max_journal_records))
      value ← checked payload RestoreError.journal_serialization
      payload_bytes ← checked (serde.value_to_vec value) RestoreError.journal_serialization
      guard (not (ltb max_journal_payload_bytes (length payload_bytes))) (
          JournalFailure.refused (
            RestoreError.journal_payload_too_large (length payload_bytes)
              max_journal_payload_bytes))
      hash ← record_hash self.job_id_sha256 self.next_sequence self.previous_hash kind payload_bytes
      line ←
          checked
            (serde.record_to_vec (record {
              version = journal_version;
              job_id_sha256 = hex_lower self.job_id_sha256;
              sequence = self.next_sequence;
              previous_hash = self.previous_hash;
              kind = kind;
              payload_length = length payload_bytes;
              payload = value;
              record_hash = hash;
            }))
            RestoreError.journal_serialization
      guard (not (ltb max_journal_record_bytes (length line + 1))) (
          JournalFailure.refused
            (RestoreError.journal_record_too_large (length line + 1) max_journal_record_bytes))
      ok (record { bytes = line ++ (10 ∷ []); record_hash = hash })

    unfoldable pub append :
        List ℕ → Option Value → JobJournal → Result JournalFailure (Unit {0}) × JobJournal
    append kind payload self = commit self (prepare kind payload self)

    -- The checks of a record that was parsed.
    unfoldable pub audit_record :
        Expected → List ℕ → JournalRecord Value → Result JournalFailure Expected
    audit_record expected line r = do
      canonical ← checked (serde.record_to_vec r) RestoreError.journal_audit
      guard (bytes_eq canonical line) (JournalFailure.refused RestoreError.journal_audit)
      guard
          (r.version == journal_version
            && r.sequence == expected.sequence
            && bytes_eq r.previous_hash expected.previous)
          (JournalFailure.refused RestoreError.journal_audit)
      payload_bytes ← checked (serde.value_to_vec r.payload) RestoreError.journal_audit
      guard (not (ltb max_journal_payload_bytes (length payload_bytes))) (
          JournalFailure.refused (
            RestoreError.journal_payload_too_large (length payload_bytes)
              max_journal_payload_bytes))
      guard (length payload_bytes == r.payload_length)
          (JournalFailure.refused RestoreError.journal_audit)
      job ← decode_hash r.job_id_sha256
      guard (not (job_changed expected.job_id_sha256 job))
          (JournalFailure.refused RestoreError.journal_audit)
      actual ← record_hash job r.sequence r.previous_hash r.kind payload_bytes
      guard (bytes_eq actual r.record_hash) (JournalFailure.refused RestoreError.journal_audit)
      next ← checked (checked_add expected.sequence 1) RestoreError.journal_audit
      ok (record { sequence = next; previous = r.record_hash; job_id_sha256 = some job })

    unfoldable pub audit_lines :
        ℕ → Expected → List (List ℕ) → Result JournalFailure (List (JournalRecord Value))
    audit_lines maximum expected [] = ok []
    audit_lines maximum expected (terminated_line ∷ lines) = do
      guard (not (leb maximum expected.sequence))
          (JournalFailure.refused (RestoreError.journal_record_limit maximum))
      guard (not (ltb max_journal_record_bytes (length terminated_line))) (
          JournalFailure.refused (
            RestoreError.journal_record_too_large (length terminated_line)
              max_journal_record_bytes))
      line ← checked (strip_newline terminated_line) RestoreError.journal_audit
      guard (not (length line == 0)) (JournalFailure.refused RestoreError.journal_audit)
      r ← checked (serde.record_from_slice line) RestoreError.journal_audit
      expected' ← audit_record expected line r
      records ← audit_lines maximum expected' lines
      ok (r ∷ records)

    unfoldable pub audit_journal_with_record_limit :
        List ℕ → ℕ → Result JournalFailure (List (JournalRecord Value))
    audit_journal_with_record_limit bytes maximum_records = do
      guard (is_utf8 bytes) (JournalFailure.refused RestoreError.journal_audit)
      guard (ends_complete bytes) (JournalFailure.refused RestoreError.journal_audit)
      audit_lines maximum_records
          (record { sequence = 0; previous = zero_hash; job_id_sha256 = none })
          (split_inclusive bytes)

    unfoldable pub audit_journal : List ℕ → Result JournalFailure (List (JournalRecord Value))
    audit_journal bytes = audit_journal_with_record_limit bytes max_journal_records
