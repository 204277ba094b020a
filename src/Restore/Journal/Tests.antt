-- ===== src/Restore/Journal/Tests.antt =====
-- Runs of the journal and of its audit, and their theorems at a journal with one record.
use undelete_master.Base.{
  ◌<◌, ℕ, ◌≡◌, ◌⊎◌, inl, inr, refl, Bool, true, false, ◌&&◌, Option, some, none, List, [], ◌∷◌,
  ◌++◌, map, length, replicate, ◌==◌, bytes_eq, bytes_eq_sound, if◌then◌else◌, ok, err, Bool-cases,
  arith,
}
use undelete_master.Base.Texts.{codes}
use undelete_master.Base.Words.{all_IsByte}
use undelete_master.Restore.Errors.{RestoreError, JournalOperation}
use undelete_master.Restore.Texts.{hex_lower, hex_digit}
use undelete_master.Base.Utf8.{is_utf8}
use undelete_master.Restore.Files.{Call, write_all, write_by, next_call, settle, settle_by}
use undelete_master.Restore.Hashes.{
  JournalFailure, decode_hash, decode_pairs, is_continuation, starts_inside, from_str_radix,
  pair_value, digit, digit, from_str_radix, is_continuation, pair_value, starts_inside,
}
use undelete_master.Restore.Journal.{
  JobJournal, JournalRecord, Serde, Prepared, zero_hash, with_sink, append, prepare, commit,
  record_hash, audit_journal, checked, advance, store, journal_step,
}
use undelete_master.Restore.Journal.Lines.{IsLine}
use undelete_master.Restore.Journal.Trail.{IsJson, Written, audit_journal-Written}
use undelete_master.Restore.Journal.Failure.{append_fails}

abbrev zero_digest : List ℕ → List ℕ
zero_digest _ = replicate 32 0

abbrev started : JournalRecord (Unit {0})
started = record {
  version = 1;
  job_id_sha256 = replicate 64 b'0';
  sequence = 0;
  previous_hash = zero_hash;
  kind = codes "jobStarted";
  payload_length = 2;
  payload = tt;
  record_hash = zero_hash;
}

abbrev is_started : JournalRecord (Unit {0}) → Bool
is_started r =
    r.version == 1
    && bytes_eq r.job_id_sha256 (replicate 64 b'0')
    && r.sequence == 0
    && bytes_eq r.previous_hash zero_hash
    && bytes_eq r.kind (codes "jobStarted")
    && r.payload_length == 2
    && bytes_eq r.record_hash zero_hash

-- A JSON library that knows one record, whose text it shortens.
abbrev one_record : Serde (Unit {0})
one_record = record {
  value_to_vec = λ _. some (codes "{}");
  record_to_vec = λ r. if is_started r then some (codes "{}") else none;
  record_from_slice = λ _. some started;
}

is_started_sound : (r : JournalRecord (Unit {0})) → is_started r ≡ true → r ≡ started
is_started_sound r h =
    let version : r.version ≡ 1 = ground arith in
    let job = bytes_eq_sound r.job_id_sha256 (replicate 64 b'0') (ground arith) in
    let sequence : r.sequence ≡ 0 = ground arith in
    let previous = bytes_eq_sound r.previous_hash zero_hash (ground arith) in
    let kind = bytes_eq_sound r.kind (codes "jobStarted") (ground arith) in
    let size : r.payload_length ≡ 2 = ground arith in
    let hash = bytes_eq_sound r.record_hash zero_hash (ground arith) in cc

braces_line : IsLine (codes "{}") × (0 < length (codes "{}")) × (is_utf8 (codes "{}") ≡ true)
unfolding is_utf8
braces_line = ((ground arith, (ground arith, tt)), omega arith, refl)

one_record-IsJson : (r : JournalRecord (Unit {0})) → IsJson one_record r
one_record-IsJson r = record {
  reads_back = λ line e. elim (Bool-cases (is_started r)) [
    | inl t ↦ rw (is_started_sound r t) refl
    | inr f ↦ let none_made = rw f at e in absurd (cc)
  ];
  one_line = λ line e. elim (Bool-cases (is_started r)) [
    | inl t ↦ let same : codes "{}" ≡ line = let made = rw t at e in cc in rw (← same) braces_line
    | inr f ↦ let none_made = rw f at e in absurd (cc)
  ];
}

-- The journal of a job with the digest of zeros, on a file with these calls ahead of it.
abbrev fresh : List Call → JobJournal
fresh calls = record {
  sink = record { written = []; calls = calls };
  job_id_sha256 = replicate 32 0;
  next_sequence = 0;
  previous_hash = zero_hash;
  poisoned = false;
}

abbrev one_line : JobJournal
one_line = record {
  sink = record { written = codes "{}" ++ (10 ∷ []); calls = [] };
  job_id_sha256 = replicate 32 0;
  next_sequence = 1;
  previous_hash = zero_hash;
  poisoned = false;
}

appends :
    append zero_digest one_record (codes "jobStarted") (some tt) (fresh []) ≡ (ok tt, one_line)
unfolding append prepare commit checked record_hash decode_hash decode_pairs is_continuation
    starts_inside from_str_radix pair_value digit hex_lower hex_digit advance store journal_step
    write_all write_by next_call settle settle_by
appends = refl

-- A character of two bytes that starts at an odd position.
abbrev torn_hash : List ℕ
torn_hash = b'a' ∷ 195 ∷ 169 ∷ replicate 61 b'0'

-- A digest of 64 bytes with such a character ends the audit in a panic.
decode_panics : decode_hash torn_hash ≡ err JournalFailure.panicked
unfolding decode_hash decode_pairs is_continuation starts_inside
decode_panics = refl

-- A sign counts as a digit of zero.
decode_sign : decode_hash (codes "+f" ++ replicate 62 b'0') ≡ ok (15 ∷ replicate 31 0)
unfolding decode_hash decode_pairs is_continuation starts_inside from_str_radix digit pair_value
decode_sign = refl

abbrev shut : JobJournal
shut = record (fresh []) { sink = record { written = codes "{"; calls = [] }; poisoned = true }

fails_to_append :
    append zero_digest one_record (codes "jobStarted") (some tt) (fresh (Call.fails 5 1 ∷ []))
    ≡ (err (JournalFailure.refused (RestoreError.journal_io JournalOperation.write 5)), shut)
unfolding append prepare commit checked record_hash decode_hash decode_pairs is_continuation
    starts_inside from_str_radix pair_value digit hex_lower hex_digit advance store journal_step
    write_all write_by next_call settle settle_by
fails_to_append = refl

audit_journal-Written_example :
    (records : List (JournalRecord (Unit {0}))) × (audit_journal zero_digest one_record
        (codes "{}" ++ (10 ∷ []))
      ≡ ok records)
    × (map (λ r. r.kind) records ≡ codes "jobStarted" ∷ [])
    × (one_line.next_sequence ≡ length (codes "jobStarted" ∷ []))
unfolding with_sink
audit_journal-Written_example =
    audit_journal-Written zero_digest one_record (replicate 32 0) [] (codes "jobStarted" ∷ [])
      one_line refl (all_IsByte (replicate 32 0) refl)
      (Written.then_one (codes "jobStarted") (some tt) appends Written.nothing)
      ((λ value payload hash a b c. one_record-IsJson _), tt)

append_fails_example :
    (shut ≡ fresh (Call.fails 5 1 ∷ []))
    ⊎ ((prepared : Prepared) × (error : RestoreError) × (prepare zero_digest one_record
            (codes "jobStarted")
            (some tt)
            (fresh (Call.fails 5 1 ∷ []))
          ≡ ok prepared)
        × (store prepared.bytes (fresh (Call.fails 5 1 ∷ [])).sink ≡ err (error, shut.sink))
        × (JournalFailure.refused (RestoreError.journal_io JournalOperation.write 5)
            ≡ JournalFailure.refused error)
        × (shut ≡ record (fresh (Call.fails 5 1 ∷ [])) { sink = shut.sink; poisoned = true })
        × ((kind : List ℕ) (payload : Option (Unit {0}))
            → append zero_digest one_record kind payload shut
              ≡ (err (JournalFailure.refused RestoreError.journal_poisoned), shut)))
append_fails_example =
    append_fails zero_digest one_record (codes "jobStarted") (some tt) (fresh (Call.fails 5 1 ∷ []))
      shut (JournalFailure.refused (RestoreError.journal_io JournalOperation.write 5))
      fails_to_append
