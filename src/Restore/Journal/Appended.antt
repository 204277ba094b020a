-- ===== src/Restore/Journal/Appended.antt =====
-- What `append` of crates/restore/src/journal.rs does to the file and to the chain.
use undelete_master.Base.{
  ℕ, ◌+◌, ◌≡◌, refl, false, not, inl, inr, Option, none, some, List, [], ◌∷◌, ◌++◌, length, ltb,
  leb, Result, ok, err, ok-injective, guard-ok, >>=-eq-ok, Bool-cases, u64_max, arith,
}
use undelete_master.Restore.Errors.{RestoreError, JournalOperation}
use undelete_master.Restore.Texts.{hex_lower}
use undelete_master.Restore.Files.{Call, Sink, next_call, write_by, write_all, settle_by, settle}
use undelete_master.Restore.Hashes.{JournalFailure}
use undelete_master.Restore.Journal.{
  JobJournal, JournalRecord, Serde, Prepared, journal_version, max_journal_payload_bytes,
  max_journal_record_bytes, max_journal_records, checked, journal_step, store, advance, commit,
  record_hash, prepare, append,
}

write_by-ok :
    (bytes written : List ℕ) (call : Call × List Call) (operation : JournalOperation) (sink : Sink)
    → journal_step operation (write_by bytes written call) ≡ ok sink
    → sink.written ≡ written ++ bytes
unfolding journal_step write_by
write_by-ok bytes written (Call.succeeds, calls) operation sink e = rw (← ok-injective e) refl
write_by-ok bytes written (Call.fails kind n, calls) operation sink e = absurd (cc)

settle_by-ok :
    (written : List ℕ) (call : Call × List Call) (operation : JournalOperation) (sink : Sink)
    → journal_step operation (settle_by written call) ≡ ok sink
    → sink.written ≡ written
unfolding journal_step settle_by
settle_by-ok written (Call.succeeds, calls) operation sink e = rw (← ok-injective e) refl
settle_by-ok written (Call.fails kind n, calls) operation sink e = absurd (cc)

store-ok :
    (bytes : List ℕ) (sink sink' : Sink)
    → store bytes sink ≡ ok sink'
    → sink'.written ≡ sink.written ++ bytes
unfolding store write_all settle
store-ok bytes sink sink' e =
    let (sink1, written, e1) =
      >>=-eq-ok (journal_step JournalOperation.write (write_all bytes sink)) _ e in
    let (sink2, flushed, e2) =
      >>=-eq-ok (journal_step JournalOperation.flush (settle sink1)) _ e1 in
    let a =
      write_by-ok bytes sink.written (next_call sink.calls) JournalOperation.write sink1 written in
    let b =
      settle_by-ok sink1.written (next_call sink1.calls) JournalOperation.flush sink2 flushed in
    let c = settle_by-ok sink2.written (next_call sink2.calls) JournalOperation.sync sink' e2 in cc

-- The journal behind a record that was stored, and that has a next number.
abbrev pub stored_as : Prepared → JobJournal → Sink → JobJournal
stored_as prepared j sink = record j {
  sink = sink;
  next_sequence = j.next_sequence + 1;
  previous_hash = prepared.record_hash;
}

advance-ok :
    (prepared : Prepared) (j j' : JobJournal) (r : Result (RestoreError × Sink) Sink)
    → advance prepared j r ≡ (ok tt, j')
    → (sink : Sink) × (r ≡ ok sink) × (stored_as prepared j sink ≡ j')
unfolding advance
advance-ok prepared j j' (err x) e = absurd (cc)
advance-ok prepared j j' (ok sink) e = elim (Bool-cases (leb (j.next_sequence + 1) u64_max)) [
  | inl fits ↦ let whole = rw (fits, advance) at e in (sink, refl, cc)
  | inr over ↦ let whole = rw (over, advance) at e in absurd (cc)
]

commit-ok :
    (j j' : JobJournal) (r : Result JournalFailure Prepared)
    → commit j r ≡ (ok tt, j')
    → (prepared : Prepared) × (sink : Sink) × (r ≡ ok prepared)
      × (stored_as prepared j sink ≡ j')
      × (sink.written ≡ j.sink.written ++ prepared.bytes)
unfolding commit
commit-ok j j' (err x) e = absurd (cc)
commit-ok j j' (ok prepared) e =
    let (sink, stored, same) = advance-ok prepared j j' (store prepared.bytes j.sink) e in
    (prepared, sink, refl, same, store-ok prepared.bytes j.sink sink stored)

checked-ok {ℓ} :
    {A : Type ℓ} (o : Option A) (e : RestoreError) {a : A} → checked o e ≡ ok a → o ≡ some a
unfolding checked
checked-ok none e h = absurd (cc)
checked-ok (some a) e h = cc

module _ {Value : Type 0} (sha256 : List ℕ → List ℕ) (serde : Serde Value) where
  -- The record that is written for a journal.
  abbrev pub record_for : JobJournal → List ℕ → Value → List ℕ → List ℕ → JournalRecord Value
  record_for j kind value payload hash = record {
    version = journal_version;
    job_id_sha256 = hex_lower j.job_id_sha256;
    sequence = j.next_sequence;
    previous_hash = j.previous_hash;
    kind = kind;
    payload_length = length payload;
    payload = value;
    record_hash = hash;
  }

  -- What has been checked of a record that is about to be written, with its parts.
  pub record IsPrepared (kind : List ℕ) (asked : Option Value) (j : JobJournal)
      (prepared : Prepared) : Type 0 where
    pub value : Value
    pub given : asked ≡ some value
    pub payload : List ℕ
    pub line : List ℕ
    pub bytes : prepared.bytes ≡ line ++ (10 ∷ [])
    pub room : leb max_journal_records j.next_sequence ≡ false
    pub payload_text : serde.value_to_vec value ≡ some payload
    pub payload_short : ltb max_journal_payload_bytes (length payload) ≡ false
    pub digest :
        record_hash sha256 j.job_id_sha256 j.next_sequence j.previous_hash kind payload
        ≡ ok prepared.record_hash
    pub text :
        serde.record_to_vec (record_for j kind value payload prepared.record_hash) ≡ some line
    pub short : ltb max_journal_record_bytes (length line + 1) ≡ false

  text_of :
      (j : JobJournal) (kind : List ℕ) (value : Value) (payload hash hash' line : List ℕ)
      → hash' ≡ hash
      → checked
          (serde.record_to_vec (record_for j kind value payload hash))
          RestoreError.journal_serialization
        ≡ ok line
      → serde.record_to_vec (record_for j kind value payload hash') ≡ some line
  text_of j kind value payload hash hash' line same e = rw same (
      checked-ok (serde.record_to_vec (record_for j kind value payload hash))
        RestoreError.journal_serialization e)

  pub prepare-IsPrepared :
      (kind : List ℕ) (payload : Option Value) (j : JobJournal) (prepared : Prepared)
      → prepare sha256 serde kind payload j ≡ ok prepared
      → IsPrepared kind payload j prepared
  unfolding prepare
  prepare-IsPrepared kind payload j prepared made =
      let (_, e1) = guard-ok (not j.poisoned) _ _ made in
      let (room, e2) = guard-ok (not (leb max_journal_records j.next_sequence)) _ _ e1 in
      let (value, given, e3) =
        >>=-eq-ok (checked payload RestoreError.journal_serialization) _ e2 in
      let (text, made_text, e4) =
        >>=-eq-ok (checked (serde.value_to_vec value) RestoreError.journal_serialization) _ e3 in
      let (small, e5) = guard-ok (not (ltb max_journal_payload_bytes (length text))) _ _ e4 in
      let (hash, digest, e6) =
        >>=-eq-ok (record_hash sha256 j.job_id_sha256 j.next_sequence j.previous_hash kind text) _
          e5 in
      let (line, made_line, e7) =
        >>=-eq-ok
          (checked (serde.record_to_vec (record_for j kind value text hash))
            RestoreError.journal_serialization)
          _ e6 in
      let (short, e8) = guard-ok (not (ltb max_journal_record_bytes (length line + 1))) _ _ e7 in
      let p = ok-injective e8 in
      let q : prepared.record_hash ≡ hash = cc in
      record {
        value = value;
        given = checked-ok payload RestoreError.journal_serialization given;
        payload = text;
        line = line;
        bytes = cc;
        room = ground arith;
        payload_text =
            checked-ok (serde.value_to_vec value) RestoreError.journal_serialization made_text;
        payload_short = ground arith;
        digest = rw q digest;
        text = text_of j kind value text hash prepared.record_hash line q made_line;
        short = ground arith;
      }

  -- An append that succeeds has prepared a record and put its line behind the file.
  pub append-ok :
      (kind : List ℕ) (payload : Option Value) (j j' : JobJournal)
      → append sha256 serde kind payload j ≡ (ok tt, j')
      → (prepared : Prepared) × (sink : Sink) × IsPrepared kind payload j prepared
        × (stored_as prepared j sink ≡ j')
        × (sink.written ≡ j.sink.written ++ prepared.bytes)
  unfolding append
  append-ok kind payload j j' e =
      let (prepared, sink, made, same, bytes) =
        commit-ok j j' (prepare sha256 serde kind payload j) e in
      (prepared, sink, prepare-IsPrepared kind payload j prepared made, same, bytes)
