-- ===== src/Restore/Journal/Failure.antt =====
-- What an `append` of crates/restore/src/journal.rs leaves behind that fails.
use undelete_master.Base.{
  ℕ, ◌+◌, ◌≡◌, ◌⊎◌, inl, inr, refl, true, Option, List, leb, Result, ok, err, Result-cases, u64_max,
  arith,
}
use undelete_master.Restore.Errors.{RestoreError}
use undelete_master.Restore.Files.{Sink}
use undelete_master.Restore.Hashes.{JournalFailure}
use undelete_master.Restore.Journal.{
  JobJournal, Serde, Prepared, store, advance, commit, prepare, append,
}
use undelete_master.Restore.Journal.Appended.{prepare-IsPrepared}

-- The journal as it was, but for what a failing call left in the file, and shut.
abbrev poisoned_at : JobJournal → Sink → JobJournal
poisoned_at j sink = record j { sink = sink; poisoned = true }

module _ {Value : Type 0} (sha256 : List ℕ → List ℕ) (serde : Serde Value) where
  refuses_poisoned :
      (j : JobJournal) (kind : List ℕ) (payload : Option Value)
      → j.poisoned ≡ true
      → append sha256 serde kind payload j
        ≡ (err (JournalFailure.refused RestoreError.journal_poisoned), j)
  unfolding append prepare commit
  refuses_poisoned j kind payload h = rw h refl

  advance-err :
      (prepared : Prepared) (j j' : JobJournal) (r : Result (RestoreError × Sink) Sink)
      (failure : JournalFailure)
      → leb (j.next_sequence + 1) u64_max ≡ true
      → advance prepared j r ≡ (err failure, j')
      → (error : RestoreError) × (r ≡ err (error, j'.sink))
        × (failure ≡ JournalFailure.refused error)
        × (j' ≡ poisoned_at j j'.sink)
  unfolding advance
  advance-err prepared j j' (err (x, sink)) failure fits e =
      let left : j'.sink ≡ sink = cc in (x, rw left refl, cc, cc)
  advance-err prepared j j' (ok sink) failure fits e =
      let whole = rw (fits, advance) at e in absurd (cc)

  -- An append that fails either leaves the journal and its file as they were, or has met the error
  -- that it returns at the file, in the calls that store the bytes of a record: then neither the next
  -- number nor the digest of the chain has moved, the file is as these calls have left it, and every
  -- later append is refused and changes nothing.
  pub append_fails :
      (kind : List ℕ) (payload : Option Value) (j j' : JobJournal) (failure : JournalFailure)
      → append sha256 serde kind payload j ≡ (err failure, j')
      → (j' ≡ j)
        ⊎ ((prepared : Prepared) × (error : RestoreError) × (prepare sha256 serde kind payload j
              ≡ ok prepared)
            × (store prepared.bytes j.sink ≡ err (error, j'.sink))
            × (failure ≡ JournalFailure.refused error)
            × (j' ≡ record j { sink = j'.sink; poisoned = true })
            × ((kind' : List ℕ) (payload' : Option Value)
                → append sha256 serde kind' payload' j'
                  ≡ (err (JournalFailure.refused RestoreError.journal_poisoned), j')))
  unfolding append commit
  append_fails kind payload j j' failure e =
      elim (Result-cases (prepare sha256 serde kind payload j)) [
        | inr (x, f) ↦ inl (let whole = rw (f, append, commit) at e in cc)
        | inl (prepared, f) ↦
            let p = prepare-IsPrepared sha256 serde kind payload j prepared f in
            let fits : leb (j.next_sequence + 1) u64_max ≡ true =
              let room = p.room in ground arith in
            let whole = rw (f, append, commit) at e in
            let (error, met, same, shut) =
              advance-err prepared j j' (store prepared.bytes j.sink) failure fits whole in
            inr (
              prepared,
              error,
              f,
              met,
              same,
              shut,
              λ kind' payload'. refuses_poisoned j' kind' payload' (rw shut refl),
            )
      ]
