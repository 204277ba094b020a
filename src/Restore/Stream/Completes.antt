-- ===== src/Restore/Stream/Completes.antt =====
-- The chunks of crates/restore/src/stream.rs are all written when nothing is in the way.
use undelete_master.Base.{
  ℕ, zero, suc, ◌+◌, ◌-◌, ◌≤◌, ◌<◌, min, ◌≡◌, inl, inr, true, List, any, length-replicate,
  replicate, leb, Bool-cases, u64_max, arith,
}
use undelete_master.Source.{SourceReader, complete}
use undelete_master.Restore.Plan.{ContentPlan}
use undelete_master.Restore.Output.{Stream, check_cancel, write_committed}
use undelete_master.Restore.Stream.{read_chunk, read_chunks, zero_chunks}
use undelete_master.Restore.Stream.Meaning.{ReadFrom, is_zeroed, At}
use undelete_master.Restore.Stream.Zeros.{write_zeros-Gives}
use undelete_master.Restore.Stream.Reading.{IsFaithful, expect_add-ok, read_chunk-Gives}
use undelete_master.Restore.Stream.Writing.{Still, check_cancel-Gives}
use undelete_master.Restore.Stream.Alive.{
  Succeeds, Succeeds-bind, Succeeds-Gives, Alive, check_cancel_goes, check_cancel_both,
  write_committed_goes, read_chunk_goes,
}

-- No sector of the source is bad.
pub record IsReadable (source : SourceReader) : Type 0 where
  pub whole :
      (offset n : ℕ)
      → offset + n ≤ source.len
      → (source.read_best_effort_at offset n).0 ≡ complete n

module _ (source : SourceReader) (plan : ContentPlan) (disk : ℕ → ℕ)
    (sized : plan.logical_size ≤ u64_max) (wide : source.len ≤ u64_max)
    (faithful : IsFaithful source disk) (readable : IsReadable source) (scratch_len : ℕ)
    (pos : 0 < scratch_len) where
  -- One chunk of a segment that is read.
  chunk_both :
      (m logical physical n position : ℕ) (s : Stream)
      → Alive m s
      → At plan disk (logical + position) s
      → logical + n ≤ plan.logical_size
      → physical + n ≤ source.len
      → ((i : ℕ) → i < n → ReadFrom plan.segments (logical + i) (physical + i))
      → position ≤ n
      → (c : ℕ) → c ≤ n - position
      → Succeeds
          (λ s1. Alive m s1 × At plan disk (logical + position + c) s1)
          (read_chunk source plan (logical + position) (physical + position) c s)
  chunk_both m logical physical n position s live h room inside from below c few =
      Succeeds-Gives plan disk (Alive m) (At plan disk (logical + position + c))
        (read_chunk source plan (logical + position) (physical + position) c s)
        (read_chunk_goes plan disk sized source m (logical + position) (physical + position) c s
          live h (omega arith) (faithful.sizes (physical + position) c)
          (readable.whole (physical + position) c (omega arith)))
        (read_chunk-Gives plan disk sized source faithful (logical + position) (physical + position)
          c s h (omega arith) (omega arith)
          (λ i l.
            let a : logical + position + i ≡ logical + (position + i) = omega arith in
            let b : physical + position + i ≡ physical + (position + i) = omega arith in
            rw (a, b) (from (position + i) (omega arith))))

  pub read_chunks_goes :
      (m rounds logical physical n position : ℕ) (s : Stream)
      → n ≤ rounds + position
      → position ≤ n
      → Alive m s
      → At plan disk (logical + position) s
      → logical + n ≤ plan.logical_size
      → physical + n ≤ source.len
      → ((i : ℕ) → i < n → ReadFrom plan.segments (logical + i) (physical + i))
      → Succeeds
          (Alive m)
          (read_chunks source plan scratch_len rounds logical physical n position s)
  unfolding read_chunks
  read_chunks_goes m zero logical physical n position s fuel below live h room inside from = live
  read_chunks_goes m (suc rounds) logical physical n position s fuel below live h room inside from =
      elim (Bool-cases (leb n position)) [
        | inl done ↦ rw (done, read_chunks) live
        | inr more ↦
            let c = min (n - position) scratch_len in
            rw (more, read_chunks)
              (Succeeds-bind (λ s1. Alive m s1 × At plan disk (logical + position) s1) (Alive m)
                (check_cancel s) _
                (check_cancel_both plan disk sized m (logical + position) s live h)
                (λ s1 (live1, h1).
                  rw
                    (
                      expect_add-ok logical position s1 (omega arith),
                      expect_add-ok physical position s1 (omega arith),
                    )
                    (Succeeds-bind (λ s2. Alive m s2 × At plan disk (logical + position + c) s2)
                      (Alive m)
                      (read_chunk source plan (logical + position) (physical + position) c s1) _
                      (chunk_both m logical physical n position s1 live1 h1 room inside from below c
                        (ground arith))
                      (λ s2 (live2, h2).
                        let e : logical + position + c ≡ logical + (position + c) = omega arith in
                        rw (expect_add-ok position c s2 (ground arith)) (
                          read_chunks_goes m rounds logical physical n (position + c) s2
                            (ground arith) (ground arith) live2 (rw e at h2) room inside from)))))
      ]

  pub zero_chunks_goes :
      (m rounds logical n position : ℕ) (s : Stream)
      → n ≤ rounds + position
      → position ≤ n
      → Alive m s
      → At plan disk (logical + position) s
      → logical + n ≤ plan.logical_size
      → ((i : ℕ) → i < n → any (is_zeroed (logical + i)) s.ranges ≡ true)
      → Succeeds (Alive m) (zero_chunks plan scratch_len rounds n position s)
  unfolding zero_chunks
  zero_chunks_goes m zero logical n position s fuel below live h room zeroed = live
  zero_chunks_goes m (suc rounds) logical n position s fuel below live h room zeroed =
      elim (Bool-cases (leb n position)) [
        | inl done ↦ rw (done, zero_chunks) live
        | inr more ↦
            let c = min (n - position) scratch_len in
            let zeros : List ℕ = replicate c 0 in
            let long = length-replicate {A = ℕ} c 0 in
            rw (more, zero_chunks)
              (Succeeds-bind (λ s1. Alive m s1 × Still plan disk sized (logical + position) s s1)
                (Alive m) (check_cancel s) _
                (Succeeds-Gives plan disk (Alive m) (Still plan disk sized (logical + position) s)
                  (check_cancel s) (check_cancel_goes m s live)
                  (check_cancel-Gives plan disk sized (logical + position) s h))
                (λ s1 (live1, (h1, same)).
                  let zeroed1 : (i : ℕ) → i < n → any (is_zeroed (logical + i)) s1.ranges ≡ true =
                    λ i l. rw same (zeroed i l) in
                  Succeeds-bind
                    (λ s2. Alive m s2 × Still plan disk sized (logical + (position + c)) s1 s2)
                    (Alive m) (write_committed plan.logical_size zeros s1) _
                    (Succeeds-Gives plan disk (Alive m)
                      (Still plan disk sized (logical + (position + c)) s1)
                      (write_committed plan.logical_size zeros s1)
                      (write_committed_goes plan disk sized m (logical + position) zeros s1 live1 h1
                        (ground arith))
                      (write_zeros-Gives plan disk sized logical n position c s1 h1 (ground arith)
                        room zeroed1))
                    (λ s2 (live2, (h2, same2)). rw (expect_add-ok position c s2 (ground arith)) (
                      zero_chunks_goes m rounds logical n (position + c) s2 (ground arith)
                        (ground arith) live2 h2 room (λ i l. rw same2 (zeroed1 i l))))))
      ]
