-- ===== src/Restore/Stream/Zeros.antt =====
-- The zeros of a segment in crates/restore/src/stream.rs: each stands in a range that is reported.
use undelete_master.Base.{
  ℕ, zero, suc, ◌+◌, ◌-◌, ◌≤◌, ◌<◌, min, ◌≡◌, inl, inr, true, List, any, length, length-replicate,
  replicate, leb, Bool-cases, u64_max, arith,
}
use undelete_master.Restore.Plan.{ContentPlan}
use undelete_master.Restore.Output.{Stream, check_cancel, write_committed}
use undelete_master.Restore.Stream.{zero_chunks}
use undelete_master.Restore.Stream.Meaning.{is_zeroed, Gives, Gives-bind, At}
use undelete_master.Restore.Stream.Writing.{
  Still, MayFollow, check_cancel-Gives, write_committed-Gives,
}
use undelete_master.Restore.Stream.Chunks.{get_elem?-lt, get_elem?-replicate}
use undelete_master.Restore.Stream.Reading.{expect_add-ok}

module _ (plan : ContentPlan) (disk : ℕ → ℕ) (sized : plan.logical_size ≤ u64_max) where
  -- One chunk of zeros, within a range that is reported.
  pub write_zeros-Gives :
      (logical n position c : ℕ) (s : Stream)
      → At plan disk (logical + position) s
      → position + c ≤ n
      → logical + n ≤ plan.logical_size
      → ((i : ℕ) → i < n → any (is_zeroed (logical + i)) s.ranges ≡ true)
      → Gives plan disk
          (Still plan disk sized (logical + (position + c)) s)
          (write_committed plan.logical_size (replicate c 0) s)
  write_zeros-Gives logical n position c s h below room zeroed =
      let zeros : List ℕ = replicate c 0 in
      let long = length-replicate {A = ℕ} c 0 in
      let follow : MayFollow plan disk sized (logical + position) zeros s = λ i b e.
        let place = get_elem?-lt zeros i b e in
        let a : logical + position + i ≡ logical + (position + i) = omega arith in
        inr (get_elem?-replicate c 0 i b e, rw a (zeroed (position + i) (omega arith))) in
      let e : logical + position + length zeros ≡ logical + (position + c) = omega arith in
      rw (← e)
        (write_committed-Gives plan disk sized (logical + position) zeros s h (omega arith) follow)

  pub zero_chunks-Gives :
      (scratch_len rounds logical n position : ℕ) (s : Stream)
      → 0 < scratch_len
      → n ≤ rounds + position
      → position ≤ n
      → At plan disk (logical + position) s
      → logical + n ≤ plan.logical_size
      → ((i : ℕ) → i < n → any (is_zeroed (logical + i)) s.ranges ≡ true)
      → Gives plan disk
          (At plan disk (logical + n))
          (zero_chunks plan scratch_len rounds n position s)
  unfolding zero_chunks
  zero_chunks-Gives k zero logical n position s pos fuel below h room zeroed =
      let e : position ≡ n = omega arith in rw e at h
  zero_chunks-Gives k (suc rounds) logical n position s pos fuel below h room zeroed =
      elim (Bool-cases (leb n position)) [
        | inl done ↦ let e : position ≡ n = ground arith in rw (done, zero_chunks) (rw e at h)
        | inr more ↦
            let c = min (n - position) k in
            rw (more, zero_chunks)
              (Gives-bind plan disk (Still plan disk sized (logical + position) s)
                (At plan disk (logical + n)) (check_cancel s) _
                (check_cancel-Gives plan disk sized (logical + position) s h)
                (λ s1 (h1, same).
                  let zeroed1 : (i : ℕ) → i < n → any (is_zeroed (logical + i)) s1.ranges ≡ true =
                    λ i l. rw same (zeroed i l) in
                  Gives-bind plan disk (Still plan disk sized (logical + (position + c)) s1)
                    (At plan disk (logical + n))
                    (write_committed plan.logical_size (replicate c 0) s1) _
                    (write_zeros-Gives logical n position c s1 h1 (ground arith) room zeroed1)
                    (λ s2 (h2, same2). rw (expect_add-ok position c s2 (ground arith)) (
                      zero_chunks-Gives k rounds logical n (position + c) s2 pos (ground arith)
                        (ground arith) h2 room (λ i l. rw same2 (zeroed1 i l))))))
      ]
