-- ===== src/Restore/Stream/Reading.antt =====
-- The chunks of a segment in crates/restore/src/stream.rs: each puts the right bytes behind the output.
use undelete_master.Base.{
  ℕ, zero, suc, ◌+◌, ◌-◌, ◌≤◌, ◌<◌, min, ◌≡◌, ◌∙◌, inl, inr, refl, sym, ap, true, false, some, List,
  [], ◌∷◌, any, length, get_elem?, leb, ok, Bool-cases, Result-cases, u64_max, arith,
}
use undelete_master.Candidate.Intervals.{holds, IsSeparated}
use undelete_master.Source.{SourceReader}
use undelete_master.Restore.Errors.{ZeroFillReason}
use undelete_master.Restore.Plan.{PartialPolicy, ContentPlan, refuses}
use undelete_master.Restore.Output.{
  ZeroFilledRange, Stream, expect_add, check_cancel, write_committed, append_zero_range,
}
use undelete_master.Restore.Stream.{
  normalize_bad_ranges, append_bad, fill_zeros, is_complete_only, settle_bad, lift, read_chunk,
  read_chunks,
}
use undelete_master.Restore.Stream.Meaning.{
  ReadFrom, is_zeroed, Right, Gives, Gives-bind, Gives-map, At,
}
use undelete_master.Restore.Stream.Writing.{
  Still, MayFollow, check_cancel-Gives, write_committed-Gives,
}
use undelete_master.Restore.Stream.Ranges.{Appended, append_zero_range-Gives}
use undelete_master.Restore.Stream.Chunks.{
  is_bad, get_elem?-lt, length-fill_zeros, fill_zeros_at, normalize_bad_ranges-ok,
}

-- The source fills every buffer, and what it does not report as bad is what stands on the disk.
pub record IsFaithful (source : SourceReader) (disk : ℕ → ℕ) : Type 0 where
  pub sizes : (offset n : ℕ) → length (source.read_best_effort_at offset n).1 ≡ n
  pub delivers :
      (offset n i b : ℕ)
      → offset + n ≤ source.len
      → get_elem? (source.read_best_effort_at offset n).1 i ≡ some b
      → any (is_bad i) (source.read_best_effort_at offset n).0.bad_ranges ≡ false
      → b ≡ disk (offset + i)

pub expect_add-ok : (a b : ℕ) (s : Stream) → a + b ≤ u64_max → expect_add a b s ≡ ok (a + b)
unfolding expect_add
expect_add-ok a b s h = let fits : leb (a + b) u64_max ≡ true = ground arith in rw fits refl

refuses_some :
    (policy : PartialPolicy) (reason : ZeroFillReason)
    → is_complete_only policy ≡ false
    → refuses policy reason ≡ false
unfolding is_complete_only refuses
refuses_some PartialPolicy.complete_only reason h = absurd (cc)
refuses_some PartialPolicy.zero_fill_and_map reason h = refl

module _ (plan : ContentPlan) (disk : ℕ → ℕ) (sized : plan.logical_size ≤ u64_max) where
  -- The bad ranges of the chunk at `a` are reported, and so is all that was before.
  record Settled (a : ℕ) (ranges : List (ℕ × ℕ)) (s s' : Stream) : Type 0 where
    right : Right plan disk s'
    written : s'.written ≡ s.written
    reported : (i : ℕ) → any (holds i) ranges ≡ true → any (is_zeroed (a + i)) s'.ranges ≡ true
    kept : (x : ℕ) → any (is_zeroed x) s.ranges ≡ true → any (is_zeroed x) s'.ranges ≡ true

  append_bad-Gives :
      (a n low : ℕ) (ranges : List (ℕ × ℕ)) (s : Stream)
      → Right plan disk s
      → is_complete_only plan.policy ≡ false
      → a + n ≤ plan.logical_size
      → IsSeparated n low ranges
      → Gives plan disk (Settled a ranges s) (append_bad a ranges s)
  unfolding append_bad
  append_bad-Gives a n low [] s r lenient room apart = record {
    right = r;
    written = refl;
    reported = λ i e. absurd (cc);
    kept = λ x e. e;
  }
  append_bad-Gives a n low ((start, stop) ∷ ranges) s r lenient room (_, below, inside, rest) =
      let next : ZeroFilledRange = record {
        logical_offset = a + start;
        len = stop - start;
        reason = ZeroFillReason.previously_read_failed;
      } in
      rw (expect_add-ok a start s (omega arith)) (
        Gives-bind plan disk (Appended plan disk sized next s)
          (Settled a ((start, stop) ∷ ranges) s) (append_zero_range next s) _
          (append_zero_range-Gives plan disk sized next s r (omega arith)
            (refuses_some plan.policy ZeroFillReason.previously_read_failed lenient))
          (λ s1 (r1, reports, same, _).
            Gives-map plan disk (Settled a ranges s1) (Settled a ((start, stop) ∷ ranges) s)
              (append_bad a ranges s1)
              (append_bad-Gives a n (suc stop) ranges s1 r1 lenient room rest)
              (λ s2 t. record {
                right = t.right;
                written = t.written ∙ same;
                reported = λ i e. elim (Bool-cases (holds i (start, stop))) [
                  | inl here ↦ let first = reports.zeroed (a + i) in t.kept (a + i) (ground arith)
                  | inr there ↦ t.reported i (ground arith)
                ];
                kept = λ x e. let first = reports.zeroed x in t.kept x (ground arith);
              })))

  -- The chunk at `a` is settled: the output is as it was, and what is bad is reported.
  abbrev Reported : ℕ → List (ℕ × ℕ) → Stream → Type 0
  Reported a ranges s' =
      At plan disk a s'
      × ((i : ℕ) → any (holds i) ranges ≡ true → any (is_zeroed (a + i)) s'.ranges ≡ true)

  settle_bad-Gives :
      (a n : ℕ) (ranges : List (ℕ × ℕ)) (s : Stream)
      → At plan disk a s
      → a + n ≤ plan.logical_size
      → IsSeparated n 0 ranges
      → Gives plan disk (Reported a ranges) (settle_bad plan.policy a ranges s)
  unfolding settle_bad
  settle_bad-Gives a n [] s h room apart = (h, λ i e. absurd (cc))
  settle_bad-Gives a n ((start, stop) ∷ ranges) s (r, long, flag) room apart =
      let bad = (start, stop) ∷ ranges in
      rw (expect_add-ok a start s (omega arith)) (elim (Bool-cases (is_complete_only plan.policy)) [
        | inl strict ↦ rw strict (tt, r)
        | inr lenient ↦ rw lenient (
            Gives-bind plan disk (Settled a bad s) (Reported a bad) (append_bad a bad s) _
              (append_bad-Gives a n 0 bad s r lenient room apart)
              (λ s1 t. ((t.right, ap length t.written ∙ long, ground arith), t.reported)))
      ])

  module _ (source : SourceReader) (faithful : IsFaithful source disk) where
    pub read_chunk-Gives :
        (a physical n : ℕ) (s : Stream)
        → At plan disk a s
        → a + n ≤ plan.logical_size
        → physical + n ≤ source.len
        → ((i : ℕ) → i < n → ReadFrom plan.segments (a + i) (physical + i))
        → Gives plan disk (At plan disk (a + n)) (read_chunk source plan a physical n s)
    unfolding read_chunk lift
    read_chunk-Gives a physical n s h room inside from =
        let outcome = (source.read_best_effort_at physical n).0 in
        let scratch = (source.read_best_effort_at physical n).1 in
        elim (Result-cases (normalize_bad_ranges n outcome)) [
          | inr (e, f) ↦ rw f (tt, h.0)
          | inl (ranges, f) ↦
              let (apart, same) = normalize_bad_ranges-ok n outcome ranges f in
              let size = faithful.sizes physical n in
              let long = length-fill_zeros n 0 ranges scratch size apart in
              rw f (
                Gives-bind plan disk (Reported a ranges) (At plan disk (a + n))
                  (settle_bad plan.policy a ranges s) _ (settle_bad-Gives a n ranges s h room apart)
                  (λ s1 (h1, reported).
                    let follow : MayFollow plan disk sized a (fill_zeros ranges scratch) s1 =
                      λ i b e. elim (fill_zeros_at n 0 ranges scratch i b size apart e) [
                        | inl (bad, zero_byte) ↦ inr (zero_byte, reported i bad)
                        | inr (good, read) ↦
                            let place = get_elem?-lt scratch i b read in
                            inl (
                              physical + i,
                              from i (omega arith),
                              faithful.delivers physical n i b inside read (sym (same i) ∙ good),
                            )
                      ] in
                    Gives-map plan disk
                      (Still plan disk sized (a + length (fill_zeros ranges scratch)) s1)
                      (At plan disk (a + n))
                      (write_committed plan.logical_size (fill_zeros ranges scratch) s1)
                      (write_committed-Gives plan disk sized a (fill_zeros ranges scratch) s1 h1
                        (omega arith) follow)
                      (λ s2 (h2, _). rw long at h2)))
        ]

    pub read_chunks-Gives :
        (scratch_len rounds logical physical n position : ℕ) (s : Stream)
        → 0 < scratch_len
        → n ≤ rounds + position
        → position ≤ n
        → At plan disk (logical + position) s
        → logical + n ≤ plan.logical_size
        → physical + n ≤ source.len
        → source.len ≤ u64_max
        → ((i : ℕ) → i < n → ReadFrom plan.segments (logical + i) (physical + i))
        → Gives plan disk
            (At plan disk (logical + n))
            (read_chunks source plan scratch_len rounds logical physical n position s)
    unfolding read_chunks
    read_chunks-Gives k zero logical physical n position s pos fuel below h room inside wide from =
        let e : position ≡ n = omega arith in rw e at h
    read_chunks-Gives k (suc rounds) logical physical n position s pos fuel below h room inside wide
          from =
        elim (Bool-cases (leb n position)) [
          | inl done ↦ let e : position ≡ n = ground arith in rw (done, read_chunks) (rw e at h)
          | inr more ↦
              let c = min (n - position) k in
              rw (more, read_chunks)
                (Gives-bind plan disk (Still plan disk sized (logical + position) s)
                  (At plan disk (logical + n)) (check_cancel s) _
                  (check_cancel-Gives plan disk sized (logical + position) s h)
                  (λ s1 (h1, _).
                    rw
                      (
                        expect_add-ok logical position s1 (omega arith),
                        expect_add-ok physical position s1 (omega arith),
                      )
                      (Gives-bind plan disk (At plan disk (logical + position + c))
                        (At plan disk (logical + n))
                        (read_chunk source plan (logical + position) (physical + position) c s1) _
                        (read_chunk-Gives (logical + position) (physical + position) c s1 h1
                          (ground arith) (ground arith)
                          (λ i l.
                            let a : logical + position + i ≡ logical + (position + i) =
                              omega arith in
                            let b : physical + position + i ≡ physical + (position + i) =
                              omega arith in
                            rw (a, b) (from (position + i) (ground arith))))
                        (λ s2 h2.
                          let e : logical + position + c ≡ logical + (position + c) = omega arith in
                          rw (expect_add-ok position c s2 (ground arith)) (
                            read_chunks-Gives k rounds logical physical n (position + c) s2 pos
                              (ground arith) (ground arith) (rw e at h2) room inside wide from)))))
        ]
