-- ===== src/Restore/Stream/Ranges.antt =====
-- `append_zero_range` of crates/restore/src/stream.rs reports just the range that it is given.
use undelete_master.Base.{
  ℕ, ◌+◌, ◌≤◌, ◌≡◌, inl, inr, refl, true, false, ◌&&◌, ◌||◌, List, [], ◌∷◌, any, all, length, All,
  leb, ◌==◌, Bool-cases, u64_max, arith,
}
use undelete_master.Restore.Errors.{same_reason}
use undelete_master.Restore.Plan.{ContentPlan, refuses}
use undelete_master.Restore.Plan.Reasons.{same_reason_sound}
use undelete_master.Restore.Output.{
  ZeroFilledRange, Stream, max_zero_filled_ranges, expect_add, push_range, join_range, append_to,
  append_zero_range,
}
use undelete_master.Restore.Stream.Meaning.{is_zeroed, is_sparse_range, Right, Gives}

-- The ranges report what the first ones do, and the next one.
pub record Reports (next : ZeroFilledRange) (old new : List ZeroFilledRange) : Type 0 where
  pub zeroed : (x : ℕ) → any (is_zeroed x) new ≡ (is_zeroed x next || any (is_zeroed x) old)
  pub sparse : all is_sparse_range new ≡ (is_sparse_range next && all is_sparse_range old)

joined_zeroed :
    (last next : ZeroFilledRange) (x : ℕ)
    → last.logical_offset + last.len ≡ next.logical_offset
    → is_zeroed x (record last { len = last.len + next.len })
      ≡ (is_zeroed x next || is_zeroed x last)
joined_zeroed last next x h = ground arith

module _ (plan : ContentPlan) (disk : ℕ → ℕ) (sized : plan.logical_size ≤ u64_max) where
  -- What an append has done.
  abbrev pub Appended : ZeroFilledRange → Stream → Stream → Type 0
  Appended next s s' =
      Right plan disk s'
      × Reports next s.ranges s'.ranges
      × (s'.written ≡ s.written)
      × (s'.requires_best_effort ≡ s.requires_best_effort)

  -- An output is right with more ranges reported.
  widened :
      (next : ZeroFilledRange) (s : Stream) (ranges : List ZeroFilledRange)
      → Right plan disk s
      → Reports next s.ranges ranges
      → All (λ z. z.logical_offset + z.len ≤ plan.logical_size) ranges
      → All (λ z. refuses plan.policy z.reason ≡ false) ranges
      → Right plan disk (record s { ranges = ranges })
  widened next s ranges r reports inside allowed = record {
    counted = r.counted;
    fits = r.fits;
    right = λ x b e. elim (r.right x b e) [
      | inl from_disk ↦ inl from_disk
      | inr (zero_byte, covered) ↦ let same = reports.zeroed x in inr (zero_byte, ground arith)
    ];
    inside = inside;
    allowed = allowed;
  }

  push_range-Gives :
      (next : ZeroFilledRange) (s : Stream)
      → Right plan disk s
      → next.logical_offset + next.len ≤ plan.logical_size
      → refuses plan.policy next.reason ≡ false
      → Gives plan disk (Appended next s) (push_range next s)
  unfolding push_range
  push_range-Gives next s r inside allowed =
      let reports : Reports next s.ranges (next ∷ s.ranges) = record {
        zeroed = λ x. refl;
        sparse = refl;
      } in
      elim (Bool-cases (leb max_zero_filled_ranges (length s.ranges))) [
        | inl full ↦ rw full (tt, r)
        | inr room ↦ rw room (
          widened next s (next ∷ s.ranges) r reports (inside, r.inside) (allowed, r.allowed),
          reports,
          refl,
          refl,
        )
      ]

  join_range-Gives :
      (last : ZeroFilledRange) (rest : List ZeroFilledRange) (next : ZeroFilledRange) (s : Stream)
      → s.ranges ≡ last ∷ rest
      → Right plan disk s
      → next.logical_offset + next.len ≤ plan.logical_size
      → last.logical_offset + last.len ≡ next.logical_offset
      → last.reason ≡ next.reason
      → Gives plan disk (Appended next s) (join_range last rest next s)
  unfolding join_range expect_add
  join_range-Gives last rest next s same r inside meet reason =
      let joined = record last { len = last.len + next.len } in
      let old_inside : All (λ z. z.logical_offset + z.len ≤ plan.logical_size) (last ∷ rest) =
        rw same at (r.inside) in
      let old_allowed : All (λ z. refuses plan.policy z.reason ≡ false) (last ∷ rest) =
        rw same at (r.allowed) in
      let fits : leb (last.len + next.len) u64_max ≡ true = ground arith in
      let reports : Reports next s.ranges (joined ∷ rest) = record {
        zeroed = λ x. let both = joined_zeroed last next x meet in rw same (ground arith);
        sparse = rw (same, reason) (ground arith);
      } in
      rw (fits, join_range, expect_add)
        (
          widened next s (joined ∷ rest) r reports (omega arith, old_inside.1)
              (old_allowed.0, old_allowed.1),
          reports,
          refl,
          refl,
        )

  append_to-Gives :
      (ranges : List ZeroFilledRange) (next : ZeroFilledRange) (s : Stream)
      → s.ranges ≡ ranges
      → Right plan disk s
      → next.logical_offset + next.len ≤ plan.logical_size
      → refuses plan.policy next.reason ≡ false
      → Gives plan disk (Appended next s) (append_to ranges next s)
  unfolding append_to join_range expect_add
  append_to-Gives [] next s same r inside allowed = push_range-Gives next s r inside allowed
  append_to-Gives (last ∷ rest) next s same r inside allowed =
      let old_inside : All (λ z. z.logical_offset + z.len ≤ plan.logical_size) (last ∷ rest) =
        rw same at (r.inside) in
      let fits : leb (last.logical_offset + last.len) u64_max ≡ true =
        let first = old_inside.0 in ground arith in
      elim (Bool-cases (last.logical_offset + last.len == next.logical_offset)) [
        | inr apart ↦ rw (fits, expect_add, apart) (push_range-Gives next s r inside allowed)
        | inl meet ↦ elim (Bool-cases (same_reason last.reason next.reason)) [
          | inr other ↦
              rw (fits, expect_add, meet, other) (push_range-Gives next s r inside allowed)
          | inl equal ↦
              rw (fits, expect_add, meet, equal)
                (join_range-Gives last rest next s same r inside (ground arith)
                  (same_reason_sound last.reason next.reason equal))
        ]
      ]

  pub append_zero_range-Gives :
      (next : ZeroFilledRange) (s : Stream)
      → Right plan disk s
      → next.logical_offset + next.len ≤ plan.logical_size
      → refuses plan.policy next.reason ≡ false
      → Gives plan disk (Appended next s) (append_zero_range next s)
  unfolding append_zero_range
  append_zero_range-Gives next s r inside allowed =
      append_to-Gives s.ranges next s refl r inside allowed
