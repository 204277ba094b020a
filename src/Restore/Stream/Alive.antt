-- ===== src/Restore/Stream/Alive.antt =====
-- The steps of crates/restore/src/stream.rs that go on: a writer that takes all, a probe that says no
-- and a source without a bad sector.
use undelete_master.Base.{
  ℕ, suc, ◌+◌, ◌-◌, ◌≤◌, ◌≡◌, inl, inr, refl, Bool, true, false, ◌&&◌, List, [], ◌∷◌, length, All,
  leb, ◌==◌, Result, ok, err, ◌>>=◌, Bool-cases, u64_max, arith,
}
use undelete_master.Candidate.{sort_unstable, merge_intervals}
use undelete_master.Source.{SourceReader, complete}
use undelete_master.Restore.Errors.{same_reason}
use undelete_master.Restore.Plan.{ContentPlan}
use undelete_master.Restore.Output.{
  ZeroFilledRange, StreamFailure, Stream, max_zero_filled_ranges, expect_add, cancelled_by,
  check_cancel, committed, commit, write_calls, write_committed, push_range, join_range, append_to,
  append_zero_range,
}
use undelete_master.Restore.Stream.{
  is_inside, ends, sum_checked, normalize_bad_ranges, fill_zeros, settle_bad, lift, read_chunk,
}
use undelete_master.Restore.Stream.Meaning.{Right, Gives, Gives-map, At}
use undelete_master.Restore.Stream.Writing.{Still, check_cancel-Gives}

-- A step that succeeds, with a property of its value.
abbrev pub Succeeds {ℓ κ} : {E : Type ℓ} {A : Type κ} → (A → Type 0) → Result E A → Type 0
Succeeds Q (ok a) = Q a
Succeeds Q (err _) = ⊥

pub Succeeds-bind {ℓ κ ι} :
    {E : Type ℓ} {A : Type κ} {B : Type ι} (P : A → Type 0) (Q : B → Type 0) (r : Result E A)
    (next : A → Result E B)
    → Succeeds P r
    → ((a : A) → P a → Succeeds Q (next a))
    → Succeeds Q (r >>= next)
Succeeds-bind P Q (ok a) next h k = k a h
Succeeds-bind P Q (err e) next h k = absurd h

pub Succeeds-map {ℓ κ} :
    {E : Type ℓ} {A : Type κ} (P Q : A → Type 0) (r : Result E A)
    → Succeeds P r
    → ((a : A) → P a → Q a)
    → Succeeds Q r
Succeeds-map P Q (ok a) h k = k a h
Succeeds-map P Q (err e) h k = absurd h

-- What a step that succeeds gives is also what every step of its kind gives.
pub Succeeds-Gives {ℓ} :
    (plan : ContentPlan) (disk : ℕ → ℕ) {A : Type ℓ} (P Q : A → Type 0)
    (r : Result (StreamFailure × Stream) A)
    → Succeeds P r
    → Gives plan disk Q r
    → Succeeds (λ a. P a × Q a) r
Succeeds-Gives plan disk P Q (ok a) h k = (h, k)
Succeeds-Gives plan disk P Q (err e) h k = absurd h

-- The writer takes all, the probe says no, and at most so many ranges are reported.
abbrev pub Alive : ℕ → Stream → Type 0
Alive n s = (s.calls ≡ []) × All (λ answer. answer ≡ false) s.answers × (length s.ranges ≤ n)

cancelled_by_goes :
    (answers : List Bool) (n : ℕ) (s : Stream)
    → s.answers ≡ answers
    → Alive n s
    → Succeeds (Alive n) (cancelled_by answers s)
unfolding cancelled_by
cancelled_by_goes [] n s same h = h
cancelled_by_goes (answer ∷ answers) n s same (calls, quiet, few) =
    let (silent, rest) : All (λ a. a ≡ false) (answer ∷ answers) = rw same at quiet in
    rw silent (calls, rest, few)

pub check_cancel_goes : (n : ℕ) (s : Stream) → Alive n s → Succeeds (Alive n) (check_cancel s)
unfolding check_cancel
check_cancel_goes n s h = cancelled_by_goes s.answers n s refl h

normalize_bad_ranges-complete : (n : ℕ) → normalize_bad_ranges n (complete n) ≡ ok []
unfolding normalize_bad_ranges complete is_inside sort_unstable ends merge_intervals sum_checked
normalize_bad_ranges-complete n =
    let few : leb 0 n ≡ true = ground arith in
    let whole : (n == n - 0) ≡ true = ground arith in rw (few, whole) refl

module _ (plan : ContentPlan) (disk : ℕ → ℕ) (sized : plan.logical_size ≤ u64_max) where
  check_cancel-At :
      (a : ℕ) (s : Stream) → At plan disk a s → Gives plan disk (At plan disk a) (check_cancel s)
  check_cancel-At a s h =
      Gives-map plan disk (Still plan disk sized a s) (At plan disk a) (check_cancel s)
        (check_cancel-Gives plan disk sized a s h) (λ s1 (h1, _). h1)

  -- A check between two steps.
  pub check_cancel_both :
      (n a : ℕ) (s : Stream)
      → Alive n s
      → At plan disk a s
      → Succeeds (λ s1. Alive n s1 × At plan disk a s1) (check_cancel s)
  check_cancel_both n a s h at =
      Succeeds-Gives plan disk (Alive n) (At plan disk a) (check_cancel s) (check_cancel_goes n s h)
        (check_cancel-At a s at)

  write_calls_goes :
      (n a : ℕ) (bytes : List ℕ) (s : Stream)
      → Alive n s
      → At plan disk a s
      → a + length bytes ≤ plan.logical_size
      → Succeeds (Alive n) (write_calls plan.logical_size [] bytes s)
  unfolding write_calls commit committed
  write_calls_goes n a [] s (calls, quiet, few) h room = (refl, quiet, few)
  write_calls_goes n a (b ∷ bytes) s (calls, quiet, few) h room =
      let s0 = record s { calls = [] } in
      Succeeds-bind (λ s1. Alive n s1 × At plan disk a s1) (Alive n) (check_cancel s0) _
        (check_cancel_both n a s0 (refl, quiet, few) h)
        (λ s1 (h1, (r, long, _)).
          let counted = r.counted in
          let fits : leb (s1.bytes_written + length (b ∷ bytes)) u64_max ≡ true = ground arith in
          rw (fits, commit) h1)

  pub write_committed_goes :
      (n a : ℕ) (bytes : List ℕ) (s : Stream)
      → Alive n s
      → At plan disk a s
      → a + length bytes ≤ plan.logical_size
      → Succeeds (Alive n) (write_committed plan.logical_size bytes s)
  unfolding write_committed
  write_committed_goes n a bytes s (calls, quiet, few) h room =
      simp calls (write_calls_goes n a bytes s (calls, quiet, few) h room)

  append_to_goes :
      (n : ℕ) (ranges : List ZeroFilledRange) (next : ZeroFilledRange) (s : Stream)
      → s.ranges ≡ ranges
      → Right plan disk s
      → next.logical_offset + next.len ≤ plan.logical_size
      → suc n ≤ max_zero_filled_ranges
      → Alive n s
      → Succeeds (Alive (suc n)) (append_to ranges next s)
  unfolding append_to push_range join_range expect_add
  append_to_goes n [] next s same r inside room (calls, quiet, few) =
      let open_end : leb max_zero_filled_ranges (length s.ranges) ≡ false = ground arith in
      rw open_end (calls, quiet, omega arith)
  append_to_goes n (last ∷ rest) next s same r inside room (calls, quiet, few) =
      let old_inside : All (λ z. z.logical_offset + z.len ≤ plan.logical_size) (last ∷ rest) =
        rw same at (r.inside) in
      let few' : length (last ∷ rest) ≤ n = rw same at few in
      let fits : leb (last.logical_offset + last.len) u64_max ≡ true =
        let first = old_inside.0 in ground arith in
      let open_end : leb max_zero_filled_ranges (length s.ranges) ≡ false = ground arith in
      elim (Bool-cases (
        last.logical_offset + last.len == next.logical_offset
        && same_reason last.reason next.reason)) [
          | inr apart ↦ rw (fits, expect_add, apart, open_end) (calls, quiet, omega arith)
          | inl meet ↦
              let grown : leb (last.len + next.len) u64_max ≡ true = ground arith in
              rw (fits, expect_add, meet, grown) (calls, quiet, omega arith)
        ]

  -- One more range at most.
  pub append_zero_range_goes :
      (n : ℕ) (next : ZeroFilledRange) (s : Stream)
      → Right plan disk s
      → next.logical_offset + next.len ≤ plan.logical_size
      → suc n ≤ max_zero_filled_ranges
      → Alive n s
      → Succeeds (Alive (suc n)) (append_zero_range next s)
  unfolding append_zero_range
  append_zero_range_goes n next s r inside room (calls, quiet, few) =
      append_to_goes n s.ranges next s refl r inside room (calls, quiet, few)

  module _ (source : SourceReader) where
    -- No bad sector, wherever the source is read.
    pub read_chunk_goes :
        (m a physical n : ℕ) (s : Stream)
        → Alive m s
        → At plan disk a s
        → a + n ≤ plan.logical_size
        → length (source.read_best_effort_at physical n).1 ≡ n
        → (source.read_best_effort_at physical n).0 ≡ complete n
        → Succeeds (Alive m) (read_chunk source plan a physical n s)
    unfolding read_chunk lift settle_bad fill_zeros
    read_chunk_goes m a physical n s h at room size whole =
        let scratch = (source.read_best_effort_at physical n).1 in
        rw (whole, normalize_bad_ranges-complete n)
          (write_committed_goes m a scratch s h at (omega arith))
