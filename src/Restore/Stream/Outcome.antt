-- ===== src/Restore/Stream/Outcome.antt =====
-- The two ends of `stream_candidate` of crates/restore/src/stream.rs: its first state, and what an
-- outcome says.
use undelete_master.Base.{
  ℕ, ◌+◌, ◌≤◌, ◌≡◌, inl, inr, refl, Bool, true, false, ◌&&◌, ◌||◌, some, List, [], ◌∷◌, any, all,
  length, get_elem?, All, ◌==◌, ok, err, Bool-cases, arith,
}
use undelete_master.Restore.Plan.{ContentPlan, refuses}
use undelete_master.Restore.Output.{ZeroFilledRange, Stream, Step, WriteCall}
use undelete_master.Restore.Stream.{
  StreamOutcome, validated_ranges, same_digest, stream_start, reversed, finish_stream,
}
use undelete_master.Restore.Stream.Meaning.{is_zeroed, is_sparse_range, IsByteOf, Right, Gives, At}

any-reversed :
    (p : ZeroFilledRange → Bool) (xs rest : List ZeroFilledRange)
    → any p (reversed xs rest) ≡ (any p xs || any p rest)
unfolding reversed
any-reversed p [] rest = refl
any-reversed p (x ∷ xs) rest = let later = any-reversed p xs (x ∷ rest) in ground arith

all-reversed :
    (p : ZeroFilledRange → Bool) (xs rest : List ZeroFilledRange)
    → all p (reversed xs rest) ≡ (all p xs && all p rest)
unfolding reversed
all-reversed p [] rest = refl
all-reversed p (x ∷ xs) rest = let later = all-reversed p xs (x ∷ rest) in ground arith

All-reversed :
    (P : ZeroFilledRange → Type 0) (xs rest : List ZeroFilledRange)
    → All P xs
    → All P rest
    → All P (reversed xs rest)
unfolding reversed
All-reversed P [] rest h k = k
All-reversed P (x ∷ xs) rest (first, h) k = All-reversed P xs (x ∷ rest) h (first, k)

-- What an outcome says of the output that stands behind it.
pub record IsDelivered (plan : ContentPlan) (disk : ℕ → ℕ) (sha256 : List ℕ → List ℕ)
    (written : List ℕ) (outcome : StreamOutcome) : Type 0 where
  pub counted : outcome.bytes_written ≡ plan.logical_size
  pub sized : length written ≡ plan.logical_size
  pub right :
      (x b : ℕ)
      → get_elem? written x ≡ some b
      → IsByteOf plan.segments disk outcome.zero_filled_ranges x b
  pub digest : outcome.sha256 ≡ sha256 written
  pub expected : same_digest plan.expected_sha256 (sha256 written) ≡ true
  pub inside : All (λ z. z.logical_offset + z.len ≤ plan.logical_size) outcome.zero_filled_ranges
  pub allowed : All (λ z. refuses plan.policy z.reason ≡ false) outcome.zero_filled_ranges
  pub flagged :
      (all is_sparse_range outcome.zero_filled_ranges || outcome.requires_best_effort) ≡ true

module _ (plan : ContentPlan) (disk : ℕ → ℕ) (sha256 : List ℕ → List ℕ) where
  pub finish_stream-Gives :
      (s : Stream)
      → At plan disk plan.logical_size s
      → Gives plan disk
          (λ outcome. IsDelivered plan disk sha256 s.written outcome)
          (finish_stream sha256 plan s)
  unfolding finish_stream
  finish_stream-Gives s (r, long, flag) =
      let counted = r.counted in
      let full : (s.bytes_written == plan.logical_size) ≡ true = ground arith in
      elim (Bool-cases (same_digest plan.expected_sha256 (sha256 s.written))) [
        | inr other ↦ rw (full, other) (tt, r)
        | inl same ↦
            rw (full, same)
              (record {
                counted = omega arith;
                sized = long;
                right = λ x b e. elim (r.right x b e) [
                  | inl from_disk ↦ inl from_disk
                  | inr (zero_byte, covered) ↦
                      inr (
                        zero_byte,
                        let all = any-reversed (is_zeroed x) s.ranges [] in ground arith,
                      )
                ];
                digest = refl;
                expected = same;
                inside = All-reversed _ s.ranges [] r.inside tt;
                allowed = All-reversed _ s.ranges [] r.allowed tt;
                flagged = let sparse = all-reversed is_sparse_range s.ranges [] in ground arith;
              })
      ]

  -- Before the first byte.
  pub stream_start-At :
      (calls : List WriteCall) (answers : List Bool)
      → At plan disk 0 (stream_start calls answers plan.requires_best_effort)
  unfolding stream_start
  stream_start-At calls answers = (
    record {
      counted = refl;
      fits = omega arith;
      right = λ x b e. absurd (cc);
      inside = tt;
      allowed = tt;
    },
    refl,
    ground arith,
  )

  pub validated_ranges-Gives :
      (s : Stream) (step : Step)
      → Right plan disk s
      → Gives plan disk (Right plan disk) step
      → Gives plan disk (λ s'. s' ≡ s) (validated_ranges s step)
  unfolding validated_ranges
  validated_ranges-Gives s (ok _) r h = refl
  validated_ranges-Gives s (err (failure, _)) r h = (h.0, r)
