-- ===== src/Restore/Stream/Meaning.antt =====
-- What the output of crates/restore/src/stream.rs is to hold, and what every step keeps of it.
use undelete_master.Base.{
  ℕ, ◌+◌, ◌-◌, ◌≤◌, ◌<◌, ◌≡◌, ◌⊎◌, Bool, true, false, not, ◌&&◌, ◌||◌, some, List, [], ◌∷◌, any,
  all, length, get_elem?, All, leb, ltb, Result, ok, err, ◌>>=◌,
}
use undelete_master.Restore.Errors.{ZeroFillReason, same_reason}
use undelete_master.Restore.Plan.{ContentSegment, ContentPlan, refuses}
use undelete_master.Restore.Output.{ZeroFilledRange, StreamFailure, Stream}

-- A segment that is read has position `x` of the file at this place of the disk.
abbrev pub ReadFrom : List ContentSegment → ℕ → ℕ → Type 0
ReadFrom [] x place = ⊥
ReadFrom (ContentSegment.read l p n ∷ segments) x place =
    ((l ≤ x) × (x < l + n) × (place ≡ p + (x - l))) ⊎ ReadFrom segments x place
ReadFrom (ContentSegment.zeros l n reason ∷ segments) x place = ReadFrom segments x place

abbrev pub is_zeroed : ℕ → ZeroFilledRange → Bool
is_zeroed x z = leb z.logical_offset x && ltb x (z.logical_offset + z.len)

abbrev pub is_sparse_range : ZeroFilledRange → Bool
is_sparse_range z = same_reason z.reason ZeroFillReason.sparse

-- The byte is the one of the disk that the plan names, or a zero that is reported.
abbrev pub IsByteOf : List ContentSegment → (ℕ → ℕ) → List ZeroFilledRange → ℕ → ℕ → Type 0
IsByteOf segments disk ranges x b =
    ((place : ℕ) × ReadFrom segments x place × (b ≡ disk place))
    ⊎ ((b ≡ 0) × (any (is_zeroed x) ranges ≡ true))

-- What holds of an output, of the count of its bytes and of the reported ranges at any time.
pub record IsRight (plan : ContentPlan) (disk : ℕ → ℕ) (written : List ℕ) (bytes_written : ℕ)
    (ranges : List ZeroFilledRange) : Type 0 where
  pub counted : bytes_written ≡ length written
  pub fits : length written ≤ plan.logical_size
  pub right : (x b : ℕ) → get_elem? written x ≡ some b → IsByteOf plan.segments disk ranges x b
  pub inside : All (λ z. z.logical_offset + z.len ≤ plan.logical_size) ranges
  pub allowed : All (λ z. refuses plan.policy z.reason ≡ false) ranges

abbrev pub NoPanic : StreamFailure → Type 0
NoPanic (StreamFailure.refused _) = Unit {0}
NoPanic StreamFailure.panicked = ⊥

module _ (plan : ContentPlan) (disk : ℕ → ℕ) where
  abbrev pub Right : Stream → Type 0
  Right s = IsRight plan disk s.written s.bytes_written s.ranges

  -- A step gives a value with a property, or stops without a panic and with an output that is right.
  abbrev pub Gives {ℓ} : {A : Type ℓ} → (A → Type 0) → Result (StreamFailure × Stream) A → Type 0
  Gives Q (ok a) = Q a
  Gives Q (err (failure, s)) = NoPanic failure × Right s

  pub Gives-bind {ℓ κ} :
      {A : Type ℓ} {B : Type κ} (P : A → Type 0) (Q : B → Type 0)
      (r : Result (StreamFailure × Stream) A) (next : A → Result (StreamFailure × Stream) B)
      → Gives P r
      → ((a : A) → P a → Gives Q (next a))
      → Gives Q (r >>= next)
  Gives-bind P Q (ok a) next h k = k a h
  Gives-bind P Q (err (failure, s)) next h k = h

  pub Gives-map {ℓ} :
      {A : Type ℓ} (P Q : A → Type 0) (r : Result (StreamFailure × Stream) A)
      → Gives P r
      → ((a : A) → P a → Q a)
      → Gives Q r
  Gives-map P Q (ok a) h k = k a h
  Gives-map P Q (err (failure, s)) h k = h

  -- Zeros that are not of a sparse extent are flagged, and the flag of the plan stays.
  abbrev pub is_flagged : Stream → Bool
  is_flagged s =
      (all is_sparse_range s.ranges || s.requires_best_effort)
      && (not plan.requires_best_effort || s.requires_best_effort)

  -- So many bytes are written.
  abbrev pub At : ℕ → Stream → Type 0
  At a s = Right s × (length s.written ≡ a) × (is_flagged s ≡ true)
