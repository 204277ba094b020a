-- ===== src/Restore/Path/Limits.antt =====
-- The checks of crates/restore/src/path.rs that `derive_for_recovery` makes, with what they refuse.
use undelete_master.Base.{
  ℕ, ◌==◌, false, ◌+◌, ◌≤◌, ◌<◌, ◌≡◌, inl, inr, refl, ltb, leb, Result, ok, err, Bool-cases,
  checked_add, u64_max, ok_or, ◌>>=◌, arith,
}
use undelete_master.Restore.Path.{
  PathSafetyError, PathFailure, max_safe_path_components, max_safe_path_utf16,
  max_path_evidence_bytes_per_item, separator, checked, validate_depth, checked_path_length,
}
use undelete_master.Restore.Path.Recovered.{Names}

-- A step gives a value with a property, or refuses with such an error; it does not panic.
abbrev pub Gives {ℓ} :
    {A : Type ℓ} → (PathSafetyError → Type 0) → (A → Type 0) → Result PathFailure A → Type 0
Gives L P (ok a) = P a
Gives L P (err (PathFailure.refused e)) = L e
Gives L P (err PathFailure.panicked) = ⊥

pub Gives-bind {ℓ κ} :
    (L : PathSafetyError → Type 0) {A : Type ℓ} {B : Type κ} (P : A → Type 0) (Q : B → Type 0)
    (r : Result PathFailure A) (next : A → Result PathFailure B)
    → Gives L P r
    → ((a : A) → P a → Gives L Q (next a))
    → Gives L Q (r >>= next)
Gives-bind L P Q (ok a) next h k = k a h
Gives-bind L P Q (err (PathFailure.refused e)) next h k = h
Gives-bind L P Q (err PathFailure.panicked) next h k = h

pub Gives-map {ℓ} :
    (L L' : PathSafetyError → Type 0) {A : Type ℓ} (P : A → Type 0) (r : Result PathFailure A)
    → Gives L P r
    → ((e : PathSafetyError) → L e → L' e)
    → Gives L' P r
Gives-map L L' P (ok a) h k = h
Gives-map L L' P (err (PathFailure.refused e)) h k = k e h
Gives-map L L' P (err PathFailure.panicked) h k = h

-- The errors of one check: the number that is over its limit.
abbrev pub IsLong : ℕ → PathSafetyError → Type 0
IsLong total e =
    Names PathSafetyError.excessive_path_length max_safe_path_utf16 e
    × (max_safe_path_utf16 < total)

abbrev pub IsDeep : ℕ → PathSafetyError → Type 0
IsDeep n e =
    Names PathSafetyError.excessive_depth max_safe_path_components e
    × (max_safe_path_components < n)

abbrev pub IsFull : ℕ → PathSafetyError → Type 0
IsFull n e =
    Names PathSafetyError.evidence_budget_exceeded max_path_evidence_bytes_per_item e
    × (max_path_evidence_bytes_per_item < n)

pub length-Gives :
    (current len index : ℕ)
    → Gives
        (IsLong (current + (separator index + len)))
        (λ total. (total ≡ current + (separator index + len)) × (total ≤ max_safe_path_utf16))
        (checked (checked_path_length current len index))
unfolding checked checked_path_length
length-Gives current len index = elim (Bool-cases (leb (current + separator index) u64_max)) [
  | inr e ↦ rw e ((_, refl), ground arith)
  | inl e ↦ elim (Bool-cases (leb (current + separator index + len) u64_max)) [
    | inr f ↦ rw (e, f) ((_, refl), ground arith)
    | inl f ↦ elim (Bool-cases (ltb max_safe_path_utf16 (current + separator index + len))) [
      | inl g ↦ rw (e, f, g) ((_, refl), ground arith)
      | inr g ↦ rw (e, f, g) (ground arith, ground arith)
    ]
  ]
]

pub depth-Gives :
    (n : ℕ)
    → Gives
        (IsDeep (n + 1))
        (λ _. n + 1 ≤ max_safe_path_components)
        (checked (validate_depth (n + 1)))
unfolding checked validate_depth
depth-Gives n =
    let some_component : (n + 1 == 0) ≡ false = ground arith in
    elim (Bool-cases (ltb max_safe_path_components (n + 1))) [
      | inl f ↦ rw (some_component, f) ((_, refl), ground arith)
      | inr f ↦ rw (some_component, f) (ground arith)
    ]

pub count-Gives :
    (n : ℕ)
    → Gives
        (IsDeep (n + 1))
        (λ count. count ≡ n + 1)
        (ok_or
          (checked_add n 1)
          (PathFailure.refused (PathSafetyError.excessive_depth u64_max max_safe_path_components)))
count-Gives n = elim (Bool-cases (leb (n + 1) u64_max)) [
  | inl e ↦ rw e refl
  | inr e ↦ rw e ((_, refl), ground arith)
]
