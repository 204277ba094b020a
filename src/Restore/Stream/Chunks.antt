-- ===== src/Restore/Stream/Chunks.antt =====
-- The bad ranges of a chunk in crates/restore/src/stream.rs, and the zeros that stand for them.
use undelete_master.Base.{
  ℕ, zero, suc, ◌+◌, ◌-◌, ◌≤◌, ◌<◌, ◌≡◌, ◌⊎◌, ◌∙◌, inl, inr, refl, ap, Bool, true, false, ◌&&◌,
  some, List, [], ◌∷◌, ◌++◌, map, any, all, length, length-append, length-take, length-drop,
  length-replicate, get_elem?, take, drop, replicate, leb, ltb, ◌==◌, ok, ok-injective, guard-ok,
  ok_or, >>=-eq-ok, Bool-cases, arith,
}
use undelete_master.Candidate.{sort_unstable, insert_sorted, merge_intervals, pair_le}
use undelete_master.Candidate.Intervals.{
  holds, IsSeparated, AllInside, merge_intervals-sort_unstable,
}
use undelete_master.Source.{ReadOutcome}
use undelete_master.Restore.Errors.{RestoreError}
use undelete_master.Restore.Stream.{is_inside, ends, sum_checked, normalize_bad_ranges, fill_zeros}
use undelete_master.Restore.Stream.Writing.{get_elem?-append, get_elem?-take, get_elem?-drop}

-- The position of the buffer is one that the read did not deliver.
abbrev pub is_bad : ℕ → ℕ × ℕ → Bool
is_bad i (offset, n) = leb offset i && ltb i (offset + n)

pub get_elem?-lt : (xs : List ℕ) (i b : ℕ) → get_elem? xs i ≡ some b → i < length xs
get_elem?-lt [] i b h = absurd (cc)
get_elem?-lt (x ∷ xs) zero b h = omega arith
get_elem?-lt (x ∷ xs) (suc i) b h = omega (arith, get_elem?-lt xs i b h)

pub get_elem?-replicate : (n a i b : ℕ) → get_elem? (replicate n a) i ≡ some b → b ≡ a
get_elem?-replicate zero a i b h = absurd (cc)
get_elem?-replicate (suc n) a zero b h = cc
get_elem?-replicate (suc n) a (suc i) b h = get_elem?-replicate n a i b h

-- One range of zeros in a buffer.
abbrev filled : ℕ → ℕ → List ℕ → List ℕ
filled start stop bytes = take start bytes ++ (replicate (stop - start) 0 ++ drop stop bytes)

length-filled :
    (start stop : ℕ) (bytes : List ℕ)
    → start ≤ stop
    → stop ≤ length bytes
    → length (filled start stop bytes) ≡ length bytes
length-filled start stop bytes h k = omega (
  arith,
  length-append (take start bytes) (replicate (stop - start) 0 ++ drop stop bytes),
  length-append (replicate (stop - start) 0) (drop stop bytes),
  length-take start bytes,
  length-drop stop bytes,
  length-replicate {A = ℕ} (stop - start) 0,
)

filled_at :
    (start stop : ℕ) (bytes : List ℕ) (i b : ℕ)
    → start ≤ stop
    → stop ≤ length bytes
    → get_elem? (filled start stop bytes) i ≡ some b
    → ((holds i (start, stop) ≡ true) × (b ≡ 0))
      ⊎ ((holds i (start, stop) ≡ false) × (get_elem? bytes i ≡ some b))
filled_at start stop bytes i b h k e =
    let before = length-take start bytes in
    let between = length-replicate {A = ℕ} (stop - start) 0 in
    elim (get_elem?-append (take start bytes) (replicate (stop - start) 0 ++ drop stop bytes) i b
      e) [
        | inl first ↦
            let place = get_elem?-lt (take start bytes) i b first in
            inr (ground arith, get_elem?-take start bytes i b first)
        | inr (j, same, rest) ↦
            elim (get_elem?-append (replicate (stop - start) 0) (drop stop bytes) j b rest) [
              | inl zeros ↦
                  let place = get_elem?-lt (replicate (stop - start) 0) j b zeros in
                  inl (ground arith, get_elem?-replicate (stop - start) 0 j b zeros)
              | inr (m, same', last) ↦
                  let place : i ≡ stop + m = omega arith in
                  inr (ground arith, rw (place, ← get_elem?-drop stop bytes m) last)
            ]
      ]

pub length-fill_zeros :
    (size a : ℕ) (ranges : List (ℕ × ℕ)) (bytes : List ℕ)
    → length bytes ≡ size
    → IsSeparated size a ranges
    → length (fill_zeros ranges bytes) ≡ size
unfolding fill_zeros
length-fill_zeros size a [] bytes h s = h
length-fill_zeros size a ((start, stop) ∷ ranges) bytes h (_, below, inside, rest) =
    length-fill_zeros size (suc stop) ranges (filled start stop bytes)
      (length-filled start stop bytes (omega arith) (omega arith) ∙ h) rest

-- A byte of the buffer is a zero in a bad range, or as it was read.
pub fill_zeros_at :
    (size a : ℕ) (ranges : List (ℕ × ℕ)) (bytes : List ℕ) (i b : ℕ)
    → length bytes ≡ size
    → IsSeparated size a ranges
    → get_elem? (fill_zeros ranges bytes) i ≡ some b
    → ((any (holds i) ranges ≡ true) × (b ≡ 0))
      ⊎ ((any (holds i) ranges ≡ false) × (get_elem? bytes i ≡ some b))
unfolding fill_zeros
fill_zeros_at size a [] bytes i b h s e = inr (refl, e)
fill_zeros_at size a ((start, stop) ∷ ranges) bytes i b h (_, below, inside, rest) e =
    elim (fill_zeros_at size (suc stop) ranges (filled start stop bytes) i b
      (length-filled start stop bytes (omega arith) (omega arith) ∙ h) rest e) [
        | inl (bad, zero_byte) ↦ inl (ground arith, zero_byte)
        | inr (good, there) ↦
            elim (filled_at start stop bytes i b (omega arith) (omega arith) there) [
              | inl (bad, zero_byte) ↦ inl (ground arith, zero_byte)
              | inr (apart, kept) ↦ inr (ground arith, kept)
            ]
      ]

insert_sorted-ends :
    (x : ℕ × ℕ) (xs : List (ℕ × ℕ))
    → map ends (insert_sorted x xs) ≡ insert_sorted (ends x) (map ends xs)
unfolding insert_sorted ends
insert_sorted-ends x [] = refl
insert_sorted-ends (a, n) ((b, m) ∷ xs) =
    let rest = insert_sorted-ends (a, n) xs in
    let same : pair_le (a, a + n) (b, b + m) ≡ pair_le (a, n) (b, m) = ground arith in
    elim (Bool-cases (pair_le (a, n) (b, m))) [
      | inl t ↦ rw (same, t) refl
      | inr t ↦ rw (same, t) (ap (◌∷◌ (b, b + m)) rest)
    ]

sort_unstable-ends : (xs : List (ℕ × ℕ)) → map ends (sort_unstable xs) ≡ sort_unstable (map ends xs)
unfolding sort_unstable
sort_unstable-ends [] = refl
sort_unstable-ends (x ∷ xs) =
    insert_sorted-ends x (sort_unstable xs) ∙ ap (insert_sorted (ends x)) (sort_unstable-ends xs)

all_inside : (n : ℕ) (xs : List (ℕ × ℕ)) → all (is_inside n) xs ≡ true → AllInside n (map ends xs)
unfolding is_inside ends
all_inside n [] h = tt
all_inside n ((a, m) ∷ xs) h =
    let rest = all_inside n xs in (ground arith, ground arith, rest (ground arith))

any-ends : (i : ℕ) (xs : List (ℕ × ℕ)) → any (holds i) (map ends xs) ≡ any (is_bad i) xs
unfolding ends
any-ends i [] = refl
any-ends i ((a, m) ∷ xs) = rw (any-ends i xs) refl

-- The intervals that come out hold just the positions that the read reports, and lie apart.
pub normalize_bad_ranges-ok :
    (n : ℕ) (outcome : ReadOutcome) (ranges : List (ℕ × ℕ))
    → normalize_bad_ranges n outcome ≡ ok ranges
    → IsSeparated n 0 ranges × ((i : ℕ) → any (holds i) ranges ≡ any (is_bad i) outcome.bad_ranges)
unfolding normalize_bad_ranges
normalize_bad_ranges-ok n outcome ranges e =
    let bad = outcome.bad_ranges in
    let merged = merge_intervals (map ends (sort_unstable bad)) in
    let (_, e1) = guard-ok (leb (length bad) n) _ _ e in
    let (inside, e2) = guard-ok (all (is_inside n) bad) _ _ e1 in
    let (total, _, e3) =
      >>=-eq-ok (ok_or (sum_checked 0 merged) (RestoreError.invalid_read_outcome n)) _ e2 in
    let (_, e4) = guard-ok (outcome.bytes_valid == n - total) _ _ e3 in
    let (same, apart) = merge_intervals-sort_unstable n (map ends bad) (all_inside n bad inside) in
    rw (← ok-injective e4, sort_unstable-ends bad) (apart, λ i. same i ∙ any-ends i bad)
