-- ===== src/Candidate/Coverage.antt =====
-- What `covered_len` and `has_missing_ranges` of crates/core/src/candidate.rs measure.
use undelete_master.Base.{
  ℕ, suc, ◌+◌, ◌-◌, ◌≤◌, ◌<◌, min, ◌≡◌, refl, inl, inr, Bool, true, false, List, [], ◌∷◌, any, ltb,
  arith, Bool-cases, saturating_add, u64_max, ap, sym, ltb→lt, ◌∙◌,
}
use undelete_master.Base.Words.{IsU64}
use undelete_master.Base.Counts.{
  count, count_add, count_eq, count-true, count-false, count_le, count_gap, count_full,
}
use undelete_master.Candidate.{
  Candidate, sum_lengths, covered_len, has_missing_ranges, normalized_logical_intervals,
}
use undelete_master.Candidate.Intervals.{
  holds, in_extent, IsSeparated, normalized_logical_intervals_lem,
}

total : List (ℕ × ℕ) → ℕ
total [] = 0
total ((a, b) ∷ xs) = (b - a) + total xs

sum_lengths_lem :
    (covered : ℕ) (xs : List (ℕ × ℕ))
    → covered ≤ u64_max
    → sum_lengths covered xs ≡ min (covered + total xs) u64_max
unfolding sum_lengths total
sum_lengths_lem covered [] h = omega arith
sum_lengths_lem covered ((a, b) ∷ xs) h =
    sum_lengths_lem (saturating_add covered (b - a)) xs (omega arith) ∙ omega arith

holds_none :
    (size a p : ℕ) (xs : List (ℕ × ℕ)) → IsSeparated size a xs → p < a → any (holds p) xs ≡ false
holds_none size a p [] s h = refl
holds_none size a p ((b, c) ∷ xs) s h = ground (arith, holds_none size (suc c) p xs s.3)

holds_first :
    (size b c p : ℕ) (xs : List (ℕ × ℕ))
    → IsSeparated size (suc c) xs
    → p ≤ c
    → any (holds p) ((b, c) ∷ xs) ≡ holds p (b, c)
holds_first size b c p xs s h = ground (arith, holds_none size (suc c) p xs s)

-- The range from `a` to `size`, cut at the ends of the first interval and behind its gap.
count_cut :
    (a b c size : ℕ) (f : ℕ → Bool)
    → a ≤ b
    → b ≤ c
    → c < size
    → count a (size - a) f
      ≡ count a (b - a) f + (count b (c - b) f + (count c 1 f + count (suc c) (size - suc c) f))
count_cut a b c size f h k l =
    let e : size - a ≡ (b - a) + ((c - b) + (1 + (size - suc c))) = omega arith in
    let e1 : a + (b - a) ≡ b = omega arith in
    let e2 : b + (c - b) ≡ c = omega arith in
    let e3 : c + 1 ≡ suc c = omega arith in
    rw
      (
        e,
        count_add (b - a) ((c - b) + (1 + (size - suc c))) a f,
        e1,
        count_add (c - b) (1 + (size - suc c)) b f,
        e2,
        count_add 1 (size - suc c) c f,
        e3,
      )
      refl

count_cut_last :
    (a b size : ℕ) (f : ℕ → Bool)
    → a ≤ b
    → b ≤ size
    → count a (size - a) f ≡ count a (b - a) f + count b (size - b) f
count_cut_last a b size f h k =
    let e : size - a ≡ (b - a) + (size - b) = omega arith in
    let e1 : a + (b - a) ≡ b = omega arith in rw (e, count_add (b - a) (size - b) a f, e1) refl

first_part :
    (size b c : ℕ) (xs : List (ℕ × ℕ))
    → IsSeparated size (suc c) xs
    → count b (c - b) (λ p. any (holds p) ((b, c) ∷ xs)) ≡ c - b
first_part size b c xs s = count-true b (c - b) _ (λ p l k. ground arith)

before_part :
    (size a b c : ℕ) (xs : List (ℕ × ℕ))
    → b ≤ c
    → IsSeparated size (suc c) xs
    → count a (b - a) (λ p. any (holds p) ((b, c) ∷ xs)) ≡ 0
before_part size a b c xs h s =
    count-false a (b - a) _ (λ p l k. holds_first size b c p xs s (omega arith) ∙ ground arith)

gap_part :
    (size b c : ℕ) (xs : List (ℕ × ℕ))
    → IsSeparated size (suc c) xs
    → count c 1 (λ p. any (holds p) ((b, c) ∷ xs)) ≡ 0
gap_part size b c xs s =
    count-false c 1 _ (λ p l k. holds_first size b c p xs s (omega arith) ∙ ground arith)

rest_part :
    (b c n : ℕ) (xs : List (ℕ × ℕ))
    → count (suc c) n (λ p. any (holds p) ((b, c) ∷ xs)) ≡ count (suc c) n (λ p. any (holds p) xs)
rest_part b c n xs = count_eq (suc c) n _ _ (λ p l k. ground arith)

sub-zero : (n : ℕ) → n - 0 ≡ n
sub-zero n = omega arith

total-eq-count :
    (size a : ℕ) (xs : List (ℕ × ℕ))
    → IsSeparated size a xs
    → total xs ≡ count a (size - a) (λ p. any (holds p) xs)
unfolding total
total-eq-count size a [] s = sym (count-false a (size - a) _ (λ p l k. refl))
total-eq-count size a ((b, c) ∷ xs) s =
    let ih = total-eq-count size (suc c) xs s.3 in
    let f : ℕ → Bool = λ p. any (holds p) ((b, c) ∷ xs) in
    elim (Bool-cases (ltb c size)) [
      | inl t ↦
          let parts = count_cut a b c size f s.0 (omega arith) (ground arith) in
          omega (
            arith,
            parts,
            before_part size a b c xs (omega arith) s.3,
            first_part size b c xs s.3,
            gap_part size b c xs s.3,
            rest_part b c (size - suc c) xs,
          )
      | inr t ↦
          let e : c ≡ size = ground arith in
          let parts = count_cut_last a b size f s.0 (omega arith) in
          let none_left = count_le (suc c) (size - suc c) (λ p. any (holds p) xs) in
          let first : count b (size - b) f ≡ size - b = rw (← e) (first_part size b c xs s.3) in
          omega (arith, parts, before_part size a b c xs (omega arith) s.3, first)
    ]

total_whole :
    (size : ℕ) (xs : List (ℕ × ℕ))
    → IsSeparated size 0 xs
    → total xs ≡ count 0 size (λ p. any (holds p) xs)
total_whole size xs s =
    total-eq-count size 0 xs s ∙ ap (λ n. count 0 n (λ p. any (holds p) xs)) (sub-zero size)

-- The length that is covered counts each position of the file that some extent covers, once.
pub covered_len-eq-count :
    (self : Candidate)
    → IsU64 self.size
    → covered_len self ≡ count 0 self.size (λ p. any (in_extent self.size p) self.extents)
unfolding covered_len
covered_len-eq-count self h =
    let xs = normalized_logical_intervals self.extents self.size in
    let (same, apart) = normalized_logical_intervals_lem self.extents self.size in
    let counted = total_whole self.size xs apart in
    let agree = count_eq 0 self.size (λ p. any (holds p) xs) _ (λ p l k. same p) in
    let few = count_le 0 self.size (λ p. any (in_extent self.size p) self.extents) in
    omega (arith, sum_lengths_lem 0 xs (omega arith), counted, agree, few)

-- For a file whose size fits 64 bits: ranges are missing exactly when some position inside the file
-- is in no extent, however the extents overlap. The test finds one, or every position is covered.
pub has_missing_ranges_iff :
    (self : Candidate)
    → IsU64 self.size
    → (has_missing_ranges self ≡ true
        → (p : ℕ) × (p < self.size) × (any (in_extent self.size p) self.extents ≡ false))
      × (has_missing_ranges self ≡ false
          → (p : ℕ) → p < self.size
          → any (in_extent self.size p) self.extents ≡ true)
unfolding has_missing_ranges
has_missing_ranges_iff self h =
    let covered = λ (p : ℕ). any (in_extent self.size p) self.extents in
    let measure = covered_len-eq-count self h in
    (
      λ t.
          let (p, l, k, e) =
            count_gap 0 self.size covered
              (omega (arith, measure, ltb→lt (covered_len self) self.size t)) in
          (p, omega arith, e),
      λ t p l. count_full 0 self.size covered p (ground arith) (omega arith) (omega arith),
    )
