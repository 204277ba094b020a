-- ===== src/Extract/Ranges.antt =====
-- The vectors of crates/core/src/extract.rs, position by position.
use undelete_master.Base.{
  ℕ, zero, suc, ◌+◌, ◌-◌, ◌≤◌, ◌<◌, min, ◌≡◌, refl, ◌∙◌, ap, Bool, true, false, not, ◌&&◌, ◌||◌,
  none, some, List, [], ◌∷◌, any, ltb, leb, ◌==◌, length, replicate, arith, saturating_add,
}
use undelete_master.Extract.{set, mark, mark_bad, cover_good, uncovered_ranges}

-- The value at a position, `false` behind the end.
pub test_at : List Bool → ℕ → Bool
test_at [] p = false
test_at (c ∷ cs) zero = c
test_at (c ∷ cs) (suc p) = test_at cs p

pub test_at-replicate : (n p : ℕ) → test_at (replicate n false) p ≡ false
unfolding test_at
test_at-replicate zero p = refl
test_at-replicate (suc n) zero = refl
test_at-replicate (suc n) (suc p) = test_at-replicate n p

pub length-mark : (i lo hi : ℕ) (cs : List Bool) → length (mark i lo hi cs) ≡ length cs
unfolding mark
length-mark i lo hi [] = refl
length-mark i lo hi (c ∷ cs) = ap suc (length-mark (suc i) lo hi cs)

test_at-mark_from :
    (i lo hi : ℕ) (cs : List Bool) (p : ℕ)
    → p < length cs
    → test_at (mark i lo hi cs) p ≡ (test_at cs p || leb lo (i + p) && ltb (i + p) hi)
unfolding mark test_at
test_at-mark_from i lo hi [] p h = absurd (omega arith)
test_at-mark_from i lo hi (c ∷ cs) zero h = ground arith
test_at-mark_from i lo hi (c ∷ cs) (suc p) h =
    test_at-mark_from (suc i) lo hi cs p (omega arith) ∙ ground arith

pub test_at-mark :
    (lo hi : ℕ) (cs : List Bool) (p : ℕ)
    → p < length cs
    → test_at (mark 0 lo hi cs) p ≡ (test_at cs p || leb lo p && ltb p hi)
test_at-mark lo hi cs p h = test_at-mark_from 0 lo hi cs p h ∙ ground arith

-- The position lies in a range, cut at `read_len`.
abbrev pub in_range : ℕ → ℕ × ℕ → Bool
in_range p (roff, rlen) = leb roff p && ltb p (saturating_add roff rlen)

pub length-mark_bad :
    (read_len : ℕ) (ranges : List (ℕ × ℕ)) (bad : List Bool)
    → length (mark_bad read_len ranges bad) ≡ length bad
unfolding mark_bad
length-mark_bad read_len [] bad = refl
length-mark_bad read_len ((roff, rlen) ∷ ranges) bad =
    length-mark_bad read_len ranges _
    ∙ length-mark 0 (min roff read_len) (min (saturating_add roff rlen) read_len) bad

pub test_at-mark_bad :
    (read_len : ℕ) (ranges : List (ℕ × ℕ)) (bad : List Bool) (p : ℕ)
    → p < length bad
    → p < read_len
    → test_at (mark_bad read_len ranges bad) p ≡ (test_at bad p || any (in_range p) ranges)
unfolding mark_bad
test_at-mark_bad read_len [] bad p h k = ground arith
test_at-mark_bad read_len ((roff, rlen) ∷ ranges) bad p h k =
    let lo = min roff read_len in
    let hi = min (saturating_add roff rlen) read_len in
    let more = test_at-mark_bad read_len ranges (mark 0 lo hi bad) p (rw length-mark h) k in
    ground (arith, more, test_at-mark lo hi bad p h)

pub length-set {ℓ} : {A : Type ℓ} (xs : List A) (i : ℕ) (v : A) → length (set xs i v) ≡ length xs
unfolding set
length-set [] i v = refl
length-set (x ∷ xs) zero v = refl
length-set (x ∷ xs) (suc i) v = ap suc (length-set xs i v)

test_at-set :
    (cs : List Bool) (i p : ℕ)
    → p < length cs
    → test_at (set cs i true) p ≡ (test_at cs p || p == i)
unfolding set test_at
test_at-set [] i p h = absurd (omega arith)
test_at-set (c ∷ cs) zero zero h = ground arith
test_at-set (c ∷ cs) zero (suc p) h = ground arith
test_at-set (c ∷ cs) (suc i) zero h = ground arith
test_at-set (c ∷ cs) (suc i) (suc p) h = test_at-set cs i p (omega arith) ∙ ground arith

pub length-cover_good :
    (i : ℕ) (bad covered : List Bool) → length (cover_good i bad covered) ≡ length covered
unfolding cover_good
length-cover_good i [] covered = refl
length-cover_good i (true ∷ bad) covered = length-cover_good (suc i) bad covered
length-cover_good i (false ∷ bad) covered =
    length-cover_good (suc i) bad (set covered i true) ∙ length-set covered i true

-- The tests of a vector that begins at `i`, from its second on.
later :
    (c : Bool) (cs : List Bool) (i p : ℕ)
    → (p ≡ i → test_at (c ∷ cs) (p - i) ≡ c)
      × (i < p → test_at (c ∷ cs) (p - i) ≡ test_at cs (p - suc i))
unfolding test_at
later c cs i p = (
  λ e. let z : p - i ≡ 0 = omega arith in rw z refl,
  λ h. let z : p - i ≡ suc (p - suc i) = omega arith in rw z refl,
)

pub test_at-cover_good :
    (i : ℕ) (bad covered : List Bool) (p : ℕ)
    → p < length covered
    → test_at (cover_good i bad covered) p
      ≡ (test_at covered p || leb i p && ltb p (i + length bad) && not (test_at bad (p - i)))
unfolding cover_good
test_at-cover_good i [] covered p h = ground arith
test_at-cover_good i (true ∷ bad) covered p h =
    ground (arith, test_at-cover_good (suc i) bad covered p h, later true bad i p)
test_at-cover_good i (false ∷ bad) covered p h = ground (
  arith,
  test_at-cover_good (suc i) bad (set covered i true) p (rw length-set h),
  test_at-set covered i p h,
  later false bad i p,
)

-- The ranges that are collected hold the positions that are not covered.
abbrev pub in_missing : ℕ → ℕ × ℕ → Bool
in_missing p (start, len) = leb start p && ltb p (start + len)

-- The position is in the vector that begins at `i`, and not covered there.
pub open_at : ℕ → List Bool → ℕ → Bool
open_at i covered p = leb i p && ltb p (i + length covered) && not (test_at covered (p - i))

open_at-nil : (i p : ℕ) → open_at i [] p ≡ false
unfolding open_at
open_at-nil i p = ground arith

open_at-cons :
    (i : ℕ) (c : Bool) (covered : List Bool) (p : ℕ)
    → open_at i (c ∷ covered) p ≡ (p == i && not c || open_at (suc i) covered p)
unfolding open_at
open_at-cons i c covered p = ground (arith, later c covered i p)

between : ℕ → ℕ → ℕ → Bool
between start i p = leb start p && ltb p i

between-suc : (start i p : ℕ) → start ≤ i → between start (suc i) p ≡ (between start i p || p == i)
unfolding between
between-suc start i p h = ground arith

between_self : (i p : ℕ) → between i i p ≡ false
unfolding between
between_self i p = ground arith

in_missing-between :
    (start i p : ℕ) → start ≤ i → in_missing p (start, i - start) ≡ between start i p
unfolding between
in_missing-between start i p h = ground arith

-- The range that is being followed, and what comes after it.
uncovered_ranges_lem :
    (i : ℕ) (covered : List Bool) (p : ℕ)
    → (any (in_missing p) (uncovered_ranges none i covered) ≡ open_at i covered p)
      × ((start : ℕ)
          → start ≤ i
          → any (in_missing p) (uncovered_ranges (some start) i covered)
            ≡ (between start i p || open_at i covered p))
unfolding uncovered_ranges
uncovered_ranges_lem i [] p = (
  ground (arith, open_at-nil i p),
  λ start h. rw (in_missing-between start i p h, open_at-nil i p) refl,
)
uncovered_ranges_lem i (true ∷ covered) p =
    let ih = uncovered_ranges_lem (suc i) covered p in
    (
      ground (arith, ih.0, open_at-cons i true covered p),
      λ start h.
          rw (in_missing-between start i p h, ih.0, open_at-cons i true covered p) (ground arith),
    )
uncovered_ranges_lem i (false ∷ covered) p =
    let ih = uncovered_ranges_lem (suc i) covered p in
    let cons = open_at-cons i false covered p in
    (
      rw (ih.1 i (omega arith), cons, between-suc i i p (omega arith), between_self i p)
          (ground arith),
      λ start h. rw (ih.1 start (omega arith), cons, between-suc start i p h) (ground arith),
    )

-- The ranges that are collected hold exactly the positions that are not covered.
pub in_missing-uncovered_ranges :
    (covered : List Bool) (p : ℕ)
    → p < length covered
    → any (in_missing p) (uncovered_ranges none 0 covered) ≡ not (test_at covered p)
unfolding open_at
in_missing-uncovered_ranges covered p h =
    let here : p - 0 ≡ p = omega arith in
    (uncovered_ranges_lem 0 covered p).0 ∙ rw here (ground arith)
