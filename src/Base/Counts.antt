-- ===== src/Base/Counts.antt =====
-- How many positions of a range pass a test: the reference for sums of lengths of intervals.
use Prim.Native.Nat.{ℕ, zero, suc, ◌+◌, ◌≤◌, ◌<◌}
use mathlib.Core.Path.{◌≡◌, refl}
use mathlib.Core.Bool.{Bool, true, false, not}
use mathlib.Core.Logic.{inl, inr}
use native.Mathlib.Omega.{arith}
use undelete_master.Base.Tests.{◌==◌, if◌then◌else◌, Bool-cases}

test_eq : (f : ℕ → Bool) (a b : ℕ) → a ≡ b → f a ≡ f b
test_eq f a b e = rw e refl

-- Of the `n` positions from `a` on.
unfoldable pub count : ℕ → ℕ → (ℕ → Bool) → ℕ
count a zero test = 0
count a (suc n) test = (if test a then 1 else 0) + count (suc a) n test

pub count_eq :
    (a n : ℕ) (f g : ℕ → Bool)
    → ((p : ℕ) → a ≤ p → p < a + n → f p ≡ g p)
    → count a n f ≡ count a n g
unfolding count
count_eq a zero f g h = refl
count_eq a (suc n) f g h =
    ground (arith, h a, count_eq (suc a) n f g (λ p l k. h p (omega arith) (omega arith)))

pub count_add : (m n a : ℕ) (f : ℕ → Bool) → count a (m + n) f ≡ count a m f + count (a + m) n f
unfolding count
count_add zero n a f = ground arith
count_add (suc m) n a f =
    let e : suc m + n ≡ suc (m + n) = omega arith in
    let e' : a + suc m ≡ suc a + m = omega arith in
    rw (e, e') (ground (arith, count_add m n (suc a) f))

pub count-true :
    (a n : ℕ) (f : ℕ → Bool) → ((p : ℕ) → a ≤ p → p < a + n → f p ≡ true) → count a n f ≡ n
unfolding count
count-true a zero f h = refl
count-true a (suc n) f h =
    ground (arith, h a, count-true (suc a) n f (λ p l k. h p (omega arith) (omega arith)))

pub count-false :
    (a n : ℕ) (f : ℕ → Bool) → ((p : ℕ) → a ≤ p → p < a + n → f p ≡ false) → count a n f ≡ 0
unfolding count
count-false a zero f h = refl
count-false a (suc n) f h =
    ground (arith, h a, count-false (suc a) n f (λ p l k. h p (omega arith) (omega arith)))

pub count_le : (a n : ℕ) (f : ℕ → Bool) → count a n f ≤ n
unfolding count
count_le a zero f = omega arith
count_le a (suc n) f = ground (arith, count_le (suc a) n f)

-- A range that is not full has a first gap.
pub count_gap :
    (a n : ℕ) (f : ℕ → Bool) → count a n f < n → (p : ℕ) × (a ≤ p) × (p < a + n) × (f p ≡ false)
unfolding count
count_gap a zero f h = absurd (omega arith)
count_gap a (suc n) f h = elim (Bool-cases (f a)) [
  | inl t ↦
      let (p, l, k, e) = count_gap (suc a) n f (ground arith) in (p, omega arith, omega arith, e)
  | inr t ↦ (a, omega arith, omega arith, t)
]

pub count_full : (a n : ℕ) (f : ℕ → Bool) (p : ℕ) → n ≤ count a n f → a ≤ p → p < a + n → f p ≡ true
unfolding count
count_full a zero f p h l k = absurd (omega arith)
count_full a (suc n) f p h l k =
    ground (arith, count_full (suc a) n f p, count_le (suc a) n f, test_eq f a p)

pub count_pos : (a n : ℕ) (f : ℕ → Bool) (p : ℕ) → a ≤ p → p < a + n → f p ≡ true → 0 < count a n f
unfolding count
count_pos a zero f p l k e = absurd (omega arith)
count_pos a (suc n) f p l k e = elim (Bool-cases (f a)) [
  | inl t ↦ ground arith
  | inr t ↦ elim (Bool-cases (p == a)) [
    | inl q ↦ let q' : p ≡ a = ground arith in absurd (cc)
    | inr q ↦ ground (arith, count_pos (suc a) n f p)
  ]
]

abbrev pub bit : Bool → ℕ
bit true = 1
bit false = 0

-- Two tests that never hold together.
pub count_sum :
    (a n : ℕ) (f g h : ℕ → Bool)
    → ((p : ℕ) → bit (h p) ≡ bit (f p) + bit (g p))
    → count a n h ≡ count a n f + count a n g
unfolding count
count_sum a zero f g h e = refl
count_sum a (suc n) f g h e = ground (arith, e a, count_sum (suc a) n f g h e)

pub count-not : (a n : ℕ) (f : ℕ → Bool) → count a n f + count a n (λ p. not (f p)) ≡ n
unfolding count
count-not a zero f = refl
count-not a (suc n) f = ground (arith, count-not (suc a) n f)
