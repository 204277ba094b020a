-- ===== src/Score/Sweep.antt =====
-- The sweep of crates/core/src/score.rs: what its segments weigh under a test of their classes.
use undelete_master.Base.{
  ℕ, zero, suc, ◌+◌, ◌-◌, ◌≤◌, ◌<◌, ◌≡◌, refl, Bool, true, false, ◌&&◌, List, [], ◌∷◌, length, ltb,
  ◌==◌, if◌then◌else◌, arith, Bool-cases, inl, inr, ◌∙◌, ap, sym,
}
use mathlib.Core.Path.{fun_ext}
use undelete_master.Base.Counts.{count, count_add, count_eq, count-true, count-false}
use undelete_master.Score.{Event, Segment, apply_event, any_active, take_position, sweep, sweep_all}
use undelete_master.Score.Levels.{
  level, SortedFrom, NoEarlyEnd, Closes, Inside, level_nil, Closes-nil, level_before, level_after,
  apply_event-NoEarlyEnd, apply_event-Closes,
}

-- The sweep, one event at a time.
sweep_each : ℕ → (ℕ → ℕ) → List Event → List Segment
sweep_each previous active [] = []
sweep_each previous active (e ∷ es) =
    let rest = sweep_each e.position (apply_event e active) es in
    if ltb previous e.position && any_active active
    then record { first = previous; last = e.position; active = λ class. ltb 0 (active class) }
      ∷ rest
    else rest

take_position-length :
    (p : ℕ) (active : ℕ → ℕ) (es : List Event) → length (take_position p active es).1 ≤ length es
unfolding take_position
take_position-length p active [] = omega arith
take_position-length p active (e ∷ es) =
    ground (arith, take_position-length p (apply_event e active) es)

sweep_each_same :
    (p : ℕ) (active : ℕ → ℕ) (e : Event) (es : List Event)
    → e.position ≡ p
    → sweep_each p active (e ∷ es) ≡ sweep_each p (apply_event e active) es
unfolding sweep_each
sweep_each_same p active e es q =
    let same : ltb p e.position ≡ false = ground arith in
    simp same (ap (λ n. sweep_each n (apply_event e active) es) q)

take_position-sweep_each :
    (p : ℕ) (active : ℕ → ℕ) (es : List Event)
    → sweep_each p (take_position p active es).0 (take_position p active es).1
      ≡ sweep_each p active es
unfolding take_position sweep_each
take_position-sweep_each p active [] = refl
take_position-sweep_each p active (e ∷ es) = elim (Bool-cases (e.position == p)) [
  | inl t ↦
      rw t (take_position-sweep_each p (apply_event e active) es)
      ∙ sym (sweep_each_same p active e es (ground arith))
  | inr t ↦ rw t refl
]

take_position_first :
    (active : ℕ → ℕ) (e : Event) (es : List Event)
    → take_position e.position active (e ∷ es) ≡ take_position e.position (apply_event e active) es
unfolding take_position
take_position_first active e es =
    let same : (e.position == e.position) ≡ true = ground arith in rw same refl

sweep-eq-sweep_each :
    (rounds previous : ℕ) (active : ℕ → ℕ) (es : List Event)
    → length es ≤ rounds
    → sweep rounds previous active es ≡ sweep_each previous active es
unfolding sweep sweep_each
sweep-eq-sweep_each zero previous active [] h = refl
sweep-eq-sweep_each zero previous active (e ∷ es) h = absurd (omega arith)
sweep-eq-sweep_each (suc rounds) previous active [] h = refl
sweep-eq-sweep_each (suc rounds) previous active (e ∷ es) h =
    let p = e.position in
    let taken = take_position p (apply_event e active) es in
    let shorter = take_position-length p (apply_event e active) es in
    let rest =
      sweep-eq-sweep_each rounds p taken.0 taken.1 (omega arith)
      ∙ take_position-sweep_each p (apply_event e active) es in
    rw (take_position_first active e es, rest) refl

-- The length of the segments whose classes pass the test.
unfoldable pub weigh : ((ℕ → Bool) → Bool) → List Segment → ℕ
weigh test [] = 0
weigh test (s ∷ segments) = (if test s.active then s.last - s.first else 0) + weigh test segments

-- The classes that are open at a position, put to the test.
abbrev pub passes : ((ℕ → Bool) → Bool) → (ℕ → ℕ) → Bool
passes test active = any_active active && test (λ class. ltb 0 (active class))

at_level : ((ℕ → Bool) → Bool) → (ℕ → ℕ) → List Event → ℕ → Bool
at_level test active es x = passes test (λ class. level active class x es)

at_level_before :
    (test : (ℕ → Bool) → Bool) (active : ℕ → ℕ) (p x : ℕ) (es : List Event)
    → SortedFrom p es
    → x < p
    → at_level test active es x ≡ passes test active
unfolding at_level
at_level_before test active p x es s h =
    ap (passes test) (fun_ext (λ class. level_before active class x p es s h))

at_level_after :
    (test : (ℕ → Bool) → Bool) (size : ℕ) (active : ℕ → ℕ) (e : Event) (es : List Event) (x : ℕ)
    → SortedFrom e.position es
    → NoEarlyEnd active (e ∷ es)
    → Closes size active (e ∷ es)
    → e.position ≤ size
    → e.position ≤ x
    → at_level test (apply_event e active) es x ≡ at_level test active (e ∷ es) x
unfolding at_level
at_level_after test size active e es x s sound closes inside h =
    ap (passes test)
      (fun_ext (λ class. level_after size active e es class x s sound closes inside h))

count_const :
    (b : Bool) (a n : ℕ) (f : ℕ → Bool)
    → ((p : ℕ) → a ≤ p → p < a + n → f p ≡ b)
    → count a n f ≡ (if b then n else 0)
count_const true a n f h = count-true a n f h
count_const false a n f h = count-false a n f h

-- What one event adds to the weight.
weigh_step :
    (test : (ℕ → Bool) → Bool) (previous : ℕ) (active : ℕ → ℕ) (e : Event) (es : List Event)
    → previous ≤ e.position
    → weigh test (sweep_each previous active (e ∷ es))
      ≡ (if passes test active then e.position - previous else 0)
        + weigh test (sweep_each e.position (apply_event e active) es)
unfolding sweep_each weigh
weigh_step test previous active e es h = elim (Bool-cases (any_active active)) [
  | inl t ↦ rw t (ground arith)
  | inr t ↦ rw t (ground arith)
]

count_split :
    (a b c : ℕ) (f : ℕ → Bool)
    → a ≤ b
    → b ≤ c
    → count a (c - a) f ≡ count a (b - a) f + count b (c - b) f
count_split a b c f h k =
    let e : c - a ≡ (b - a) + (c - b) = omega arith in
    let e' : a + (b - a) ≡ b = omega arith in rw (e, count_add (b - a) (c - b) a f, e') refl

at_level_end :
    (test : (ℕ → Bool) → Bool) (size : ℕ) (active : ℕ → ℕ) (x : ℕ)
    → Closes size active []
    → at_level test active [] x ≡ false
unfolding at_level any_active
at_level_end test size active x closes =
    let none_open : (λ class. level active class x []) ≡ (λ class. 0) =
      fun_ext (λ class. level_nil active class x ∙ Closes-nil size active class closes) in
    ap (passes test) none_open

weigh-sweep_each :
    (test : (ℕ → Bool) → Bool) (size previous : ℕ) (active : ℕ → ℕ) (es : List Event)
    → SortedFrom previous es
    → Inside size es
    → NoEarlyEnd active es
    → Closes size active es
    → weigh test (sweep_each previous active es)
      ≡ count previous (size - previous) (at_level test active es)
unfolding weigh sweep_each
weigh-sweep_each test size previous active [] s inside sound closes = sym (
    count-false previous (size - previous) (at_level test active [])
      (λ p l k. at_level_end test size active p closes))
weigh-sweep_each test size previous active (e ∷ es) s inside sound closes =
    let ih =
      weigh-sweep_each test size e.position (apply_event e active) es s.1 inside.1
        (apply_event-NoEarlyEnd size active e es s.1 sound closes inside.0)
        (apply_event-Closes size active e es s.1 sound closes inside.0) in
    let n = e.position - previous in
    let here = count_const (passes test active) previous n (at_level test active (e ∷ es)) (λ p l k.
      at_level_before test active e.position p (e ∷ es) ((omega arith, s.1)) (omega arith)) in
    let there =
      count_eq e.position (size - e.position) (at_level test (apply_event e active) es)
        (at_level test active (e ∷ es))
        (λ p l k. at_level_after test size active e es p s.1 sound closes inside.0 l) in
    omega (
      arith,
      weigh_step test previous active e es s.0,
      count_split previous e.position size (at_level test active (e ∷ es)) s.0 inside.0,
      ih,
      here,
      there,
    )

sweep_each_start :
    (e : Event) (es : List Event)
    → sweep_each e.position (λ class. 0) (e ∷ es) ≡ sweep_each 0 (λ class. 0) (e ∷ es)
unfolding sweep_each any_active
sweep_each_start e es =
    let same : ltb e.position e.position ≡ false = ground arith in
    elim (Bool-cases (ltb 0 e.position)) [ inl t ↦ rw (same, t) refl | inr t ↦ rw (same, t) refl ]

sub-zero : (n : ℕ) → n - 0 ≡ n
sub-zero n = omega arith

-- The weight of the whole sweep, over events in order that close.
pub weigh-sweep_all :
    (test : (ℕ → Bool) → Bool) (size : ℕ) (es : List Event)
    → SortedFrom 0 es
    → Inside size es
    → NoEarlyEnd (λ class. 0) es
    → Closes size (λ class. 0) es
    → weigh test (sweep_all es)
      ≡ count 0 size (λ x. passes test (λ class. level (λ c. 0) class x es))
unfolding sweep_all at_level sweep_each
weigh-sweep_all test size [] s inside sound closes =
    weigh-sweep_each test size 0 (λ class. 0) [] s inside sound closes
    ∙ ap (λ n. count 0 n (at_level test (λ class. 0) [])) (sub-zero size)
weigh-sweep_all test size (e ∷ es) s inside sound closes =
    let events = e ∷ es in
    ap (weigh test) (
      sweep-eq-sweep_each (length events) e.position (λ class. 0) events (omega arith)
      ∙ sweep_each_start e es)
    ∙ weigh-sweep_each test size 0 (λ class. 0) events s inside sound closes
    ∙ ap (λ n. count 0 n (at_level test (λ class. 0) events)) (sub-zero size)
