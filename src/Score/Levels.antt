-- ===== src/Score/Levels.antt =====
-- The events of crates/core/src/score.rs counted up to a position: how many extents of a class are
-- open there.
use undelete_master.Base.{
  ℕ, suc, ◌+◌, ◌-◌, ◌≤◌, ◌<◌, ◌≡◌, refl, not, false, ◌&&◌, List, [], ◌∷◌, any, length, ltb, ◌==◌,
  if◌then◌else◌, arith, Bool-cases, inl, inr, u64_max,
}
use undelete_master.Candidate.{ExtentRun, clipped_start, clipped_end}
use undelete_master.Candidate.Intervals.{in_extent}
use undelete_master.Score.{
  Event, apply_event, insert_event, sort_events, extent_events, availability_index,
}

-- The starts and the ends of a class before a position.
pub ups : ℕ → ℕ → List Event → ℕ
ups class x [] = 0
ups class x (e ∷ es) =
    (if e.starts && class == e.class && ltb e.position x then 1 else 0) + ups class x es

pub downs : ℕ → ℕ → List Event → ℕ
downs class x [] = 0
downs class x (e ∷ es) =
    (if not e.starts && class == e.class && ltb e.position x then 1 else 0) + downs class x es

-- How many are open at a position, where `active` are open before the events.
abbrev pub level : (ℕ → ℕ) → ℕ → ℕ → List Event → ℕ
level active class x es = active class + ups class (suc x) es - downs class (suc x) es

abbrev pub SortedFrom : ℕ → List Event → Type 0
SortedFrom p [] = Unit {0}
SortedFrom p (e ∷ es) = (p ≤ e.position) × SortedFrom e.position es

-- Nothing ends that has not started before.
abbrev pub NoEarlyEnd : (ℕ → ℕ) → List Event → Type 0
NoEarlyEnd active es = (class x : ℕ) → downs class (suc x) es ≤ active class + ups class x es

-- All that starts has ended at `size`, and the counters stay within a `usize`.
abbrev pub Closes : ℕ → (ℕ → ℕ) → List Event → Type 0
Closes size active es =
    (class : ℕ)
    → (active class + ups class (suc size) es ≡ downs class (suc size) es)
      × (active class + ups class (suc size) es ≤ u64_max)

abbrev pub Inside : ℕ → List Event → Type 0
Inside size [] = Unit {0}
Inside size (e ∷ es) = (e.position ≤ size) × Inside size es

pub ups_below : (class x p : ℕ) (es : List Event) → SortedFrom p es → x ≤ p → ups class x es ≡ 0
unfolding ups
ups_below class x p [] s h = refl
ups_below class x p (e ∷ es) s h = ground (arith, ups_below class x e.position es s.1)

pub downs_below : (class x p : ℕ) (es : List Event) → SortedFrom p es → x ≤ p → downs class x es ≡ 0
unfolding downs
downs_below class x p [] s h = refl
downs_below class x p (e ∷ es) s h = ground (arith, downs_below class x e.position es s.1)

-- Before the next event the counters are what they are.
pub level_before :
    (active : ℕ → ℕ) (class x p : ℕ) (es : List Event)
    → SortedFrom p es
    → x < p
    → level active class x es ≡ active class
level_before active class x p es s h =
    omega (arith, ups_below class (suc x) p es s, downs_below class (suc x) p es s)

pub level_nil : (active : ℕ → ℕ) (class x : ℕ) → level active class x [] ≡ active class
unfolding ups downs
level_nil active class x = omega arith

pub Closes-nil : (size : ℕ) (active : ℕ → ℕ) (class : ℕ) → Closes size active [] → active class ≡ 0
unfolding ups downs
Closes-nil size active class closes = omega (arith, (closes class).0)

-- An end finds its counter above 0.
open_at_end :
    (active : ℕ → ℕ) (e : Event) (es : List Event)
    → SortedFrom e.position es
    → NoEarlyEnd active (e ∷ es)
    → e.starts ≡ false
    → 0 < active e.class
unfolding ups downs
open_at_end active e es s sound t =
    ground (arith, sound e.class e.position, ups_below e.class e.position e.position es s)

pub level_after :
    (size : ℕ) (active : ℕ → ℕ) (e : Event) (es : List Event) (class x : ℕ)
    → SortedFrom e.position es
    → NoEarlyEnd active (e ∷ es)
    → Closes size active (e ∷ es)
    → e.position ≤ size
    → e.position ≤ x
    → level (apply_event e active) class x es ≡ level active class x (e ∷ es)
unfolding apply_event ups downs
level_after size active e es class x s sound closes inside h = elim (Bool-cases e.starts) [
  | inl t ↦ ground (arith, (closes class).1)
  | inr t ↦ ground (arith, open_at_end active e es s sound t)
]

pub apply_event-NoEarlyEnd :
    (size : ℕ) (active : ℕ → ℕ) (e : Event) (es : List Event)
    → SortedFrom e.position es
    → NoEarlyEnd active (e ∷ es)
    → Closes size active (e ∷ es)
    → e.position ≤ size
    → NoEarlyEnd (apply_event e active) es
unfolding apply_event ups downs
apply_event-NoEarlyEnd size active e es s sound closes inside class x = elim (Bool-cases e.starts) [
  | inl t ↦ ground (arith, sound class x, closes class, downs_below class (suc x) e.position es s)
  | inr t ↦ ground (
    arith,
    sound class x,
    downs_below class (suc x) e.position es s,
    open_at_end active e es s sound t,
  )
]

pub apply_event-Closes :
    (size : ℕ) (active : ℕ → ℕ) (e : Event) (es : List Event)
    → SortedFrom e.position es
    → NoEarlyEnd active (e ∷ es)
    → Closes size active (e ∷ es)
    → e.position ≤ size
    → Closes size (apply_event e active) es
unfolding apply_event ups downs
apply_event-Closes size active e es s sound closes inside class = elim (Bool-cases e.starts) [
  | inl t ↦ ground (arith, closes class)
  | inr t ↦ ground (arith, closes class, open_at_end active e es s sound t)
]

insert_event-SortedFrom :
    (p : ℕ) (x : Event) (es : List Event)
    → p ≤ x.position
    → SortedFrom p es
    → SortedFrom p (insert_event x es)
unfolding insert_event
insert_event-SortedFrom p x [] h s = (h, tt)
insert_event-SortedFrom p x (e ∷ es) h s = ground (arith, insert_event-SortedFrom e.position x es)

pub sort_events-SortedFrom : (es : List Event) → SortedFrom 0 (sort_events es)
unfolding sort_events
sort_events-SortedFrom [] = tt
sort_events-SortedFrom (e ∷ es) =
    insert_event-SortedFrom 0 e (sort_events es) (omega arith) (sort_events-SortedFrom es)

ups-insert_event :
    (class x : ℕ) (e : Event) (es : List Event)
    → ups class x (insert_event e es) ≡ ups class x (e ∷ es)
unfolding insert_event ups
ups-insert_event class x e [] = refl
ups-insert_event class x e (d ∷ es) = ground (arith, ups-insert_event class x e es)

downs-insert_event :
    (class x : ℕ) (e : Event) (es : List Event)
    → downs class x (insert_event e es) ≡ downs class x (e ∷ es)
unfolding insert_event downs
downs-insert_event class x e [] = refl
downs-insert_event class x e (d ∷ es) = ground (arith, downs-insert_event class x e es)

pub ups-sort_events :
    (class x : ℕ) (es : List Event) → ups class x (sort_events es) ≡ ups class x es
unfolding sort_events ups
ups-sort_events class x [] = refl
ups-sort_events class x (e ∷ es) =
    omega (arith, ups-insert_event class x e (sort_events es), ups-sort_events class x es)

pub downs-sort_events :
    (class x : ℕ) (es : List Event) → downs class x (sort_events es) ≡ downs class x es
unfolding sort_events downs
downs-sort_events class x [] = refl
downs-sort_events class x (e ∷ es) =
    omega (arith, downs-insert_event class x e (sort_events es), downs-sort_events class x es)

insert_event-Inside :
    (size : ℕ) (x : Event) (es : List Event)
    → x.position ≤ size
    → Inside size es
    → Inside size (insert_event x es)
unfolding insert_event
insert_event-Inside size x [] h s = (h, tt)
insert_event-Inside size x (e ∷ es) h s = ground (arith, insert_event-Inside size x es)

pub sort_events-Inside :
    (size : ℕ) (es : List Event) → Inside size es → Inside size (sort_events es)
unfolding sort_events
sort_events-Inside size [] s = tt
sort_events-Inside size (e ∷ es) s =
    insert_event-Inside size e (sort_events es) s.0 (sort_events-Inside size es s.1)

-- How many extents of a class hold a position of the file.
pub opens : ℕ → ℕ → ℕ → List ExtentRun → ℕ
opens size class x [] = 0
opens size class x (e ∷ es) =
    (if in_extent size x e && class == availability_index e.availability then 1 else 0)
    + opens size class x es

pub opens-any :
    (size p : ℕ) (class : ℕ) (es : List ExtentRun)
    → ltb 0 (opens size class p es)
      ≡ any (λ x. in_extent size p x && class == availability_index x.availability) es
unfolding opens
opens-any size p class [] = refl
opens-any size p class (e ∷ es) = ground (arith, opens-any size p class es)

-- The events of the extents, with the starts before a position and the ends up to it.
extent_events_lem :
    (size class x : ℕ) (es : List ExtentRun)
    → let events = extent_events es size in
      (downs class (suc x) events ≤ ups class x events)
      × (ups class (suc x) events ≡ downs class (suc x) events + opens size class x es)
unfolding extent_events ups downs opens clipped_start clipped_end
extent_events_lem size class x [] = (omega arith, omega arith)
extent_events_lem size class x (e ∷ es) = ground (arith, extent_events_lem size class x es)

-- No extent is open at the end of the file, and every event lies within it.
extent_events_bounds :
    (size class : ℕ) (es : List ExtentRun)
    → let events = extent_events es size in
      (opens size class size es ≡ 0)
      × (ups class (suc size) events ≤ length es)
      × Inside size events
unfolding extent_events ups opens clipped_start clipped_end
extent_events_bounds size class [] = (refl, omega arith, tt)
extent_events_bounds size class (e ∷ es) = ground (arith, extent_events_bounds size class es)

-- The sorted events of some extents, few enough to be counted in a `usize`.
module _ (size : ℕ) (es : List ExtentRun) (few : length es ≤ u64_max) where
  pub sorted-Inside : Inside size (sort_events (extent_events es size))
  sorted-Inside = sort_events-Inside size (extent_events es size) (extent_events_bounds size 0 es).2

  pub sorted-NoEarlyEnd : NoEarlyEnd (λ class. 0) (sort_events (extent_events es size))
  sorted-NoEarlyEnd class x = omega (
    arith,
    downs-sort_events class (suc x) (extent_events es size),
    ups-sort_events class x (extent_events es size),
    extent_events_lem size class x es,
  )

  pub sorted-Closes : Closes size (λ class. 0) (sort_events (extent_events es size))
  sorted-Closes class = omega (
    arith,
    downs-sort_events class (suc size) (extent_events es size),
    ups-sort_events class (suc size) (extent_events es size),
    extent_events_lem size class size es,
    extent_events_bounds size class es,
  )

  pub level_sorted :
      (class x : ℕ)
      → level (λ c. 0) class x (sort_events (extent_events es size)) ≡ opens size class x es
  level_sorted class x = omega (
    arith,
    downs-sort_events class (suc x) (extent_events es size),
    ups-sort_events class (suc x) (extent_events es size),
    extent_events_lem size class x es,
  )
