-- ===== src/Restore/Plan/Walk.antt =====
-- The loops of `plan_candidate`, crates/restore/src/plan.rs: the order of the extents, and what each
-- round of the second loop adds.
use undelete_master.Base.{
  ℕ, suc, ◌+◌, ◌-◌, ◌≤◌, ◌<◌, ◌≡◌, refl, ◌∙◌, ap, sym, ◌⊎◌, inl, inr, Bool, true, false, not, ◌||◌,
  Option, none, some, List, [], ◌∷◌, any, ltb, ◌==◌, arith, ok, ok-injective, guard, ok_or,
  >>=-eq-ok, checked_add, Bool-cases, Option-cases,
}
use undelete_master.Candidate.{ExtentRun, ExtentAvailability}
use undelete_master.Restore.Errors.{RestoreError}
use undelete_master.Restore.Plan.{
  PartialPolicy, PlanBuilder, ExtentMapping, map_readable, mapping_for, readable_mapping,
  check_extents, key_le, insert_extent, sort_extents, push_gap, push_mapping, place_extents,
}
use undelete_master.Restore.Plan.Meaning.{Place, readable_place, place_by, place_of, covers, Given}
use undelete_master.Restore.Plan.Pushing.{push_read-Builds, push_zero-Builds, push_gap-Builds}
use undelete_master.Restore.Plan.Merging.{Builds, Allowed-read}

-- The extents of a list with their places.
plain : List (ℕ × ExtentRun) → List ExtentRun
plain [] = []
plain ((_, x) ∷ xs) = x ∷ plain xs

-- Not empty, in order, and within the file.
abbrev InOrder : ℕ → ℕ → List (ℕ × ExtentRun) → Type 0
InOrder size a [] = Unit {0}
InOrder size a ((_, x) ∷ xs) =
    (a ≤ x.logical_offset)
    × (0 < x.len)
    × (x.logical_offset + x.len ≤ size)
    × InOrder size x.logical_offset xs

abbrev WithinFile : ℕ → List (ℕ × ExtentRun) → Type 0
WithinFile size [] = Unit {0}
WithinFile size ((_, x) ∷ xs) = (0 < x.len) × (x.logical_offset + x.len ≤ size) × WithinFile size xs

check_extents_lem :
    (index size : ℕ) (es : List ExtentRun) (xs : List (ℕ × ExtentRun))
    → check_extents index size es ≡ ok xs
    → WithinFile size xs × (plain xs ≡ es)
unfolding check_extents plain
check_extents_lem index size [] xs h = rw (← ok-injective h) (tt, refl)
check_extents_lem index size (e ∷ es) xs h =
    let (_, a, h1) =
      >>=-eq-ok (guard (not (e.len == 0)) (RestoreError.zero_length_extent index)) _ h in
    let (stop, b, h2) =
      >>=-eq-ok
        (ok_or (checked_add e.logical_offset e.len)
          (RestoreError.logical_range_overflow e.logical_offset e.len))
        _ h1 in
    let (_, c, h3) =
      >>=-eq-ok
        (guard (not (ltb size stop))
          (RestoreError.logical_range_out_of_bounds e.logical_offset e.len size))
        _ h2 in
    let (rest, d, h4) = >>=-eq-ok (check_extents (suc index) size es) _ h3 in
    let (within, same) = check_extents_lem (suc index) size es rest d in
    rw (← ok-injective h4) ((ground arith, ground arith, within), ap (◌∷◌ e) same)

insert_extent-InOrder :
    (size a i : ℕ) (x : ExtentRun) (xs : List (ℕ × ExtentRun))
    → a ≤ x.logical_offset
    → 0 < x.len
    → x.logical_offset + x.len ≤ size
    → InOrder size a xs
    → InOrder size a (insert_extent (i, x) xs)
unfolding insert_extent key_le
insert_extent-InOrder size a i x [] h k l o = (h, k, l, tt)
insert_extent-InOrder size a i x ((j, y) ∷ ys) h k l o =
    ground (arith, insert_extent-InOrder size y.logical_offset i x ys)

sort_extents-InOrder :
    (size : ℕ) (xs : List (ℕ × ExtentRun)) → WithinFile size xs → InOrder size 0 (sort_extents xs)
unfolding sort_extents
sort_extents-InOrder size [] h = tt
sort_extents-InOrder size ((i, x) ∷ xs) h =
    insert_extent-InOrder size 0 i x (sort_extents xs) (omega arith) h.0 h.1
      (sort_extents-InOrder size xs h.2)

swap : (a b c : Bool) → (a || (b || c)) ≡ (b || (a || c))
swap a b c = ground arith

any-insert_extent :
    (p : ℕ) (i : ℕ) (x : ExtentRun) (xs : List (ℕ × ExtentRun))
    → any (covers p) (plain (insert_extent (i, x) xs)) ≡ (covers p x || any (covers p) (plain xs))
unfolding insert_extent plain
any-insert_extent p i x [] = refl
any-insert_extent p i x ((j, y) ∷ ys) = elim (Bool-cases (key_le (i, x) (j, y))) [
  | inl t ↦ rw t refl
  | inr t ↦ rw (t, any-insert_extent p i x ys) (swap (covers p y) (covers p x) _)
]

any-sort_extents :
    (p : ℕ) (xs : List (ℕ × ExtentRun))
    → any (covers p) (plain (sort_extents xs)) ≡ any (covers p) (plain xs)
unfolding sort_extents plain
any-sort_extents p [] = refl
any-sort_extents p ((i, x) ∷ xs) =
    any-insert_extent p i x (sort_extents xs)
    ∙ ap (λ (b : Bool). covers p x || b) (any-sort_extents p xs)

Given-insert_extent :
    (p i : ℕ) (x : ExtentRun) (xs : List (ℕ × ExtentRun)) (place : Place)
    → Given (plain (insert_extent (i, x) xs)) p place
    → ((covers p x ≡ true) × (place_of x p ≡ place)) ⊎ Given (plain xs) p place
unfolding insert_extent plain
Given-insert_extent p i x [] place g = g
Given-insert_extent p i x ((j, y) ∷ ys) place g = elim (Bool-cases (key_le (i, x) (j, y))) [
  | inl t ↦ let g' : Given (x ∷ y ∷ plain ys) p place = rw t at g in g'
  | inr t ↦
      let g' : Given (y ∷ plain (insert_extent (i, x) ys)) p place = rw t at g in
      elim g' [
        | inl here ↦ inr (inl here)
        | inr there ↦ elim (Given-insert_extent p i x ys place there) [
          | inl first ↦ inl first
          | inr later ↦ inr (inr later)
        ]
      ]
]

Given-sort_extents :
    (p : ℕ) (xs : List (ℕ × ExtentRun)) (place : Place)
    → Given (plain (sort_extents xs)) p place
    → Given (plain xs) p place
unfolding sort_extents plain
Given-sort_extents p [] place g = g
Given-sort_extents p ((i, x) ∷ xs) place g =
    elim (Given-insert_extent p i x (sort_extents xs) place g) [
      | inl first ↦ inl first
      | inr later ↦ inr (Given-sort_extents p xs place later)
    ]

InOrder-uncovered :
    (size a p : ℕ) (xs : List (ℕ × ExtentRun))
    → InOrder size a xs
    → p < a
    → any (covers p) (plain xs) ≡ false
unfolding plain
InOrder-uncovered size a p [] o h = refl
InOrder-uncovered size a p ((i, x) ∷ xs) o h =
    ground (arith, InOrder-uncovered size x.logical_offset p xs o.3)

-- What a mapping says of the positions of its extent, where `place` has them.
abbrev Maps : ℕ → ExtentRun → (ℕ → Place) → ExtentMapping → Type 0
Maps source_len e place (ExtentMapping.read physical) =
    (physical + e.len ≤ source_len)
    × ((p : ℕ) → place p ≡ Place.disk (physical + (p - e.logical_offset)))
Maps source_len e place (ExtentMapping.zeros reason) = (p : ℕ) → place p ≡ Place.blank reason

map_readable-Maps :
    (source_len : ℕ) (e : ExtentRun) (o : Option ℕ) (m : ExtentMapping)
    → map_readable e source_len o ≡ ok m
    → Maps source_len e (λ p. readable_place e p o) m
unfolding map_readable
map_readable-Maps source_len e none m h = rw (← ok-injective h) (λ p. refl)
map_readable-Maps source_len e (some physical) m h =
    elim (Option-cases (checked_add physical e.len)) [
      | inl t ↦ absurd (ground arith)
      | inr (stop, t) ↦ elim (Bool-cases (ltb source_len stop)) [
        | inl u ↦ absurd (ground arith)
        | inr u ↦
            let same : m ≡ ExtentMapping.read physical = ground arith in
            rw same (ground arith, λ p. refl)
      ]
    ]

mapping_for-Maps :
    (source_len : ℕ) (e : ExtentRun) (a : ExtentAvailability) (m : ExtentMapping)
    → mapping_for e source_len a ≡ ok m
    → Maps source_len e (λ p. place_by e p a) m
unfolding mapping_for
mapping_for-Maps source_len e ExtentAvailability.free_in_snapshot m h =
    map_readable-Maps source_len e e.physical_offset m h
mapping_for-Maps source_len e ExtentAvailability.resident m h =
    map_readable-Maps source_len e e.physical_offset m h
mapping_for-Maps source_len e ExtentAvailability.sparse m h = rw (← ok-injective h) (λ p. refl)
mapping_for-Maps source_len e ExtentAvailability.currently_allocated m h =
    rw (← ok-injective h) (λ p. refl)
mapping_for-Maps source_len e ExtentAvailability.out_of_volume m h =
    rw (← ok-injective h) (λ p. refl)
mapping_for-Maps source_len e ExtentAvailability.read_failed m h = rw (← ok-injective h) (λ p. refl)
mapping_for-Maps source_len e ExtentAvailability.zeroed m h = rw (← ok-injective h) (λ p. refl)
mapping_for-Maps source_len e ExtentAvailability.unknown m h = rw (← ok-injective h) (λ p. refl)

module _ (extents : List ExtentRun) (source_len : ℕ) (policy : PartialPolicy) where
  push_mapping-Builds :
      (e : ExtentRun) (m : ExtentMapping) (b b' : PlanBuilder)
      → 0 < e.len
      → ((p : ℕ) (place : Place) → covers p e ≡ true → place_of e p ≡ place → Given extents p place)
      → Maps source_len e (place_of e) m
      → Builds extents source_len policy e.logical_offset b
      → push_mapping e m b ≡ ok b'
      → Builds extents source_len policy (e.logical_offset + e.len) b'
  unfolding push_mapping
  push_mapping-Builds e (ExtentMapping.read physical) b b' pos known (inside, at) h r =
      push_read-Builds extents source_len policy e.logical_offset physical e.len e.availability b b'
        pos ((inside, λ p l k. known p _ (ground arith) (at p)), Allowed-read policy _ _ _) h r
  push_mapping-Builds e (ExtentMapping.zeros reason) b b' pos known at h r =
      push_zero-Builds extents source_len policy e.logical_offset e.len reason b b' pos
        (λ p l k. inl (known p _ (ground arith) (at p))) h r

  -- What the second loop leaves: the segments tile the file up to the cursor, behind which no extent
  -- covers anything.
  abbrev pub Placed : ℕ → ℕ × PlanBuilder → Type 0
  Placed size (cursor, b) =
      Builds extents source_len policy cursor b
      × (cursor ≤ size)
      × ((p : ℕ) → cursor ≤ p → any (covers p) extents ≡ false)

  place_extents-Placed :
      (size a : ℕ) (xs : List (ℕ × ExtentRun)) (cursor : ℕ) (b : PlanBuilder) (r : ℕ × PlanBuilder)
      → InOrder size a xs
      → cursor ≤ size
      → ((p : ℕ) → cursor ≤ p → any (covers p) extents ≡ any (covers p) (plain xs))
      → ((p : ℕ) (place : Place) → Given (plain xs) p place → Given extents p place)
      → Builds extents source_len policy cursor b
      → place_extents source_len xs cursor b ≡ ok r
      → Placed size r
  unfolding place_extents plain
  place_extents-Placed size a [] cursor b r o le same known h e =
      rw (← ok-injective e) (h, le, same)
  place_extents-Placed size a ((i, x) ∷ xs) cursor b r o le same known h e =
      let start = x.logical_offset in
      let (_, e0, e1) =
        >>=-eq-ok (guard (not (ltb start cursor)) (RestoreError.overlapping_extents cursor start)) _
          e in
      let (b1, gap, e2) = >>=-eq-ok (push_gap cursor start b) _ e1 in
      let (m, mapped, e3) = >>=-eq-ok (readable_mapping x source_len) _ e2 in
      let (b2, pushed, e4) = >>=-eq-ok (push_mapping x m b1) _ e3 in
      let tail : InOrder size start ((i, x) ∷ xs) = (omega arith, o.1, o.2, o.3) in
      let filled =
        push_gap-Builds extents source_len policy cursor start b b1 (ground arith)
          (λ p l k. same p l ∙ InOrder-uncovered size start p ((i, x) ∷ xs) tail k) h gap in
      let built =
        push_mapping-Builds x m b1 b2 o.1 (λ p place c q. known p place (inl (c, q)))
          (mapping_for-Maps source_len x x.availability m (unfold readable_mapping in mapped))
          filled pushed in
      place_extents-Placed size start xs (start + x.len) b2 r o.3 o.2
        (λ p l. same p (ground arith) ∙ ground arith) (λ p place g. known p place (inr g)) built e4

  -- The second loop over the checked extents, sorted.
  pub sorted-Placed :
      (size : ℕ) (ordered : List (ℕ × ExtentRun)) (b : PlanBuilder) (r : ℕ × PlanBuilder)
      → check_extents 0 size extents ≡ ok ordered
      → Builds extents source_len policy 0 b
      → place_extents source_len (sort_extents ordered) 0 b ≡ ok r
      → Placed size r
  sorted-Placed size ordered b r checked h e =
      let (within, same) = check_extents_lem 0 size extents ordered checked in
      place_extents-Placed size 0 (sort_extents ordered) 0 b r
        (sort_extents-InOrder size ordered within) (omega arith)
        (λ p l. sym (any-sort_extents p ordered ∙ ap (any (covers p)) same))
        (λ p place g. rw same at (Given-sort_extents p ordered place g)) h e
