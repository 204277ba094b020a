-- ===== src/FsCommon/Allocation/Bits.antt =====
-- Setting one bit of the map, and what the others read.
use undelete_master.Base.{
  ℕ, zero, suc, ◌/◌, ◌%◌, ◌<◌, ◌≡◌, ◌≢◌, refl, inl, inr, Bool, true, false, not, ◌||◌, none, some,
  List, [], ◌∷◌, get_elem?, leb, ◌==◌, if◌then◌else◌, arith, Bool-cases, Option-cases, All,
}
use undelete_master.Base.Words.{IsByte}
use undelete_master.Base.Tables.{all_below, all_below_sound}
use undelete_master.FsCommon.Allocation.{
  AllocationMap, is_allocated, set_allocated, test_bit, set_bit, update,
}

-- The bits of a byte with one bit set, checked for every byte.
bool_eq : Bool → Bool → Bool
bool_eq true b = b
bool_eq false b = not b

bits_table :
    all_below 256 (λ b.
      all_below 8
        (λ k. all_below 8 (λ j. bool_eq (test_bit (set_bit b k) j) (j == k || test_bit b j))))
    ≡ true
unfolding all_below bool_eq
bits_table = refl

bool_eq_sound : (a b : Bool) → bool_eq a b ≡ true → a ≡ b
unfolding bool_eq
bool_eq_sound true true h = refl
bool_eq_sound true false h = cc
bool_eq_sound false true h = cc
bool_eq_sound false false h = refl

test_bit-set_bit :
    (b k j : ℕ) → b < 256 → k < 8 → j < 8 → test_bit (set_bit b k) j ≡ (j == k || test_bit b j)
test_bit-set_bit b k j hb hk hj =
    bool_eq_sound _ _
      (all_below_sound 8 _ j (all_below_sound 8 _ k (all_below_sound 256 _ b bits_table hb) hk) hj)

-- What `update` leaves at each index.
update_here :
    (bits : List ℕ) (i k : ℕ) (bits' : List ℕ)
    → update bits i k ≡ some bits'
    → (b : ℕ) × (get_elem? bits i ≡ some b) × (get_elem? bits' i ≡ some (set_bit b k))
update_here [] i k bits' e = absurd (ground arith)
update_here (b ∷ bits) zero k bits' e =
    let same : set_bit b k ∷ bits ≡ bits' = ground (arith, e) in (b, refl, rw (← same) refl)
update_here (b ∷ bits) (suc i) k bits' e = elim (Option-cases (update bits i k)) [
  | inl none_left ↦ absurd (ground (arith, e, none_left))
  | inr (rest, f) ↦
      let (v, p, q) = update_here bits i k rest f in
      let same : b ∷ rest ≡ bits' = ground (arith, e, f) in (v, p, rw (← same) q)
]

update_there :
    (bits : List ℕ) (i k j : ℕ) (bits' : List ℕ)
    → update bits i k ≡ some bits'
    → j ≢ i
    → get_elem? bits' j ≡ get_elem? bits j
update_there [] i k j bits' e ne = absurd (ground arith)
update_there (b ∷ bits) zero k zero bits' e ne = absurd (ne refl)
update_there (b ∷ bits) zero k (suc j) bits' e ne =
    let same : set_bit b k ∷ bits ≡ bits' = ground (arith, e) in rw (← same) refl
update_there (b ∷ bits) (suc i) k j bits' e ne = elim (Option-cases (update bits i k)) [
  | inl none_left ↦ absurd (ground (arith, e, none_left))
  | inr (rest, f) ↦
      let same : b ∷ rest ≡ bits' = ground (arith, e, f) in
      rw (← same)
        (at_index b bits rest j (λ j' e'. update_there bits i k j' rest f (omega (arith, e', ne))))
]
  where
    at_index :
        (b : ℕ) (bits rest : List ℕ) (j : ℕ)
        → ((j' : ℕ) → j ≡ suc j' → get_elem? rest j' ≡ get_elem? bits j')
        → get_elem? (b ∷ rest) j ≡ get_elem? (b ∷ bits) j
    at_index b bits rest zero h = refl
    at_index b bits rest (suc j) h = h j refl

All-get_elem? : (xs : List ℕ) (i b : ℕ) → All IsByte xs → get_elem? xs i ≡ some b → b < 256
All-get_elem? [] i b h e = absurd (ground arith)
All-get_elem? (x ∷ xs) zero b h e = ground (arith, h.0)
All-get_elem? (x ∷ xs) (suc i) b h e = All-get_elem? xs i b h.1 e

same_byte_bits :
    (count c d : ℕ) (old : Bool)
    → c < count
    → d / 8 ≡ c / 8
    → (if leb count d then none else some (d % 8 == c % 8 || old))
      ≡ (if d == c then some true else if leb count d then none else some old)
same_byte_bits count c d old lt at = ground arith

-- The bits of the map after one is set.
is_allocated_bits :
    (count : ℕ) (bits bits' : List ℕ) (c d : ℕ)
    → All IsByte bits
    → c < count
    → update bits (c / 8) (c % 8) ≡ some bits'
    → is_allocated (record { bits = bits'; cluster_count = count }) d ≡ (
        if d == c
        then some true
        else is_allocated (record { bits = bits; cluster_count = count }) d)
unfolding is_allocated
is_allocated_bits count bits bits' c d h lt e =
    let (b, here, now) = update_here bits (c / 8) (c % 8) bits' e in
    elim (Bool-cases (d / 8 == c / 8)) [
      | inl same_byte ↦
          let at : d / 8 ≡ c / 8 = ground arith in
          let wide = All-get_elem? bits (c / 8) b h here in
          let bit = test_bit-set_bit b (c % 8) (d % 8) wide (omega arith) (omega arith) in
          rw (at, now, here, bit) (same_byte_bits count c d (test_bit b (d % 8)) lt at)
      | inr other ↦
          let kept = update_there bits (c / 8) (c % 8) (d / 8) bits' e (ground arith) in
          let differ : (d == c) ≡ false = ground arith in rw (kept, differ) refl
    ]

-- Setting a bit of the map that has a byte makes its cluster allocated, and changes what the map says
-- of no other cluster and not how many there are.
pub set_allocated-is_allocated :
    (m m' : AllocationMap) (c d : ℕ)
    → All IsByte m.bits
    → c < m.cluster_count
    → set_allocated m c ≡ some m'
    → (is_allocated m' d ≡ (if d == c then some true else is_allocated m d))
      × (m'.cluster_count ≡ m.cluster_count)
unfolding set_allocated
set_allocated-is_allocated m m' c d h lt e = elim (Option-cases (update m.bits (c / 8) (c % 8))) [
  | inl none_left ↦ absurd (ground (arith, e, none_left))
  | inr (bits', f) ↦
      let same : record m { bits = bits' } ≡ m' = ground (arith, e, f) in
      rw (← same) (is_allocated_bits m.cluster_count m.bits bits' c d h lt f, refl)
]
