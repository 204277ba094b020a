-- ===== src/FsCommon/Allocation/FreeRuns.antt =====
-- The free runs are exactly the clusters whose bits are there and clear.
use undelete_master.Base.{
  ℕ, zero, suc, ◌+◌, ◌-◌, ◌/◌, ◌≤◌, ◌<◌, ◌≡◌, refl, sym, ◌↔◌, inl, inr, Bool, true, false, ◌&&◌,
  Option, none, some, List, [], ◌∷◌, length, ap, ◌∙◌, get_elem?, any, ltb, leb, ◌==◌, u64_max,
  arith, Bool-cases, Option-cases,
}
use undelete_master.FsCommon.Allocation.{
  AllocationMap, FreeClusterRun, known_cluster_count, is_allocated, is_clear, skip_used, skip_free,
  next_run, collect_runs, free_cluster_runs,
}

abbrev pub covers : ℕ → FreeClusterRun → Bool
covers c run = leb run.start_cluster c && ltb c (run.start_cluster + run.run_clusters)

abbrev free_at : AllocationMap → ℕ → Bool
free_at m c = is_clear (is_allocated m c)

record SkippedUsed (m : AllocationMap) (room cursor s : ℕ) : Type 0 where
  lower : cursor ≤ s
  upper : s ≤ cursor + room
  passed : (c : ℕ) → cursor ≤ c → c < s → free_at m c ≡ false
  stopped : s < cursor + room → free_at m s ≡ true

skip_used-SkippedUsed :
    (m : AllocationMap) (room cursor : ℕ) → SkippedUsed m room cursor (skip_used m room cursor)
unfolding skip_used
skip_used-SkippedUsed m zero cursor = record {
  lower = omega arith;
  upper = omega arith;
  passed = λ c h k. absurd (omega arith);
  stopped = λ h. absurd (omega arith);
}
skip_used-SkippedUsed m (suc room) cursor = elim (Bool-cases (free_at m cursor)) [
  | inl free ↦ rw free record {
    lower = omega arith;
    upper = omega arith;
    passed = λ c h k. absurd (omega arith);
    stopped = λ h. free;
  }
  | inr used ↦
      let r = skip_used-SkippedUsed m room (cursor + 1) in
      rw used record {
        lower = omega (arith, r.lower);
        upper = omega (arith, r.upper);
        passed = λ c h k. elim (Bool-cases (c == cursor)) [
          | inl e ↦ let same : c ≡ cursor = ground arith in rw same used
          | inr ne ↦ r.passed c (ground arith) k
        ];
        stopped = λ h. r.stopped (omega arith);
      }
]

record SkippedFree (m : AllocationMap) (room cursor s : ℕ) : Type 0 where
  lower : cursor ≤ s
  upper : s ≤ cursor + room
  passed : (c : ℕ) → cursor ≤ c → c < s → free_at m c ≡ true
  stopped : s < cursor + room → free_at m s ≡ false

skip_free-SkippedFree :
    (m : AllocationMap) (room cursor : ℕ) → SkippedFree m room cursor (skip_free m room cursor)
unfolding skip_free
skip_free-SkippedFree m zero cursor = record {
  lower = omega arith;
  upper = omega arith;
  passed = λ c h k. absurd (omega arith);
  stopped = λ h. absurd (omega arith);
}
skip_free-SkippedFree m (suc room) cursor = elim (Bool-cases (free_at m cursor)) [
  | inr used ↦ rw used record {
    lower = omega arith;
    upper = omega arith;
    passed = λ c h k. absurd (omega arith);
    stopped = λ h. used;
  }
  | inl free ↦
      let r = skip_free-SkippedFree m room (cursor + 1) in
      rw free record {
        lower = omega (arith, r.lower);
        upper = omega (arith, r.upper);
        passed = λ c h k. elim (Bool-cases (c == cursor)) [
          | inl e ↦ let same : c ≡ cursor = ground arith in rw same free
          | inr ne ↦ r.passed c (ground arith) k
        ];
        stopped = λ h. r.stopped (omega arith);
      }
]

-- The free clusters from `cursor` on are those that the runs from `cursor` on cover.
abbrev Covered : AllocationMap → ℕ → ℕ → List FreeClusterRun → Type 0
Covered m known cursor runs = (c : ℕ) → cursor ≤ c → c < known → any (covers c) runs ≡ free_at m c

abbrev Bounded : ℕ → ℕ → List FreeClusterRun → Type 0
Bounded known cursor runs = (c : ℕ) → any (covers c) runs ≡ true → (cursor ≤ c) × (c < known)

collect_runs-nil :
    (m : AllocationMap) (known cursor start : ℕ)
    → SkippedUsed m (known - cursor) cursor start
    → known ≤ start
    → Covered m known cursor []
collect_runs-nil m known cursor start u h c lo hi = sym (u.passed c lo (omega arith))

run_covers :
    (m : AllocationMap) (known cursor start stop : ℕ) (runs : List FreeClusterRun)
    → SkippedUsed m (known - cursor) cursor start
    → SkippedFree m (known - start) start stop
    → start < known
    → Covered m known stop runs
    → Bounded known stop runs
    → Covered m known cursor (record { start_cluster = start; run_clusters = stop - start } ∷ runs)
run_covers m known cursor start stop runs u f h later bounded c lo hi =
    elim (Bool-cases (ltb c start)) [
      | inl before ↦ elim (Bool-cases (any (covers c) runs)) [
        | inl inside ↦ absurd (let b = bounded c inside in ground (arith, b, f.lower))
        | inr outside ↦
            let used = u.passed c lo (ground arith) in
            rw used (rw outside (ground (arith, f.lower)))
      ]
      | inr from_start ↦ elim (Bool-cases (ltb c stop)) [
        | inl within ↦
            let free = f.passed c (ground arith) (ground arith) in rw free (ground (arith, f.lower))
        | inr behind ↦ let rest = later c (ground arith) hi in rw (← rest) (ground (arith, f.lower))
      ]
    ]

run-Bounded :
    (m : AllocationMap) (known cursor start stop : ℕ) (runs : List FreeClusterRun)
    → SkippedUsed m (known - cursor) cursor start
    → SkippedFree m (known - start) start stop
    → start < known
    → Bounded known stop runs
    → Bounded known cursor (record { start_cluster = start; run_clusters = stop - start } ∷ runs)
run-Bounded m known cursor start stop runs u f h bounded c e =
    elim (Bool-cases (any (covers c) runs)) [
      | inl inside ↦
          let b = bounded c inside in (omega (arith, b, f.lower, u.lower), omega (arith, b))
      | inr outside ↦
          let s : (start ≤ c) × (c < start + (stop - start)) = (ground arith, ground arith) in
          (omega (arith, s, u.lower), omega (arith, s, f.upper))
    ]

-- A free cluster at the start of a run makes the run longer than nothing.
skip_free-forward :
    (m : AllocationMap) (room start stop : ℕ)
    → SkippedFree m room start stop
    → 0 < room
    → free_at m start ≡ true
    → start < stop
skip_free-forward m room start stop f h free = elim (Bool-cases (ltb start stop)) [
  | inl lt ↦ ground arith
  | inr ge ↦
      let same : stop ≡ start = ground (arith, f.lower) in
      absurd (
        let used = f.stopped (omega (arith, same)) in
        let used' : free_at m start ≡ false = rw same at used in cc)
]

collect_runs-zero : (m : AllocationMap) (known cursor : ℕ) → collect_runs zero m known cursor ≡ []
unfolding collect_runs
collect_runs-zero m known cursor = refl

collect_runs_done :
    (fuel : ℕ) (m : AllocationMap) (known cursor : ℕ)
    → leb known (skip_used m (known - cursor) cursor) ≡ true
    → collect_runs (suc fuel) m known cursor ≡ []
unfolding collect_runs next_run
collect_runs_done fuel m known cursor h = ground (arith, h)

collect_runs_more :
    (fuel : ℕ) (m : AllocationMap) (known cursor : ℕ)
    → leb known (skip_used m (known - cursor) cursor) ≡ false
    → let start = skip_used m (known - cursor) cursor in
      let stop = skip_free m (known - start) start in
      collect_runs (suc fuel) m known cursor
      ≡ record { start_cluster = start; run_clusters = stop - start }
        ∷ collect_runs fuel m known stop
unfolding collect_runs next_run
collect_runs_more fuel m known cursor h = ground (arith, h)

collect_runs-Covered :
    (fuel : ℕ) (m : AllocationMap) (known cursor : ℕ)
    → known < fuel + cursor
    → Covered m known cursor (collect_runs fuel m known cursor)
      × Bounded known cursor (collect_runs fuel m known cursor)
collect_runs-Covered zero m known cursor h =
    rw (collect_runs-zero m known cursor)
      ((λ c lo hi. absurd (omega arith)), λ c e. absurd (ground arith))
collect_runs-Covered (suc fuel) m known cursor h =
    let start = skip_used m (known - cursor) cursor in
    let stop = skip_free m (known - start) start in
    let u = skip_used-SkippedUsed m (known - cursor) cursor in
    let f = skip_free-SkippedFree m (known - start) start in
    elim (Bool-cases (leb known start)) [
      | inl done ↦
          rw (collect_runs_done fuel m known cursor done)
            (collect_runs-nil m known cursor start u (ground arith), λ c e. absurd (ground arith))
      | inr more ↦
          let inside : start < known = ground arith in
          let forward =
            skip_free-forward m (known - start) start stop f (omega arith)
              (u.stopped (omega (arith, u.lower))) in
          let (later, bounded) = collect_runs-Covered fuel m known stop (omega (arith, u.lower)) in
          rw (collect_runs_more fuel m known cursor more) (
            run_covers m known cursor start stop _ u f inside later bounded,
            run-Bounded m known cursor start stop _ u f inside bounded,
          )
    ]

get_elem?-lt : (xs : List ℕ) (i b : ℕ) → get_elem? xs i ≡ some b → i < length xs
get_elem?-lt [] i b e = absurd (ground arith)
get_elem?-lt (x ∷ xs) zero b e = omega arith
get_elem?-lt (x ∷ xs) (suc i) b e = omega (arith, get_elem?-lt xs i b e)

known_of_allocated :
    (m : AllocationMap) (c : ℕ)
    → m.cluster_count ≤ u64_max
    → is_allocated m c ≡ some false
    → c < known_cluster_count m
unfolding is_allocated known_cluster_count
known_of_allocated m c w e = elim (Option-cases (get_elem? m.bits (c / 8))) [
  | inl missing ↦ absurd (ground (arith, e, missing))
  | inr (byte, found) ↦
      let there = get_elem?-lt m.bits (c / 8) byte found in
      let inside : c < m.cluster_count = ground (arith, e) in ground (arith, there, inside)
]

-- A cluster is in one of the free runs exactly when its bit is in the map and clear; a cluster whose
-- byte is missing is in none. The number of clusters is one of 64 bits.
pub free_cluster_runs_iff :
    (m : AllocationMap) (c : ℕ)
    → m.cluster_count ≤ u64_max
    → (any (covers c) (free_cluster_runs m) ≡ true) ↔ (is_allocated m c ≡ some false)
unfolding free_cluster_runs
free_cluster_runs_iff m c w =
    let known = known_cluster_count m in
    let (covered, bounded) = collect_runs-Covered (suc known) m known 0 (omega arith) in
    (
      (λ e.
          let (lo, hi) = bounded c e in
          let free : free_at m c ≡ true = sym (covered c lo hi) ∙ e in
          is_clear-some (is_allocated m c) free),
      (λ e. let hi = known_of_allocated m c w e in covered c (omega arith) hi ∙ ap is_clear e),
    )
  where
    is_clear-some : (o : Option Bool) → is_clear o ≡ true → o ≡ some false
    is_clear-some (some false) h = refl
    is_clear-some (some true) h = cc
    is_clear-some none h = cc
