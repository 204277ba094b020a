-- ===== src/Restore/Stream/Writing.antt =====
-- `write_committed` and `append_zero_range` of crates/restore/src/stream.rs keep the output right.
use undelete_master.Base.{
  ℕ, zero, suc, ◌+◌, ◌≤◌, ◌≡◌, ◌⊎◌, inl, inr, refl, Bool, true, false, some, List, [], ◌∷◌, ◌++◌,
  length, length-append, length-take, length-drop, get_elem?, take, drop, leb, ◌==◌, Bool-cases,
  u64_max, arith,
}
use undelete_master.Restore.Plan.{ContentPlan}
use undelete_master.Restore.Output.{
  WriteCall, Stream, cancelled_by, check_cancel, committed, commit, write_calls, write_committed,
}
use undelete_master.Restore.Stream.Meaning.{IsByteOf, Gives, Gives-bind, At}

pub get_elem?-append :
    (xs ys : List ℕ) (x b : ℕ)
    → get_elem? (xs ++ ys) x ≡ some b
    → (get_elem? xs x ≡ some b) ⊎ ((i : ℕ) × (x ≡ length xs + i) × (get_elem? ys i ≡ some b))
get_elem?-append [] ys x b h = inr (x, omega arith, h)
get_elem?-append (y ∷ xs) ys zero b h = inl h
get_elem?-append (y ∷ xs) ys (suc x) b h = elim (get_elem?-append xs ys x b h) [
  | inl e ↦ inl e
  | inr (i, e, f) ↦ inr (i, omega arith, f)
]

pub get_elem?-take :
    (n : ℕ) (xs : List ℕ) (i b : ℕ) → get_elem? (take n xs) i ≡ some b → get_elem? xs i ≡ some b
get_elem?-take zero xs i b h = absurd (cc)
get_elem?-take (suc n) [] i b h = h
get_elem?-take (suc n) (x ∷ xs) zero b h = h
get_elem?-take (suc n) (x ∷ xs) (suc i) b h = get_elem?-take n xs i b h

pub get_elem?-drop : (n : ℕ) (xs : List ℕ) (i : ℕ) → get_elem? (drop n xs) i ≡ get_elem? xs (n + i)
get_elem?-drop zero xs i = let e : 0 + i ≡ i = omega arith in rw e refl
get_elem?-drop (suc n) [] i = refl
get_elem?-drop (suc n) (x ∷ xs) i =
    let e : suc n + i ≡ suc (n + i) = omega arith in rw e (get_elem?-drop n xs i)

module _ (plan : ContentPlan) (disk : ℕ → ℕ) (sized : plan.logical_size ≤ u64_max) where
  -- The output is right and has so many bytes, and the same ranges are reported as before.
  abbrev pub Still : ℕ → Stream → Stream → Type 0
  Still a s s' = At plan disk a s' × (s'.ranges ≡ s.ranges)

  cancelled_by-Gives :
      (answers : List Bool) (a : ℕ) (s : Stream)
      → At plan disk a s
      → Gives plan disk (Still a s) (cancelled_by answers s)
  unfolding cancelled_by
  cancelled_by-Gives [] a s h = (h, refl)
  cancelled_by-Gives (true ∷ answers) a s h = (tt, h.0)
  cancelled_by-Gives (false ∷ answers) a s h = (h, refl)

  pub check_cancel-Gives :
      (a : ℕ) (s : Stream) → At plan disk a s → Gives plan disk (Still a s) (check_cancel s)
  unfolding check_cancel
  check_cancel-Gives a s h = cancelled_by-Gives s.answers a s h

  -- Bytes that may stand behind the first `a`.
  abbrev pub MayFollow : ℕ → List ℕ → Stream → Type 0
  MayFollow a bytes s =
      (i b : ℕ) → get_elem? bytes i ≡ some b → IsByteOf plan.segments disk s.ranges (a + i) b

  committed-At :
      (a : ℕ) (bytes : List ℕ) (s : Stream)
      → At plan disk a s
      → a + length bytes ≤ plan.logical_size
      → MayFollow a bytes s
      → At plan disk (a + length bytes) (committed bytes s (s.bytes_written + length bytes))
  unfolding committed
  committed-At a bytes s (r, long, flag) room follow =
      let sum = length-append s.written bytes in
      let counted = r.counted in
      (
        record {
          counted = omega arith;
          fits = omega arith;
          right = λ x b e. elim (get_elem?-append s.written bytes x b e) [
            | inl before ↦ r.right x b before
            | inr (i, same, behind) ↦
                let place : x ≡ a + i = omega arith in rw place (follow i b behind)
          ];
          inside = r.inside;
          allowed = r.allowed;
        },
        omega arith,
        flag,
      )

  commit-Gives :
      (a : ℕ) (bytes : List ℕ) (s : Stream)
      → At plan disk a s
      → a + length bytes ≤ plan.logical_size
      → MayFollow a bytes s
      → Gives plan disk (Still (a + length bytes) s) (commit plan.logical_size bytes s)
  unfolding commit committed
  commit-Gives a bytes s h room follow =
      let counted = h.0.counted in
      let fits : leb (s.bytes_written + length bytes) u64_max ≡ true =
        let long = h.1 in ground arith in
      rw (fits, commit) (committed-At a bytes s h room follow, refl)

  write_calls-Gives :
      (calls : List WriteCall) (a : ℕ) (bytes : List ℕ) (s : Stream)
      → At plan disk a s
      → a + length bytes ≤ plan.logical_size
      → MayFollow a bytes s
      → Gives plan disk (Still (a + length bytes) s) (write_calls plan.logical_size calls bytes s)
  unfolding write_calls
  write_calls-Gives calls a [] s h room follow = let e : a + 0 ≡ a = omega arith in rw e (h, refl)
  write_calls-Gives [] a (b ∷ bytes) s h room follow =
      let s0 = record s { calls = [] } in
      Gives-bind plan disk (Still a s0) (Still (a + length (b ∷ bytes)) s) (check_cancel s0) _
        (check_cancel-Gives a s0 h)
        (λ s1 (h1, same). rw (← same) (commit-Gives a (b ∷ bytes) s1 h1 room (rw same follow)))
  write_calls-Gives (WriteCall.fails kind ∷ calls) a (b ∷ bytes) s h room follow =
      let s0 = record s { calls = calls } in
      Gives-bind plan disk (Still a s0) (Still (a + length (b ∷ bytes)) s) (check_cancel s0) _
        (check_cancel-Gives a s0 h) (λ s1 (h1, same). (tt, h1.0))
  write_calls-Gives (WriteCall.takes n ∷ calls) a (b ∷ bytes) s h room follow =
      let s0 = record s { calls = calls } in
      Gives-bind plan disk (Still a s0) (Still (a + length (b ∷ bytes)) s) (check_cancel s0) _
        (check_cancel-Gives a s0 h)
        (λ s1 (h1, same). elim (Bool-cases (n == 0)) [
          | inl z ↦ rw z (tt, h1.0)
          | inr z ↦ elim (Bool-cases (leb n (length (b ∷ bytes)))) [
            | inr over ↦ rw (z, over) (tt, h1.0)
            | inl most ↦
                let taken = length-take n (b ∷ bytes) in
                let left = length-drop n (b ∷ bytes) in
                let first : length (take n (b ∷ bytes)) ≡ n = ground arith in
                let total : a + n + length (drop n (b ∷ bytes)) ≡ a + length (b ∷ bytes) =
                  ground arith in
                let cut : MayFollow a (take n (b ∷ bytes)) s1 =
                  λ i c e. rw same (follow i c (get_elem?-take n (b ∷ bytes) i c e)) in
                rw (z, most)
                  (Gives-bind plan disk (Still (a + length (take n (b ∷ bytes))) s1)
                    (Still (a + length (b ∷ bytes)) s)
                    (commit plan.logical_size (take n (b ∷ bytes)) s1) _
                    (commit-Gives a (take n (b ∷ bytes)) s1 h1 (omega arith) cut)
                    (λ s2 (h2, same2).
                      let rest : MayFollow (a + n) (drop n (b ∷ bytes)) s2 = λ i c e.
                        let place : a + n + i ≡ a + (n + i) = omega arith in
                        rw (place, same2, same)
                          (follow (n + i) c (rw (← get_elem?-drop n (b ∷ bytes) i) e)) in
                      rw (← total, ← same, ← same2)
                        (write_calls-Gives calls (a + n) (drop n (b ∷ bytes)) s2 (rw first at h2)
                          (omega arith) rest)))
          ]
        ])

  pub write_committed-Gives :
      (a : ℕ) (bytes : List ℕ) (s : Stream)
      → At plan disk a s
      → a + length bytes ≤ plan.logical_size
      → MayFollow a bytes s
      → Gives plan disk (Still (a + length bytes) s) (write_committed plan.logical_size bytes s)
  unfolding write_committed
  write_committed-Gives a bytes s h room follow = write_calls-Gives s.calls a bytes s h room follow
