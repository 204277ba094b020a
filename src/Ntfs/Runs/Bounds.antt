-- ===== src/Ntfs/Runs/Bounds.antt =====
-- Every run that is decoded lies inside the volume.
use undelete_master.Base.{
  ℕ, zero, suc, ◌+◌, ◌/◌, ◌%◌, ◌≤◌, ◌<◌, ◌≡◌, refl, ltb, arith, List, [], ◌∷◌, ◌++◌, All,
  All-append, length, Option, none, some, ok, guard, ok_or, >>=-eq-ok, ok-injective, checked_add,
  not, ◌||◌, ◌==◌, Result-cases, inl, inr, ◌⊎◌, get_elem?,
}
use undelete_master.Base.Words.{from_le_bytes}
use undelete_master.FsCommon.{get_range}
use undelete_master.Ntfs.Runs.{
  ℤ, RunElement, RunError, Decoder, max_runs, read_offset, read_run, decode_loop, decode_runlist,
}

-- A run has clusters, and those that it names are clusters of the volume.
pub record IsInside (total_clusters : ℕ) (r : RunElement) : Type 0 where
  pub count_pos : 0 < r.cluster_count
  pub fits : (l : ℕ) → r.lcn ≡ some l → l + r.cluster_count ≤ total_clusters

abbrev pub total_count : List RunElement → ℕ
total_count [] = 0
total_count (r ∷ runs) = r.cluster_count + total_count runs

total_count-append :
    (xs ys : List RunElement) → total_count (xs ++ ys) ≡ total_count xs + total_count ys
total_count-append [] ys = omega arith
total_count-append (x ∷ xs) ys = omega (arith, total_count-append xs ys)

read_offset_ok :
    (buf : List ℕ) (total count off_size cursor : ℕ) (current : ℤ) (cursor' : ℕ) (current' : ℤ)
    (lcn : Option ℕ)
    → cursor ≤ length buf
    → read_offset buf total count off_size cursor current ≡ ok (cursor', current', lcn)
    → (cursor ≤ cursor') × (cursor' ≤ length buf) × ((l : ℕ) → lcn ≡ some l → l + count ≤ total)
unfolding read_offset
read_offset_ok buf total count off_size cursor current cursor' current' lcn h e =
    (ground arith, ground arith, λ l f. ground arith)

-- What one round adds.
pub record Added (buf : List ℕ) (total : ℕ) (st st' : Decoder) : Type 0 where
  pub run : RunElement
  pub runs : st'.runs ≡ st.runs ++ run ∷ []
  pub inside : IsInside total run
  pub total_len : st'.total_len ≡ st.total_len + run.cluster_count
  pub bounded : st'.total_len ≤ total
  pub few : length st'.runs ≤ max_runs
  pub forward : st.cursor < st'.cursor
  pub in_buffer : st'.cursor ≤ length buf

pub read_run_ok :
    (buf : List ℕ) (total header : ℕ) (st st' : Decoder)
    → read_run buf total header st ≡ ok st'
    → Added buf total st st'
unfolding read_run
read_run_ok buf total header st st' e =
    let len_size = header % 16 in
    let off_size = header / 16 % 16 in
    let start = st.cursor + 1 in
    let (u1, e1, r1) =
      >>=-eq-ok
        (guard (not (len_size == 0 || ltb 8 len_size || ltb 8 off_size)) RunError.invalid_header) _
        e in
    let (bytes, e2, r2) =
      >>=-eq-ok (ok_or (get_range buf start len_size) RunError.length_out_of_bounds) _ r1 in
    let count = from_le_bytes bytes in
    let (u3, e3, r3) = >>=-eq-ok (guard (not (count == 0)) RunError.zero_length) _ r2 in
    let (total_len, e4, r4) =
      >>=-eq-ok (ok_or (checked_add st.total_len count) RunError.total_overflow) _ r3 in
    let (u5, e5, r5) =
      >>=-eq-ok (guard (not (ltb total total_len)) RunError.longer_than_volume) _ r4 in
    let ((cursor, current, lcn), e6, r6) =
      >>=-eq-ok (read_offset buf total count off_size (start + len_size) st.current_lcn) _ r5 in
    let run : RunElement = record { cluster_count = count; lcn = lcn } in
    let (u7, e7, r7) =
      >>=-eq-ok (guard (not (ltb max_runs (length (st.runs ++ run ∷ [])))) RunError.too_many) _
        r6 in
    let done = ok-injective r7 in
    let in_buf : start + len_size ≤ length buf = ground (arith, e2) in
    let (forward, in_buffer, fits) =
      read_offset_ok buf total count off_size (start + len_size) st.current_lcn cursor current lcn
        in_buf e6 in
    let sum : total_len ≡ st.total_len + count = ground (arith, e4) in
    let bounded : total_len ≤ total = ground (arith, e5) in
    let few : length (st.runs ++ run ∷ []) ≤ max_runs = ground (arith, e7) in
    let positive : 0 < count = ground (arith, e3) in
    rw (← done) record {
      run = run;
      runs = refl;
      inside = record { count_pos = positive; fits = fits };
      total_len = sum;
      bounded = bounded;
      few = few;
      forward = omega (arith, forward);
      in_buffer = in_buffer;
    }

-- The end of the buffer, the terminator, or the header of a run.
pub header-cases : (o : Option ℕ) → (o ≡ none) ⊎ ((o ≡ some zero) ⊎ ((b : ℕ) × (o ≡ some (suc b))))
header-cases none = inl refl
header-cases (some zero) = inr (inl refl)
header-cases (some (suc b)) = inr (inr (b, refl))

-- What the decoder has found so far.
record IsSound (total : ℕ) (st : Decoder) : Type 0 where
  inside : All (IsInside total) st.runs
  counted : total_count st.runs ≡ st.total_len
  bounded : st.total_len ≤ total
  few : length st.runs ≤ max_runs

read_run-IsSound :
    (buf : List ℕ) (total header : ℕ) (st st' : Decoder)
    → IsSound total st
    → read_run buf total header st ≡ ok st'
    → IsSound total st'
read_run-IsSound buf total header st st' h e =
    let a = read_run_ok buf total header st st' e in
    record {
      inside = rw a.runs (All-append (IsInside total) st.runs (a.run ∷ []) h.inside (a.inside, tt));
      counted =
          rw a.runs
            (omega (arith, total_count-append st.runs (a.run ∷ []), h.counted, a.total_len));
      bounded = a.bounded;
      few = a.few;
    }

decode_loop_sound :
    (fuel : ℕ) (buf : List ℕ) (total : ℕ) (st : Decoder) (runs : List RunElement)
    → IsSound total st
    → decode_loop fuel buf total st ≡ some (ok runs)
    → All (IsInside total) runs × (total_count runs ≤ total) × (length runs ≤ max_runs)
unfolding decode_loop
decode_loop_sound zero buf total st runs h e = absurd (ground arith)
decode_loop_sound (suc fuel) buf total st runs h e = elim (header-cases (get_elem? buf st.cursor)) [
  | inl q ↦ absurd (ground (arith, q, e))
  | inr (inl q) ↦
      let same : st.runs ≡ runs = ground (arith, q, e) in
      rw (← same) (h.inside, omega (arith, h.counted, h.bounded), h.few)
  | inr (inr (b, q)) ↦ elim (Result-cases (read_run buf total (suc b) st)) [
    | inl (st', r) ↦
        let later : decode_loop fuel buf total st' ≡ some (ok runs) = ground (arith, q, e, r) in
        decode_loop_sound fuel buf total st' runs (read_run-IsSound buf total (suc b) st st' h r)
          later
    | inr (x, r) ↦ absurd (ground (arith, q, e, r))
  ]
]

-- Each run of a decoded list has clusters and lies inside the volume, unless it is sparse; together
-- the runs are no longer than the volume, and there are at most 100,000 of them.
pub decode_runlist_sound :
    (buf : List ℕ) (total : ℕ) (runs : List RunElement)
    → decode_runlist buf total ≡ some (ok runs)
    → All (IsInside total) runs × (total_count runs ≤ total) × (length runs ≤ max_runs)
unfolding decode_runlist
decode_runlist_sound buf total runs e =
    decode_loop_sound (suc (length buf)) buf total _ runs
      (record { inside = tt; counted = refl; bounded = omega arith; few = omega arith }) e
