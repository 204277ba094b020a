-- ===== src/Ntfs/Runs/Total.antt =====
-- The decoder ends on every buffer.
use undelete_master.Base.{
  ℕ, zero, suc, ◌+◌, ◌≤◌, ◌<◌, ◌≡◌, arith, List, length, some, Result, ok, err, Result-cases, inl,
  inr, get_elem?,
}
use undelete_master.Ntfs.Runs.{RunElement, RunError, Decoder, read_run, decode_loop, decode_runlist}
use undelete_master.Ntfs.Runs.Bounds.{read_run_ok, header-cases}

decode_loop_total :
    (fuel : ℕ) (buf : List ℕ) (total : ℕ) (st : Decoder)
    → st.cursor ≤ length buf
    → length buf < fuel + st.cursor
    → (r : Result RunError (List RunElement)) × (decode_loop fuel buf total st ≡ some r)
unfolding decode_loop
decode_loop_total zero buf total st h f = absurd (omega arith)
decode_loop_total (suc fuel) buf total st h f = elim (header-cases (get_elem? buf st.cursor)) [
  | inl q ↦ (err RunError.unterminated, ground (arith, q))
  | inr (inl q) ↦ (ok st.runs, ground (arith, q))
  | inr (inr (b, q)) ↦ elim (Result-cases (read_run buf total (suc b) st)) [
    | inl (st', r) ↦
        let a = read_run_ok buf total (suc b) st st' r in
        let (result, done) =
          decode_loop_total fuel buf total st' a.in_buffer (omega (arith, a.forward)) in
        (result, ground (arith, q, r, done))
    | inr (x, r) ↦ (err x, ground (arith, q, r))
  ]
]

-- Every buffer gets a run list or an error: each round moves forward in the buffer, so that its
-- length is fuel enough.
pub decode_runlist_total :
    (buf : List ℕ) (total : ℕ)
    → (r : Result RunError (List RunElement)) × (decode_runlist buf total ≡ some r)
unfolding decode_runlist
decode_runlist_total buf total =
    decode_loop_total (suc (length buf)) buf total _ (omega arith) (omega arith)
