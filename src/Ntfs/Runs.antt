-- ===== src/Ntfs/Runs.antt =====
-- crates/fs-ntfs/src/runs.rs: the decoder of run lists. The texts of the errors are constructors.
-- The current cluster number is an `i128`, here an integer; a `u64` is cut out of it as in the
-- source, by its lower 64 bits.
pub mod Bounds
pub mod Total
use undelete_master.Base.{
  ℕ, zero, suc, ◌+◌, ◌-◌, ◌*◌, ◌/◌, ◌%◌, ◌^◌, Bool, true, false, not, ◌&&◌, ◌||◌, Option, none,
  some, List, [], ◌∷◌, ◌++◌, length, get_elem?, ltb, leb, ◌==◌, if◌then◌else◌, Result, ok, err,
  guard, ok_or, ◌>>=◌, ◌>>◌, checked_add,
}
use undelete_master.Base.Words.{from_le_bytes}
use undelete_master.FsCommon.{get_range}

pub data ℤ : Type 0 where
  pos : ℕ → ℤ
  negsuc : ℕ → ℤ

infixl 65 ◌+ℤ◌
abbrev pub ◌+ℤ◌ : ℤ → ℤ → ℤ
pos m +ℤ pos n = pos (m + n)
pos m +ℤ negsuc n = if leb (suc n) m then pos (m - suc n) else negsuc (n - m)
negsuc m +ℤ pos n = if leb (suc m) n then pos (n - suc m) else negsuc (m - n)
negsuc m +ℤ negsuc n = negsuc (suc (m + n))

-- `v << k` on 64 bits, and `s >> k` on the `i64` with the bits `s`.
abbrev pub shl64 : ℕ → ℕ → ℕ
shl64 v k = v * 2 ^ k % 2 ^ 64

abbrev pub sar64 : ℕ → ℕ → ℤ
sar64 s k = if ltb s (2 ^ 63) then pos (s / 2 ^ k) else negsuc ((2 ^ 64 - 1 - s) / 2 ^ k)

-- The offset field of `off_size` bytes that read as `v`.
unfoldable pub delta_of : ℕ → ℕ → ℤ
delta_of v off_size = let shift = 64 - off_size * 8 in sar64 (shl64 v shift) shift

pub record RunElement : Type 0 where
  pub cluster_count : ℕ
  pub lcn : Option ℕ

pub data RunError : Type 0 where
  unterminated invalid_header length_out_of_bounds zero_length total_overflow longer_than_volume
        offset_out_of_bounds lcn_outside past_end too_many :
      RunError

abbrev pub max_runs : ℕ
max_runs = 100000

-- The variables of the loop.
pub record Decoder : Type 0 where
  pub cursor : ℕ  -- pos
  pub current_lcn : ℤ
  pub total_len : ℕ
  pub runs : List RunElement

-- `current_lcn < 0 || current_lcn as u64 >= total_clusters`, and then `current_lcn as u64`.
abbrev pub as_lcn : ℤ → ℕ → Option ℕ
as_lcn (pos n) total_clusters = if leb total_clusters (n % 2 ^ 64) then none else some (n % 2 ^ 64)
as_lcn (negsuc n) total_clusters = none

-- The run that starts at `current_lcn`.
unfoldable pub place : ℤ → ℕ → ℕ → Result RunError ℕ
place current_lcn cluster_count total_clusters = do
  lcn ← ok_or (as_lcn current_lcn total_clusters) RunError.lcn_outside
  end ← ok_or (checked_add lcn cluster_count) RunError.past_end
  guard (not (ltb total_clusters end)) RunError.past_end
  ok lcn

-- The offset field: none for a sparse run.
unfoldable pub read_offset : List ℕ → ℕ → ℕ → ℕ → ℕ → ℤ → Result RunError (ℕ × ℤ × Option ℕ)
unfolding place delta_of
read_offset buf total_clusters cluster_count off_size cursor current_lcn =
    if off_size == 0 then ok (cursor, current_lcn, none) else do
      off_bytes ← ok_or (get_range buf cursor off_size) RunError.offset_out_of_bounds
      let next = current_lcn +ℤ delta_of (from_le_bytes off_bytes) off_size
      lcn ← place next cluster_count total_clusters
      ok (cursor + off_size, next, some lcn)

-- The rest of a round, behind a header that is not zero.
unfoldable pub read_run : List ℕ → ℕ → ℕ → Decoder → Result RunError Decoder
unfolding read_offset
read_run buf total_clusters header st = do
  let len_size = header % 16
  let off_size = header / 16 % 16
  guard (not (len_size == 0 || ltb 8 len_size || ltb 8 off_size)) RunError.invalid_header
  len_bytes ← ok_or (get_range buf (st.cursor + 1) len_size) RunError.length_out_of_bounds
  let cluster_count = from_le_bytes len_bytes
  guard (not (cluster_count == 0)) RunError.zero_length
  total_len ← ok_or (checked_add st.total_len cluster_count) RunError.total_overflow
  guard (not (ltb total_clusters total_len)) RunError.longer_than_volume
  (cursor, current_lcn, lcn) ←
      read_offset buf total_clusters cluster_count off_size (st.cursor + 1 + len_size)
        st.current_lcn
  let runs = st.runs ++ record { cluster_count = cluster_count; lcn = lcn } ∷ []
  guard (not (ltb max_runs (length runs))) RunError.too_many
  ok (record { cursor = cursor; current_lcn = current_lcn; total_len = total_len; runs = runs })

-- The loop, none when the fuel is spent.
unfoldable pub decode_loop : ℕ → List ℕ → ℕ → Decoder → Option (Result RunError (List RunElement))
unfolding read_run
decode_loop zero buf total_clusters st = none
decode_loop (suc fuel) buf total_clusters st = elim (get_elem? buf st.cursor) [
  | none ↦ some (err RunError.unterminated)
  | some zero ↦ some (ok st.runs)
  | some (suc h) ↦ elim (read_run buf total_clusters (suc h) st) [
    | err e ↦ some (err e)
    | ok st' ↦ decode_loop fuel buf total_clusters st'
  ]
]

-- Every round moves forward in the buffer.
unfoldable pub decode_runlist : List ℕ → ℕ → Option (Result RunError (List RunElement))
unfolding decode_loop
decode_runlist buf total_clusters =
    decode_loop (suc (length buf)) buf total_clusters
      (record { cursor = 0; current_lcn = pos 0; total_len = 0; runs = [] })
