-- ===== src/Protocol/Payload/Cursor.antt =====
-- What the methods of the payload cursor return when the bytes they need are there.
use undelete_master.Base.{
  ℕ, ◌+◌, ◌≤◌, ◌≡◌, refl, List, [], ◌++◌, length, ok, arith, u64_max, length-append, take-append,
  drop-append, append_assoc,
}
use undelete_master.Base.Words.{to_le_bytes, from_le_bytes-to_le_bytes, IsU16, IsU32, IsU64}
use undelete_master.Protocol.Message.{Opcode}
use undelete_master.Protocol.Payload.Reader
use undelete_master.Protocol.Payload.Reader.{PayloadReader, take_bytes}

-- A cursor over `pre ++ rest` that has read `pre`.
abbrev pub cursor : Opcode → List ℕ → List ℕ → PayloadReader
cursor o pre rest = record { opcode = o; bytes = pre ++ rest; position = length pre }

cursor_step :
    (o : Opcode) (pre xs rest : List ℕ)
    → ◌≡◌ {A = PayloadReader}
        (record { opcode = o; bytes = pre ++ (xs ++ rest); position = length pre + length xs })
        (cursor o (pre ++ xs) rest)
cursor_step o pre xs rest = cc (append_assoc pre xs rest, length-append pre xs)

pub take_bytes_cursor :
    (o : Opcode) (pre xs rest : List ℕ) (n : ℕ)
    → length xs ≡ n
    → length pre + length xs + length rest ≤ u64_max
    → take_bytes (cursor o pre (xs ++ rest)) n ≡ ok (xs, cursor o (pre ++ xs) rest)
unfolding take_bytes
take_bytes_cursor o pre xs rest n e small = ground (
  arith,
  length-append pre (xs ++ rest),
  length-append xs rest,
  drop-append pre (xs ++ rest),
  take-append xs rest,
  cursor_step o pre xs rest,
)

-- A word of `w` bytes at the cursor.
module _ (o : Opcode) (pre rest : List ℕ) (v : ℕ) where
  pub u16_cursor :
      IsU16 v
      → length pre + 2 + length rest ≤ u64_max
      → Reader.u16 (cursor o pre (to_le_bytes 2 v ++ rest))
        ≡ ok (v, cursor o (pre ++ to_le_bytes 2 v) rest)
  unfolding Reader.u16
  u16_cursor h small =
      rw (
        take_bytes_cursor o pre (to_le_bytes 2 v) rest 2 refl small,
        from_le_bytes-to_le_bytes 2 v h,
      )

  pub u32_cursor :
      IsU32 v
      → length pre + 4 + length rest ≤ u64_max
      → Reader.u32 (cursor o pre (to_le_bytes 4 v ++ rest))
        ≡ ok (v, cursor o (pre ++ to_le_bytes 4 v) rest)
  unfolding Reader.u32
  u32_cursor h small =
      rw (
        take_bytes_cursor o pre (to_le_bytes 4 v) rest 4 refl small,
        from_le_bytes-to_le_bytes 4 v h,
      )

  pub u64_cursor :
      IsU64 v
      → length pre + 8 + length rest ≤ u64_max
      → Reader.u64 (cursor o pre (to_le_bytes 8 v ++ rest))
        ≡ ok (v, cursor o (pre ++ to_le_bytes 8 v) rest)
  unfolding Reader.u64
  u64_cursor h small =
      rw (
        take_bytes_cursor o pre (to_le_bytes 8 v) rest 8 refl small,
        from_le_bytes-to_le_bytes 8 v h,
      )

-- A cursor at the end finishes.
pub finish_cursor : (o : Opcode) (pre : List ℕ) → Reader.finish (cursor o pre []) ≡ ok tt
unfolding Reader.finish
finish_cursor o pre = ground (arith, length-append pre [])
